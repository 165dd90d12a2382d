-- ===== src/Object.antt =====
-- src/cxoObject.c: objects and collections of the database.
mod State
mod Values
mod Methods
mod Types
pub mod Walk
pub mod Listing
pub mod Ends
pub mod Supported
pub mod Made
pub mod Extend
mod Tests
unfoldable pub use State.*
unfoldable pub use Values.*
unfoldable pub use Methods.*
unfoldable pub use Types.*
