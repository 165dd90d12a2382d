-- ===== src/Connection.antt =====
-- src/cxoConnection.c and src/cxoSessionPool.c: connections, and the pools that they come from.
mod State
mod Methods
mod Credentials
mod Params
mod Create
mod Pool
pub mod Operations
pub mod Closed
pub mod ConnectString
pub mod Stays
pub mod Lifecycle
mod Tests
unfoldable pub use State.*
unfoldable pub use Methods.*
unfoldable pub use Credentials.*
unfoldable pub use Params.*
unfoldable pub use Create.*
unfoldable pub use Pool.*
