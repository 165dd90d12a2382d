-- ===== src/Transform.antt =====
-- src/cxoTransform.c and src/cxoBuffer.c: how a Python value is matched with a transform, turned
-- into what ODPI-C stores, and back.
mod Host
mod Selection
mod Values
mod FromPython
mod ToPython
pub mod Uniform
pub mod Accepting
pub mod Roundtrip
pub mod Members
pub mod Tests
unfoldable pub use Host.*
unfoldable pub use Values.*
unfoldable pub use FromPython.*
unfoldable pub use ToPython.*
unfoldable pub use Selection.*
