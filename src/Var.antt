-- ===== src/Var.antt =====
-- src/cxoVar.c: variables, which hold the values of a bind or of a column. Var/State.antt has their
-- fields and the calls of ODPI-C.
mod State
mod Values
unfoldable pub use State.*
unfoldable pub use Values.*
mod Create
unfoldable pub use Create.*
pub mod Copy
pub mod Grow
pub mod Bounds
pub mod Made
mod Tests
