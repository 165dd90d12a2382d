-- ===== src/Lob.antt =====
-- src/cxoLob.c: the methods of LOBs, on the LOBs of ODPI-C.
mod Methods
pub mod Reading
mod Tests
unfoldable pub use Methods.*
