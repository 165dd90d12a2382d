-- ===== src/Types.antt =====
-- The type tables: cxoTransformNum and the structures of src/cxoModule.h, cxoAllTransforms and its
-- readers in src/cxoTransform.c, the database types of src/cxoDbType.c and src/cxoModule.c, and the
-- DB API types that src/cxoModule.c associates with them.
mod Numbers
mod Tables
pub mod Agreement
mod Tests
unfoldable pub use Numbers.*
unfoldable pub use Tables.*
