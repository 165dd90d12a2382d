-- ===== src/Json.antt =====
-- JSON values: src/cxoJsonBuffer.c on the way to the database, cxoTransform_toPythonFromJson of
-- src/cxoTransform.c on the way back, and the JSON cases of the two conversions.
mod Populate
mod Read
pub mod Back
mod Scalars
pub mod Roundtrip
pub mod Texts
pub mod Buffers
mod Tests
unfoldable pub use Populate.*
unfoldable pub use Read.*
