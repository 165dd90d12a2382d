-- ===== src/Cursor.antt =====
-- src/cxoCursor.c: the cursor object. Cursor/State.antt has its fields and what it calls.
mod State
unfoldable pub use State.*
mod Define
mod Fetching
mod Stream
unfoldable pub use Define.*
unfoldable pub use Fetching.*
unfoldable pub use Stream.*
mod Rows
mod Step
mod Delivery
mod Bind
unfoldable pub use Bind.*
mod Execute
unfoldable pub use Execute.*
mod Description
unfoldable pub use Description.*
mod Calls
unfoldable pub use Calls.*
mod Sizes
unfoldable pub use Sizes.*
mod Keeps
mod Preparing
mod InputSizes
mod JsonColumn
mod Executed
mod Reading
mod Returned
mod Fills
mod Slots
mod Performed
mod Deferred
mod Prepare
mod Methods
mod Single
mod RefCursor
mod Tests
mod BindTests
mod CallTests
