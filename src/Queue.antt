-- ===== src/Queue.antt =====
-- src/cxoQueue.c, and cxoMsgProps_new of src/cxoMsgProps.c: enqueuing and dequeuing of messages.
mod State
mod Deq
mod Enq
pub mod Handles
pub mod Owned
pub mod Transfer
mod Tests
unfoldable pub use State.*
unfoldable pub use Deq.*
unfoldable pub use Enq.*
