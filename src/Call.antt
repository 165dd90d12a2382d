-- ===== src/Call.antt =====
-- callproc and callfunc (src/cxoCursor.c): the size and the text of the PL/SQL block that calls a
-- stored procedure or function. Numbers are exact: the sizes that the C code keeps in an `int` stay
-- below 2^31 for the argument counts that it accepts.
mod Statement
pub mod Text
pub mod Fits
pub mod Overflow
mod Tests
unfoldable pub use Statement.*
