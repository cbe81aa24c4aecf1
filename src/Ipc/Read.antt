-- ===== src/Ipc/Read.antt =====
-- The reader of ipc++/src/KdbType.C: objects and messages that arrive in pieces.
pub mod Obj
pub mod New
pub mod Methods
pub mod Part
pub mod Cursor
pub mod Skip
pub mod Visible
pub mod Texts
pub mod Elems
pub mod Rows
pub mod Functions
pub mod Columns
pub mod Made
pub mod Headers
pub mod Starts
pub mod Total
pub mod Elements
pub mod Members
pub mod Resume
pub mod Inflate
pub mod Message
pub mod Receive
pub mod Header
pub mod RoundTrip
pub mod Expand
pub mod Pieces
pub mod Unknown
mod Tests
