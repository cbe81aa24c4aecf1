-- ===== src/Ipc.antt =====
-- src/ipc++: the kdb+ IPC library.
pub mod Types
pub mod WriteBuf
pub mod Object
pub mod Symbols
pub mod Time
pub mod Write
pub mod ReadBuf
pub mod Read
pub mod Payload
pub mod Journal
