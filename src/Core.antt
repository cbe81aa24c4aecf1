-- ===== src/Core.antt =====
-- src/core: the containers and wrappers that the other libraries share.
pub mod FreeList
pub mod Extents
pub mod CircularBuffer
pub mod CircularInit
pub mod ReadFully
pub mod FileDesc
pub mod Mapping
pub mod Mem
