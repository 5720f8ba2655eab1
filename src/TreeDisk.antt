-- ===== src/TreeDisk.antt =====
-- library/file: an inode store laid over one inode of another inode store, as a tree of blocks for
-- each file and a list of free blocks.
pub mod Store
pub mod RamDisk
pub mod Device
pub mod Layout
pub mod Alloc
pub mod Access
pub mod Create
pub mod Files
pub mod Tree
