-- ===== src/Filesys.antt =====
-- The tree of inodes of src/filesys/inode.c, and the calls of src/filesys/filesys.c on it.
pub mod Inode
pub mod Mount
pub mod Chain
pub mod Parts
pub mod Found
pub mod Regular
pub mod Open
pub mod Opening
pub mod Calls
pub mod Session
mod Tests
