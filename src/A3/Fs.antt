-- ===== src/A3/Fs.antt =====
-- The file system of assignment 3.
pub mod Block
pub mod Cache
pub mod Layout
pub mod BlockMap
pub mod InodeIo
pub mod FreeMap
pub mod Reserve
pub mod Deallocate
pub mod Inode
pub mod DirEntry
pub mod State
pub mod Directory
pub mod File
pub mod FileSystem
pub mod Io
pub mod Util
pub mod Copy
pub mod Survey
pub mod Recover
pub mod Mount
