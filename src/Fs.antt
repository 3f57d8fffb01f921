-- ===== src/Fs.antt =====
-- source/dev/block.c and source/fs: block devices, and the files on them.
pub mod Block
pub mod Char
pub mod Bytes
pub mod Overlay
pub mod Fat32
pub mod Inode
mod Tests
