-- ===== src/Ext.antt =====
-- crates/fs-ext/src: ext2, ext3 and ext4.
pub mod Superblock
pub mod Inode
pub mod Dir
pub mod Blocks
pub mod Journal
pub mod Volume
pub mod Walk
