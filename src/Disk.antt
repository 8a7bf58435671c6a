-- ===== src/Disk.antt =====
-- src/fs/disk.rs: errors, the CRC check and the on-disk records. `crc32` is the checksum of the
-- crate crc32fast, a parameter throughout.
pub mod Name
pub mod Superblock
pub mod Inode
pub mod Snapshot
pub mod Result
mod Runs
