-- ===== src/Fat32.antt =====
-- The file system of src/kernel/fat32.c, over a block device.
pub mod Disk
pub mod Boot
pub mod Dirent
pub mod Table
pub mod Cluster
pub mod Directory
pub mod Listing
pub mod File
