-- ===== src/Fat16.antt =====
-- src/fs/fat/fat16.c: the driver for FAT16 disks. Its parts are the structures on the disk
-- (`Layout`), the names of the items (`Names`), the allocation table and the reading of clusters
-- (`Table`), directories (`Directory`) and the calls of the driver (`Files`).
-- A pointer to bytes is the list of the bytes from it on. Sectors have 512 bytes; positions are
-- not negative and below 2^31. Allocations succeed, and messages are left out.
pub mod Layout
pub mod Names
pub mod Table
pub mod Directory
pub mod Files
pub mod Driver
mod SmallDisk
mod Examples
