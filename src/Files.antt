-- ===== src/Files.antt =====
-- filesys/inode.c, filesys/file.c and filesys/free-map.c, over the block device of devices/block.c.
pub mod Disk
pub mod Sectors
pub mod Reads
pub mod Writes
pub mod RoundTrips
pub mod State
pub mod Handles
pub mod FreeMap
pub mod Totals
pub mod Allocs
pub mod Releases
pub mod Creates
pub mod Fresh
pub mod Opens
pub mod Denials
pub mod Shares
pub mod Closes
pub mod Calls
pub mod Openers
pub mod Elsewhere
pub mod Maps
pub mod Histories
mod Tests
