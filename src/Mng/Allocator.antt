-- ===== src/Mng/Allocator.antt =====
-- The allocator of one disk: include/stxxl/bits/mng/disk_allocator.h, lib/mng/disk_allocator.cpp.
pub mod FreeMap
pub mod Region
pub mod Joining
pub mod Adding
pub mod Taking
pub mod Disk
pub mod Growth
pub mod Sizes
pub mod Regions
pub mod Halves
pub mod Blocks
mod Tests
