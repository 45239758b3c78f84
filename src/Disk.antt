-- ===== src/Disk.antt =====
-- The disk cache (src/disk_cache).
pub mod Files
pub mod World
pub mod Registry
pub mod Paths
pub mod Miss
pub mod Hit
pub mod Store
pub mod Statistics
pub mod Interleaving
pub mod Overlap
pub mod Samples
mod Tests
