-- ===== src/Reclaim.antt =====
-- lib/reclaim.py: what a drive frees, and the destroy of snapshots by exact name.
pub mod Measure
pub mod Destroy
mod Tests
