-- ===== src/RestorePoints.antt =====
-- lib/restore_points.py: the restore points of a backup pool.
pub mod Model
pub mod Parse
pub mod Cluster
pub mod Resolve
pub mod Complete
mod Tests
