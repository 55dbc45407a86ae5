-- ===== src/Retention.antt =====
-- lib/retention.py: which snapshots on a backup drive may go.
pub mod Points
pub mod Prune
pub mod Space
mod Tests
