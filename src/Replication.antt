-- ===== src/Replication.antt =====
-- lib/replication.py: the replication planner.
pub mod Names
pub mod Model
pub mod Dataset
pub mod Plan
mod Tests
