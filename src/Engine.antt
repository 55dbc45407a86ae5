-- ===== src/Engine.antt =====
-- lib/engine.py: the run that brings a drive to a backup point, over the commands it gives and what
-- it is answered.
pub mod Model
pub mod Sends
pub mod Drive
pub mod Rounds
pub mod Verdicts
pub mod Points
pub mod Whole
pub mod World
mod Tests
