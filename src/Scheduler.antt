-- ===== src/Scheduler.antt =====
-- src/smartplanner/scheduler.py, one module for each part of the planner.
pub mod Mask
pub mod Setup
pub mod Planner
pub mod Search
pub mod Allocate
pub mod Preview
pub mod Sound
pub mod Account
pub mod Samples
mod Tests
