-- ===== src/Scheduler.antt =====
-- scheduler.go: the burst configuration, the scheduler of Poisson streams with its burst overlay, and
-- the counters that the reporter drains.
pub mod Burst
pub mod State
pub mod Spikes
pub mod Merge
pub mod Next
pub mod Invariant
pub mod Order
pub mod Steps
pub mod Emission
pub mod Termination
pub mod Counters
pub mod Start
pub mod Progress
