-- ===== src/Run.antt =====
-- main of main.go while a run lasts: the sender, the queue, the workers and the reporter.
pub mod State
pub mod Step
pub mod Pace
pub mod Workers
pub mod Account
pub mod Jobs
pub mod Exit
pub mod Kept
pub mod Filled
pub mod Finish
pub mod Ledger
pub mod Shown
pub mod Refine
pub mod Drain
pub mod Start
pub mod Started
pub mod Progress
pub mod Session
pub mod Report
pub mod Reported
