-- ===== src/Tests.antt =====
-- Tests on concrete inputs, and applications of theorems to them.
mod Arithmetic
mod Replay
mod Heap
mod Scheduler
mod Windows
mod Parity
mod Config
mod Run
mod Telemetry
mod Percentiles
mod ParityRun
mod Servers
mod Start
