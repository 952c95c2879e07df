-- ===== src/Examples.antt =====
-- The theorems at concrete inputs, and test data.
mod Scheduler
mod Tasks
mod Repository
mod State
mod Agents
mod Controller
mod Planned
