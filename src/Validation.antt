-- ===== src/Validation.antt =====
-- validation/: the gates that a worker's result passes before it is merged.
pub mod Paths
pub mod Runner
pub mod Shell
pub mod Commands
pub mod Freeze
pub mod Review
pub mod WorkerResult
pub mod Package
pub mod Contract
