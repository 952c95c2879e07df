-- ===== src/Scheduler.antt =====
-- scheduler/: the dependency graph of the work packages, and what each package waits for.
pub mod Dag
pub mod Classifier
