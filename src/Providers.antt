-- ===== src/Providers.antt =====
-- providers/: the code agents that RailWarden starts.
pub mod Health
pub mod Adapters
