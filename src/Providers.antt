-- ===== src/Providers.antt =====
-- src/providers: what the bridge knows of its providers' health, and how it routes a turn.
pub mod Health
pub mod Policy
pub mod Registry
pub mod Router
