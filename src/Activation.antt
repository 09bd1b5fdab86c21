-- ===== src/Activation.antt =====
-- Capability activations: `set_capability_desired` and `record_capability_health` of
-- `ObserverRepository` in loom_v2/observer/repository.py, on the record that a package belongs to.
pub mod Calls
pub mod Revisions
pub mod Health
pub mod Reports
mod Tests
