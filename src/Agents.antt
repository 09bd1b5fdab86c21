-- ===== src/Agents.antt =====
-- Drivers and slaves: the leases of `ObserverRepository` in loom_v2/observer/repository.py, as it
-- keeps them without a database, and loom_v2/contracts/agents.py.
pub mod Defs
pub mod Registration
pub mod Leases
pub mod Ownership
pub mod Fencing
pub mod Threads
mod Tests
