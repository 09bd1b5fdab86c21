-- ===== src/Slaves.antt =====
-- What is known of slaves from the agents that were reported (loom_v2/contracts/refs.py).
pub mod Selection
pub mod Preferred
mod Tests
