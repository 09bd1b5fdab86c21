-- ===== src/Turns.antt =====
-- The turns of a Driver (loom_v2/driver/coordinator.py): messages that are submitted to it wait in the
-- queue of their conversation, and their turns run one at a time.
pub mod Coordinator
pub mod Exclusion
pub mod Within
pub mod Lines
pub mod Order
mod Tests
