-- ===== src/Packages.antt =====
-- The capability packages that Runs made (loom_v2/observer/repository.py): who sees them, how they are
-- found, and how one is promoted for the workspace to reuse.
pub mod Registry
pub mod Promotion
pub mod Visibility
pub mod Retry
mod Tests
