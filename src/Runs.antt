-- ===== src/Runs.antt =====
-- The lifecycle of a Run: RunRecord, RUN_TRANSITIONS and the calls of `ObserverRepository` in
-- loom_v2/observer/repository.py that move a Run.
pub mod Defs
pub mod Transition
pub mod Actions
pub mod Calls
pub mod Execution
pub mod Patches
pub mod Reports
pub mod Results
pub mod Recovery
pub mod Keeping
pub mod Reading
pub mod Logged
pub mod Stable
pub mod Verdict
pub mod Commands
pub mod History
pub mod Fencing
pub mod Samples
mod Tests
