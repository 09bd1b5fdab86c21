-- ===== src/Receipts.antt =====
-- loom_v2/observer/repository.py, the message receipts of `ObserverRepository`, and the record of
-- loom_v2/contracts/messages.py. Each call takes the time at which it reads the clock, in
-- microseconds. The table of the database is a parameter; with `sessions = none` the repository
-- keeps its receipts in memory alone.
pub mod Defs
pub mod Store
pub mod View
pub mod Rules
pub mod Calls
pub mod Handling
pub mod Decisions
pub mod Recovery
pub mod Creation
pub mod Follows
pub mod Dispatch
pub mod History
pub mod Validity
pub mod Recovered
pub mod Fenced
pub mod Claims
pub mod Tests
unfoldable pub use Defs.*
