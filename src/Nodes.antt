-- ===== src/Nodes.antt =====
-- Dynamic nodes: the work that an orchestration program asks for while its Run is running, the calls
-- of `ObserverRepository` in loom_v2/observer/repository.py that accept, dispatch, reassign and end
-- them.
pub mod Defs
pub mod Accept
pub mod Dispatch
pub mod Results
pub mod Complete
pub mod Rebuild
pub mod Reading
pub mod Stable
pub mod Live
pub mod Closing
pub mod Orderly
pub mod At
pub mod Fenced
pub mod Order
pub mod Ordered
pub mod History
pub mod Rebuilt
pub mod Traced
pub mod RoundTrip
pub mod Completion
mod Tests
