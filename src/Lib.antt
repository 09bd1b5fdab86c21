-- ===== src/Lib.antt =====
-- Loom v2 (loom_v2/): a single-user workspace runtime. An Observer keeps Runs, messages and leases;
-- Drivers claim messages and run coding agents; slaves execute what a Run commits to. The Observer's
-- `ObserverRepository` (loom_v2/observer/repository.py) is the authority over all state, and most of
-- what is here is about it.
--
-- The parts, and how they interact:
--   - message receipts (Receipts): a user's message waits for a Driver, which claims it with a token,
--     works on it, and ends it; a recovery or a new registration takes unfinished receipts back;
--   - agents (Agents): a Driver or slave registers, gets a lease under an epoch, and shows it with
--     every heartbeat; a registration fences off its rivals, suspends the threads of the workspace and
--     takes back the receipts in flight, with the function that Receipts has for that;
--   - Runs (Runs): a Run is opened on a draft, refined by patches, committed, started under an
--     execution epoch, reported on by a slave, decided on, and closed;
--   - dynamic nodes (Nodes): while an orchestrated Run is running, its program asks for nodes, which are
--     accepted, dispatched to slaves as attempts, reassigned when a worker is lost, and reported on;
--     the orchestration completes with the output of one of them;
--   - activations (Activation): a package that a Run made is wanted, or no longer wanted, on a slave,
--     under revisions that only rise.
--   - packages (Packages): a Run makes packages, which it finds again by reference; once it is over, one can
--     be promoted for the Runs of its workspace to reuse;
--   - slaves (Slaves): of the agents that are reported, which entry stands for a slave;
--   - the content store (Content): programs, inputs and outputs are kept in a bucket under the digest of
--     their bytes, and Runs and nodes name them by that digest;
--   - the turns of a Driver (Turns): the messages that a Driver claimed wait in the queue of their
--     conversation, and their turns run one at a time.
--
-- Files, and the code they are about:
--   Shared, Shared/*      Boolean tests, equality of keys, Python's dict, calls that may raise and
--                         keep what they wrote (Exec), JSON values
--   Receipts/Defs         MessageReceipt (loom_v2/contracts/messages.py), the repository's fields
--   Receipts/Store        _load_, _persist_ and _record_message_receipt_event, the table
--   Receipts/Rules        the guards and updates of the calls, as pure decisions
--   Receipts/Calls        create_or_get_, queue_, retry_, interrupt_, claim_, update_, release_ and
--                         list_dispatchable_message_receipts, recover_message_receipts_for_driver
--   Receipts/View         the receipts that a client sees: the table if there is one, or the cache
--   Receipts/Handling, Decisions, Recovery, Recovered, Creation, Dispatch, Follows, History, Fenced,
--   Validity, Claims      the proofs, by what they prove
--   Runs/Defs             RunRecord, ClosureVersion, attempts, outcome, events
--   Runs/Transition       RUN_TRANSITIONS and _transition
--   Runs/Actions          the steps the calls are made of
--   Runs/Calls            open_run, append_message, begin_refinement, cancel_run, fail_run,
--                         record_agent_signal
--   Runs/Execution        inspect_readiness, commit, start, close_run, resolve_run
--   Runs/Patches          apply_patch
--   Runs/Reports, Results record_result: the fence and the checks of a report; what it makes of the Run
--   Runs/Recovery         recover_stale_runs
--   Runs/Keeping, Logged, Stable, Verdict, Reading, Fencing, History
--                         the proofs: what each call keeps, from what its steps keep
--   Runs/Commands         the calls on a Run as data, and histories of them
--   Nodes/Defs            what the calls on nodes read; the services they use
--   Nodes/Accept          accept_node_intent, _collect_content_ref_digests
--   Nodes/Dispatch        dispatch_dynamic_node, reassign_dynamic_node
--   Nodes/Results         record_dynamic_node_result, fail_dynamic_node
--   Nodes/Complete        complete_orchestration
--   Nodes/Rebuild         _dynamic_nodes_from_events
--   Nodes/Reading, Stable, At, Fenced, Live, Closing, Orderly, Order, Ordered, History, Rebuilt, Traced,
--   RoundTrip, Completion the proofs, by what they prove
--   Agents/Defs           the models of loom_v2/contracts/agents.py and the entries of `agents`
--   Agents/Registration   register_agent
--   Agents/Leases         list_agents, _agent_record, heartbeat_agent, release_agent
--   Agents/Threads        bind_thread, get_thread, set_turn_state
--   Agents/Ownership, Fencing
--                         the proofs
--   Activation/Calls      set_capability_desired
--   Activation/Health     record_capability_health
--   Activation/Revisions, Reports
--                         the proofs
--   Packages/Registry     _package_visible_to_run, _find_package, get_capability_package
--   Packages/Promotion    promote_capability_package, _reusable_matches_candidate
--   Packages/Visibility, Retry
--                         the proofs
--   Slaves/Selection      select_slave_agents (loom_v2/contracts/refs.py)
--   Slaves/Preferred      the proof
--   Content/Store         ContentStore (loom_v2/content_store.py): put, get, exists, stat
--   Content/Honesty, RoundTrip
--                         the proofs
--   Turns/Coordinator     DriverTurnCoordinator (loom_v2/driver/coordinator.py), as steps
--   Turns/Exclusion, Within, Lines, Order
--                         the proofs
--   Receipts/Tests, Runs/Samples, Runs/Tests, Nodes/Tests, Agents/Tests, Activation/Tests, Content/Tests,
--   Turns/Tests, Packages/Tests, Slaves/Tests
--                         the theorems at concrete inputs
--
-- State is passed explicitly: a call maps the state to the state and what it returned or raised, and
-- what it wrote before an exception stays written. The clock and fresh ids are arguments of the calls;
-- times are numbers of microseconds. A call is one atomic step: what other coroutines do while a method
-- awaits (the loads and validator runs of record_result and record_dynamic_node_result between their
-- fence and their writes, refresh_slaves in dispatch_dynamic_node) is not modelled, except for turns
-- and for the bucket. All loops are over finite lists and recurse on them, so there is
-- no fuel and no bound.
--
-- Parameters: the database table of receipts is an interface with the laws of a keyed table, which
-- Receipts/Tests/Table fills with an association list. For Runs, the digest of a snapshot, its
-- readiness, the edit that the operations of a patch make, and the runs of schemas and validators
-- (Services, Validation) are arguments; for nodes, the packages, slaves, contents and validators
-- (NodeServices), and how Python lowers a text and writes a number;
-- for agents, the hash of a lease id is; for activations, the package, and the record that it belongs to;
-- for packages, the digest of their contents and the check of their exports;
-- for the content store, the bucket with its conditional write, SHA-256 and Python's methods on texts;
-- for turns, what claim_message answers. The coroutines of a Driver are steps from one `await` to the
-- next, and the theorems are about every sequence of them.
--
-- Not modelled: the RunRow and RuntimeAgentRow tables (Runs and agents are those kept in memory);
-- the fields of RunRecord for capability packages and activations in Runs (Packages and Activation have
-- records with them); abandon_ and list_capability_packages; provenance entries and the evidence
-- that is stored with an attempt; the operations of a patch one by one; put_typed_content and the making of
-- the bucket; the shutdown of the coordinator and the results that wait for it; the rest of the Driver and
-- the slave processes; and the HTTP, file, container and web layers, which are input and output.
pub mod Shared
pub mod Receipts
pub mod Runs
pub mod Agents
pub mod Activation
pub mod Nodes
pub mod Content
pub mod Turns
pub mod Packages
pub mod Slaves
