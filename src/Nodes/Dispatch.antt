-- ===== src/Nodes/Dispatch.antt =====
-- `dispatch_dynamic_node` and `reassign_dynamic_node`: the attempt that runs a node, and the one that
-- takes its place when its worker is lost.
use personal_computing_space.Shared.{
  ℕ, String, Bool, true, false, not, ◌&&◌, ◌||◌, Option, none, some, List, [], ◌∷◌, ◌++◌, ◌==◌,
  if◌then◌else◌, string_eq, nat_eq, option_eq, is_some,
}
use personal_computing_space.Shared.Lists.{first, keep}
use personal_computing_space.Shared.Json.{Json, Fields}
use personal_computing_space.Shared.Exec.{
  Exec, execution_not_running, dynamic_node_not_found, dynamic_node_not_dispatchable,
  node_target_unavailable, node_target_mismatch, node_capability_export_not_found, stale_attempt,
  stale_execution_id, stale_execution_epoch, reassignment_not_allowed, node_permission_denied,
  node_input_unavailable, worker_lease_not_lost, worker_lease_active, pure, ◌>>=◌, ◌>>◌,
}
use personal_computing_space.Runs.Defs.{
  ResourceRef, NodeState, DynamicNode, Attempt, AttemptState, RunRecord, Event, node_accepted,
  node_dispatched, node_reassigned, ClosureContract,
}
use personal_computing_space.Runs.Actions.{get_record, set_record, log, assert, need}
use personal_computing_space.Runs.Recovery.{executed}
use personal_computing_space.Runs.Reports.{find_attempt, is_open}
use personal_computing_space.Runs.Execution.{check_attempt_budget}
use personal_computing_space.Nodes.Defs.{
  NodeServices, WorkerAgent, Lease, find_node, set_node, is_accepted, is_dispatched, text_of,
  running_execution, is_attempt_of, agent_at,
}
use personal_computing_space.Nodes.Accept.{permitted, is_local}

-- The "selected_target" or else the "target" of an event that assigns the node to a slave. The event of
-- a reassignment has neither: it names the slave as "to_target".
abbrev pub named_target : String → Event → Option (Option String)
named_target id (node_accepted execution epoch node intent target now) =
    if node == id then some (some target) else none
named_target id
      (node_reassigned execution epoch node lost attempt target instance_id agent reason lease
        now) =
    if node == id then some none else none
named_target id _ = none

-- `reversed(record.events)` finds the last such event
abbrev pub last_assigned : String → List Event → Option (Option String)
last_assigned id [] = none
last_assigned id (e ∷ events) =
    let later = last_assigned id events in
    elim later [ none ↦ named_target id e | some target ↦ some target ]

abbrev pub last_target : String → List Event → Option String
last_target id events = elim (last_assigned id events) [ none ↦ none | some target ↦ target ]

abbrev pub agrees_with : Option String → String → Bool
agrees_with none target = true
agrees_with (some t) target = t == target

-- the attempt that a dispatch makes, and the one that a reassignment puts in the place of `replaces`
abbrev pub attempt_of : String → String → String → WorkerAgent → ℕ → Option String → Attempt
attempt_of id node_id target agent epoch replaces = record {
  attempt_id = id;
  target = target;
  state = AttemptState.created;
  execution_epoch = epoch;
  terminal_error = none;
  node_id = some node_id;
  target_instance_id = some agent.instance_id;
  target_agent_epoch = some agent.epoch;
  replaces_attempt_id = replaces;
  replaced_by_attempt_id = none;
  result_ref = none;
}

-- record.attempts.append(attempt); node.state = "dispatched"
abbrev pub dispatched_to : String → Attempt → RunRecord → RunRecord
dispatched_to node_id attempt r = record r {
  attempts = r.attempts ++ attempt ∷ [];
  dynamic_nodes = set_node node_id NodeState.dispatched r.dynamic_nodes;
}

-- the checks of a slave for a node, and the lease of its agent
unfoldable pub dispatch_to : NodeServices → DynamicNode → String → Exec RunRecord WorkerAgent
dispatch_to ns node target = do
  r ← get_record
  assert (agrees_with (last_target node.node_id r.events) target) node_target_mismatch
  found ← need (ns.find_package (some r.run_id) node.package_ref) node_target_unavailable
  assert (ns.supports target found) node_target_unavailable
  assert (is_some (ns.export_for found node.capability_descriptor_ref))
      node_capability_export_not_found
  agent ← agent_at ns target
  check_attempt_budget
  pure agent

-- the two writes of a dispatch
abbrev pub dispatched_as :
    ℕ → String → String → String → String → WorkerAgent → RunRecord → Exec RunRecord Attempt
dispatched_as now execution id node_id target agent r = do
  set_record (dispatched_to node_id (attempt_of id node_id target agent r.execution_epoch none))
  log (
      node_dispatched execution r.execution_epoch node_id id target agent.instance_id agent.epoch
        now)
  pure (attempt_of id node_id target agent r.execution_epoch none)

unfoldable pub dispatch_dynamic_node :
    NodeServices → ℕ → String → String → String → Exec RunRecord Attempt
dispatch_dynamic_node ns now id node_id target = do
  r ← get_record
  execution ← need (running_execution r) execution_not_running
  node ← need (find_node node_id r.dynamic_nodes) dynamic_node_not_found
  assert (is_accepted node.state) dynamic_node_not_dispatchable
  assert (not (target == "")) node_target_unavailable
  agent ← dispatch_to ns node (ns.canonical_target target)
  dispatched_as now execution id node_id (ns.canonical_target target) agent r

-- the attempts of the node that may still report
abbrev pub live_attempts : String → List Attempt → List Attempt
live_attempts node_id = keep λ a. (a.node_id == some node_id) && is_open a.state

-- active_attempts == [old_attempt]; the ids stand for the attempts, since both are of the same record
abbrev pub only_attempt : String → List Attempt → Bool
only_attempt id (a ∷ []) = a.attempt_id == id
only_attempt id _ = false

abbrev pub is_lost : String → Bool
is_lost s = (s == "expired") || (s == "released")

abbrev pub may_reassign : Option ClosureContract → Bool
may_reassign none = false
may_reassign (some c) = c.allow_reassignment

unfoldable pub check_available : NodeServices → List ResourceRef → Exec RunRecord (Unit {0})
check_available ns [] = pure tt
check_available ns (ref ∷ refs) =
    assert (is_some (ns.load_json ref)) node_input_unavailable >> check_available ns refs

abbrev number_of : Option ℕ → ℕ
number_of none = 0
number_of (some n) = n

-- int(source_agent.get("epoch") or 0) == int(old_attempt.get("target_agent_epoch") or 0)
unfoldable pub lost_lease : NodeServices → Attempt → Exec RunRecord Lease
lost_lease ns old = do
  lease ← need (ns.lease_of old.target (text_of old.target_instance_id)) worker_lease_not_lost
  assert (lease.lease_epoch == number_of old.target_agent_epoch) worker_lease_not_lost
  assert (is_lost lease.lease_state) worker_lease_active
  pure lease

-- the attempt is lost, and another one runs the node
abbrev lost_as : String → Json → Attempt → Attempt
lost_as replacement reason a = record a {
  state = AttemptState.lost;
  terminal_error = some reason;
  replaced_by_attempt_id = some replacement;
}

abbrev pub mark_lost : String → String → Json → List Attempt → List Attempt
mark_lost id replacement reason [] = []
mark_lost id replacement reason (a ∷ attempts) =
    if a.attempt_id == id
    then lost_as replacement reason a ∷ attempts
    else a ∷ mark_lost id replacement reason attempts

abbrev pub worker_lost : String → Json
worker_lost lease_state = Json.obj (
    Fields.field "code" (Json.str "worker_lost")
      (Fields.field "lease_state" (Json.str lease_state) Fields.end))

abbrev pub reassigned_to : String → String → String → Attempt → RunRecord → RunRecord
reassigned_to node_id lost lease_state attempt r = record r {
  attempts = mark_lost lost attempt.attempt_id (worker_lost lease_state) r.attempts ++ attempt ∷ [];
  dynamic_nodes = set_node node_id NodeState.dispatched r.dynamic_nodes;
}

-- the checks of a reassignment of `node`, whose attempt `old` is; what they find is the lease of the
-- lost worker and the agent of the new one
unfoldable pub reassignment :
    NodeServices → DynamicNode → Attempt → String → Exec RunRecord (Lease × WorkerAgent)
reassignment ns node old target = do
  r ← get_record
  assert (may_reassign r.closure_contract) reassignment_not_allowed
  found ← need (ns.find_package (some r.run_id) node.package_ref) node_target_unavailable
  exported ←
      need (ns.export_for found node.capability_descriptor_ref) node_capability_export_not_found
  assert (permitted exported.permissions r.closure_contract) node_permission_denied
  check_available ns node.input_refs
  check_attempt_budget
  lease ← lost_lease ns old
  assert (not (target == "") && not (target == old.target) && ns.supports target found)
      node_target_unavailable
  assert (is_local ns (executed r).locality target) node_target_unavailable
  agent ← agent_at ns target
  pure (lease, agent)

abbrev pub reassigned_as :
    ℕ
    → String
    → String
    → String
    → String
    → String
    → String
    → Lease × WorkerAgent
    → RunRecord
    → Exec RunRecord Attempt
reassigned_as now execution id node_id lost target reason found r = do
  set_record (
      reassigned_to node_id lost (found.0).lease_state
        (attempt_of id node_id target found.1 r.execution_epoch (some lost)))
  log (
      node_reassigned execution r.execution_epoch node_id lost id target (found.1).instance_id
        (found.1).epoch reason (found.0).lease_state now)
  pure (attempt_of id node_id target found.1 r.execution_epoch (some lost))

-- the attempt that took the place of `old`, or else a new one
abbrev pub replaced_by :
    NodeServices
    → ℕ
    → String
    → String
    → String
    → String
    → String
    → DynamicNode
    → Attempt
    → RunRecord
    → Option String
    → Exec RunRecord Attempt
replaced_by ns now execution id node_id target reason node old r (some replacement) =
    need (find_attempt replacement r.attempts) stale_attempt
replaced_by ns now execution id node_id target reason node old r none = do
  assert (is_dispatched node.state) dynamic_node_not_dispatchable
  assert (only_attempt old.attempt_id (live_attempts node_id r.attempts)) stale_attempt
  assert (old.execution_epoch == r.execution_epoch) stale_attempt
  found ← reassignment ns node old (ns.canonical_target target)
  reassigned_as now execution id node_id old.attempt_id (ns.canonical_target target) reason found r

unfoldable pub reassign_dynamic_node :
    NodeServices
    → ℕ
    → String
    → String
    → String
    → String
    → ℕ
    → String
    → String
    → Exec RunRecord Attempt
reassign_dynamic_node ns now id node_id lost expected_id expected_epoch target reason = do
  r ← get_record
  execution ← need (running_execution r) execution_not_running
  assert (expected_id == execution) stale_execution_id
  assert (expected_epoch == r.execution_epoch) stale_execution_epoch
  node ← need (find_node node_id r.dynamic_nodes) dynamic_node_not_found
  old ← need (first (is_attempt_of node_id lost) r.attempts) stale_attempt
  replaced_by ns now execution id node_id target reason node old r old.replaced_by_attempt_id
