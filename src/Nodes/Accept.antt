-- ===== src/Nodes/Accept.antt =====
-- `accept_node_intent`: the checks of an intent against the orchestration found_package, the packages of the
-- Run and the contents it names, and the node that is made of it.
use personal_computing_space.Shared.{
  ℕ, ◌+◌, String, Bool, true, false, not, ◌&&◌, ◌||◌, Option, none, some, List, [], ◌∷◌, ◌++◌, ◌==◌,
  if◌then◌else◌, leb, string_eq, option_eq, is_some,
}
use personal_computing_space.Shared.Lists.{length, any, first, keep}
use personal_computing_space.Shared.Json.{Json, Items, Fields}
use personal_computing_space.Shared.Exec.{
  Exec, execution_not_running, node_intent_execution_mismatch, orchestration_package_not_bound,
  capability_package_scope_mismatch, orchestration_package_not_found, orchestration_package_invalid,
  node_intent_conflict, orchestration_node_limit_exceeded, orchestration_live_node_limit_exceeded,
  node_package_not_allowed, node_package_not_found, node_package_digest_mismatch,
  node_capability_export_not_found, node_io_contract_unavailable, node_input_schema_mismatch,
  node_input_unavailable, node_input_not_allowed, node_target_unavailable, node_permission_denied,
  capability_package_abandoned, pure, ◌>>=◌, ◌>>◌,
}
use personal_computing_space.Runs.Defs.{
  ResourceRef, NodeIntent, NodeState, DynamicNode, Attempt, AttemptState, RunRecord, Event,
  node_requested, node_accepted, ClosureContract,
}
use personal_computing_space.Runs.Actions.{
  get_record, set_record, log, assert, need, when, is_orchestrated,
}
use personal_computing_space.Runs.Recovery.{executed}
use personal_computing_space.Nodes.Defs.{
  NodeServices, Limits, Package, Export, NodeContract, digest_of, ref_beq, refs_beq, is_waiting,
  running_execution, node_name,
}

abbrev own_digest : NodeServices → Option ResourceRef → List String
own_digest ns none = []
own_digest ns (some ref) = digest_of ns ref ∷ []

-- the refs that a value holds: the digests of those that name a content
unfoldable mutual
  pub collect : NodeServices → Json → List String
  collect ns (Json.arr items) = collect_items ns items
  collect ns (Json.obj fields) = own_digest ns (ns.content_ref fields) ++ collect_fields ns fields
  collect ns _ = []

  pub collect_items : NodeServices → Items → List String
  collect_items ns Items.nil = []
  collect_items ns (Items.cons v items) = collect ns v ++ collect_items ns items

  pub collect_fields : NodeServices → Fields → List String
  collect_fields ns Fields.end = []
  collect_fields ns (Fields.field k v fields) = collect ns v ++ collect_fields ns fields

-- what one input binding authorizes: its own digest, and what its value holds
abbrev pub bound_digests : NodeServices → ResourceRef → List String
bound_digests ns ref =
    if ns.is_content_ref ref
    then digest_of ns ref ∷ elim (ns.load_json ref) [ none ↦ [] | some v ↦ collect ns v ]
    else []

abbrev pub all_bound : NodeServices → List ResourceRef → List String
all_bound ns [] = []
all_bound ns (ref ∷ refs) = bound_digests ns ref ++ all_bound ns refs

abbrev pub is_done : AttemptState → Bool
is_done AttemptState.completed = true
is_done _ = false

-- what the results of the completed attempts authorize
abbrev pub result_digests : NodeServices → List Attempt → List String
result_digests ns [] = []
result_digests ns (a ∷ attempts) =
    (elim a.result_ref [
      | none ↦ []
      | some ref ↦ if is_done a.state && ns.is_content_ref ref then digest_of ns ref ∷ [] else []
    ])
    ++ result_digests ns attempts

abbrev pub authorized : NodeServices → RunRecord → List String
authorized ns r = all_bound ns (executed r).node_inputs ++ result_digests ns r.attempts

-- The limits of the orchestration package that the Run is bound to.
unfoldable pub orchestration_limits : NodeServices → Exec RunRecord Limits
orchestration_limits ns = do
  r ← get_record
  ref ← need (executed r).package_ref orchestration_package_not_bound
  assert (is_orchestrated (executed r)) orchestration_package_not_bound
  assert (not (is_some (ns.find_named none ref)) || is_some (ns.find_named (some r.run_id) ref))
      capability_package_scope_mismatch
  found_package ← need (ns.find_named (some r.run_id) ref) orchestration_package_not_found
  assert found_package.is_orchestrator orchestration_package_not_found
  need found_package.limits orchestration_package_invalid

abbrev pub is_request : String → Event → Bool
is_request id (node_requested execution epoch intent now) = intent.intent_id == id
is_request id _ = false

abbrev pub count_waiting : List DynamicNode → ℕ
count_waiting nodes = length (keep (λ n. is_waiting n.state) nodes)

-- the two limits on the nodes of the Run
unfoldable pub check_limits : Limits → Exec RunRecord (Unit {0})
check_limits limits = do
  r ← get_record
  assert (not (leb limits.max_nodes (length r.dynamic_nodes))) orchestration_node_limit_exceeded
  assert (not (leb limits.max_live_nodes (count_waiting r.dynamic_nodes)))
      orchestration_live_node_limit_exceeded

abbrev same_content : NodeServices → ResourceRef → ResourceRef → Bool
same_content ns a b = (a.resource_id == b.resource_id) && (digest_of ns a == digest_of ns b)

-- the package of the node and what it exports
unfoldable pub check_package :
    NodeServices → Limits → NodeIntent → Exec RunRecord (Package × Export)
check_package ns limits intent = do
  r ← get_record
  assert (any (same_content ns intent.package_ref) limits.allowed_node_package_refs)
      node_package_not_allowed
  found_package ← need (ns.find_package (some r.run_id) intent.package_ref) node_package_not_found
  assert (digest_of ns intent.package_ref == ns.lower found_package.package_digest)
      node_package_digest_mismatch
  assert (ns.is_visible found_package r.run_id) capability_package_scope_mismatch
  assert (not found_package.is_abandoned) capability_package_abandoned
  exported ←
      need (ns.export_for found_package intent.capability_descriptor_ref)
        node_capability_export_not_found
  pure (found_package, exported)

-- the value that the input schema is asked about
abbrev pub load_all : NodeServices → List ResourceRef → Option Items
load_all ns [] = some Items.nil
load_all ns (ref ∷ refs) = elim (ns.load_json ref) [
  | none ↦ none
  | some v ↦ elim (load_all ns refs) [ none ↦ none | some items ↦ some (Items.cons v items) ]
]

abbrev pub candidate : Items → Json
candidate (Items.cons v Items.nil) = v
candidate items = Json.obj (Fields.field "inputs" (Json.arr items) Fields.end)

unfoldable pub fits_schema :
    NodeServices → ResourceRef → List ResourceRef → Exec RunRecord (Unit {0})
fits_schema ns ref inputs = do
  schema ← need (ns.load_json ref) node_input_schema_mismatch
  assert (ns.is_schema schema) node_input_schema_mismatch
  values ← need (load_all ns inputs) node_input_schema_mismatch
  assert (not (is_some (ns.schema_errors schema (candidate values)))) node_input_schema_mismatch

abbrev pub fits_contract :
    NodeServices → Option ResourceRef → List ResourceRef → Exec RunRecord (Unit {0})
fits_contract ns none inputs = pure tt
fits_contract ns (some ref) inputs = fits_schema ns ref inputs

abbrev pub contract_at : NodeServices → ResourceRef → Option NodeContract
contract_at ns ref = elim (ns.load_json ref) [ none ↦ none | some v ↦ ns.io_contract v ]

unfoldable pub check_input : NodeServices → List String → ResourceRef → Exec RunRecord (Unit {0})
check_input ns allowed ref = do
  assert (is_some (ns.load_json ref)) node_input_unavailable
  assert (any (λ d. d == digest_of ns ref) allowed) node_input_not_allowed

unfoldable pub check_inputs :
    NodeServices → List String → List ResourceRef → Exec RunRecord (Unit {0})
check_inputs ns allowed [] = pure tt
check_inputs ns allowed (ref ∷ refs) = check_input ns allowed ref >> check_inputs ns allowed refs

abbrev pub subset : List String → List String → Bool
subset [] ys = true
subset (x ∷ xs) ys = any (λ y. y == x) ys && subset xs ys

-- set(permissions).issubset(set(allowed_effects)), where the Run has a contract
abbrev pub permitted : List String → Option ClosureContract → Bool
permitted permissions none = true
permitted permissions (some c) = subset permissions c.allowed_effects

abbrev pub is_local : NodeServices → Option String → String → Bool
is_local ns none target = true
is_local ns (some locality) target = ns.canonical_target locality == target

-- the slave that the node is to run on
unfoldable pub check_target : NodeServices → Package → Export → String → Exec RunRecord String
check_target ns found_package exported selected = do
  r ← get_record
  assert (not (selected == "")) node_target_unavailable
  assert (ns.supports (ns.canonical_target selected) found_package) node_target_unavailable
  assert (permitted exported.permissions r.closure_contract) node_permission_denied
  assert (is_local ns (executed r).locality (ns.canonical_target selected)) node_target_unavailable
  pure (ns.canonical_target selected)

unfoldable pub admission : NodeServices → Limits → NodeIntent → String → Exec RunRecord String
admission ns limits intent selected = do
  r ← get_record
  check_limits limits
  found ← check_package ns limits intent
  contract ← need (contract_at ns (found.1).io_contract_ref) node_io_contract_unavailable
  fits_contract ns contract.input_schema_ref intent.input_refs
  check_inputs ns (authorized ns r) intent.input_refs
  target ← check_target ns found.0 found.1 selected
  check_limits limits
  pure target

abbrev pub node_of : NodeServices → String → NodeIntent → RunRecord → DynamicNode
node_of ns execution intent r = record {
  node_id = node_name ns execution (length r.dynamic_nodes + 1);
  parent_execution_ref = execution;
  intent_id = intent.intent_id;
  package_ref = intent.package_ref;
  capability_descriptor_ref = intent.capability_descriptor_ref;
  input_refs = intent.input_refs;
  state = NodeState.accepted;
}

-- record.dynamic_nodes.append(node)
abbrev pub with_node : DynamicNode → RunRecord → RunRecord
with_node node r = record r { dynamic_nodes = r.dynamic_nodes ++ node ∷ [] }

unfoldable pub materialize :
    NodeServices → ℕ → Limits → NodeIntent → String → String → Exec RunRecord DynamicNode
materialize ns now limits intent selected execution = do
  target ← admission ns limits intent selected
  r ← get_record
  set_record (with_node (node_of ns execution intent r))
  log (
      node_accepted execution r.execution_epoch (node_of ns execution intent r).node_id intent
        target now)
  pure (node_of ns execution intent r)

abbrev pub asks_the_same : NodeIntent → DynamicNode → Bool
asks_the_same intent n =
    ref_beq n.package_ref intent.package_ref
    && ref_beq n.capability_descriptor_ref intent.capability_descriptor_ref
    && refs_beq n.input_refs intent.input_refs

-- the node that the intent already has, or a new one
abbrev pub accept_as :
    NodeServices
    → ℕ
    → Limits
    → NodeIntent
    → String
    → String
    → Option DynamicNode
    → Exec RunRecord DynamicNode
accept_as ns now limits intent selected execution none =
    materialize ns now limits intent selected execution
accept_as ns now limits intent selected execution (some n) =
    assert (asks_the_same intent n) node_intent_conflict >> pure n

unfoldable pub accept_node_intent :
    NodeServices → ℕ → NodeIntent → String → Exec RunRecord DynamicNode
accept_node_intent ns now intent selected = do
  r ← get_record
  execution ← need (running_execution r) execution_not_running
  assert (intent.execution_id == execution) node_intent_execution_mismatch
  limits ← orchestration_limits ns
  when (not (any (is_request intent.intent_id) r.events))
      (log (node_requested execution r.execution_epoch intent now))
  accept_as ns now limits intent selected execution
      (first (λ n. n.intent_id == intent.intent_id) r.dynamic_nodes)
