-- ===== src/Runs/Defs.antt =====
-- The record of a Run and what it is made of: versions of the closure, attempts, the outcome, and the
-- event log.
use personal_computing_space.Shared.{ℕ, String, Bool, Option, List}
use personal_computing_space.Shared.Json.{Json}

-- The keys of RUN_TRANSITIONS.
pub data RunState : Type 0 where
  opened thinking committed running awaiting_decision completed failed cancelled closed : RunState

-- The events of RUN_TRANSITIONS.
pub data Trigger : Type 0 where
  refinement_started run_cancelled committed run_failed execution_started run_succeeded : Trigger
  run_needs_decision decision_accepted decision_abandoned run_closed : Trigger

-- A ResourceRef: what it names, and the digest that its version or its id gives.
pub record ResourceRef : Type 0 where
  pub resource_id : String
  pub digest : Option String

-- The fields of a TaskClosure that the lifecycle reads, and the rest of it.
pub record Snapshot : Type 0 where
  pub execution_kind : String
  pub execution_version : String
  pub package_ref : Option String
  -- the resource ids of `compute_bindings`, in order
  pub binding_targets : List String
  -- metadata["capability_package_refs"]
  pub capability_package_refs : List String
  pub io_contract_ref : Option ResourceRef
  -- the input refs of `node_input_bindings`
  pub node_inputs : List ResourceRef
  -- the value of the first requirement with the key "loom.data.locality.v1"
  pub locality : Option String
  pub content : Json

pub data VersionKind : Type 0 where
  draft committed : VersionKind

pub record ClosureVersion : Type 0 where
  pub version_id : String
  pub closure_id : String
  pub parent_version : Option String
  pub kind : VersionKind
  pub snapshot : Snapshot
  pub snapshot_digest : String
  pub patch_cursor : ℕ

-- resource_budget.get("max_attempts"), as `int` reads it
pub data MaxAttempts : Type 0 where
  not_given unreadable negative : MaxAttempts
  at_most : ℕ → MaxAttempts

pub record ClosureContract : Type 0 where
  pub goal : String
  pub workspace_id : String
  pub max_attempts : MaxAttempts
  pub allow_reassignment : Bool
  pub allowed_effects : List String

pub data AttemptState : Type 0 where
  created running failed completed decision_required lost : AttemptState

pub record Attempt : Type 0 where
  pub attempt_id : String
  pub target : String
  pub state : AttemptState
  pub execution_epoch : ℕ
  pub terminal_error : Option Json
  -- what the attempts of dynamic nodes hold besides
  pub node_id : Option String
  pub target_instance_id : Option String
  pub target_agent_epoch : Option ℕ
  pub replaces_attempt_id : Option String
  pub replaced_by_attempt_id : Option String
  pub result_ref : Option ResourceRef

pub record NodeIntent : Type 0 where
  pub intent_id : String
  pub execution_id : String
  pub package_ref : ResourceRef
  pub capability_descriptor_ref : ResourceRef
  pub input_refs : List ResourceRef

pub data NodeState : Type 0 where
  accepted dispatched completed failed decision_required : NodeState

pub record DynamicNode : Type 0 where
  pub node_id : String
  pub parent_execution_ref : String
  pub intent_id : String
  pub package_ref : ResourceRef
  pub capability_descriptor_ref : ResourceRef
  pub input_refs : List ResourceRef
  pub state : NodeState

pub data Disposition : Type 0 where
  awaiting_decision completed failed cancelled : Disposition

pub data PendingDecision : Type 0 where
  repair attestation : PendingDecision

pub data TerminalState : Type 0 where
  completed failed decision_required : TerminalState

-- The keys of `outcome` that the lifecycle writes; `report` is the result that is spread into it.
pub record Outcome : Type 0 where
  pub disposition : Disposition
  pub decision : Option PendingDecision
  pub terminal_state : Option TerminalState
  pub terminal_error : Option Json
  pub execution_id : Option String
  pub execution_epoch : ℕ
  pub report : Option Json

-- The entries of `events`, by their "phase", with the fields that depend on the run.
pub data Event : Type 0 where
  run_opened : (run_id : String) (created_at : ℕ) → Event
  run_transition :
      (event : Trigger) (from_state to_state : RunState) (reason : Option Json) (created_at : ℕ)
      → Event
  message : (role content : String) (request_id : Option String) (created_at : ℕ) → Event
  readiness_inspected : (version : String) (ready : Bool) (blockers : Json) (created_at : ℕ) → Event
  version_committed : (version : String) → Event
  started : (execution_id : String) (execution_epoch : ℕ) → Event
  orchestration_started :
      (execution_id : String) (execution_epoch : ℕ) (package_ref : Option String) (created_at : ℕ)
      → Event
  draft_patched : (operation_id version : String) → Event
  package_candidates : (operation_id : String) (package_refs : List String) → Event
  result_recorded :
      (phase attempt_id : String) (execution_epoch : ℕ) (terminal : TerminalState)
      (error : Option Json) (created_at : ℕ)
      → Event
  decision_resolved : (decision : String) (to_state : RunState) (created_at : ℕ) → Event
  agent_signal : (kind : String) (payload : Json) (created_at : ℕ) → Event
  run_recovered : (reason : Json) (execution_epoch : ℕ) (created_at : ℕ) → Event
  closed : (execution_id : Option String) → Event
  node_requested :
      (execution_id : String) (execution_epoch : ℕ) (intent : NodeIntent) (created_at : ℕ) → Event
  node_accepted :
      (execution_id : String) (execution_epoch : ℕ) (node_id : String) (intent : NodeIntent)
      (selected_target : String) (created_at : ℕ)
      → Event
  node_dispatched :
      (execution_id : String) (execution_epoch : ℕ) (node_id attempt_id target instance_id : String)
      (agent_epoch created_at : ℕ)
      → Event
  node_reassigned :
      (execution_id : String) (execution_epoch : ℕ)
      (node_id lost_attempt_id replacement_attempt_id to_target to_instance_id : String)
      (to_agent_epoch : ℕ) (reason lease_state : String) (created_at : ℕ)
      → Event
  node_completed :
      (execution_id : Option String) (execution_epoch : ℕ) (node_id : String)
      (attempt_id target : Option String) (result_ref : Option ResourceRef)
      (terminal : TerminalState) (error : Option Json) (created_at : ℕ)
      → Event
  orchestration_failed :
      (execution_id : Option String) (execution_epoch : ℕ) (node_id : Option String) (error : Json)
      (created_at : ℕ)
      → Event
  orchestration_decision_required :
      (execution_id : String) (execution_epoch : ℕ) (resource_ref : ResourceRef) (created_at : ℕ)
      → Event
  orchestration_completed :
      (execution_id : String) (execution_epoch : ℕ) (resource_ref : ResourceRef)
      (lineage : List (String × (String × ResourceRef))) (created_at : ℕ)
      → Event

pub record RunRecord : Type 0 where
  pub run_id : String
  pub task_ref : String
  pub goal : String
  pub draft : ClosureVersion
  pub closure_contract : Option ClosureContract
  pub allow_reassignment : Bool
  pub committed : Option ClosureVersion
  pub execution_id : Option String
  pub execution_epoch : ℕ
  pub state : RunState
  pub outcome : Option Outcome
  pub events : List Event
  pub attempts : List Attempt
  pub dynamic_nodes : List DynamicNode
