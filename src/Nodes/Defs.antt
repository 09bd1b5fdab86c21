-- ===== src/Nodes/Defs.antt =====
-- What the calls on dynamic nodes read: nodes and attempts by their ids, and the packages, slaves,
-- schemas and contents that the rest of the Observer answers for.
use Prim.Native.String.{◌++◌ as append}
use personal_computing_space.Shared.{
  ℕ, String, Bool, true, false, ◌&&◌, Option, none, some, List, [], ◌∷◌, ◌==◌, if◌then◌else◌,
  string_eq, option_eq,
}
use personal_computing_space.Shared.Lists.{first}
use personal_computing_space.Shared.Json.{Json, Fields}
use personal_computing_space.Shared.Exec.{Exec, pure, throw, key_error}
use personal_computing_space.Runs.Defs.{
  ResourceRef, RunState, Attempt, NodeState, DynamicNode, RunRecord,
}
use personal_computing_space.Runs.Actions.{state_beq}

-- "allowed_node_package_refs", "max_nodes" and "max_live_nodes" of an orchestration package. A
-- negative limit admits no node, as 0 does.
pub record Limits : Type 0 where
  pub allowed_node_package_refs : List ResourceRef
  pub max_nodes : ℕ
  pub max_live_nodes : ℕ

-- A CapabilityPackageVersion, as far as these calls read it. `none` in `limits` is a body in which
-- they do not load; `is_orchestrator` says that its type and executor are DRIVER_ORCHESTRATOR_KEY.
pub record Package : Type 0 where
  pub package_digest : String
  pub is_orchestrator : Bool
  pub is_abandoned : Bool
  pub limits : Option Limits

pub record Export : Type 0 where
  pub io_contract_ref : ResourceRef
  pub permissions : List String

pub record NodeContract : Type 0 where
  pub input_schema_ref : Option ResourceRef
  pub output_schema_ref : Option ResourceRef
  pub success_validator_ref : Option ResourceRef
  pub has_success_semantics : Bool

pub record WorkerAgent : Type 0 where
  pub instance_id : String
  pub epoch : ℕ

pub record Lease : Type 0 where
  pub lease_epoch : ℕ
  pub lease_state : String

-- What a validator program replies; one that raises replies with its error and does not pass.
pub record ValidatorReply : Type 0 where
  pub passes : Bool
  pub errors : List Json

-- The rest of the Observer, after `refresh_slaves`.
pub record NodeServices : Type 0 where
  -- str.lower and the decimal digits of a number
  pub lower : String → String
  pub decimal : ℕ → String
  pub canonical_target : String → String
  -- _find_package, in the view of a Run or in that of all of them
  pub find_named : Option String → String → Option Package
  pub find_package : Option String → ResourceRef → Option Package
  pub is_visible : Package → String → Bool
  pub export_for : Package → ResourceRef → Option Export
  pub supports : String → Package → Bool
  -- slave_agents[id], and slave_instances.get((id, instance))
  pub agent_of : String → Option WorkerAgent
  pub lease_of : String → String → Option Lease
  -- _load_json_content, `none` where it raises, and what is read from such a value
  pub load_json : ResourceRef → Option Json
  pub content_ref : Fields → Option ResourceRef
  pub is_content_ref : ResourceRef → Bool
  pub io_contract : Json → Option NodeContract
  pub is_schema : Json → Bool
  pub schema_errors : Json → Json → Option Json
  pub validate_with : ResourceRef → Json → ValidatorReply
  pub result_digest : Json → String
  -- content_store.put of the canonical JSON
  pub stored : Json → ResourceRef

abbrev pub text_of : Option String → String
text_of none = ""
text_of (some s) = s

-- (ref.digest or "").lower()
abbrev pub digest_of : NodeServices → ResourceRef → String
digest_of ns ref = ns.lower (text_of ref.digest)

abbrev pub ref_beq : ResourceRef → ResourceRef → Bool
ref_beq a b = (a.resource_id == b.resource_id) && (a.digest == b.digest)

abbrev pub refs_beq : List ResourceRef → List ResourceRef → Bool
refs_beq [] [] = true
refs_beq (a ∷ xs) (b ∷ ys) = ref_beq a b && refs_beq xs ys
refs_beq _ _ = false

-- next((node for node in record.dynamic_nodes if node.node_id == node_id), None)
abbrev pub find_node : String → List DynamicNode → Option DynamicNode
find_node id = first λ n. n.node_id == id

-- node.state = ..., of the first node with the id
abbrev pub set_node : String → NodeState → List DynamicNode → List DynamicNode
set_node id state [] = []
set_node id state (n ∷ nodes) =
    if n.node_id == id then record n { state = state } ∷ nodes else n ∷ set_node id state nodes

abbrev pub is_accepted : NodeState → Bool
is_accepted NodeState.accepted = true
is_accepted _ = false

abbrev pub is_dispatched : NodeState → Bool
is_dispatched NodeState.dispatched = true
is_dispatched _ = false

-- node.state not in {"completed", "failed", "decision_required"}
abbrev pub is_waiting : NodeState → Bool
is_waiting NodeState.accepted = true
is_waiting NodeState.dispatched = true
is_waiting _ = false

-- the execution of a Run that is running
abbrev pub running_execution : RunRecord → Option String
running_execution r = if state_beq r.state RunState.running then r.execution_id else none

-- item.get("attempt_id") == attempt_id and item.get("node_id") == node_id
abbrev pub is_attempt_of : String → String → Attempt → Bool
is_attempt_of node_id attempt_id a = (a.attempt_id == attempt_id) && (a.node_id == some node_id)

-- f"node-{execution_id}-{n}"
abbrev pub node_name : NodeServices → String → ℕ → String
node_name ns execution n = append "node-" (append execution (append "-" (ns.decimal n)))

-- self.slave_agents[target]
abbrev pub found_agent : String → Option WorkerAgent → Exec RunRecord WorkerAgent
found_agent target none = throw (key_error target)
found_agent target (some a) = pure a

abbrev pub agent_at : NodeServices → String → Exec RunRecord WorkerAgent
agent_at ns target = found_agent target (ns.agent_of target)
