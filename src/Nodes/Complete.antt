-- ===== src/Nodes/Complete.antt =====
-- `complete_orchestration`: the end of an orchestrated Run, once all of its nodes are completed.
use personal_computing_space.Shared.{
  ℕ, String, Bool, true, false, not, ◌&&◌, ◌||◌, Option, none, some, List, [], ◌∷◌, ◌++◌, ◌==◌,
  if◌then◌else◌, string_eq, option_eq, is_some,
}
use personal_computing_space.Shared.Lists.{any}
use personal_computing_space.Shared.Json.{Json, error_code}
use personal_computing_space.Shared.Exec.{
  Exec, execution_not_running, orchestration_not_running, dynamic_nodes_not_successful,
  dynamic_nodes_not_terminal, io_contract_unavailable, ◌>>=◌, ◌>>◌,
}
use personal_computing_space.Runs.Defs.{
  ResourceRef, NodeState, DynamicNode, Attempt, RunRecord, TerminalState, Trigger,
  orchestration_failed, orchestration_decision_required, orchestration_completed,
}
use personal_computing_space.Runs.Actions.{
  get_record, set_record, log, assert, need, is_orchestrated,
}
use personal_computing_space.Runs.Transition.{transition}
use personal_computing_space.Runs.Recovery.{executed}
use personal_computing_space.Runs.Results.{disposition_of, decision_of}
use personal_computing_space.Nodes.Defs.{
  NodeServices, NodeContract, ValidatorReply, running_execution, digest_of,
}
use personal_computing_space.Nodes.Accept.{contract_at, is_done}
use personal_computing_space.Nodes.Results.{
  Verdict, valid, schema_rejects, validator_rejects, schema_verdict, last_attempt, awaiting,
}

-- The keywords of the errors that are found in a final output.
pub data Problem : Type 0 where
  schema digest lineage validator : Problem

abbrev pub is_unsuccessful : NodeState → Bool
is_unsuccessful NodeState.failed = true
is_unsuccessful NodeState.decision_required = true
is_unsuccessful _ = false

abbrev pub is_completed : NodeState → Bool
is_completed NodeState.completed = true
is_completed _ = false

-- the last completed attempt of a node that has a result
abbrev pub has_result : String → Attempt → Bool
has_result node_id a = (a.node_id == some node_id) && is_done a.state && is_some a.result_ref

abbrev entry_of : String → Option Attempt → List (String × (String × ResourceRef))
entry_of node_id none = []
entry_of node_id (some a) = elim a.result_ref [
  | none ↦ []
  | some ref ↦ (node_id, (a.attempt_id, ref)) ∷ []
]

-- what the final output may come from
abbrev pub lineage_of : List Attempt → List DynamicNode → List (String × (String × ResourceRef))
lineage_of attempts [] = []
lineage_of attempts (n ∷ nodes) =
    entry_of n.node_id (last_attempt (has_result n.node_id) attempts) ++ lineage_of attempts nodes

abbrev pub comes_from : NodeServices → String → List (String × (String × ResourceRef)) → Bool
comes_from ns d [] = false
comes_from ns d ((node_id, (attempt_id, ref)) ∷ entries) =
    (digest_of ns ref == d) || comes_from ns d entries

abbrev only_if : Bool → Problem → List Problem
only_if b p = if b then p ∷ [] else []

abbrev rejected : Verdict → Bool
rejected valid = false
rejected (schema_rejects errors) = true
rejected (validator_rejects errors) = true

-- the contract is loaded only after the output
abbrev pub schema_problems : NodeServices → Option Json → Option NodeContract → List Problem
schema_problems ns none contract = schema ∷ []
schema_problems ns (some value) none = schema ∷ []
schema_problems ns (some value) (some c) =
    only_if (rejected (schema_verdict ns c.output_schema_ref value)) schema

abbrev pub digest_problems : NodeServices → ResourceRef → Option Json → List Problem
digest_problems ns final none = []
digest_problems ns final (some value) =
    only_if (not (digest_of ns final == ns.result_digest value)) digest

abbrev pub lineage_problems :
    NodeServices → Option Json → List (String × (String × ResourceRef)) → List Problem
lineage_problems ns none entries = []
lineage_problems ns (some value) entries =
    only_if (not (comes_from ns (ns.result_digest value) entries)) lineage

-- validator_payload.get("result") != "pass", and there are errors
abbrev pub finds_errors : ValidatorReply → Bool
finds_errors reply = elim reply.errors [ [] ↦ false | e ∷ es ↦ not reply.passes ]

abbrev validator_of : Option NodeContract → Option ResourceRef
validator_of none = none
validator_of (some c) = c.success_validator_ref

abbrev ask : NodeServices → Option ResourceRef → Option Json → List Problem
ask ns (some ref) (some value) = only_if (finds_errors (ns.validate_with ref value)) validator
ask ns _ _ = []

-- the validator is asked only where nothing else was found
abbrev pub with_validator :
    NodeServices → Option Json → Option NodeContract → List Problem → List Problem
with_validator ns value contract [] = ask ns (validator_of contract) value
with_validator ns value contract (p ∷ ps) = p ∷ ps

abbrev pub problems :
    NodeServices
    → ResourceRef
    → Option Json
    → Option NodeContract
    → List (String × (String × ResourceRef))
    → List Problem
problems ns final value contract entries = with_validator ns value contract (
    schema_problems ns value contract
    ++ (digest_problems ns final value ++ lineage_problems ns value entries))

abbrev pub is_lineage : Problem → Bool
is_lineage lineage = true
is_lineage _ = false

abbrev pub code_of : List Problem → String
code_of ps =
    if any is_lineage ps then "orchestration_lineage_mismatch" else "output_schema_mismatch"

abbrev attested_by_user : Option NodeContract → Bool
attested_by_user none = false
attested_by_user (some c) = not (is_some c.success_validator_ref) && c.has_success_semantics

-- the outcome of an orchestration whose output holds
abbrev pub concluded : TerminalState → Option Json → RunRecord → RunRecord
concluded terminal value r = record r {
  outcome = some (record {
    disposition = disposition_of terminal;
    decision = decision_of terminal;
    terminal_state = some terminal;
    terminal_error = none;
    execution_id = r.execution_id;
    execution_epoch = r.execution_epoch;
    report = value;
  });
}

unfoldable pub reject_output : ℕ → Json → Exec RunRecord (Unit {0})
reject_output now error = do
  transition now Trigger.run_needs_decision (some error)
  set_record (awaiting TerminalState.failed (some error) none)
  r ← get_record
  log (orchestration_failed r.execution_id r.execution_epoch none error now)

unfoldable pub ask_user : ℕ → String → ResourceRef → Option Json → Exec RunRecord (Unit {0})
ask_user now execution final value = do
  transition now Trigger.run_needs_decision none
  set_record (concluded TerminalState.decision_required value)
  r ← get_record
  log (orchestration_decision_required execution r.execution_epoch final now)

unfoldable pub succeed :
    ℕ
    → String
    → ResourceRef
    → Option Json
    → List (String × (String × ResourceRef))
    → Exec RunRecord (Unit {0})
succeed now execution final value entries = do
  transition now Trigger.run_succeeded none
  set_record (concluded TerminalState.completed value)
  r ← get_record
  log (orchestration_completed execution r.execution_epoch final entries now)

abbrev pub conclude_with :
    ℕ
    → String
    → ResourceRef
    → Option Json
    → Option NodeContract
    → List (String × (String × ResourceRef))
    → List Problem
    → Exec RunRecord (Unit {0})
conclude_with now execution final value contract entries (p ∷ ps) =
    reject_output now (error_code (code_of (p ∷ ps)))
conclude_with now execution final value contract entries [] =
    if attested_by_user contract
    then ask_user now execution final value
    else succeed now execution final value entries

unfoldable pub complete_orchestration : NodeServices → ℕ → ResourceRef → Exec RunRecord (Unit {0})
complete_orchestration ns now final = do
  r ← get_record
  execution ← need (running_execution r) execution_not_running
  assert (is_orchestrated (executed r)) orchestration_not_running
  assert (not (any (λ n. is_unsuccessful n.state) r.dynamic_nodes)) dynamic_nodes_not_successful
  assert (not (any (λ n. not (is_completed n.state)) r.dynamic_nodes)) dynamic_nodes_not_terminal
  ref ← need (executed r).io_contract_ref io_contract_unavailable
  conclude_with now execution final (ns.load_json final) (contract_at ns ref)
      (lineage_of r.attempts r.dynamic_nodes)
      (problems ns final (ns.load_json final) (contract_at ns ref)
        (lineage_of r.attempts r.dynamic_nodes))
