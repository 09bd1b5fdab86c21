-- ===== src/Nodes/Results.antt =====
-- `record_dynamic_node_result` and `fail_dynamic_node`: the end of a node.
use personal_computing_space.Shared.{
  ℕ, String, Bool, true, not, ◌&&◌, Option, none, some, List, [], ◌∷◌, ◌==◌, if◌then◌else◌,
  string_eq, nat_eq, option_eq, or_else,
}
use personal_computing_space.Shared.Lists.{any, first}
use personal_computing_space.Shared.Json.{Json, error_code}
use personal_computing_space.Shared.Exec.{
  Exec, execution_not_running, dynamic_node_not_found, stale_execution_id, stale_execution_epoch,
  stale_attempt, output_missing, redundant_result_digest, invalid_terminal_state,
  invalid_validation_evidence, node_package_not_found, node_package_digest_mismatch,
  validation_evidence_schema_mismatch, validation_evidence_validator_mismatch, pure, ◌>>=◌, ◌>>◌,
}
use personal_computing_space.Runs.Defs.{
  ResourceRef, NodeState, DynamicNode, Attempt, AttemptState, Disposition, RunRecord, TerminalState,
  Trigger, node_completed, orchestration_failed,
}
use personal_computing_space.Runs.Actions.{get_record, set_record, log, assert, need}
use personal_computing_space.Runs.Transition.{transition}
use personal_computing_space.Runs.Reports.{
  Report, Evidence, is_open, failure, check_evidence, same_ref,
}
use personal_computing_space.Runs.Results.{read_terminal, attempt_state, decision_of}
use personal_computing_space.Nodes.Defs.{
  NodeServices, NodeContract, ValidatorReply, find_node, set_node, text_of, running_execution,
  is_attempt_of,
}
use personal_computing_space.Nodes.Accept.{contract_at}

-- next((a for a in reversed(attempts) if p(a)), None), and a change of the attempt it finds
abbrev pub last_attempt : (Attempt → Bool) → List Attempt → Option Attempt
last_attempt p [] = none
last_attempt p (a ∷ attempts) =
    let later = last_attempt p attempts in
    elim later [ none ↦ if p a then some a else none | some b ↦ some b ]

abbrev pub change_last : (Attempt → Bool) → (Attempt → Attempt) → List Attempt → List Attempt
change_last p f [] = []
change_last p f (a ∷ attempts) =
    let rest = change_last p f attempts in
    if any p attempts then a ∷ rest else if p a then f a ∷ attempts else a ∷ attempts

-- The fence: the attempt of the node that the result is for, if it may still report.
abbrev pub fence_in : String → Report → RunRecord → String → Exec RunRecord (DynamicNode × Attempt)
fence_in node_id report r execution = do
  node ← need (find_node node_id r.dynamic_nodes) dynamic_node_not_found
  assert (report.execution_id == some execution) stale_execution_id
  assert (report.execution_epoch == some r.execution_epoch) stale_execution_epoch
  attempt ← need (last_attempt (is_attempt_of node_id report.attempt_id) r.attempts) stale_attempt
  assert (attempt.execution_epoch == r.execution_epoch) stale_attempt
  assert (is_open attempt.state) stale_attempt
  pure (node, attempt)

unfoldable pub node_fence : String → Report → Exec RunRecord (DynamicNode × Attempt)
node_fence node_id report = do
  r ← get_record
  execution ← need (running_execution r) execution_not_running
  fence_in node_id report r execution

-- each evidence has to name the schema and the validator of the contract
unfoldable pub check_name : NodeContract → Evidence → Exec RunRecord (Unit {0})
check_name contract e = do
  assert (same_ref e.schema_ref contract.output_schema_ref) validation_evidence_schema_mismatch
  assert (same_ref e.validator_ref contract.success_validator_ref)
      validation_evidence_validator_mismatch

unfoldable pub check_names : NodeContract → List Evidence → Exec RunRecord (Unit {0})
check_names contract [] = pure tt
check_names contract (e ∷ es) = check_name contract e >> check_names contract es

-- What became of the output: no errors, those of the schema, or those of the validator.
pub data Verdict : Type 0 where
  valid : Verdict
  schema_rejects validator_rejects : Json → Verdict

-- a schema that does not load, or is none, counts as one that the output fails
abbrev pub schema_verdict : NodeServices → Option ResourceRef → Json → Verdict
schema_verdict ns none value = valid
schema_verdict ns (some ref) value = elim (ns.load_json ref) [
  | none ↦ schema_rejects (error_code "schema")
  | some schema ↦
      if ns.is_schema schema
      then elim (ns.schema_errors schema value) [
        | none ↦ valid
        | some errors ↦ schema_rejects errors
      ]
      else schema_rejects (error_code "schema")
]

-- validator_status != "pass" or validator_errors
abbrev pub rejects : ValidatorReply → Bool
rejects reply = elim reply.errors [ [] ↦ not reply.passes | e ∷ es ↦ true ]

abbrev pub validator_verdict : NodeServices → Option ResourceRef → Json → Verdict
validator_verdict ns none value = valid
validator_verdict ns (some ref) value =
    if rejects (ns.validate_with ref value)
    then validator_rejects (error_code "validator")
    else valid

-- the validator is asked only about an output that the schema accepts
abbrev pub verdict_on : NodeServices → NodeContract → Json → Verdict
verdict_on ns contract value = elim (schema_verdict ns contract.output_schema_ref value) [
  | valid ↦ validator_verdict ns contract.success_validator_ref value
  | schema_rejects errors ↦ schema_rejects errors
  | validator_rejects errors ↦ validator_rejects errors
]

-- the contract that the package of the node exports
abbrev pub exported_contract : NodeServices → DynamicNode → String → Option NodeContract
exported_contract ns node run_id = elim (ns.find_package (some run_id) node.package_ref) [
  | none ↦ none
  | some found ↦ elim (ns.export_for found node.capability_descriptor_ref) [
    | none ↦ none
    | some exported ↦ contract_at ns exported.io_contract_ref
  ]
]

-- without a contract that loads the output is rejected
unfoldable pub verdict_by :
    NodeServices → Option NodeContract → List Evidence → Json → Exec RunRecord Verdict
verdict_by ns none evidence value = pure (schema_rejects (error_code "schema"))
verdict_by ns (some contract) evidence value =
    check_names contract evidence >> pure (verdict_on ns contract value)

-- the report's own terminal state and what the checks made of its output
unfoldable pub node_review :
    NodeServices → DynamicNode → Report → Exec RunRecord (Json × (TerminalState × Verdict))
node_review ns node report = do
  r ← get_record
  value ← need report.value output_missing
  assert (not report.has_digest) redundant_result_digest
  terminal ← need (read_terminal report.terminal_state) invalid_terminal_state
  evidence ← need report.evidence invalid_validation_evidence
  check_evidence report.attempt_id r.execution_epoch (ns.result_digest value) evidence
  found ← need (ns.find_package (some r.run_id) node.package_ref) node_package_not_found
  assert (found.package_digest == text_of node.package_ref.digest) node_package_digest_mismatch
  verdict ← verdict_by ns (exported_contract ns node r.run_id) evidence value
  pure (value, (terminal, verdict))

-- errors end the node as failed, whatever the report says
abbrev pub final_state : TerminalState → Verdict → TerminalState
final_state own valid = own
final_state own (schema_rejects errors) = TerminalState.failed
final_state own (validator_rejects errors) = TerminalState.failed

-- the reported error, if it is an object
abbrev object_or_none : Option Json → Option Json
object_or_none (some (Json.obj fields)) = some (Json.obj fields)
object_or_none _ = none

abbrev pub final_error : Option Json → Verdict → Option Json
final_error own valid = object_or_none own
final_error own (schema_rejects errors) = some (failure "output_schema_mismatch" errors)
final_error own (validator_rejects errors) = some (failure "success_validation_failed" errors)

abbrev pub node_state : TerminalState → NodeState
node_state TerminalState.completed = NodeState.completed
node_state TerminalState.failed = NodeState.failed
node_state TerminalState.decision_required = NodeState.decision_required

abbrev pub ended : TerminalState → Option Json → ResourceRef → Attempt → Attempt
ended terminal error ref a = record a {
  state = attempt_state terminal;
  result_ref = some ref;
  terminal_error = error;
}

-- attempt["state"], attempt["result_ref"], attempt["terminal_error"] and node.state
abbrev pub with_result :
    String → String → TerminalState → Option Json → ResourceRef → RunRecord → RunRecord
with_result node_id attempt_id terminal error ref r = record r {
  attempts = change_last (is_attempt_of node_id attempt_id) (ended terminal error ref) r.attempts;
  dynamic_nodes = set_node node_id (node_state terminal) r.dynamic_nodes;
}

-- the outcome of a Run whose node did not succeed
abbrev pub awaiting : TerminalState → Option Json → Option Json → RunRecord → RunRecord
awaiting terminal error report r = record r {
  outcome = some (record {
    disposition = Disposition.awaiting_decision;
    decision = decision_of terminal;
    terminal_state = some terminal;
    terminal_error = error;
    execution_id = r.execution_id;
    execution_epoch = r.execution_epoch;
    report = report;
  });
}

-- a node that did not succeed hands the Run to the user
abbrev pub stop_if : ℕ → TerminalState → Option Json → Json → Exec RunRecord (Unit {0})
stop_if now TerminalState.completed error value = pure tt
stop_if now terminal error value = do
  set_record (awaiting terminal error (some value))
  transition now Trigger.run_needs_decision error
  pure tt

unfoldable pub end_node :
    NodeServices
    → ℕ
    → String
    → Attempt
    → Json
    → TerminalState
    → Option Json
    → Exec RunRecord (Unit {0})
end_node ns now node_id attempt value terminal error = do
  set_record (with_result node_id attempt.attempt_id terminal error (ns.stored value))
  stop_if now terminal error value
  r ← get_record
  log (
      node_completed r.execution_id r.execution_epoch node_id (some attempt.attempt_id)
        (some attempt.target) (some (ns.stored value)) terminal error now)

unfoldable pub record_dynamic_node_result :
    NodeServices → ℕ → String → Report → Exec RunRecord (Unit {0})
record_dynamic_node_result ns now node_id report = do
  found ← node_fence node_id report
  checked ← node_review ns found.0 report
  end_node ns now node_id found.1 checked.0 (final_state (checked.1).0 (checked.1).1)
      (final_error report.terminal_error (checked.1).1)

-- attempt_id is None or attempt.get("attempt_id") == attempt_id, of an attempt of the node
abbrev pub is_failing : String → Option String → Attempt → Bool
is_failing node_id none a = a.node_id == some node_id
is_failing node_id (some id) a = is_attempt_of node_id id a

abbrev pub fail_attempts : (Attempt → Bool) → Json → List Attempt → List Attempt
fail_attempts p reason [] = []
fail_attempts p reason (a ∷ attempts) =
    (if p a && is_open a.state
      then record a { state = AttemptState.failed; terminal_error = some reason }
      else a)
    ∷ fail_attempts p reason attempts

abbrev pub with_failure : String → Option String → Json → RunRecord → RunRecord
with_failure node_id attempt_id reason r = record r {
  attempts = fail_attempts (is_failing node_id attempt_id) reason r.attempts;
  dynamic_nodes = set_node node_id NodeState.failed r.dynamic_nodes;
}

abbrev pub may_fail : ℕ → Attempt → Bool
may_fail epoch a = (a.execution_epoch == epoch) && is_open a.state

-- the attempt that the failure names has to be one that may still report
unfoldable pub check_failing : String → Option String → Exec RunRecord (Unit {0})
check_failing node_id none = pure tt
check_failing node_id (some id) = do
  r ← get_record
  attempt ← need (first (is_attempt_of node_id id) r.attempts) stale_attempt
  assert (may_fail r.execution_epoch attempt) stale_attempt

abbrev target_at : Option Attempt → Option String
target_at none = none
target_at (some a) = some a.target

-- the writes of a failure
abbrev pub failed_as : ℕ → String → Option String → Json → RunRecord → Exec RunRecord (Unit {0})
failed_as now node_id attempt_id reason r = do
  set_record (with_failure node_id attempt_id reason)
  transition now Trigger.run_needs_decision (some reason)
  set_record (awaiting TerminalState.failed (some reason) none)
  log (
      node_completed r.execution_id r.execution_epoch node_id attempt_id
        (target_at (last_attempt (is_failing node_id attempt_id) r.attempts)) none
        TerminalState.failed (some reason) now)
  log (orchestration_failed r.execution_id r.execution_epoch (some node_id) reason now)

-- `none` in `error` is also an empty one
unfoldable pub fail_dynamic_node :
    ℕ → String → Option String → Option Json → Exec RunRecord (Unit {0})
fail_dynamic_node now node_id attempt_id error = do
  r ← get_record
  need (find_node node_id r.dynamic_nodes) dynamic_node_not_found
  check_failing node_id attempt_id
  failed_as now node_id attempt_id (or_else error (error_code "dynamic_node_failed")) r
