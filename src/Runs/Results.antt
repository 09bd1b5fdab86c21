-- ===== src/Runs/Results.antt =====
-- The rest of `record_result`: what a checked report makes of the Run.
use personal_computing_space.Shared.{
  ℕ, String, Bool, true, false, not, ◌||◌, Option, none, some, ◌==◌, if◌then◌else◌, nat_eq,
  string_eq, option_eq,
}
use personal_computing_space.Shared.Json.{Json, Fields, Items}
use personal_computing_space.Shared.Exec.{
  Exec, Result, ok, err, attribute_error, invalid_terminal_state, ◌>>=◌, ◌>>◌,
}
use personal_computing_space.Runs.Defs.{
  Trigger, AttemptState, Disposition, TerminalState, PendingDecision, repair, attestation,
  result_recorded, RunRecord,
}
use personal_computing_space.Runs.Actions.{log, get_record, set_record, need, lift}
use personal_computing_space.Runs.Transition.{transition}
use personal_computing_space.Runs.Reports.{Report, Review, Validation, fence, review, failure, mark}

-- str(result.get("terminal_state") or "completed"), if it is one of the three
abbrev pub read_terminal : String → Option TerminalState
read_terminal s =
    if (s == "") || (s == "completed")
    then some TerminalState.completed
    else if s == "failed"
    then some TerminalState.failed
    else if s == "decision_required"
    then some TerminalState.decision_required
    else none

-- a validator that fails turns "completed" into "failed"
abbrev pub judged : Option Json → TerminalState → TerminalState
judged (some e) TerminalState.completed = TerminalState.failed
judged _ t = t

abbrev pub attempt_state : TerminalState → AttemptState
attempt_state TerminalState.completed = AttemptState.completed
attempt_state TerminalState.failed = AttemptState.failed
attempt_state TerminalState.decision_required = AttemptState.decision_required

abbrev pub trigger_of : TerminalState → Trigger
trigger_of TerminalState.completed = Trigger.run_succeeded
trigger_of TerminalState.failed = Trigger.run_needs_decision
trigger_of TerminalState.decision_required = Trigger.run_needs_decision

abbrev pub disposition_of : TerminalState → Disposition
disposition_of TerminalState.completed = Disposition.completed
disposition_of TerminalState.failed = Disposition.awaiting_decision
disposition_of TerminalState.decision_required = Disposition.awaiting_decision

abbrev pub decision_of : TerminalState → Option PendingDecision
decision_of TerminalState.completed = none
decision_of TerminalState.failed = some repair
decision_of TerminalState.decision_required = some attestation

-- the error that the outcome keeps
abbrev kept_error : TerminalState → Option Json → Option Json → Option Json
kept_error TerminalState.completed own error = own
kept_error TerminalState.failed own error = error
kept_error TerminalState.decision_required own error = none

abbrev reason_of : TerminalState → Option Json → Option Json
reason_of TerminalState.failed error = error
reason_of _ error = none

-- the attempt and the outcome, before the transition
abbrev pub reported : Report → TerminalState → Option Json → RunRecord → RunRecord
reported report terminal error r = record r {
  attempts = mark report.attempt_id (attempt_state terminal) r.attempts;
  outcome = some (record {
    disposition = disposition_of terminal;
    decision = decision_of terminal;
    terminal_state = some terminal;
    terminal_error = kept_error terminal report.terminal_error error;
    execution_id = report.execution_id;
    execution_epoch = r.execution_epoch;
    report = some report.content;
  });
}

-- validator_terminal_error or result.get("terminal_error")
abbrev pub error_of : Option Json → Option Json → Option Json
error_of none own = own
error_of (some errors) own = some (failure "success_validation_failed" errors)

-- terminal_error.get("code")
abbrev code_in : Fields → Option String
code_in Fields.end = none
code_in (Fields.field k (Json.str v) rest) = if k == "code" then some v else code_in rest
code_in (Fields.field k v rest) = if k == "code" then none else code_in rest

abbrev rejects_io : Option Json → Bool
rejects_io (some (Json.obj fields)) =
    (code_in fields == some "output_schema_mismatch")
    || (code_in fields == some "success_validation_failed")
rejects_io _ = false

-- the "phase" of the event
abbrev phase_of : TerminalState → Bool → Option Json → String
phase_of TerminalState.completed has_schema error =
    if has_schema then "io_schema_validated" else "execution_completed"
phase_of TerminalState.failed has_schema error =
    if rejects_io error then "io_schema_rejected" else "execution_failed"
phase_of TerminalState.decision_required has_schema error = "attestation_required"

-- a value that is true and has no `get`
abbrev pub lacks_get : (is_zero : String → Bool) → Option Json → Bool
lacks_get is_zero (some (Json.bool b)) = b
lacks_get is_zero (some (Json.num text)) = not (is_zero text)
lacks_get is_zero (some (Json.str text)) = not (text == "")
lacks_get is_zero (some (Json.arr (Items.cons x xs))) = true
lacks_get is_zero _ = false

-- `terminal_error.get("code")` of a report of failure, after the transition
abbrev pub get_code : (String → Bool) → TerminalState → Option Json → Result (Unit {0})
get_code is_zero TerminalState.failed error =
    if lacks_get is_zero error then err attribute_error else ok tt
get_code is_zero _ error = ok tt

unfoldable pub conclude :
    (is_zero : String → Bool)
    → ℕ
    → Report
    → Bool
    → TerminalState
    → Option Json
    → Exec RunRecord (Unit {0})
conclude is_zero now report has_schema terminal error = do
  set_record (reported report terminal error)
  transition now (trigger_of terminal) (reason_of terminal error)
  lift (get_code is_zero terminal error)
  r ← get_record
  log (
      result_recorded (phase_of terminal has_schema error) report.attempt_id r.execution_epoch
        terminal error now)

abbrev pub judged_by :
    (String → Bool) → ℕ → Report → Review → Option Json → Exec RunRecord (Unit {0})
judged_by z now report findings (some errors) =
    conclude z now report findings.has_schema TerminalState.failed
      (some (failure "output_schema_mismatch" errors))
judged_by z now report findings none = do
  terminal ← need (read_terminal report.terminal_state) invalid_terminal_state
  conclude z now report findings.has_schema (judged findings.validator_failure terminal)
      (error_of findings.validator_failure report.terminal_error)

-- a schema that the output fails ends the report before its own terminal state is read
abbrev pub judge : (String → Bool) → ℕ → Report → Review → Exec RunRecord (Unit {0})
judge z now report findings = judged_by z now report findings findings.schema_failure

unfoldable pub record_result : Validation → ℕ → Report → Exec RunRecord (Unit {0})
record_result v now report = do
  fence report
  findings ← review v report
  judge v.is_zero now report findings
