-- ===== src/Runs/Execution.antt =====
-- From a draft to a running execution and to the end: `inspect_readiness`, `commit`, `start`,
-- `resolve_run`, `close_run`.
use personal_computing_space.Shared.{
  ℕ, ◌+◌, String, Bool, true, false, not, ◌&&◌, ◌||◌, Option, none, some, List, [], ◌∷◌, ◌++◌, ◌==◌,
  if◌then◌else◌, leb, nat_eq, string_eq, option_eq, is_some,
}
use personal_computing_space.Shared.Lists.{length}
use personal_computing_space.Shared.Exec.{
  Exec, illegal_state_transition, version_conflict, closure_not_committed, readiness_blocked,
  run_not_terminal, invalid_decision, orchestration_attempt_limit_exceeded, pure, raise, ◌>>=◌,
  ◌>>◌,
}
use personal_computing_space.Runs.Defs.{
  RunState, Trigger, Snapshot, ClosureVersion, VersionKind, ClosureContract, MaxAttempts, not_given,
  unreadable, negative, at_most, AttemptState, Disposition, Outcome, Event, readiness_inspected,
  version_committed, started, closed, orchestration_started, decision_resolved, RunRecord,
}
use personal_computing_space.Runs.Actions.{
  Services, Readiness, state_beq, is_orchestrated, log, get_record, set_record, when, assert, need,
}
use personal_computing_space.Runs.Transition.{transition, needs_attestation}

abbrev pub inspected : ℕ → String → Readiness → Event
inspected now version readiness = readiness_inspected version readiness.ready readiness.blockers now

abbrev committed_as : String → Option ClosureVersion → Option ClosureVersion
committed_as version_id none = none
committed_as version_id (some c) = if c.version_id == version_id then some c else none

-- the version that `inspect_readiness` looks at; no version names the draft
abbrev inspected_version : Option String → RunRecord → Option ClosureVersion
inspected_version none r = some r.draft
inspected_version (some v) r =
    if v == r.draft.version_id then some r.draft else committed_as v r.committed

unfoldable pub inspect_readiness : Services → ℕ → Option String → Exec RunRecord Readiness
inspect_readiness services now version_id = do
  r ← get_record
  v ← need (inspected_version version_id r) version_conflict
  log (inspected now v.version_id (services.readiness v.snapshot))
  pure (services.readiness v.snapshot)

-- record.draft.model_copy(update={"kind": "committed", "version_id": ...})
abbrev pub frozen : String → ClosureVersion → ClosureVersion
frozen new_id draft = record draft { kind = VersionKind.committed; version_id = new_id }

unfoldable pub commit : Services → ℕ → String → String → String → Exec RunRecord ClosureVersion
commit services now new_id version_id digest = do
  r ← get_record
  assert (state_beq r.state RunState.thinking) illegal_state_transition
  assert ((r.draft.version_id == version_id) && (r.draft.snapshot_digest == digest))
      version_conflict
  log (inspected now r.draft.version_id (services.readiness r.draft.snapshot))
  assert (services.readiness r.draft.snapshot).ready readiness_blocked
  set_record λ s. record s { committed = some (frozen new_id s.draft) }
  transition now Trigger.committed none
  log (version_committed new_id)
  pure (frozen new_id r.draft)

-- `_check_attempt_budget`
abbrev within_budget : MaxAttempts → ℕ → Bool
within_budget not_given n = true
within_budget unreadable n = false
within_budget negative n = false
within_budget (at_most m) n = not (leb m n)

abbrev budget_of : Option ClosureContract → MaxAttempts
budget_of none = not_given
budget_of (some c) = c.max_attempts

unfoldable pub check_attempt_budget : Exec RunRecord (Unit {0})
check_attempt_budget = do
  r ← get_record
  assert (within_budget (budget_of r.closure_contract) (length r.attempts))
      orchestration_attempt_limit_exceeded

-- the epoch of the execution that begins
abbrev next_epoch : Option String → ℕ → ℕ
next_epoch none epoch = 1
next_epoch (some id) epoch = epoch + 1

abbrev pub new_execution : String → RunRecord → RunRecord
new_execution id r = record r {
  execution_epoch = next_epoch r.execution_id r.execution_epoch;
  execution_id = some id;
  outcome = none;
}

abbrev target_of : Services → List String → String
target_of services [] = "slave-a"
target_of services (t ∷ ts) = services.canonical_target t

abbrev pub new_attempt : Services → String → Snapshot → RunRecord → RunRecord
new_attempt services id snapshot r = record r {
  attempts =
      r.attempts
      ++ (record {
        attempt_id = id;
        target = target_of services snapshot.binding_targets;
        state = AttemptState.created;
        execution_epoch = r.execution_epoch;
        terminal_error = none;
        node_id = none;
        target_instance_id = none;
        target_agent_epoch = none;
        replaces_attempt_id = none;
        replaced_by_attempt_id = none;
        result_ref = none;
      })
        ∷ [];
}

-- the reply of `start`
pub record Started : Type 0 where
  pub execution_id : Option String
  pub state : RunState
  pub execution_epoch : ℕ

abbrev pub started_of : RunRecord → Started
started_of r = record {
  execution_id = r.execution_id;
  state = r.state;
  execution_epoch = r.execution_epoch;
}

unfoldable pub launch : Services → ℕ → String → String → ClosureVersion → Exec RunRecord Started
launch services now execution_id attempt_id c = do
  log (inspected now c.version_id (services.readiness c.snapshot))
  assert (services.readiness c.snapshot).ready readiness_blocked
  when (not (is_orchestrated c.snapshot)) check_attempt_budget
  set_record (new_execution execution_id)
  transition now Trigger.execution_started none
  when (not (is_orchestrated c.snapshot)) (set_record (new_attempt services attempt_id c.snapshot))
  r ← get_record
  log (started execution_id r.execution_epoch)
  when (is_orchestrated c.snapshot)
      (log (orchestration_started execution_id r.execution_epoch c.snapshot.package_ref now))
  s ← get_record
  pure (started_of s)

unfoldable pub start : Services → ℕ → String → String → String → Exec RunRecord Started
start services now execution_id attempt_id version_id = do
  r ← get_record
  if state_beq r.state RunState.running && is_some r.execution_id
      then (do
        need (committed_as version_id r.committed) closure_not_committed
        pure (started_of r))
      else (do
        assert (state_beq r.state RunState.committed) illegal_state_transition
        c ← need (committed_as version_id r.committed) closure_not_committed
        launch services now execution_id attempt_id c)

unfoldable pub close_run : ℕ → Exec RunRecord (Unit {0})
close_run now = do
  r ← get_record
  assert
      (state_beq r.state RunState.completed
        || state_beq r.state RunState.failed
        || state_beq r.state RunState.cancelled)
      run_not_terminal
  transition now Trigger.run_closed none
  log (closed r.execution_id)

abbrev accepted : Outcome → Outcome
accepted o = record o {
  disposition = Disposition.completed;
  decision = none;
  terminal_error = none;
}

abbrev abandoned : Outcome → Outcome
abandoned o = record o { disposition = Disposition.failed; decision = none }

abbrev settled : Outcome → RunRecord → RunRecord
settled o r = record r { outcome = some o }

-- the branches of `resolve_run` on the decision
abbrev settle : ℕ → String → Outcome → Exec RunRecord (Unit {0})
settle now decision o =
    if decision == "accept"
    then (do
      assert (needs_attestation (some o)) invalid_decision
      transition now Trigger.decision_accepted none
      set_record (settled (accepted o)))
    else if decision == "abandon"
    then (do transition now Trigger.decision_abandoned none; set_record (settled (abandoned o)))
    else raise invalid_decision

unfoldable pub resolve_run : ℕ → String → Exec RunRecord (Unit {0})
resolve_run now decision = do
  r ← get_record
  if (state_beq r.state RunState.completed && (decision == "accept"))
        || (state_beq r.state RunState.failed && (decision == "abandon"))
      then pure tt
      else (do
        assert (state_beq r.state RunState.awaiting_decision) illegal_state_transition
        o ← need r.outcome illegal_state_transition
        settle now decision o
        s ← get_record
        log (decision_resolved decision s.state now))
