-- ===== src/Runs/Calls.antt =====
-- The calls that move a Run. Each is an action on the record that `_load` returned; what a method
-- changes before it raises stays changed. Times and fresh ids are arguments.
use personal_computing_space.Shared.{
  ℕ, String, Bool, false, not, ◌||◌, Option, none, some, List, [], ◌∷◌, ◌==◌, if◌then◌else◌, nat_eq,
  string_eq, option_eq, is_some,
}
use personal_computing_space.Shared.Lists.{first}
use personal_computing_space.Shared.Json.{Json}
use personal_computing_space.Shared.Exec.{
  Exec, Result, ok, err, value_error, illegal_state_transition, closure_goal_mismatch,
  unsupported_message_role, empty_message, pure, ◌>>=◌, ◌>>◌,
}
use personal_computing_space.Runs.Defs.{
  RunState, Trigger, Snapshot, VersionKind, ClosureContract, not_given, Disposition, TerminalState,
  Outcome, Event, run_opened, message, agent_signal, RunRecord,
}
use personal_computing_space.Runs.Actions.{
  Services, is_over, state_beq, log, get_record, set_record, when, assert,
}
use personal_computing_space.Runs.Transition.{transition}

unfoldable pub open_record :
    Services
    → ℕ
    → String
    → String
    → String
    → Bool
    → ClosureContract
    → String
    → String
    → Snapshot
    → RunRecord
open_record services now run_id task_ref goal reassign contract version_id closure_id snapshot =
    record {
      run_id = run_id;
      task_ref = task_ref;
      goal = goal;
      draft = record {
        version_id = version_id;
        closure_id = closure_id;
        parent_version = none;
        kind = VersionKind.draft;
        snapshot = snapshot;
        snapshot_digest = services.canonical_digest snapshot;
        patch_cursor = 0;
      };
      closure_contract = some contract;
      allow_reassignment = reassign;
      committed = none;
      execution_id = none;
      execution_epoch = 1;
      state = RunState.opened;
      outcome = none;
      events = run_opened run_id now ∷ [];
      attempts = [];
      dynamic_nodes = [];
    }

-- open_run: without a contract a minimal closure is used; with one, its goal has to be the Run's
unfoldable pub open_run :
    Services
    → ℕ
    → String
    → String
    → String
    → Bool
    → String
    → String
    → Snapshot
    → Option (ClosureContract × String × Snapshot)
    → Result RunRecord
unfolding open_record
open_run services now run_id task_ref goal reassign workspace version_id minimal none =
    let contract : ClosureContract = record {
      goal = goal;
      workspace_id = workspace;
      max_attempts = not_given;
      allow_reassignment = reassign;
      allowed_effects = [];
    } in
    ok (open_record services now run_id task_ref goal reassign contract version_id task_ref minimal)
open_run services now run_id task_ref goal reassign workspace version_id minimal
      (some (c, closure_id, body)) =
    if c.goal == goal
    then ok (
        open_record services now run_id task_ref goal reassign
          (record c { workspace_id = workspace }) version_id closure_id body)
    else err (value_error closure_goal_mismatch)

-- the event of an earlier call of `append_message` with the same request id
abbrev is_message_of : String → Event → Bool
is_message_of id (message role content (some i) t) = i == id
is_message_of id _ = false

abbrev sent_before : Option String → List Event → Bool
sent_before none events = false
sent_before (some id) events = if id == "" then false else is_some (first (is_message_of id) events)

unfoldable pub append_message : ℕ → String → String → Option String → Exec RunRecord (Unit {0})
append_message now role content request_id = do
  assert (role == "user" || role == "assistant") unsupported_message_role
  assert (not (content == "")) empty_message
  r ← get_record
  when (not (sent_before request_id r.events)) (log (message role content request_id now))

unfoldable pub begin_refinement : ℕ → Exec RunRecord (Unit {0})
begin_refinement now = do
  r ← get_record
  if state_beq r.state RunState.opened
      then (do transition now Trigger.refinement_started none; pure tt)
      else assert (state_beq r.state RunState.thinking) illegal_state_transition

-- the outcome of a Run that is cancelled or fails
abbrev ended : Disposition → Option TerminalState → Json → RunRecord → RunRecord
ended disposition terminal reason r = record r {
  outcome = some (record {
    disposition = disposition;
    decision = none;
    terminal_state = terminal;
    terminal_error = some reason;
    execution_id = r.execution_id;
    execution_epoch = r.execution_epoch;
    report = none;
  });
}

abbrev terminal_of : Option Outcome → Option TerminalState
terminal_of none = none
terminal_of (some o) = o.terminal_state

unfoldable pub cancel_run : ℕ → Json → Exec RunRecord (Unit {0})
cancel_run now reason = do
  r ← get_record
  when (not (is_over r.state)) (do
    transition now Trigger.run_cancelled (some reason)
    set_record (ended Disposition.cancelled (terminal_of r.outcome) reason))

unfoldable pub fail_run : ℕ → Json → Exec RunRecord (Unit {0})
fail_run now reason = do
  r ← get_record
  when (not (is_over r.state)) (do
    transition now Trigger.run_failed (some reason)
    set_record (ended Disposition.failed none reason))

unfoldable pub record_agent_signal : ℕ → String → Json → Exec RunRecord (Unit {0})
record_agent_signal now kind payload = log (agent_signal kind payload now)
