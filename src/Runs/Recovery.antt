-- ===== src/Runs/Recovery.antt =====
-- `recover_stale_runs`: what a restarted Observer does with a Run that nobody owns any more.
use personal_computing_space.Shared.{
  ℕ, ◌+◌, String, Bool, true, false, not, ◌&&◌, ◌||◌, none, some, List, [], ◌∷◌, ◌==◌,
  if◌then◌else◌, nat_eq, string_eq, option_eq, is_some,
}
use personal_computing_space.Shared.Lists.{any}
use personal_computing_space.Shared.Json.{Json, Fields, error_code}
use personal_computing_space.Shared.Exec.{Exec, Result, ok, err, pure, ◌>>=◌, ◌>>◌}
use personal_computing_space.Runs.Defs.{
  RunState, Trigger, Snapshot, Attempt, AttemptState, Disposition, DynamicNode, NodeState,
  TerminalState, run_recovered, RunRecord,
}
use personal_computing_space.Runs.Actions.{state_beq, is_orchestrated, log, get_record, set_record}
use personal_computing_space.Runs.Transition.{transition}

abbrev is_live : AttemptState → Bool
is_live AttemptState.created = true
is_live AttemptState.running = true
is_live _ = false

abbrev pub given_up : Json → List Attempt → List Attempt
given_up reason [] = []
given_up reason (a ∷ others) =
    (if is_live a.state
      then record a { state = AttemptState.failed; terminal_error = some reason }
      else a)
    ∷ given_up reason others

-- a dispatched node waits again
abbrev pub reopened : List DynamicNode → List DynamicNode
reopened [] = []
reopened (n ∷ nodes) =
    (elim n.state [ NodeState.dispatched ↦ record n { state = NodeState.accepted } | _ ↦ n ])
    ∷ reopened nodes

-- the snapshot that the execution runs
abbrev pub executed : RunRecord → Snapshot
executed r = elim r.committed [ none ↦ r.draft.snapshot | some c ↦ c.snapshot ]

abbrev pub replay_reason : Json
replay_reason = Json.obj (
    Fields.field "code" (Json.str "driver_restarted")
      (Fields.field "action" (Json.str "replay_orchestration") Fields.end))

abbrev fail_reason : RunRecord → Json
fail_reason r = error_code (
    if state_beq r.state RunState.running
      && elim r.committed [ none ↦ false | some c ↦ is_orchestrated c.snapshot ]
    then "orchestration_not_replayable"
    else "observer_restarted")

abbrev recovered_outcome : Json → RunRecord → RunRecord
recovered_outcome reason r = record r {
  outcome = some (record {
    disposition = Disposition.failed;
    decision = none;
    terminal_state = some TerminalState.failed;
    terminal_error = some reason;
    execution_id = r.execution_id;
    execution_epoch = r.execution_epoch;
    report = none;
  });
}

-- the next epoch, in which the nodes that were dispatched wait again
abbrev pub replayed : RunRecord → RunRecord
replayed r = record r {
  execution_epoch = r.execution_epoch + 1;
  attempts = given_up replay_reason r.attempts;
  dynamic_nodes = reopened r.dynamic_nodes;
}

abbrev pub stopped : Json → RunRecord → RunRecord
stopped reason r = record r { attempts = given_up reason r.attempts }

-- The body of the loop for one record; `replayable` says of a snapshot whether its package replays
-- from the event log and captures nothing of the run. Returns whether the Run was recovered.
unfoldable pub recover_run : ℕ → (Snapshot → Bool) → Exec RunRecord Bool
recover_run now replayable = do
  r ← get_record
  if not (state_beq r.state RunState.thinking || state_beq r.state RunState.running)
      then pure false
      else if state_beq r.state RunState.running
          && is_some r.execution_id
          && is_orchestrated (executed r)
          && replayable (executed r)
      then (do
        set_record replayed
        log (run_recovered replay_reason (r.execution_epoch + 1) now)
        pure true)
      else (do
        set_record (stopped (fail_reason r))
        transition now Trigger.run_failed (some (fail_reason r))
        set_record (recovered_outcome (fail_reason r))
        log (run_recovered (fail_reason r) r.execution_epoch now)
        pure true)

-- the records and the ids once the rest of the loop ran
abbrev joined :
    RunRecord × Result Bool
    → List RunRecord
    → List RunRecord × Result (List String)
    → List RunRecord × Result (List String)
joined (s, err e) unvisited rest = (s ∷ unvisited, err e)
joined (s, ok b) unvisited (visited, err e) = (s ∷ visited, err e)
joined (s, ok b) unvisited (visited, ok ids) = (s ∷ visited, ok (if b then s.run_id ∷ ids else ids))

-- The loop over the records; what it returns are the ids of the recovered Runs. An exception ends it.
unfoldable pub recover_stale_runs :
    ℕ → (Snapshot → Bool) → List String → Exec (List RunRecord) (List String)
recover_stale_runs now replayable owners [] = ([], ok [])
recover_stale_runs now replayable owners (r ∷ rs) =
    let rest = recover_stale_runs now replayable owners rs in
    if any (λ id. id == r.run_id) owners
    then (r ∷ rest.0, rest.1)
    else joined (recover_run now replayable r) rs rest
