-- ===== src/Runs/Transition.antt =====
-- RUN_TRANSITIONS and `_transition`.
use personal_computing_space.Shared.{
  ℕ, Bool, true, false, Option, none, some, [], ◌∷◌, ◌++◌, if◌then◌else◌,
}
use personal_computing_space.Shared.Json.{Json}
use personal_computing_space.Shared.Exec.{Exec, ok, err, value_error, illegal_state_transition}
use personal_computing_space.Runs.Defs.{
  RunState, Trigger, PendingDecision, repair, attestation, Outcome, run_transition, RunRecord,
}

-- RUN_TRANSITIONS.get(current, {}).get(event)
unfoldable pub target : RunState → Trigger → Option RunState
target RunState.opened Trigger.refinement_started = some RunState.thinking
target RunState.opened Trigger.run_cancelled = some RunState.cancelled
target RunState.thinking Trigger.committed = some RunState.committed
target RunState.thinking Trigger.run_failed = some RunState.failed
target RunState.thinking Trigger.run_cancelled = some RunState.cancelled
target RunState.committed Trigger.execution_started = some RunState.running
target RunState.committed Trigger.run_cancelled = some RunState.cancelled
target RunState.running Trigger.run_succeeded = some RunState.completed
target RunState.running Trigger.run_needs_decision = some RunState.awaiting_decision
target RunState.running Trigger.run_failed = some RunState.failed
target RunState.running Trigger.run_cancelled = some RunState.cancelled
target RunState.awaiting_decision Trigger.decision_accepted = some RunState.completed
target RunState.awaiting_decision Trigger.decision_abandoned = some RunState.failed
target RunState.awaiting_decision Trigger.refinement_started = some RunState.thinking
target RunState.awaiting_decision Trigger.run_cancelled = some RunState.cancelled
target RunState.completed Trigger.run_closed = some RunState.closed
target RunState.failed Trigger.run_closed = some RunState.closed
target RunState.cancelled Trigger.run_closed = some RunState.closed
target _ _ = none

abbrev is_repair : Option PendingDecision → Bool
is_repair (some repair) = true
is_repair _ = false

abbrev is_attestation : Option PendingDecision → Bool
is_attestation (some attestation) = true
is_attestation _ = false

-- isinstance(record.outcome, dict) and record.outcome.get("decision") == "repair"
abbrev pub needs_repair : Option Outcome → Bool
needs_repair none = false
needs_repair (some o) = is_repair o.decision

abbrev pub needs_attestation : Option Outcome → Bool
needs_attestation none = false
needs_attestation (some o) = is_attestation o.decision

-- The two guards of `_transition` on the pending decision.
abbrev pub guarded : RunState → Trigger → Option Outcome → Bool
guarded RunState.awaiting_decision Trigger.refinement_started o = needs_repair o
guarded state Trigger.decision_accepted o = needs_attestation o
guarded _ _ o = true

-- record.state = target, and the event
abbrev pub moved : ℕ → Trigger → Option Json → RunState → RunRecord → RunRecord
moved now event reason to r = record r {
  state = to;
  events = r.events ++ run_transition event r.state to reason now ∷ [];
}

unfoldable pub transition : ℕ → Trigger → Option Json → Exec RunRecord RunState
unfolding target
transition now event reason r = elim (target r.state event) [
  | none ↦ (r, err (value_error illegal_state_transition))
  | some to ↦
      if guarded r.state event r.outcome
      then (moved now event reason to r, ok to)
      else (r, err (value_error illegal_state_transition))
]
