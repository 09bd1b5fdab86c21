-- ===== src/Runs/Actions.antt =====
-- What the calls of the lifecycle are made of: reading and writing the record, the event log, and the
-- services of the Observer that the calls use.
use personal_computing_space.Shared.{
  String, Bool, true, false, ◌&&◌, Option, none, some, [], ◌∷◌, ◌++◌, ◌==◌, if◌then◌else◌,
  string_eq,
}
use personal_computing_space.Shared.Json.{Json}
use personal_computing_space.Shared.Exec.{
  Exec, Code, ok, err, value_error, pure, raise, throw, Result,
}
use personal_computing_space.Runs.Defs.{RunState, Snapshot, Event, RunRecord}

abbrev pub state_beq : RunState → RunState → Bool
state_beq RunState.opened RunState.opened = true
state_beq RunState.thinking RunState.thinking = true
state_beq RunState.committed RunState.committed = true
state_beq RunState.running RunState.running = true
state_beq RunState.awaiting_decision RunState.awaiting_decision = true
state_beq RunState.completed RunState.completed = true
state_beq RunState.failed RunState.failed = true
state_beq RunState.cancelled RunState.cancelled = true
state_beq RunState.closed RunState.closed = true
state_beq _ _ = false

-- record.state in {"completed", "closed", "failed", "cancelled"}
abbrev pub is_over : RunState → Bool
is_over RunState.completed = true
is_over RunState.closed = true
is_over RunState.failed = true
is_over RunState.cancelled = true
is_over _ = false

-- What `_evaluate_readiness` finds.
pub record Readiness : Type 0 where
  pub ready : Bool
  pub blockers : Json

-- What the lifecycle asks of the rest of the Observer: the digest of a snapshot, its readiness, and
-- the slave that a resource id names.
pub record Services : Type 0 where
  pub canonical_digest : Snapshot → String
  pub readiness : Snapshot → Readiness
  pub canonical_target : String → String

abbrev pub log : Event → Exec RunRecord (Unit {0})
log e r = (record r { events = r.events ++ e ∷ [] }, ok tt)

abbrev pub assert : Bool → Code → Exec RunRecord (Unit {0})
assert b c r = if b then (r, ok tt) else (r, err (value_error c))

-- the value, or the exception where there is none
abbrev pub need {ℓ} : {A : Type ℓ} → Option A → Code → Exec RunRecord A
need none c = raise c
need (some a) c = pure a

abbrev pub lift {ℓ} : {A : Type ℓ} → Result A → Exec RunRecord A
lift (ok a) = pure a
lift (err e) = throw e

abbrev pub get_record : Exec RunRecord RunRecord
get_record r = (r, ok r)

abbrev pub set_record : (RunRecord → RunRecord) → Exec RunRecord (Unit {0})
set_record f r = (f r, ok tt)

abbrev pub when : Bool → Exec RunRecord (Unit {0}) → Exec RunRecord (Unit {0})
when b m = if b then m else pure tt

-- DRIVER_ORCHESTRATOR_KEY[1:]
abbrev pub is_orchestrated : Snapshot → Bool
is_orchestrated s =
    (s.execution_kind == "container:python_orchestrator") && (s.execution_version == "1")
