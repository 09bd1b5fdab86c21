-- ===== src/Runs/Verdict.antt =====
-- A Run that is over stays in its state until it is closed.
use mathlib.Core.Path.{◌≡◌}
use native.Mathlib.Omega.{arith}
use personal_computing_space.Shared.{true, ◌||◌, some}
use personal_computing_space.Runs.Defs.{RunState, Trigger, RunRecord}
use personal_computing_space.Runs.Actions.{is_over, state_beq}
use personal_computing_space.Runs.Transition.{target}
use personal_computing_space.Runs.Keeping.{Keeps-set_record}
use personal_computing_space.Runs.Logged.{IsLoose, transition_case}

-- The record is in the state `t` or closed.
abbrev pub HasVerdict : RunState → RunRecord → Type 0
HasVerdict t r = (state_beq r.state t || state_beq r.state RunState.closed) ≡ true

target_over :
    (a : RunState) (e : Trigger) (to : RunState)
    → is_over a ≡ true
    → target a e ≡ some to
    → to ≡ RunState.closed
unfolding target
target_over a e to over t = ground arith

closed_verdict :
    (t a : RunState) → a ≡ RunState.closed → (state_beq a t || state_beq a RunState.closed) ≡ true
closed_verdict t a c = ground arith

over_of :
    (t a : RunState)
    → is_over t ≡ true
    → (state_beq a t || state_beq a RunState.closed) ≡ true
    → is_over a ≡ true
over_of t a over v = ground arith

pub HasVerdict-IsLoose : (t : RunState) → is_over t ≡ true → IsLoose (HasVerdict t)
HasVerdict-IsLoose t over = record {
  on_transition = λ now event reason. record {
    keeps = λ r i.
        transition_case (HasVerdict t) now event reason r
          (λ to p. closed_verdict t to (target_over r.state event to (over_of t r.state over i) p))
          i;
  };
  on_log = λ e n. record { keeps = λ r i. i };
  on_set = λ es st. Keeps-set_record λ r i. rw (st r) i;
}

pub verdict_refl : (t : RunState) → (state_beq t t || state_beq t RunState.closed) ≡ true
verdict_refl t = ground arith
