-- ===== src/Runs/Logged.antt =====
-- The event log of a Run replayed: the state that the transitions in it lead to.
use mathlib.Core.Path.{◌≡◌, refl}
use personal_computing_space.Shared.{
  ℕ, Bool, true, false, ◌&&◌, Option, none, some, List, [], ◌∷◌, ◌++◌, if◌then◌else◌,
}
use personal_computing_space.Shared.Json.{Json}
use personal_computing_space.Shared.Exec.{
  Result, after, ok, err, value_error, illegal_state_transition,
}
use personal_computing_space.Runs.Defs.{RunState, Trigger, Event, run_transition, RunRecord}
use personal_computing_space.Runs.Actions.{log, set_record, state_beq}
use personal_computing_space.Runs.Transition.{target, transition, moved, guarded}
use personal_computing_space.Nodes.Orderly.{Orders}
use personal_computing_space.Runs.Keeping.{Keeps, Keeps-set_record}

abbrev is_target : Option RunState → RunState → Bool
is_target none b = false
is_target (some a) b = state_beq a b

-- one entry of the log: a transition has to start in the state reached and be in the table
abbrev pub step : RunState → Event → Option RunState
step s (run_transition event a b reason now) =
    if state_beq a s && is_target (target s event) b then some b else none
step s _ = some s

abbrev continued : Option RunState → Event → Option RunState
continued none e = none
continued (some s) e = step s e

-- The state that the log leads to from `s`, if it is a chain of transitions of the table.
unfoldable pub replay : RunState → List Event → Option RunState
replay s [] = some s
replay s (e ∷ es) = elim (step s e) [ none ↦ none | some t ↦ replay t es ]

abbrev pub IsLogged : RunRecord → Type 0
IsLogged r = replay RunState.opened r.events ≡ some r.state

replay-append :
    (s : RunState) (es : List Event) (e : Event)
    → replay s (es ++ e ∷ []) ≡ continued (replay s es) e
unfolding replay
replay-append s [] e = last (step s e)
  where
    last : (o : Option RunState) → elim o [ none ↦ none | some t ↦ some t ] ≡ o
    last none = refl
    last (some t) = refl
replay-append s (d ∷ es) e = rest (step s d) (λ t. replay-append t es e)
  where
    rest :
        (o : Option RunState)
        → ((t : RunState) → replay t (es ++ e ∷ []) ≡ continued (replay t es) e)
        → elim o [ none ↦ none | some t ↦ replay t (es ++ e ∷ []) ]
          ≡ continued (elim o [ none ↦ none | some t ↦ replay t es ]) e
    rest none h = refl
    rest (some t) h = h t

-- an entry that is no transition
abbrev pub IsNote : Event → Type 0
IsNote e = (s : RunState) → step s e ≡ some s

log-IsLogged : (e : Event) → IsNote e → Keeps IsLogged (log e)
log-IsLogged e n = record { keeps = λ r i. rw replay-append (rw i (n r.state)) }

state_beq_refl : (s : RunState) → state_beq s s ≡ true
state_beq_refl RunState.opened = refl
state_beq_refl RunState.thinking = refl
state_beq_refl RunState.committed = refl
state_beq_refl RunState.running = refl
state_beq_refl RunState.awaiting_decision = refl
state_beq_refl RunState.completed = refl
state_beq_refl RunState.failed = refl
state_beq_refl RunState.cancelled = refl
state_beq_refl RunState.closed = refl

moved-IsLogged :
    (now : ℕ) (event : Trigger) (reason : Option Json) (to : RunState) (r : RunRecord)
    → target r.state event ≡ some to
    → IsLogged r
    → IsLogged (moved now event reason to r)
moved-IsLogged now event reason to r t i =
    rw replay-append (rw i (rw (state_beq_refl r.state) (rw t (rw (state_beq_refl to) refl))))

-- the transition, on what the table has
unfoldable attempted :
    ℕ → Trigger → Option Json → RunRecord → Option RunState → RunRecord × Result RunState
attempted now event reason r none = (r, err (value_error illegal_state_transition))
attempted now event reason r (some to) =
    if guarded r.state event r.outcome
    then (moved now event reason to r, ok to)
    else (r, err (value_error illegal_state_transition))

module _ (I : RunRecord → Type 0) (now : ℕ) (event : Trigger) (reason : Option Json) where
  either :
      (m n : RunRecord × Result RunState) (b : Bool)
      → I (m.0)
      → I (n.0)
      → I ((if b then m else n).0)
  either m n true k l = k
  either m n false k l = l

  attempted_case :
      (r : RunRecord) (o : Option RunState)
      → ((to : RunState) → o ≡ some to → I (moved now event reason to r))
      → I r
      → I ((attempted now event reason r o).0)
  unfolding attempted
  attempted_case r none t i = i
  attempted_case r (some to) t i = either _ _ (guarded r.state event r.outcome) (t to refl) i

  -- A transition that the table has keeps `I` if the record it leads to has it.
  pub transition_case :
      (r : RunRecord)
      → ((to : RunState) → target r.state event ≡ some to → I (moved now event reason to r))
      → I r
      → I (after (transition now event reason) r)
  unfolding transition attempted
  transition_case r t i = attempted_case r (target r.state event) t i

transition-IsLogged :
    (now : ℕ) (event : Trigger) (reason : Option Json)
    → Keeps IsLogged (transition now event reason)
transition-IsLogged now event reason = record {
  keeps = λ r i.
      transition_case IsLogged now event reason r (λ to t. moved-IsLogged now event reason to r t i)
        i;
}

set-IsLogged :
    {f : RunRecord → RunRecord}
    → ((r : RunRecord) → (f r).events ≡ r.events)
    → ((r : RunRecord) → (f r).state ≡ r.state)
    → Keeps IsLogged (set_record f)
set-IsLogged es st = Keeps-set_record λ r i. rw (es r) (rw (st r) i)

-- A predicate that the calls of the lifecycle keep, because the actions that they are made of do: a
-- transition, an entry of the log that is none, and a change of other fields, which keeps the order
-- between nodes and attempts.
pub record IsStable (I : RunRecord → Type 0) : Type 0 where
  pub on_transition :
      (now : ℕ) (event : Trigger) (reason : Option Json) → Keeps I (transition now event reason)
  pub on_log : (e : Event) → IsNote e → Keeps I (log e)
  pub on_set :
      {f : RunRecord → RunRecord}
      → ((r : RunRecord) → (f r).events ≡ r.events)
      → ((r : RunRecord) → (f r).state ≡ r.state)
      → Orders f
      → Keeps I (set_record f)

-- A predicate that every change of other fields keeps.
pub record IsLoose (I : RunRecord → Type 0) : Type 0 where
  pub on_transition :
      (now : ℕ) (event : Trigger) (reason : Option Json) → Keeps I (transition now event reason)
  pub on_log : (e : Event) → IsNote e → Keeps I (log e)
  pub on_set :
      {f : RunRecord → RunRecord}
      → ((r : RunRecord) → (f r).events ≡ r.events)
      → ((r : RunRecord) → (f r).state ≡ r.state)
      → Keeps I (set_record f)

pub IsLoose-IsStable : {I : RunRecord → Type 0} → IsLoose I → IsStable I
IsLoose-IsStable l = record {
  on_transition = l.on_transition;
  on_log = l.on_log;
  on_set = λ es st o. l.on_set es st;
}

pub IsLogged-IsLoose : IsLoose IsLogged
IsLogged-IsLoose = record {
  on_transition = transition-IsLogged;
  on_log = log-IsLogged;
  on_set = set-IsLogged;
}
