-- ===== src/Runs/Fencing.antt =====
-- Which reports `record_result` accepts, and what one that it refuses leaves.
use mathlib.Core.Path.{◌≡◌, refl, sym, subst}
use personal_computing_space.Shared.{
  ℕ, String, Bool, Bool-cases, inl, inr, ◌⊎◌, true, false, ◌||◌, arith, ◌==◌, ==_iff, nat_eq,
  string_eq, option_eq, Option, none, some,
}
use personal_computing_space.Shared.Json.{Json}
use personal_computing_space.Shared.Exec.{
  Exec, Code, Result, ok, err, value_error, execution_not_running, attribute_error,
  invalid_terminal_state, after, reply, resume, pure, ◌>>=◌, ◌>>◌,
}
use personal_computing_space.Runs.Defs.{RunState, TerminalState, RunRecord, Attempt}
use personal_computing_space.Runs.Actions.{get_record, assert, need, state_beq}
use personal_computing_space.Runs.Transition.{target, transition}
use personal_computing_space.Runs.Reports.{
  Report, Review, Validation, find_attempt, is_open, fence, review, failure,
}
use personal_computing_space.Runs.Results.{
  conclude, judged, judged_by, record_result, lacks_get, error_of, read_terminal,
}
use personal_computing_space.Runs.Keeping.{Keeps}
use personal_computing_space.Runs.Reading.{review-reads}

-- What a call came to: refused, and the record is as it was, or done, with `Q`.
abbrev pub Fate {ℓ} :
    {A : Type ℓ} → RunRecord → (A → RunRecord → Type 0) → RunRecord × Result A → Type 0
Fate r Q (s, err e) = s ≡ r
Fate r Q (s, ok a) = Q a s

-- the same of an action on `r`
pub record Comes {ℓ} {A : Type ℓ} (r : RunRecord) (Q : A → RunRecord → Type 0)
    (m : Exec RunRecord A) : Type 0 where
  pub fate : Fate r Q (m r)

module _ {ℓ κ} {A : Type ℓ} {B : Type κ} where
  pub Comes-bind :
      {r : RunRecord} {R : B → RunRecord → Type 0} {m : Exec RunRecord A} {f : A → Exec RunRecord B}
      (Q : A → RunRecord → Type 0)
      → Comes r Q m
      → ((a : A) (s : RunRecord) → Q a s → (s ≡ r) × Comes r R (f a))
      → Comes r R (m >>= f)
  Comes-bind {r = r} {R = R} {m = m} {f = f} Q q k = record { fate = resumed (m r) q.fate }
    where
      resumed : (p : RunRecord × Result A) → Fate r Q p → Fate r R (resume p f)
      resumed (s, ok a) q' = subst (λ t. Fate r R (f a t)) (sym (k a s q').0) (k a s q').1.fate
      resumed (s, err e) q' = q'

  pub Comes-need :
      {r : RunRecord} {R : B → RunRecord → Type 0} (c : Code) (f : A → Exec RunRecord B)
      (o : Option A)
      → ((a : A) → o ≡ some a → Comes r R (f a))
      → Comes r R (need o c >>= f)
  Comes-need c f none k = record { fate = refl }
  Comes-need c f (some a) k = record { fate = (k a refl).fate }

module _ {κ} {B : Type κ} where
  pub Comes-assert :
      {r : RunRecord} {R : B → RunRecord → Type 0} (c : Code) (m : Exec RunRecord B) (b : Bool)
      → (b ≡ true → Comes r R m)
      → Comes r R (assert b c >> m)
  Comes-assert c m true k = record { fate = (k refl).fate }
  Comes-assert c m false k = record { fate = refl }

  pub Comes-pure : {r : RunRecord} {R : B → RunRecord → Type 0} (b : B) → R b r → Comes r R (pure b)
  Comes-pure b q = record { fate = q }

  pub Comes-get :
      {r : RunRecord} {R : B → RunRecord → Type 0} (f : RunRecord → Exec RunRecord B)
      → Comes r R (f r)
      → Comes r R (get_record >>= f)
  Comes-get f k = record { fate = k.fate }

-- The report names an attempt of the current execution that may still report.
pub record Admitted (r : RunRecord) (report : Report) (a : Attempt) : Type 0 where
  pub running : r.state ≡ RunState.running
  pub named : find_attempt report.attempt_id r.attempts ≡ some a
  pub reported_epoch : report.execution_epoch ≡ some r.execution_epoch
  pub attempt_epoch : a.execution_epoch ≡ r.execution_epoch
  pub is_live : is_open a.state ≡ true
  pub execution : report.execution_id ≡ r.execution_id

state_beq_sound : (a b : RunState) → state_beq a b ≡ true → a ≡ b
state_beq_sound a b e = ground arith

admit :
    (r : RunRecord) (report : Report) (a : Attempt)
    → state_beq r.state RunState.running ≡ true
    → find_attempt report.attempt_id r.attempts ≡ some a
    → (report.execution_epoch == some r.execution_epoch) ≡ true
    → (a.execution_epoch == r.execution_epoch) ≡ true
    → is_open a.state ≡ true
    → (report.execution_id == r.execution_id) ≡ true
    → (r ≡ r) × Admitted r report a
admit r report a running named epoch own live execution = (
  refl,
  record {
    running = state_beq_sound _ _ running;
    named = named;
    reported_epoch = (==_iff report.execution_epoch (some r.execution_epoch)).0 epoch;
    attempt_epoch = (==_iff a.execution_epoch r.execution_epoch).0 own;
    is_live = live;
    execution = (==_iff report.execution_id r.execution_id).0 execution;
  },
)

fence-Admitted :
    (report : Report) (r : RunRecord)
    → Comes r (λ a s. (s ≡ r) × Admitted r report a) (fence report)
unfolding fence
fence-Admitted report r =
    search (Comes-get, Comes-assert, Comes-need, Comes-pure, admit) depth 20 fits 20000

-- where an accepted report leaves the Run
abbrev pub IsVerdict : RunRecord → Type 0
IsVerdict s =
    (state_beq s.state RunState.completed || state_beq s.state RunState.awaiting_decision) ≡ true

-- where a report ends that is carried out: in a verdict, or, after that, in the look at its error
abbrev Concluded : (String → Bool) → Option Json → RunRecord × Result (Unit {0}) → Type 0
Concluded z error (s, ok x) = IsVerdict s
Concluded z error (s, err e) =
    (e ≡ attribute_error) × ((lacks_get z error ≡ true) × (s.state ≡ RunState.awaiting_decision))

conclude-Concluded :
    (z : String → Bool) (now : ℕ) (report : Report) (b : Bool) (t : TerminalState)
    (error : Option Json) (r : RunRecord)
    → r.state ≡ RunState.running
    → Concluded z error (conclude z now report b t error r)
unfolding conclude transition target
conclude-Concluded z now report b t error r running =
    subst (λ a. Concluded z error (conclude z now report b t error (record r { state = a })))
      (sym running) (at_running t)
  where
    at_running :
        (t : TerminalState)
        → Concluded z error
            (conclude z now report b t error (record r { state = RunState.running }))
    at_running TerminalState.completed = refl
    at_running TerminalState.decision_required = refl
    at_running TerminalState.failed = elim (Bool-cases (lacks_get z error)) [
      | inl e ↦ rw e (refl, (e, refl))
      | inr e ↦ rw e refl
    ]

-- checks that only read
pub Keeps-Comes :
    {A : Type 0} {r : RunRecord} {m : Exec RunRecord A}
    → Keeps (λ s. s ≡ r) m
    → Comes r (λ a s. s ≡ r) m
Keeps-Comes {A = A} {r = r} {m = m} k = record { fate = read (m r) (k.keeps r refl) }
  where
    read : (p : RunRecord × Result A) → p.0 ≡ r → Fate r (λ a s. s ≡ r) p
    read (s, ok a) e = e
    read (s, err c) e = e

pub Comes-map :
    {A : Type 0} {r : RunRecord} {Q R : A → RunRecord → Type 0} {m : Exec RunRecord A}
    → ((a : A) (s : RunRecord) → Q a s → R a s)
    → Comes r Q m
    → Comes r R m
Comes-map {A = A} {r = r} {Q = Q} {R = R} {m = m} f q = record { fate = mapped (m r) q.fate }
  where
    mapped : (p : RunRecord × Result A) → Fate r Q p → Fate r R p
    mapped (s, ok a) x = f a s x
    mapped (s, err e) x = x

-- A report that broke off in the look at its error, with what was written before.
abbrev pub BrokeOff : (String → Bool) → RunRecord → Report → RunRecord → Type 0
BrokeOff z r report s =
    ((a : Attempt) × Admitted r report a)
    × ((lacks_get z report.terminal_error ≡ true) × (s.state ≡ RunState.awaiting_decision))

-- What a report came to.
abbrev pub Reported : (String → Bool) → RunRecord → Report → RunRecord × Result (Unit {0}) → Type 0
Reported z r report (s, ok x) = ((a : Attempt) × Admitted r report a) × IsVerdict s
Reported z r report (s, err e) = (s ≡ r) ⊎ ((e ≡ attribute_error) × BrokeOff z r report s)

module _ (z : String → Bool) (r : RunRecord) (report : Report) (a : Attempt)
    (admitted : Admitted r report a) where
  no_get :
      (o : Option Json)
      → lacks_get z (error_of o report.terminal_error) ≡ true
      → lacks_get z report.terminal_error ≡ true
  no_get none e = e
  no_get (some errors) e = ground arith

  Concluded-Reported :
      (o : Option Json) (p : RunRecord × Result (Unit {0}))
      → Concluded z (error_of o report.terminal_error) p
      → Reported z r report p
  Concluded-Reported o (s, ok x) c = ((a, admitted), c)
  Concluded-Reported o (s, err e) c = inr (c.0, ((a, admitted), (no_get o c.1.0, c.1.1)))

  rejected-Reported :
      (errors : Json) (p : RunRecord × Result (Unit {0}))
      → Concluded z (some (failure "output_schema_mismatch" errors)) p
      → Reported z r report p
  rejected-Reported errors (s, ok x) c = ((a, admitted), c)
  rejected-Reported errors (s, err e) c = ground arith

  judged_by-Reported :
      (now : ℕ) (findings : Review) (o : Option Json)
      → Reported z r report (judged_by z now report findings o r)
  judged_by-Reported now findings (some errors) = rejected-Reported errors _ (
      conclude-Concluded z now report findings.has_schema TerminalState.failed
        (some (failure "output_schema_mismatch" errors)) r admitted.running)
  judged_by-Reported now findings none = by_terminal (read_terminal report.terminal_state)
    where
      by_terminal :
          (t : Option TerminalState)
          → Reported z r report (
              resume (need t invalid_terminal_state r) (λ terminal.
                conclude z now report findings.has_schema
                  (judged findings.validator_failure terminal)
                  (error_of findings.validator_failure report.terminal_error)))
      by_terminal none = inl refl
      by_terminal (some t) = Concluded-Reported findings.validator_failure _ (
          conclude-Concluded z now report findings.has_schema (judged findings.validator_failure t)
            (error_of findings.validator_failure report.terminal_error) r admitted.running)

-- an action on `r` that only checks, and what follows it
checked-Reported :
    {A : Type 0} (z : String → Bool) (r : RunRecord) (report : Report) (Q : A → RunRecord → Type 0)
    (f : A → Exec RunRecord (Unit {0})) (p : RunRecord × Result A)
    → Fate r Q p
    → ((a : A) (s : RunRecord) → Q a s → (s ≡ r) × Reported z r report (f a r))
    → Reported z r report (resume p f)
checked-Reported z r report Q f (s, ok a) q k =
    subst (λ t. Reported z r report (f a t)) (sym (k a s q).0) (k a s q).1
checked-Reported z r report Q f (s, err e) q k = inl q

pub record_result-Fate :
    (v : Validation) (now : ℕ) (report : Report) (r : RunRecord)
    → Reported v.is_zero r report (record_result v now report r)
unfolding record_result
record_result-Fate v now report r =
    checked-Reported v.is_zero r report (λ a s. (s ≡ r) × Admitted r report a) _ (fence report r)
      (fence-Admitted report r).fate
      λ a s p. (
        p.0,
        checked-Reported v.is_zero r report (λ f s. s ≡ r) _ (review v report r)
            (Keeps-Comes (review-reads v report)).fate
            λ findings t e.
              (e, judged_by-Reported v.is_zero r report a p.1 now findings findings.schema_failure),
      )

refused_unless_running :
    (v : Validation) (now : ℕ) (report : Report) (r : RunRecord)
    → state_beq r.state RunState.running ≡ false
    → record_result v now report r ≡ (r, err (value_error execution_not_running))
unfolding record_result fence
refused_unless_running v now report r e = rw e refl

verdict_not_running :
    (a : RunState)
    → (state_beq a RunState.completed || state_beq a RunState.awaiting_decision) ≡ true
    → state_beq a RunState.running ≡ false
verdict_not_running a e = ground arith

answered :
    (z : String → Bool) (r : RunRecord) (report : Report) (p : RunRecord × Result (Unit {0}))
    → Reported z r report p
    → p.1 ≡ ok tt
    → IsVerdict p.0
answered z r report (s, ok x) q e = q.1
answered z r report (s, err c) q e = ground arith

-- A report that comes right after an accepted one is refused, as the Run is not running any more, and
-- changes nothing.
pub record_result_once :
    (v w : Validation) (now later : ℕ) (report again : Report) (r : RunRecord)
    → reply (record_result v now report) r ≡ ok tt
    → record_result w later again (after (record_result v now report) r)
      ≡ (after (record_result v now report) r, err (value_error execution_not_running))
record_result_once v w now later report again r accepted = refused_unless_running w later again _ (
    verdict_not_running _
      (answered v.is_zero r report _ (record_result-Fate v now report r) accepted))
