-- ===== src/Activation/Reports.antt =====
-- What becomes of a health report.
use mathlib.Core.Path.{sym, ap, ◌∙◌}
use personal_computing_space.Shared.{
  ℕ, ltb, String, Bool, true, false, Option, none, some, List, [], ◌∷◌, ◌==◌, ==_iff, if◌then◌else◌,
  nat_eq, string_eq, ◌≡◌, refl, ◌⊎◌, inl, inr, arith, ◌++◌, Bool-cases,
}
use personal_computing_space.Shared.Json.{Json}
use personal_computing_space.Shared.Exec.{
  future_activation_revision, health_report_id_reused, stale_activation_revision,
  activation_state_transition_invalid, Result, ok, err, value_error,
  capability_package_digest_mismatch,
}
use personal_computing_space.Activation.Calls.{
  Package, Activation, ActivationState, HealthReport, ActivationEvent, health_reported,
  desired_state_changed, ActivationRecord, state_beq, current, replaced,
}
use personal_computing_space.Activation.Revisions.{current-replaced}
use personal_computing_space.Activation.Health.{
  is_allowed, previous, same_report, reported, is_news, updated, stored, Finding, repetition,
  health_decision, noted, record_capability_health,
}

-- An entry of the log that is a health report with the given id.
abbrev pub IsReportOf : String → HealthReport → ActivationEvent → Type 0
IsReportOf id old (health_reported ref h desired t) = (h ≡ old) × (old.report_id ≡ id)
IsReportOf id old e = ⊥

-- A report with the id is in the log.
abbrev pub HasReport : String → HealthReport → List ActivationEvent → Type 0
HasReport id old [] = ⊥
HasReport id old (e ∷ es) = IsReportOf id old e ⊎ HasReport id old es

-- The report has been taken before, with the same contents: nothing changes.
abbrev pub Repeats :
    (Option Json → Option Json → Bool)
    → HealthReport
    → ActivationRecord
    → Activation
    → ActivationRecord
    → Activation
    → Type 0
Repeats same h r a s b =
    ((old : HealthReport) × HasReport h.report_id old r.events × (same_report same old h ≡ true))
    × ((s ≡ r) × (b ≡ a))

-- No report with the id has been taken: a move that the table allows is made, and stored, with one new
-- entry in the log.
abbrev pub Moves :
    Package → HealthReport → ActivationRecord → Activation → ActivationRecord → Activation → Type 0
Moves p h r a s b =
    ((old : HealthReport) → ¬ HasReport h.report_id old r.events)
    × ((is_allowed a.activation_state h.activation_state ≡ true)
        × ((b.activation_state ≡ h.activation_state)
            × ((current p.version_ref h.target_slave s.activations ≡ some b)
                × ((t : ℕ) × (s.events
                      ≡ r.events ++ health_reported p.version_ref h b.desired_state t ∷ [])))))

-- `a` is the activation that the report is about, of the revision that it names.
abbrev pub Accepts :
    (Option Json → Option Json → Bool)
    → Package
    → HealthReport
    → ActivationRecord
    → Activation
    → ActivationRecord
    → Activation
    → Type 0
Accepts same p h r a s b =
    (current p.version_ref h.target_slave r.activations ≡ some a)
    × ((a.activation_revision ≡ h.activation_revision)
        × (Repeats same h r a s b ⊎ Moves p h r a s b))

abbrev pub Answer :
    (Option Json → Option Json → Bool)
    → Package
    → HealthReport
    → ActivationRecord
    → ActivationRecord × Result Activation
    → Type 0
Answer same p h r (s, err e) = s ≡ r
Answer same p h r (s, ok b) = (a : Activation) × Accepts same p h r a s b

current_is_for :
    (ref target : String) (l : List Activation) (a : Activation)
    → current ref target l ≡ some a
    → (a.package_version_ref ≡ ref) × (a.target_slave ≡ target)
unfolding current
current_is_for ref target [] a e = ground arith
current_is_for ref target (x ∷ l) a e = ground (
  arith,
  ==_iff x.package_version_ref ref,
  ==_iff x.target_slave target,
  current_is_for ref target l a,
)

state_sound : (a b : ActivationState) → state_beq a b ≡ true → a ≡ b
state_sound a b e = ground arith

updated_state :
    (h : HealthReport) (a : Activation) → (updated h a).activation_state ≡ h.activation_state
updated_state h a =
    chosen (is_news h a)
      (λ e. sym (state_sound h.activation_state a.activation_state (ground (arith, e))))
  where
    chosen :
        (b : Bool)
        → (b ≡ false → a.activation_state ≡ h.activation_state)
        → (if b then reported h a else a).activation_state ≡ h.activation_state
    chosen true k = refl
    chosen false k = k refl

stored_current :
    (p : Package) (h : HealthReport) (a : Activation) (l : List Activation)
    → current p.version_ref h.target_slave l ≡ some a
    → current p.version_ref h.target_slave (stored p h a l) ≡ some (updated h a)
stored_current p h a l e = by_news (is_news h a)
  where
    by_news :
        (b : Bool)
        → current p.version_ref h.target_slave
            (if b then replaced p.version_ref h.target_slave (reported h a) l else l)
          ≡ some (if b then reported h a else a)
    by_news true = ground (
      arith,
      current-replaced p.version_ref h.target_slave p.version_ref h.target_slave (reported h a) l
          (current_is_for p.version_ref h.target_slave l a e).0
          (current_is_for p.version_ref h.target_slave l a e).1,
      (==_iff p.version_ref p.version_ref).1 refl,
      (==_iff h.target_slave h.target_slave).1 refl,
    )
    by_news false = e

previous-some :
    (id : String) (es : List ActivationEvent) (old : HealthReport)
    → previous id es ≡ some old
    → HasReport id old es
unfolding previous
previous-some id [] old e = ground arith
previous-some id (health_reported ref h desired t ∷ es) old e =
    elim (Bool-cases (h.report_id == id)) [
      | inl q ↦ inl (found (rw q at e) ((==_iff h.report_id id).0 q))
      | inr q ↦ inr (previous-some id es old (rw q at e))
    ]
  where
    found : some h ≡ some old → h.report_id ≡ id → (h ≡ old) × (old.report_id ≡ id)
    found e q = ground arith
previous-some id (desired_state_changed a b c d n k t ∷ es) old e = inr (previous-some id es old e)

previous-none :
    (id : String) (es : List ActivationEvent) (old : HealthReport)
    → previous id es ≡ none
    → HasReport id old es
    → ⊥
unfolding previous
previous-none id [] old e m = m
previous-none id (health_reported ref h desired t ∷ es) old e (inl m) =
    ground (arith, (==_iff h.report_id id).1 (ap (λ x. x.report_id) m.0 ∙ m.1))
previous-none id (health_reported ref h desired t ∷ es) old e (inr m) =
    previous-none id es old (later (h.report_id == id) e) m
  where
    later : (b : Bool) → (if b then some h else previous id es) ≡ none → previous id es ≡ none
    later true e = ground arith
    later false e = e
previous-none id (desired_state_changed a b c d n k t ∷ es) old e (inl m) = m
previous-none id (desired_state_changed a b c d n k t ∷ es) old e (inr m) =
    previous-none id es old e m

module _ (same : Option Json → Option Json → Bool) (p : Package) (h : HealthReport)
    (r : ActivationRecord) where
  -- what a finding says of the activation it names, and of the log
  abbrev IsGrounded : Option Activation → Finding → Type 0
  IsGrounded o (Finding.refused c) = Unit
  IsGrounded o (Finding.repeated a) =
      ((o ≡ some a) × (a.activation_revision ≡ h.activation_revision))
      × ((old : HealthReport) × HasReport h.report_id old r.events
          × (same_report same old h ≡ true))
  IsGrounded o (Finding.taken a) =
      ((o ≡ some a) × (a.activation_revision ≡ h.activation_revision))
      × ((is_allowed a.activation_state h.activation_state ≡ true)
          × ((old : HealthReport) → ¬ HasReport h.report_id old r.events))

  repetition-IsGrounded :
      (a : Activation) (found : Option HealthReport)
      → previous h.report_id r.events ≡ found
      → a.activation_revision ≡ h.activation_revision
      → IsGrounded (some a) (repetition same h a found)
  repetition-IsGrounded a none f e =
      by_table (is_allowed a.activation_state h.activation_state) refl
    where
      by_table :
          (b : Bool)
          → is_allowed a.activation_state h.activation_state ≡ b
          → IsGrounded
              (some a)
              (if b then Finding.taken a else Finding.refused activation_state_transition_invalid)
      by_table true t = ((refl, e), (t, λ old. previous-none h.report_id r.events old f))
      by_table false t = tt
  repetition-IsGrounded a (some old) f e = by_report (same_report same old h) refl
    where
      by_report :
          (b : Bool)
          → same_report same old h ≡ b
          → IsGrounded
              (some a)
              (if b then Finding.repeated a else Finding.refused health_report_id_reused)
      by_report true t = ((refl, e), (old, previous-some h.report_id r.events old f, t))
      by_report false t = tt

  decision-IsGrounded : (o : Option Activation) → IsGrounded o (health_decision same p h r o)
  unfolding health_decision
  decision-IsGrounded none = tt
  decision-IsGrounded (some a) =
      by_revision (ltb h.activation_revision a.activation_revision)
        (ltb a.activation_revision h.activation_revision) refl refl
    where
      by_revision :
          (x y : Bool)
          → ltb h.activation_revision a.activation_revision ≡ x
          → ltb a.activation_revision h.activation_revision ≡ y
          → IsGrounded (some a) (
              if x
              then Finding.refused stale_activation_revision
              else if y
              then Finding.refused future_activation_revision
              else repetition same h a (previous h.report_id r.events))
      by_revision true y e f = tt
      by_revision false true e f = tt
      by_revision false false e f = repetition-IsGrounded a _ refl (ground (arith, e, f))

  noted-Answer :
      (now : ℕ) (f : Finding)
      → IsGrounded (current p.version_ref h.target_slave r.activations) f
      → Answer same p h r (noted now p h f r)
  noted-Answer now (Finding.refused c) g = refl
  noted-Answer now (Finding.repeated a) g = (a, (g.0.0, (g.0.1, inl (g.1, (refl, refl)))))
  noted-Answer now (Finding.taken a) g = (
    a,
    (
      g.0.0,
      (
        g.0.1,
        inr (
          g.1.1,
          (g.1.0, (updated_state h a, (stored_current p h a r.activations g.0.0, (now, refl)))),
        ),
      ),
    ),
  )

-- A report is accepted only for an activation that is there and for its current revision. If the log has a
-- report of the same id, it must have the same contents, and nothing changes; if it has none, the move
-- is one that the table of transitions allows, the stored activation is then in the state reported, and
-- the log has the report as its one new entry. A report that is refused changes nothing.
pub record_capability_health-Answer :
    (same : Option Json → Option Json → Bool) (now : ℕ) (p : Package) (h : HealthReport)
    (r : ActivationRecord)
    → Answer same p h r (record_capability_health same now p h r)
unfolding record_capability_health
record_capability_health-Answer same now p h r = by_digest (p.package_digest == h.package_digest)
  where
    by_digest :
        (b : Bool)
        → Answer same p h r (
            if b
            then noted now p h
                (health_decision same p h r (current p.version_ref h.target_slave r.activations))
                r
            else (r, err (value_error capability_package_digest_mismatch)))
    by_digest true = noted-Answer same p h r now _ (decision-IsGrounded same p h r _)
    by_digest false = refl
