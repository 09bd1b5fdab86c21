-- ===== src/Activation/Revisions.antt =====
-- A request of a desired state, and what it does to the revisions.
use personal_computing_space.Shared.{
  ℕ, ◌+◌, String, Bool, true, false, ◌&&◌, Option, none, some, List, [], ◌∷◌, ◌==◌, ==_iff,
  if◌then◌else◌, ◌≡◌, refl, ◌⊎◌, inl, inr, string_eq, arith,
}
use mathlib.Core.Path.{subst, ap, ap₂, sym}
use personal_computing_space.Shared.Exec.{Code, Result, ok, after, reply}
use personal_computing_space.Activation.Calls.{
  Package, DesiredState, Activation, ActivationRecord, Request, desired_beq, current, replaced,
  request_decision, carried_out, unless_guarded, set_capability_desired, desired_of, requested,
  guard_of,
}

pub current-replaced :
    (ref target : String) (p t : String) (new : Activation) (l : List Activation)
    → new.package_version_ref ≡ p
    → new.target_slave ≡ t
    → current ref target (replaced p t new l)
      ≡ (if (p == ref) && (t == target) then some new else current ref target l)
unfolding current replaced
current-replaced ref target p t new [] e f = ground (arith, e, f)
current-replaced ref target p t new (a ∷ l) e f = ground (
  arith,
  e,
  f,
  current-replaced ref target p t new l e f,
  ==_iff p ref,
  ==_iff t target,
  ==_iff a.package_version_ref p,
  ==_iff a.target_slave t,
  ==_iff a.package_version_ref ref,
  ==_iff a.target_slave target,
)

-- an activation stays as it is, or gets the next revision, and is not lost
abbrev pub IsNext : Option Activation → Option Activation → Type 0
IsNext none b = Unit
IsNext (some a) none = ⊥
IsNext (some a) (some b) = (a ≡ b) ⊎ (b.activation_revision ≡ a.activation_revision + 1)

IsNext-refl : (o : Option Activation) → IsNext o o
IsNext-refl none = tt
IsNext-refl (some a) = inl refl

module _ (now : ℕ) (p : Package) (target : String) (desired : DesiredState)
    (key closure binding : String) where
  desired_of-IsNext :
      (b : Bool) (o old : Option Activation)
      → (b ≡ true → o ≡ old)
      → IsNext o (if b then some (desired_of p target desired key closure binding old) else o)
  desired_of-IsNext true none old h = tt
  desired_of-IsNext true (some a) old h =
      subst (λ x. IsNext (some a) (some (desired_of p target desired key closure binding x)))
        (h refl) (inr refl)
  desired_of-IsNext false o old h = IsNext-refl o

  same_key :
      (ref t : String) (l : List Activation)
      → ((p.version_ref == ref) && (target == t)) ≡ true
      → current ref t l ≡ current p.version_ref target l
  same_key ref t l e =
      ap₂ (λ x y. current x y l) (sym ((==_iff p.version_ref ref).0 (ground (arith, e))))
        (sym ((==_iff target t).0 (ground (arith, e))))

  carried_out-IsNext :
      (q : Request) (r : ActivationRecord) (ref t : String)
      → IsNext (current ref t r.activations) (
          current ref t
            (after (carried_out now p target desired key closure binding q) r).activations)
  carried_out-IsNext (Request.refused c) r ref t = IsNext-refl _
  carried_out-IsNext (Request.answered a) r ref t = IsNext-refl _
  carried_out-IsNext Request.next r ref t =
      subst (IsNext (current ref t r.activations))
        (sym (current-replaced ref t p.version_ref target _ r.activations refl refl))
        (desired_of-IsNext ((p.version_ref == ref) && (target == t)) (current ref t r.activations) _
          (same_key ref t r.activations))

  unless_guarded-IsNext :
      (g : Option Code) (q : Request) (r : ActivationRecord) (ref t : String)
      → IsNext (current ref t r.activations) (
          current ref t
            (after
              (unless_guarded g (carried_out now p target desired key closure binding q))
              r).activations)
  unless_guarded-IsNext none q r ref t = carried_out-IsNext q r ref t
  unless_guarded-IsNext (some c) q r ref t = IsNext-refl _

-- After a request of a desired state each activation of the record is as it was or has the next
-- revision, and none is lost.
pub set_capability_desired-IsNext :
    (now : ℕ) (p : Package) (target : String) (desired : DesiredState) (key : String)
    (workspace : Option String) (closure binding : String) (rebuild : Bool) (r : ActivationRecord)
    (ref t : String)
    → IsNext (current ref t r.activations) (
        current ref t
          (after
            (set_capability_desired now p target desired key workspace closure binding rebuild)
            r).activations)
unfolding set_capability_desired
set_capability_desired-IsNext now p target desired key workspace closure binding rebuild r ref t =
    unless_guarded-IsNext now p target desired key closure binding
      (guard_of p target key workspace r) _ r ref t

desired_beq_refl : (d : DesiredState) → desired_beq d d ≡ true
desired_beq_refl DesiredState.running = refl
desired_beq_refl DesiredState.stopped = refl

module _ (p : Package) (target : String) (desired : DesiredState) (key : String)
    (workspace : Option String) (closure binding : String) (rebuild : Bool) where
  new_answered :
      (old : Option Activation)
      → request_decision p desired key rebuild
          (some (desired_of p target desired key closure binding old))
        ≡ Request.answered (desired_of p target desired key closure binding old)
  unfolding request_decision
  new_answered old =
      rw ((==_iff p.package_digest p.package_digest).1 refl)
        (rw ((==_iff key key).1 refl) (rw (desired_beq_refl desired) refl))

  new_current :
      (new : Activation) (l : List Activation)
      → new.package_version_ref ≡ p.version_ref
      → new.target_slave ≡ target
      → current p.version_ref target (replaced p.version_ref target new l) ≡ some new
  new_current new l e f = ground (
    arith,
    current-replaced p.version_ref target p.version_ref target new l e f,
    (==_iff p.version_ref p.version_ref).1 refl,
    (==_iff target target).1 refl,
  )

  -- what a request comes to, by its guard and its decision
  abbrev came_to :
      ℕ → Option Code → Request → ActivationRecord → ActivationRecord × Result Activation
  came_to now g q r = unless_guarded g (carried_out now p target desired key closure binding q) r

  again_from :
      (now later : ℕ) (r : ActivationRecord) (a : Activation) (g : Option Code) (q : Request)
      → guard_of p target key workspace r ≡ g
      → request_decision p desired key rebuild (current p.version_ref target r.activations) ≡ q
      → (came_to now g q r).1 ≡ ok a
      → set_capability_desired later p target desired key workspace closure binding rebuild
          ((came_to now g q r).0)
        ≡ ((came_to now g q r).0, ok a)
  unfolding set_capability_desired
  again_from now later r a (some c) q eg eq e = ground arith
  again_from now later r a none (Request.refused c) eg eq e = ground arith
  again_from now later r a none (Request.answered b) eg eq e = rw eg (rw eq (ap (λ x. (r, x)) e))
  again_from now later r a none Request.next eg eq e =
      let old = current p.version_ref target r.activations in
      let new = desired_of p target desired key closure binding old in
      rw eg (
        rw (new_current new r.activations refl refl)
          (rw (new_answered old) (ap (λ x. (requested now p target key desired new r, x)) e)))

-- The same request again, later, is answered with the activation that the first one was answered with,
-- and changes nothing.
pub set_capability_desired_again :
    (now later : ℕ) (p : Package) (target : String) (desired : DesiredState) (key : String)
    (workspace : Option String) (closure binding : String) (rebuild : Bool) (r : ActivationRecord)
    (a : Activation)
    → reply (set_capability_desired now p target desired key workspace closure binding rebuild) r
      ≡ ok a
    → set_capability_desired later p target desired key workspace closure binding rebuild (
        after (set_capability_desired now p target desired key workspace closure binding rebuild) r)
      ≡ (
        after (set_capability_desired now p target desired key workspace closure binding rebuild) r,
        ok a,
      )
unfolding set_capability_desired
set_capability_desired_again now later p target desired key workspace closure binding rebuild r a
      e =
    again_from p target desired key workspace closure binding rebuild now later r a _ _ refl refl e
