-- ===== src/Shared/Classes.antt =====
-- Equality of keys: `==` of the source on strings, integers, and tuples of them.
use Prim.Native.Nat.{ℕ}
use Prim.Native.String.{String}
use mathlib.Core.Path.{◌≡◌, refl, ap}
use mathlib.Core.Logic.{◌↔◌}
use mathlib.Core.Bool.{Bool, true, false, ◌&&◌}
use mathlib.Core.Option.{Option, none, some}
use native.Mathlib.Omega.{arith}
use text.Mathlib.Text.{◌==◌ as str_eq}
use text.Mathlib.TextEquality.{eq_iff}
use personal_computing_space.Shared.Tests.{nat_beq, nat_beq_iff}

unfoldable pub string_beq : String → String → Bool
string_beq s t = str_eq s t

pub string_beq_iff : (s t : String) → (string_beq s t ≡ true) ↔ (s ≡ t)
unfolding string_beq
string_beq_iff s t = eq_iff s t

pub record HasEq {ℓ} (A : Type ℓ) : Type ℓ where
  pub eqb : A → A → Bool
  pub eqb_iff : (a b : A) → (eqb a b ≡ true) ↔ (a ≡ b)

infix 50 ◌==◌
abbrev pub ◌==◌ {ℓ} : {A : Type ℓ} ⦃e : HasEq A⦄ → A → A → Bool
◌==◌ ⦃e⦄ = e.eqb

pub ==_iff {ℓ} : {A : Type ℓ} ⦃e : HasEq A⦄ (a b : A) → (a == b ≡ true) ↔ (a ≡ b)
==_iff ⦃e⦄ a b = e.eqb_iff a b

instance abbrev pub nat_eq : HasEq ℕ
nat_eq = record { eqb = nat_beq; eqb_iff = nat_beq_iff }

instance abbrev pub string_eq : HasEq String
string_eq = record { eqb = string_beq; eqb_iff = string_beq_iff }

module _ {ℓ κ} {A : Type ℓ} {B : Type κ} ⦃ea : HasEq A⦄ ⦃eb : HasEq B⦄ where
  unfoldable pub pair_beq : A × B → A × B → Bool
  pair_beq (a, b) (c, d) = (a == c) && (b == d)

  pub pair_beq_iff : (p q : A × B) → (pair_beq p q ≡ true) ↔ (p ≡ q)
  unfolding pair_beq
  pair_beq_iff (a, b) (c, d) = (
    λ h. ground (arith, ea.eqb_iff a c, eb.eqb_iff b d),
    λ h. ground (
      arith,
      (ea.eqb_iff a c).1 (ap (λ (r : A × B). r.0) h),
      (eb.eqb_iff b d).1 (ap (λ (r : A × B). r.1) h),
    ),
  )

  instance abbrev pub pair_eq : HasEq (A × B)
  pair_eq = record { eqb = pair_beq; eqb_iff = pair_beq_iff }

module _ {ℓ} {A : Type ℓ} ⦃e : HasEq A⦄ where
  abbrev pub option_beq : Option A → Option A → Bool
  option_beq none none = true
  option_beq none (some b) = false
  option_beq (some a) none = false
  option_beq (some a) (some b) = a == b

  pub option_beq_iff : (p q : Option A) → (option_beq p q ≡ true) ↔ (p ≡ q)
  option_beq_iff none none = (λ h. refl, λ h. refl)
  option_beq_iff none (some b) = (λ h. cc, λ h. cc)
  option_beq_iff (some a) none = (λ h. cc, λ h. cc)
  option_beq_iff (some a) (some b) =
      (λ h. ap some ((e.eqb_iff a b).0 h), λ h. (e.eqb_iff a b).1 (ground arith))

  instance abbrev pub option_eq : HasEq (Option A)
  option_eq = record { eqb = option_beq; eqb_iff = option_beq_iff }
