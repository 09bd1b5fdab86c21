-- ===== src/Nodes/At.antt =====
-- What a call keeps of the record it is made on: a guard may be used for what comes after it.
use mathlib.Core.Path.{◌≡◌, refl, sym, subst}
use personal_computing_space.Shared.{Bool, true, false, Option, none, some}
use personal_computing_space.Shared.Exec.{Exec, Code, Result, ok, err, after, resume, ◌>>=◌, ◌>>◌}
use personal_computing_space.Runs.Defs.{RunRecord}
use personal_computing_space.Runs.Actions.{get_record, set_record, assert, need}
use personal_computing_space.Runs.Keeping.{Keeps}
use personal_computing_space.Runs.Fencing.{Fate, Comes}

-- `I` holds after `m` on `r` if it held before.
pub record KeepsAt {ℓ} {A : Type ℓ} (I : RunRecord → Type 0) (r : RunRecord) (m : Exec RunRecord A)
    : Type 0 where
  pub keeps : I r → I (after m r)

module _ {ℓ} {A : Type ℓ} {I : RunRecord → Type 0} {r : RunRecord} where
  pub At-Keeps : {m : Exec RunRecord A} → Keeps I m → KeepsAt I r m
  At-Keeps k = record { keeps = k.keeps r }

  pub At-get :
      (f : RunRecord → Exec RunRecord A) → KeepsAt I r (f r) → KeepsAt I r (get_record >>= f)
  At-get f k = record { keeps = k.keeps }

  pub At-assert :
      (c : Code) (m : Exec RunRecord A) (b : Bool)
      → (b ≡ true → KeepsAt I r m)
      → KeepsAt I r (assert b c >> m)
  At-assert c m true k = record { keeps = (k refl).keeps }
  At-assert c m false k = record { keeps = λ i. i }

  pub At-set :
      (f : RunRecord → RunRecord) (m : Exec RunRecord A)
      → (I r → I (f r))
      → Keeps I m
      → KeepsAt I r (set_record f >> m)
  At-set f m h k = record { keeps = λ i. k.keeps (f r) (h i) }

module _ {ℓ κ} {A : Type ℓ} {B : Type κ} {I : RunRecord → Type 0} {r : RunRecord} where
  pub At-need :
      (c : Code) (f : A → Exec RunRecord B) (o : Option A)
      → ((a : A) → o ≡ some a → KeepsAt I r (f a))
      → KeepsAt I r (need o c >>= f)
  At-need c f none k = record { keeps = λ i. i }
  At-need c f (some a) k = record { keeps = (k a refl).keeps }

  -- checks that leave the record as it is, and what they establish
  pub At-Comes :
      (Q : A → Type 0) {m : Exec RunRecord A} (f : A → Exec RunRecord B)
      → Comes r (λ a s. (s ≡ r) × Q a) m
      → ((a : A) → Q a → KeepsAt I r (f a))
      → KeepsAt I r (m >>= f)
  At-Comes Q {m = m} f q k = record { keeps = λ i. resumed i (m r) q.fate }
    where
      resumed :
          I r → (p : RunRecord × Result A) → Fate r (λ a s. (s ≡ r) × Q a) p → I ((resume p f).0)
      resumed i (s, ok a) (e, q') = subst (λ t. I (after (f a) t)) (sym e) ((k a q').keeps i)
      resumed i (s, err e) e' = subst I (sym e') i

  pub At-reads :
      {m : Exec RunRecord A} (f : A → Exec RunRecord B)
      → Keeps (λ s. s ≡ r) m
      → ((a : A) → KeepsAt I r (f a))
      → KeepsAt I r (m >>= f)
  At-reads {m = m} f q k = record { keeps = λ i. resumed i (m r) (q.keeps r refl) }
    where
      resumed : I r → (p : RunRecord × Result A) → p.0 ≡ r → I ((resume p f).0)
      resumed i (s, ok a) e = subst (λ t. I (after (f a) t)) (sym e) ((k a).keeps i)
      resumed i (s, err e') e = subst I (sym e) i
