-- ===== src/Runs/Keeping.antt =====
-- What a call keeps: a predicate on the record that holds after the call whenever it held before it,
-- whether the call returned or raised. One lemma per way a call is put together.
use personal_computing_space.Shared.{Bool, true, false, Option, none, some, if◌then◌else◌}
use personal_computing_space.Shared.Exec.{
  Exec, Code, Result, ok, err, after, pure, raise, ◌>>=◌, ◌>>◌, resume,
}
use personal_computing_space.Runs.Defs.{RunRecord}
use personal_computing_space.Runs.Actions.{get_record, set_record, assert, need, when, lift}

-- `I` holds after `m` whenever it held before.
pub record Keeps {ℓ} {A : Type ℓ} (I : RunRecord → Type 0) (m : Exec RunRecord A) : Type 0 where
  pub keeps : (r : RunRecord) → I r → I (after m r)

module _ {I : RunRecord → Type 0} where
  pub Keeps-pure {ℓ} : {A : Type ℓ} (a : A) → Keeps I (pure a)
  Keeps-pure a = record { keeps = λ r i. i }

  pub Keeps-raise {ℓ} : {A : Type ℓ} (c : Code) → Keeps I (raise {A = A} c)
  Keeps-raise c = record { keeps = λ r i. i }

  pub Keeps-need {ℓ} : {A : Type ℓ} (o : Option A) (c : Code) → Keeps I (need o c)
  Keeps-need none c = record { keeps = λ r i. i }
  Keeps-need (some a) c = record { keeps = λ r i. i }

  pub Keeps-lift {ℓ} : {A : Type ℓ} (x : Result A) → Keeps I (lift x)
  Keeps-lift (ok a) = record { keeps = λ r i. i }
  Keeps-lift (err e) = record { keeps = λ r i. i }

  pub Keeps-if {ℓ} :
      {A : Type ℓ} {m n : Exec RunRecord A} (b : Bool)
      → Keeps I m
      → Keeps I n
      → Keeps I (if b then m else n)
  Keeps-if true k l = k
  Keeps-if false k l = l

  resumed {ℓ κ} :
      {A : Type ℓ} {B : Type κ} (f : A → Exec RunRecord B)
      → ((a : A) → Keeps I (f a))
      → (p : RunRecord × Result A) → I (p.0)
      → I ((resume p f).0)
  resumed f l (s, ok a) j = (l a).keeps s j
  resumed f l (s, err e) j = j

  pub Keeps-bind {ℓ κ} :
      {A : Type ℓ} {B : Type κ} {m : Exec RunRecord A} {f : A → Exec RunRecord B}
      → Keeps I m
      → ((a : A) → Keeps I (f a))
      → Keeps I (m >>= f)
  Keeps-bind {m = m} {f = f} k l = record { keeps = λ r i. resumed f l (m r) (k.keeps r i) }

  pub Keeps-then {ℓ κ} :
      {A : Type ℓ} {B : Type κ} {m : Exec RunRecord A} {n : Exec RunRecord B}
      → Keeps I m
      → Keeps I n
      → Keeps I (m >> n)
  Keeps-then k l = Keeps-bind k λ _. l

  pub Keeps-get_record : Keeps I get_record
  Keeps-get_record = record { keeps = λ r i. i }

  pub Keeps-set_record :
      {f : RunRecord → RunRecord} → ((r : RunRecord) → I r → I (f r)) → Keeps I (set_record f)
  Keeps-set_record h = record { keeps = h }

  pub Keeps-assert : (b : Bool) (c : Code) → Keeps I (assert b c)
  Keeps-assert true c = record { keeps = λ r i. i }
  Keeps-assert false c = record { keeps = λ r i. i }

  pub Keeps-when : {m : Exec RunRecord (Unit {0})} (b : Bool) → Keeps I m → Keeps I (when b m)
  Keeps-when true k = k
  Keeps-when false k = record { keeps = λ r i. i }

pub ruleset keeping = (
  Keeps-pure, Keeps-raise, Keeps-need, Keeps-lift, Keeps-if, Keeps-bind, Keeps-then,
  Keeps-get_record, Keeps-assert, Keeps-when,
)
