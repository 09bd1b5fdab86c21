-- ===== src/Turns/Within.antt =====
-- Lists with some of their elements left out.
use mathlib.Core.Path.{◌≡◌, refl, ap}
use personal_computing_space.Shared.{List, [], ◌∷◌, ◌++◌}

-- `xs` is what is left of `ys` when some of it is left out.
pub data Within {A : Type 0} : List A → List A → Type 0 where
  nothing : Within [] []
  left_out : {xs ys : List A} {y : A} → Within xs ys → Within xs (y ∷ ys)
  kept : {xs ys : List A} {y : A} → Within xs ys → Within (y ∷ xs) (y ∷ ys)

module _ {A : Type 0} where
  pub Within-append : (a : A) {xs ys : List A} → Within xs ys → Within (xs ++ a ∷ []) (ys ++ a ∷ [])
  Within-append a nothing = kept nothing
  Within-append a (left_out w) = left_out (Within-append a w)
  Within-append a (kept w) = kept (Within-append a w)

  pub Within-trans : {ys zs : List A} → Within ys zs → {xs : List A} → Within xs ys → Within xs zs
  Within-trans nothing w = w
  Within-trans (left_out v) w = left_out (Within-trans v w)
  Within-trans (kept v) (left_out w) = left_out (Within-trans v w)
  Within-trans (kept v) (kept w) = kept (Within-trans v w)

  pub Within-refl : (xs : List A) → Within xs xs
  Within-refl [] = nothing
  Within-refl (x ∷ xs) = kept (Within-refl xs)

  pub without_one : (xs : List A) (a : A) (zs : List A) → Within (xs ++ zs) (xs ++ a ∷ zs)
  without_one [] a zs = left_out (Within-refl zs)
  without_one (x ∷ xs) a zs = kept (without_one xs a zs)

  pub Within-drop :
      (xs : List A) (a : A) (zs : List A) {ys : List A}
      → Within (xs ++ a ∷ zs) ys
      → Within (xs ++ zs) ys
  Within-drop xs a zs w = Within-trans w (without_one xs a zs)

  empty-Within : (xs : List A) → Within [] xs
  empty-Within [] = nothing
  empty-Within (x ∷ xs) = left_out (empty-Within xs)

  pub prefix-Within : (xs zs : List A) → Within xs (xs ++ zs)
  prefix-Within [] zs = empty-Within zs
  prefix-Within (x ∷ xs) zs = kept (prefix-Within xs zs)

  pub append_assoc : (xs ys zs : List A) → (xs ++ ys) ++ zs ≡ xs ++ (ys ++ zs)
  append_assoc [] ys zs = refl
  append_assoc (x ∷ xs) ys zs = ap (λ r. x ∷ r) (append_assoc xs ys zs)
