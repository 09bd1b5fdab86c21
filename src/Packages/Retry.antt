-- ===== src/Packages/Retry.antt =====
-- A promotion that is asked for again.
use mathlib.Core.Path.{◌≡◌, refl, sym, ap, ◌∙◌, subst}
use Prim.Native.String.{◌++◌ as append, len}
use text.Mathlib.TextLemmas.{append_cancel_left}
use text.Mathlib.TextPositions.{len-append}
use personal_computing_space.Shared.{
  String, Bool, true, false, arith, Option, none, some, List, [], ◌∷◌, ◌++◌, ==_iff, string_eq,
  option_eq, Bool-cases, inl, inr,
}
use personal_computing_space.Shared.Lists.{any, first, keep}
use personal_computing_space.Shared.Exec.{Code, Error, ok}
use personal_computing_space.Packages.Registry.{
  Contents, Package, Owner, Registry, PackageRef, version_ref, is_reusable, is_visible, is_named,
  is_candidate, candidates, best, find_package,
}
use personal_computing_space.Packages.Promotion.{
  derives, matches_candidate, first_or, first_package, has_version, source_record, is_terminal,
  refusal, Services, promoted_lineage, reusable_of, add_to_source, Plan, answered, refused, derive,
  with_conflict, is_identity, with_source, with_exports, with_refusal, with_reusable,
  with_candidate, plan, carried_out, promote_capability_package,
}
use personal_computing_space.Packages.Visibility.{find_package-candidate}

module _ {A : Type 0} (test : A → Bool) (y : A) where
  keep-append : (xs : List A) → test y ≡ false → keep test (xs ++ y ∷ []) ≡ keep test xs
  keep-append [] h = rw h refl
  keep-append (x ∷ xs) h = rw (keep-append xs h) refl

  first-append :
      (xs : List A) → test y ≡ true → first test xs ≡ none → first test (xs ++ y ∷ []) ≡ some y
  first-append [] h e = rw h refl
  first-append (x ∷ xs) h e = elim (Bool-cases (test x)) [
    | inl t ↦ ground arith
    | inr t ↦ rw t (first-append xs h (ground arith))
  ]

  any-append : (xs : List A) → test y ≡ true → any test (xs ++ y ∷ []) ≡ true
  any-append [] h = rw h refl
  any-append (x ∷ xs) h = ground (arith, any-append xs h)

version_differs : (v : String) → v ≡ append v "-reusable" → ⊥
version_differs v e = ground (arith, len-append v "-reusable", ap len e)

-- the package that is made has another name than the one that it is made of
refs_differ :
    (c : Package) (digest : Contents → String) (key : Option String)
    → version_ref c ≡ version_ref (reusable_of digest key c)
    → ⊥
refs_differ c digest key e = version_differs c.package_version (
    append_cancel_left "/" _ _
      (append_cancel_left c.package_id _ _ (append_cancel_left "capability-package://" _ _ e)))

module _ (lower : String → String) (ref : PackageRef) (key : Option String) (c p : Package) where
  candidates_after :
      (s t : Registry) (os : Registry)
      → is_named lower ref p ≡ false
      → candidates lower t none ref (add_to_source key c p os) ≡ candidates lower s none ref os
  unfolding candidates add_to_source is_visible
  candidates_after s t [] h = refl
  candidates_after s t (o ∷ os) h = elim (Bool-cases (has_version c o)) [
    | inl e ↦ rw e (
        ap (λ xs. xs ++ candidates lower s none ref os)
          (keep-append (is_candidate lower s none ref) p o.capability_packages
            (rw h (ground arith))))
    | inr e ↦ rw e (
        ap (λ xs. keep (is_candidate lower s none ref) o.capability_packages ++ xs)
          (candidates_after s t os h))
  ]

  first_or-none : (a b : Option Package) → first_or a b ≡ none → (a ≡ none) × (b ≡ none)
  first_or-none none b e = (refl, e)
  first_or-none (some a) b e = ground arith

  first_package_after :
      (test : Package → Bool) (os : Registry) (source : Owner)
      → test p ≡ true
      → first_package test os ≡ none
      → source_record c os ≡ some source
      → first_package test (add_to_source key c p os) ≡ some p
  unfolding first_package add_to_source source_record
  first_package_after test [] source h e f = ground arith
  first_package_after test (o ∷ os) source h e f = elim (Bool-cases (has_version c o)) [
    | inl t ↦ rw t (rw (first-append test p o.capability_packages h none_here) refl)
    | inr t ↦ rw t (rw none_here (first_package_after test os source h none_later (ground arith)))
  ]
    where
      none_here : first test o.capability_packages ≡ none
      none_here = (first_or-none (first test o.capability_packages) (first_package test os) e).0

      none_later : first_package test os ≡ none
      none_later = (first_or-none (first test o.capability_packages) (first_package test os) e).1

reusable_of-matches :
    (c : Package) (digest : Contents → String) (key : Option String)
    → matches_candidate c (reusable_of digest key c) ≡ true
unfolding matches_candidate
reusable_of-matches c digest key = ground (
  arith,
  (==_iff c.package_id c.package_id).1 refl,
  any-append (derives c) (promoted_lineage c key) c.provenance derived,
)
  where
    derived : derives c (promoted_lineage c key) ≡ true
    derived = ground (
      arith,
      (==_iff (some (version_ref c)) (some (version_ref c))).1 refl,
      (==_iff (some c.package_digest) (some c.package_digest)).1 refl,
    )

-- What is known of a candidate that a new package is made of.
record IsNew (services : Services) (s : Registry) (ref : PackageRef) (c : Package) : Type 0 where
  source : Owner
  is_found : find_package services.lower s none ref ≡ some c
  is_not_reusable : is_reusable c ≡ false
  has_no_reusable : first_package (matches_candidate c) s ≡ none
  is_source : source_record c s ≡ some source

module _ (services : Services) (s : Registry) where
  with_conflict-derive :
      (c d : Package) (o : Option Package) → with_conflict services c o ≡ derive d → c ≡ d
  with_conflict-derive c d none e = ground arith
  with_conflict-derive c d (some q) e = ground arith

  with_source-derive :
      (ref : String) (c d : Package) (o : Option Owner)
      → with_source services ref s c o ≡ derive d
      → (c ≡ d) × ((source : Owner) × (o ≡ some source))
  with_source-derive ref c d none e = ground arith
  with_source-derive ref c d (some o) e = (
    elim (Bool-cases (is_terminal o.state)) [
      | inl t ↦ with_conflict-derive c d (first_package (is_identity services c) s) (ground arith)
      | inr t ↦ ground arith
    ],
    (o, refl),
  )

  with_exports-derive :
      (ref : String) (c d : Package) (o : Option Error)
      → with_exports services ref s c o ≡ derive d
      → (c ≡ d) × ((source : Owner) × (source_record c s ≡ some source))
  with_exports-derive ref c d none e = with_source-derive ref c d (source_record c s) e
  with_exports-derive ref c d (some x) e = ground arith

  with_refusal-derive :
      (ref : String) (c d : Package) (o : Option Code)
      → with_refusal services ref s c o ≡ derive d
      → (c ≡ d) × ((source : Owner) × (source_record c s ≡ some source))
  with_refusal-derive ref c d none e = with_exports-derive ref c d (services.validate_exports c) e
  with_refusal-derive ref c d (some x) e = ground arith

  with_reusable-derive :
      (ref approved : String) (c d : Package) (o : Option Package)
      → with_reusable services ref approved s c o ≡ derive d
      → (o ≡ none) × ((c ≡ d) × ((source : Owner) × (source_record c s ≡ some source)))
  with_reusable-derive ref approved c d none e =
      (refl, with_refusal-derive ref c d (refusal approved c) e)
  with_reusable-derive ref approved c d (some x) e = ground arith

  with_candidate-derive :
      (ref : PackageRef) (approved : String) (d : Package) (o : Option Package)
      → find_package services.lower s none ref ≡ o
      → with_candidate services ref.resource_id approved s o ≡ derive d
      → IsNew services s ref d
  with_candidate-derive ref approved d none i e = ground arith
  with_candidate-derive ref approved d (some c) i e = elim (Bool-cases (is_reusable c)) [
    | inl t ↦ ground arith
    | inr t ↦ new t (
        with_reusable-derive ref.resource_id approved c d (first_package (matches_candidate c) s)
          (ground arith))
  ]
    where
      new :
          is_reusable c ≡ false
          → (first_package (matches_candidate c) s ≡ none)
            × ((c ≡ d) × ((source : Owner) × (source_record c s ≡ some source)))
          → IsNew services s ref d
      new t (n, (same, (source, f))) = subst (IsNew services s ref) same (record {
        source = source;
        is_found = i;
        is_not_reusable = t;
        has_no_reusable = n;
        is_source = f;
      })

  module _ (ref : PackageRef) (key : Option String) (c : Package)
      (new : IsNew services s ref c) where
    abbrev made : Package
    made = reusable_of services.digest key c

    made_not_named : is_named services.lower ref made ≡ false
    made_not_named = elim (Bool-cases (is_named services.lower ref made)) [
      | inl h ↦ absurd (
          refs_differ c services.digest key (
            sym ((==_iff ref.resource_id (version_ref c)).0 (ground (arith, named)))
            ∙ (==_iff ref.resource_id (version_ref made)).0 (ground (arith, h))))
      | inr h ↦ h
    ]
      where
        named : is_candidate services.lower s none ref c ≡ true
        named = find_package-candidate services.lower s none ref c new.is_found

    found_after : find_package services.lower (add_to_source key c made s) none ref ≡ some c
    unfolding find_package
    found_after =
        ap best (
          candidates_after services.lower ref key c made s (add_to_source key c made s) s
            made_not_named)
        ∙ new.is_found

    plan_after :
        (approved : String)
        → plan services ref approved (add_to_source key c made s) ≡ answered made
    unfolding plan
    plan_after approved = rw found_after (
        rw new.is_not_reusable (
          rw
            (first_package_after services.lower ref key c made (matches_candidate c) s new.source
              (reusable_of-matches c services.digest key) new.has_no_reusable new.is_source)
            refl))

plan-derive :
    (services : Services) (s : Registry) (ref : PackageRef) (approved : String) (c : Package)
    → plan services ref approved s ≡ derive c
    → IsNew services s ref c
unfolding plan
plan-derive services s ref approved c i =
    with_candidate-derive services s ref approved c (find_package services.lower s none ref) refl i

-- A promotion that succeeded, asked for again with the same reference and approved digest under any
-- idempotency key, comes back with the same package and changes nothing.
pub promote_again :
    (services : Services) (ref : PackageRef) (approved : String) (key again : Option String)
    (s : Registry) (p : Package)
    → (promote_capability_package services ref approved key s).1 ≡ ok p
    → promote_capability_package services ref approved again
        (promote_capability_package services ref approved key s).0
      ≡ ((promote_capability_package services ref approved key s).0, ok p)
unfolding promote_capability_package
promote_again services ref approved key again s p e = retried (plan services ref approved s) refl e
  where
    retried :
        (x : Plan)
        → plan services ref approved s ≡ x
        → (carried_out services key x s).1 ≡ ok p
        → carried_out services again
            (plan services ref approved (carried_out services key x s).0)
            (carried_out services key x s).0
          ≡ ((carried_out services key x s).0, ok p)
    retried (answered q) i e = rw i (ap (λ r. (s, r)) e)
    retried (refused x) i e = ground arith
    retried (derive c) i e =
        rw (plan_after services s ref key c (plan-derive services s ref approved c i) approved)
          (ap (λ r. (add_to_source key c (reusable_of services.digest key c) s, r)) e)
