-- ===== src/Packages/Visibility.antt =====
-- Who sees a package: what a search on behalf of a Run may come up with.
use mathlib.Core.Path.{◌≡◌, refl, sym, ap, ◌∙◌, subst}
use mathlib.Core.Logic.{◌⊎◌, inl, inr}
use personal_computing_space.Shared.{
  String, Bool, true, false, ◌&&◌, arith, Option, none, some, List, [], ◌∷◌, ◌++◌, ◌==◌, ==_iff,
  if◌then◌else◌, string_eq, option_eq, Bool-cases,
}
use personal_computing_space.Shared.Lists.{keep, All}
use personal_computing_space.Packages.Registry.{
  Scope, run_bound, workspace_reusable, Package, Owner, Registry, PackageRef, is_published,
  is_reusable, version_ref, owner_of, same_workspace, visible_to_owner, is_visible, is_candidate,
  candidates, before, better, best, find_package,
}

module _ (P : Package → Type 0) where
  All-append : (xs ys : List Package) → All P xs → All P ys → All P (xs ++ ys)
  All-append [] ys a b = b
  All-append (x ∷ xs) ys (h, a) b = (h, All-append xs ys a b)

  better-All :
      (p : Package) (o : Option Package) (q : Package)
      → P p
      → ((r : Package) → o ≡ some r → P r)
      → better p o ≡ some q
      → P q
  better-All p none q h k e =
      subst (λ (o : Option Package). elim o [ none ↦ P p | some r ↦ P r ]) e h
  better-All p (some r) q h k e = chosen (before r p) e
    where
      chosen : (b : Bool) → (if b then some r else some p) ≡ some q → P q
      chosen true e =
          subst (λ (o : Option Package). elim o [ none ↦ P p | some r ↦ P r ]) e (k r refl)
      chosen false e = subst (λ (o : Option Package). elim o [ none ↦ P p | some r ↦ P r ]) e h

  pub best-All : (xs : List Package) (q : Package) → All P xs → best xs ≡ some q → P q
  unfolding best
  best-All [] q a e = ground arith
  best-All (x ∷ xs) q (h, a) e = better-All x (best xs) q h (λ r. best-All xs r a) e

module _ (P : Package → Type 0) (test : Package → Bool)
    (sound : (p : Package) → test p ≡ true → P p) where
  keep-All : (xs : List Package) → All P (keep test xs)
  keep-All [] = tt
  keep-All (x ∷ xs) = elim (Bool-cases (test x)) [
    | inl e ↦ rw e (sound x e, keep-All xs)
    | inr e ↦ rw e (keep-All xs)
  ]

module _ (lower : String → String) (s : Registry) (run : Option String) (ref : PackageRef) where
  candidates-All :
      (P : Package → Type 0)
      → ((p : Package) → is_candidate lower s run ref p ≡ true → P p)
      → (os : Registry) → All P (candidates lower s run ref os)
  unfolding candidates
  candidates-All P sound [] = tt
  candidates-All P sound (o ∷ os) =
      All-append P (keep (is_candidate lower s run ref) o.capability_packages)
        (candidates lower s run ref os)
        (keep-All P (is_candidate lower s run ref) sound o.capability_packages)
        (candidates-All P sound os)

  abbrev IsCandidate : Package → Type 0
  IsCandidate q = is_candidate lower s run ref q ≡ true

  -- a package that is found is a candidate
  pub find_package-candidate :
      (p : Package) → find_package lower s run ref ≡ some p → is_candidate lower s run ref p ≡ true
  unfolding find_package
  find_package-candidate p =
      best-All IsCandidate (candidates lower s run ref s) p
        (candidates-All IsCandidate (λ q h. h) s)

-- The package is the Run's own, or it is published for reuse by a Run of the same workspace.
pub record IsShared (s : Registry) (id : String) (p : Package) : Type 0 where
  pub source : Owner
  pub reader : Owner
  pub workspace : String
  pub is_source : owner_of p.source_run_ref s ≡ some source
  pub is_reader : owner_of id s ≡ some reader
  pub source_workspace : source.workspace_id ≡ some workspace
  pub reader_workspace : reader.workspace_id ≡ some workspace
  pub is_public : is_reusable p ≡ true

abbrev pub MayUse : Registry → String → Package → Type 0
MayUse s id p = ((p.scope ≡ run_bound) × (p.source_run_ref ≡ id)) ⊎ IsShared s id p

module _ (s : Registry) (id : String) (p : Package) where
  shared :
      (source reader : Option Owner)
      → owner_of p.source_run_ref s ≡ source
      → owner_of id s ≡ reader
      → is_reusable p ≡ true
      → elim reader [ none ↦ false | some r ↦ same_workspace source r ] ≡ true
      → IsShared s id p
  shared none none e f g h = ground arith
  shared none (some r) e f g h = ground arith
  shared (some o) none e f g h = ground arith
  shared (some o) (some r) e f g h = in_workspace o.workspace_id refl h
    where
      in_workspace :
          (w : Option String)
          → o.workspace_id ≡ w
          → elim w [ none ↦ false | some w ↦ r.workspace_id == some w ] ≡ true
          → IsShared s id p
      in_workspace none i h = ground arith
      in_workspace (some w) i h = record {
        source = o;
        reader = r;
        workspace = w;
        is_source = e;
        is_reader = f;
        source_workspace = i;
        reader_workspace = (==_iff r.workspace_id (some w)).0 h;
        is_public = g;
      }

  abbrev by_scope : Owner → Scope → Bool
  by_scope r scope = elim scope [
    | run_bound ↦ p.source_run_ref == id
    | workspace_reusable ↦
        is_published p.publication_state && same_workspace (owner_of p.source_run_ref s) r
  ]

  may_use :
      (scope : Scope) (reader : Option Owner)
      → p.scope ≡ scope
      → owner_of id s ≡ reader
      → visible_to_owner s p id reader ≡ true
      → MayUse s id p
  may_use run_bound none g f h = ground arith
  may_use workspace_reusable none g f h = ground arith
  may_use run_bound (some r) g f h = inl (g, own (ap (by_scope r) (sym g) ∙ h))
    where
      own : (p.source_run_ref == id) ≡ true → p.source_run_ref ≡ id
      own h = (==_iff p.source_run_ref id).0 h
  may_use workspace_reusable (some r) g f h = inr (public (ap (by_scope r) (sym g) ∙ h))
    where
      public :
          (is_published p.publication_state && same_workspace (owner_of p.source_run_ref s) r)
            ≡ true
          → IsShared s id p
      public h =
          shared (owner_of p.source_run_ref s) (some r) refl f (rw g (ground (arith, h)))
            (ground (arith, h))

-- What is found under a reference on behalf of a Run has that reference, and the Run may use it: it is bound to
-- that very Run, or it is published for reuse and made by a Run of the workspace of that Run.
pub find_package-MayUse :
    (lower : String → String) (s : Registry) (id : String) (ref : PackageRef) (p : Package)
    → find_package lower s (some id) ref ≡ some p
    → (ref.resource_id ≡ version_ref p) × MayUse s id p
unfolding is_visible
find_package-MayUse lower s id ref p e = (
  (==_iff ref.resource_id (version_ref p)).0 (ground (arith, found)),
  may_use s id p p.scope (owner_of id s) refl refl (ground (arith, found)),
)
  where
    found : is_candidate lower s (some id) ref p ≡ true
    found = find_package-candidate lower s (some id) ref p e
