-- ===== src/Packages/Registry.antt =====
-- `_package_visible_to_run`, `_find_package`, `get_capability_package`, `list_capability_packages` and
-- `promote_capability_package`, over the Runs in memory.
use Prim.Native.String.{◌++◌ as append, compare}
use text.Mathlib.Text.{is_lt}
use personal_computing_space.Shared.{
  String, Bool, true, false, not, ◌&&◌, ◌||◌, Option, none, some, List, [], ◌∷◌, ◌++◌, ◌==◌,
  if◌then◌else◌, string_eq, option_eq,
}
use personal_computing_space.Shared.Lists.{keep}
use personal_computing_space.Shared.Json.{Json}
use personal_computing_space.Shared.Exec.{Exec, ok, err, key_error}
use personal_computing_space.Runs.Defs.{RunState}

pub data Scope : Type 0 where
  run_bound workspace_reusable : Scope

pub data Publication : Type 0 where
  candidate published abandoned : Publication

-- What the digest of a package is of, with the truth values of the entries of its body that a promotion
-- reads: `semantic_closed` (true if it is missing), `captures_run_state`, and whether it captured refs of
-- secrets or of paths.
pub record Contents : Type 0 where
  pub package_type : String
  pub execution_kind : String
  pub execution_version : String
  pub capability_exports : Json
  pub body : Json
  pub semantic_closed : Bool
  pub captures_run_state : Bool
  pub captured_secret_refs : Bool
  pub captured_path_refs : Bool

-- An entry of `provenance`.
pub record Lineage : Type 0 where
  pub derived_from : Option String
  pub derived_from_digest : Option String
  pub idempotency_key : Option String

-- A CapabilityPackageVersion.
pub record Package : Type 0 where
  pub package_id : String
  pub package_version : String
  pub package_closure_version_ref : String
  pub source_run_ref : String
  pub source_closure_version_ref : String
  pub scope : Scope
  pub publication_state : Publication
  pub provenance : List Lineage
  pub contents : Contents
  pub package_digest : String

-- The event of a promotion.
pub record Promoted : Type 0 where
  pub package_ref : String
  pub derived_from : String
  pub derived_from_digest : String
  pub idempotency_key : Option String

-- A RunRecord, as far as these calls read and write it; `workspace_id` is that of its closure contract.
pub record Owner : Type 0 where
  pub run_id : String
  pub state : RunState
  pub workspace_id : Option String
  pub capability_packages : List Package
  pub promotions : List Promoted

-- self.runs.values()
abbrev pub Registry : Type 0
Registry = List Owner

-- A ResourceRef with its digest, where it is not empty, or a text, which has none.
pub record PackageRef : Type 0 where
  pub resource_id : String
  pub digest : Option String

abbrev pub is_reusable_scope : Scope → Bool
is_reusable_scope run_bound = false
is_reusable_scope workspace_reusable = true

abbrev pub is_published : Publication → Bool
is_published candidate = false
is_published published = true
is_published abandoned = false

abbrev pub is_abandoned : Publication → Bool
is_abandoned candidate = false
is_abandoned published = false
is_abandoned abandoned = true

abbrev pub is_reusable : Package → Bool
is_reusable p = is_reusable_scope p.scope && is_published p.publication_state

-- "capability-package://{package_id}/{package_version}"
abbrev pub version_ref : Package → String
version_ref p = append "capability-package://" (append p.package_id (append "/" p.package_version))

-- self.runs.get(run_id)
unfoldable pub owner_of : String → Registry → Option Owner
owner_of id [] = none
owner_of id (o ∷ os) = if o.run_id == id then some o else owner_of id os

abbrev pub same_workspace : Option Owner → Owner → Bool
same_workspace none run = false
same_workspace (some source) run = elim source.workspace_id [
  | none ↦ false
  | some w ↦ run.workspace_id == some w
]

abbrev pub visible_to_owner : Registry → Package → String → Option Owner → Bool
visible_to_owner s p id none = false
visible_to_owner s p id (some run) = elim p.scope [
  | run_bound ↦ p.source_run_ref == id
  | workspace_reusable ↦
      is_published p.publication_state && same_workspace (owner_of p.source_run_ref s) run
]

unfoldable pub is_visible : Registry → Option String → Package → Bool
is_visible s none p = not (is_reusable_scope p.scope) || is_reusable p
is_visible s (some id) p = visible_to_owner s p id (owner_of id s)

abbrev pub has_digest : Option String → String → Bool
has_digest none d = true
has_digest (some e) d = e == d

-- `lower` is Python's
abbrev pub is_named : (String → String) → PackageRef → Package → Bool
is_named lower ref p =
    (ref.resource_id == version_ref p) && has_digest ref.digest (lower p.package_digest)

module _ (lower : String → String) where
  abbrev pub is_candidate : Registry → Option String → PackageRef → Package → Bool
  is_candidate s run ref p = is_visible s run p && is_named lower ref p

  unfoldable pub candidates : Registry → Option String → PackageRef → Registry → List Package
  candidates s run ref [] = []
  candidates s run ref (o ∷ os) =
      keep (is_candidate s run ref) o.capability_packages ++ candidates s run ref os

abbrev text_before : String → String → Bool → Bool
text_before a b rest = is_lt (compare a b) || ((a == b) && rest)

abbrev by_names : Package → Package → Bool
by_names p q = text_before p.package_id q.package_id (
    text_before p.package_version q.package_version
      (text_before p.source_run_ref q.source_run_ref false))

-- the order of the sort: published for reuse first, then by id, version and Run
unfoldable pub before : Package → Package → Bool
before p q = elim p.scope [
  | run_bound ↦ not (is_reusable_scope q.scope) && by_names p q
  | workspace_reusable ↦ not (is_reusable_scope q.scope) || by_names p q
]

abbrev pub better : Package → Option Package → Option Package
better p none = some p
better p (some q) = if before q p then some q else some p

-- the first of the sorted list, which keeps the order of equals
unfoldable pub best : List Package → Option Package
best [] = none
best (p ∷ ps) = better p (best ps)

unfoldable pub find_package :
    (String → String) → Registry → Option String → PackageRef → Option Package
find_package lower s run ref = best (candidates lower s run ref s)

unfoldable pub get_capability_package :
    (String → String) → PackageRef → Option String → Exec Registry Package
get_capability_package lower ref run s = (
  s,
  elim (find_package lower s run ref) [ none ↦ err (key_error ref.resource_id) | some p ↦ ok p ],
)
