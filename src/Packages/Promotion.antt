-- ===== src/Packages/Promotion.antt =====
-- `promote_capability_package`. The digest of a package's contents and the check of its exports are
-- arguments.
use Prim.Native.String.{◌++◌ as append}
use personal_computing_space.Shared.{
  String, Bool, true, false, not, ◌&&◌, ◌||◌, Option, none, some, [], ◌∷◌, ◌++◌, ◌==◌,
  if◌then◌else◌, string_eq, option_eq,
}
use personal_computing_space.Shared.Lists.{any, first}
use personal_computing_space.Shared.Exec.{
  Code, Error, Exec, ok, err, key_error, value_error, capability_package_abandoned,
  capability_package_identity_conflict, promotion_digest_mismatch, semantic_not_closed,
  package_captures_run_state, run_not_terminal,
}
use personal_computing_space.Runs.Defs.{RunState}
use personal_computing_space.Packages.Registry.{
  workspace_reusable, published, Contents, Lineage, Package, Owner, Registry, PackageRef,
  is_abandoned, is_reusable, version_ref, find_package,
}

abbrev pub reusable_version : Package → String
reusable_version c = append c.package_version "-reusable"

abbrev pub derives : Package → Lineage → Bool
derives c l =
    (l.derived_from == some (version_ref c)) && (l.derived_from_digest == some c.package_digest)

abbrev has_same_source : Package → Package → Bool
has_same_source c p =
    (p.package_version == reusable_version c)
    && (p.contents.package_type == c.contents.package_type)
    && (p.package_digest == c.package_digest)
    && (p.source_run_ref == c.source_run_ref)
    && (p.source_closure_version_ref == c.source_closure_version_ref)

-- `_reusable_matches_candidate`, of a candidate
unfoldable pub matches_candidate : Package → Package → Bool
matches_candidate c p =
    is_reusable p
    && (p.package_id == c.package_id)
    && (any (derives c) p.provenance || has_same_source c p)

abbrev pub first_or : Option Package → Option Package → Option Package
first_or none o = o
first_or (some p) o = some p

-- the first package of the Runs that satisfies the test
unfoldable pub first_package : (Package → Bool) → Registry → Option Package
first_package test [] = none
first_package test (o ∷ os) = first_or (first test o.capability_packages) (first_package test os)

abbrev pub is_same_version : Package → Package → Bool
is_same_version c p =
    (p.package_id == c.package_id)
    && (p.package_version == c.package_version)
    && (p.package_digest == c.package_digest)

abbrev pub has_version : Package → Owner → Bool
has_version c o = any (is_same_version c) o.capability_packages

-- the Run that made it
unfoldable pub source_record : Package → Registry → Option Owner
source_record c s = first (has_version c) s

abbrev pub is_terminal : RunState → Bool
is_terminal RunState.completed = true
is_terminal RunState.closed = true
is_terminal RunState.failed = true
is_terminal RunState.cancelled = true
is_terminal _ = false

-- DRIVER_ORCHESTRATOR_KEY
abbrev is_orchestrator : Contents → Bool
is_orchestrator c =
    (c.package_type == "function")
    && (c.execution_kind == "container:python_orchestrator")
    && (c.execution_version == "1")

abbrev captures : Contents → Bool
captures c = c.captures_run_state || c.captured_secret_refs || c.captured_path_refs

-- An empty approved digest is not compared.
unfoldable pub refusal : (approved_digest : String) → Package → Option Code
refusal approved c =
    if is_abandoned c.publication_state
    then some capability_package_abandoned
    else if not (approved == "") && not (approved == c.package_digest)
    then some promotion_digest_mismatch
    else if is_orchestrator c.contents && not c.contents.semantic_closed
    then some semantic_not_closed
    else if is_orchestrator c.contents && captures c.contents
    then some package_captures_run_state
    else none

-- The arguments: `lower` of Python, `digest_json` of the contents, and `_validate_package_exports`.
pub record Services : Type 0 where
  pub lower : String → String
  pub digest : Contents → String
  pub validate_exports : Package → Option Error

abbrev pub promoted_lineage : Package → Option String → Lineage
promoted_lineage c key = record {
  derived_from = some (version_ref c);
  derived_from_digest = some c.package_digest;
  idempotency_key = key;
}

abbrev pub reusable_of : (Contents → String) → Option String → Package → Package
reusable_of digest key c = record c {
  package_version = reusable_version c;
  scope = workspace_reusable;
  publication_state = published;
  provenance = c.provenance ++ promoted_lineage c key ∷ [];
  package_digest = digest c.contents;
}

abbrev pub add_package : Option String → Package → Package → Owner → Owner
add_package key c p o = record o {
  capability_packages = o.capability_packages ++ p ∷ [];
  promotions =
      o.promotions
      ++ record {
        package_ref = version_ref p;
        derived_from = version_ref c;
        derived_from_digest = c.package_digest;
        idempotency_key = key;
      }
        ∷ [];
}

-- at the first Run that has the candidate
unfoldable pub add_to_source : Option String → Package → Package → Registry → Registry
add_to_source key c p [] = []
add_to_source key c p (o ∷ os) =
    if has_version c o then add_package key c p o ∷ os else o ∷ add_to_source key c p os

-- What a promotion comes to: a package that is there, a refusal, or a package made of the candidate.
pub data Plan : Type 0 where
  answered : Package → Plan
  refused : Error → Plan
  derive : (candidate : Package) → Plan

module _ (services : Services) where
  abbrev pub with_conflict : Package → Option Package → Plan
  with_conflict c none = derive c
  with_conflict c (some q) =
      if q.package_digest == services.digest c.contents
      then answered q
      else refused (value_error capability_package_identity_conflict)

  abbrev pub is_identity : Package → Package → Bool
  is_identity c p = (p.package_id == c.package_id) && (p.package_version == reusable_version c)

  abbrev pub with_source : String → Registry → Package → Option Owner → Plan
  with_source ref s c none = refused (key_error ref)
  with_source ref s c (some o) =
      if is_terminal o.state
      then with_conflict c (first_package (is_identity c) s)
      else refused (value_error run_not_terminal)

  abbrev pub with_exports : String → Registry → Package → Option Error → Plan
  with_exports ref s c (some e) = refused e
  with_exports ref s c none = with_source ref s c (source_record c s)

  abbrev pub with_refusal : String → Registry → Package → Option Code → Plan
  with_refusal ref s c (some code) = refused (value_error code)
  with_refusal ref s c none = with_exports ref s c (services.validate_exports c)

  abbrev pub with_reusable : String → String → Registry → Package → Option Package → Plan
  with_reusable ref approved s c (some p) = answered p
  with_reusable ref approved s c none = with_refusal ref s c (refusal approved c)

  abbrev pub with_candidate : String → String → Registry → Option Package → Plan
  with_candidate ref approved s none = refused (key_error ref)
  with_candidate ref approved s (some c) =
      if is_reusable c
      then answered c
      else with_reusable ref approved s c (first_package (matches_candidate c) s)

  unfoldable pub plan : PackageRef → String → Registry → Plan
  plan ref approved s =
      with_candidate ref.resource_id approved s (find_package services.lower s none ref)

  abbrev pub carried_out : Option String → Plan → Exec Registry Package
  carried_out key (answered p) s = (s, ok p)
  carried_out key (refused e) s = (s, err e)
  carried_out key (derive c) s =
      let p = reusable_of services.digest key c in (add_to_source key c p s, ok p)

  unfoldable pub promote_capability_package :
      PackageRef → (approved_digest : String) → Option String → Exec Registry Package
  promote_capability_package ref approved key s = carried_out key (plan ref approved s) s
