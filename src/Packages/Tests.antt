-- ===== src/Packages/Tests.antt =====
-- A package that a finished Run made, promoted twice, and looked for by another Run.
use mathlib.Core.Path.{◌≡◌, refl}
use personal_computing_space.Shared.{true, false, none, some, [], ◌∷◌, string_beq}
use personal_computing_space.Shared.Json.{null}
use personal_computing_space.Shared.Exec.{ok}
use personal_computing_space.Runs.Defs.{RunState}
use personal_computing_space.Packages.Registry.{
  run_bound, candidate, Contents, Package, Registry, PackageRef, version_ref, owner_of, is_visible,
  candidates, best, find_package,
}
use personal_computing_space.Packages.Promotion.{
  Services, matches_candidate, first_package, source_record, refusal, reusable_of, add_to_source,
  plan, promote_capability_package,
}
use personal_computing_space.Packages.Visibility.{MayUse, find_package-MayUse}
use personal_computing_space.Packages.Retry.{promote_again}

abbrev contents : Contents
contents = record {
  package_type = "function";
  execution_kind = "container:python";
  execution_version = "1";
  capability_exports = null;
  body = null;
  semantic_closed = true;
  captures_run_state = false;
  captured_secret_refs = false;
  captured_path_refs = false;
}

abbrev solver : Package
solver = record {
  package_id = "solver";
  package_version = "v1";
  package_closure_version_ref = "closure-2";
  source_run_ref = "run-1";
  source_closure_version_ref = "closure-1";
  scope = run_bound;
  publication_state = candidate;
  provenance = [];
  contents = contents;
  package_digest = "d";
}

abbrev services : Services
services = record { lower = λ t. t; digest = λ c. "d"; validate_exports = λ p. none }

abbrev solver_ref : PackageRef
solver_ref = record { resource_id = "capability-package://solver/v1"; digest = some "d" }

abbrev runs : Registry
runs =
    record {
      run_id = "run-1";
      state = RunState.completed;
      workspace_id = some "w";
      capability_packages = solver ∷ [];
      promotions = [];
    }
    ∷ record {
      run_id = "run-2";
      state = RunState.running;
      workspace_id = some "w";
      capability_packages = [];
      promotions = [];
    }
    ∷ []

abbrev reusable_solver : Package
reusable_solver = reusable_of services.digest (some "k1") solver

solver_promoted :
    (promote_capability_package services solver_ref "d" (some "k1") runs).1 ≡ ok reusable_solver
unfolding promote_capability_package plan find_package best candidates is_visible matches_candidate
    first_package source_record refusal add_to_source string_beq
solver_promoted = refl

promote_again_example :
    promote_capability_package services solver_ref "d" none
      (promote_capability_package services solver_ref "d" (some "k1") runs).0
    ≡ ((promote_capability_package services solver_ref "d" (some "k1") runs).0, ok reusable_solver)
promote_again_example =
    promote_again services solver_ref "d" (some "k1") none runs reusable_solver solver_promoted

abbrev reusable_ref : PackageRef
reusable_ref = record { resource_id = "capability-package://solver/v1-reusable"; digest = none }

-- the Runs after the promotion
abbrev runs_after : Registry
runs_after = add_to_source (some "k1") solver reusable_solver runs

found_by_other : find_package (λ t. t) runs_after (some "run-2") reusable_ref ≡ some reusable_solver
unfolding find_package best candidates is_visible owner_of add_to_source string_beq
found_by_other = refl

find_package-MayUse_example :
    (reusable_ref.resource_id ≡ version_ref reusable_solver)
    × MayUse runs_after "run-2" reusable_solver
find_package-MayUse_example =
    find_package-MayUse (λ t. t) runs_after "run-2" reusable_ref reusable_solver found_by_other
