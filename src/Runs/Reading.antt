-- ===== src/Runs/Reading.antt =====
-- The checks of a report read the record and change nothing in it.
use personal_computing_space.Shared.{ℕ, String, Option, none, some, List, [], ◌∷◌}
use personal_computing_space.Runs.Defs.{RunRecord, ClosureVersion, ResourceRef}
use personal_computing_space.Runs.Reports.{
  Report, Validation, IoContract, Evidence, fence, review, check_evidence, check_refs, check_item,
  check_item_refs, check_resource_ref, contract_of, loaded,
}
use personal_computing_space.Runs.Keeping.{Keeps, keeping, Keeps-then}

module _ {I : RunRecord → Type 0} where
  pub fence-reads : (report : Report) → Keeps I (fence report)
  unfolding fence
  fence-reads report = search keeping depth 20 fits 10000

  check_resource_ref-reads :
      (ref : Option (Option ResourceRef)) (expected : String)
      → Keeps I (check_resource_ref ref expected)
  check_resource_ref-reads none expected = search keeping
  check_resource_ref-reads (some none) expected = search keeping
  check_resource_ref-reads (some (some ref)) expected = search keeping

  check_item-reads :
      (id : String) (epoch : ℕ) (expected : String) (e : Evidence)
      → Keeps I (check_item id epoch expected e)
  unfolding check_item
  check_item-reads id epoch expected e = search keeping

  pub check_evidence-reads :
      (id : String) (epoch : ℕ) (expected : String) (es : List Evidence)
      → Keeps I (check_evidence id epoch expected es)
  unfolding check_evidence
  check_evidence-reads id epoch expected [] = search keeping
  check_evidence-reads id epoch expected (e ∷ es) =
      Keeps-then {m = check_item id epoch expected e} {n = check_evidence id epoch expected es}
        (check_item-reads id epoch expected e) (check_evidence-reads id epoch expected es)

  check_item_refs-reads :
      (contract : IoContract) (input : Option String) (e : Evidence)
      → Keeps I (check_item_refs contract input e)
  unfolding check_item_refs
  check_item_refs-reads contract input e = search keeping

  check_refs-reads :
      (contract : IoContract) (input : Option String) (es : List Evidence)
      → Keeps I (check_refs contract input es)
  unfolding check_refs
  check_refs-reads contract input [] = search keeping
  check_refs-reads contract input (e ∷ es) =
      Keeps-then {m = check_item_refs contract input e} {n = check_refs contract input es}
        (check_item_refs-reads contract input e) (check_refs-reads contract input es)

  loaded-reads : (o : Option (Option IoContract)) → Keeps I (loaded o)
  loaded-reads none = search keeping
  loaded-reads (some k) = search keeping

  contract_of-reads : (v : Validation) (c : Option ClosureVersion) → Keeps I (contract_of v c)
  contract_of-reads v none = search keeping
  contract_of-reads v (some c) = search (keeping, loaded-reads)

  pub review-reads : (v : Validation) (report : Report) → Keeps I (review v report)
  unfolding review
  review-reads v report =
      search
        (
          keeping, check_resource_ref-reads, check_evidence-reads, check_refs-reads,
          contract_of-reads,
        )
        depth 24 fits 30000
