-- ===== src/Nodes/Reading.antt =====
-- The checks of the calls on nodes read the record and change nothing in it.
use personal_computing_space.Shared.{String, Option, none, some, List, [], ◌∷◌}
use personal_computing_space.Shared.Json.{Json}
use personal_computing_space.Runs.Defs.{RunRecord, ResourceRef, NodeIntent, DynamicNode, Attempt}
use personal_computing_space.Shared.Exec.{node_input_unavailable}
use personal_computing_space.Runs.Actions.{assert}
use personal_computing_space.Shared.{is_some}
use personal_computing_space.Runs.Reports.{Report, Evidence}
use personal_computing_space.Runs.Reading.{check_evidence-reads}
use personal_computing_space.Runs.Execution.{check_attempt_budget}
use personal_computing_space.Runs.Keeping.{Keeps, keeping, Keeps-then, Keeps-assert}
use personal_computing_space.Nodes.Defs.{
  NodeServices, Limits, Package, Export, WorkerAgent, NodeContract, found_agent,
}
use personal_computing_space.Nodes.Accept.{
  orchestration_limits, check_limits, check_package, fits_schema, fits_contract, check_input,
  check_inputs, check_target, admission,
}
use personal_computing_space.Nodes.Dispatch.{dispatch_to, check_available, lost_lease, reassignment}
use personal_computing_space.Nodes.Results.{
  node_fence, check_name, check_names, verdict_by, node_review, check_failing,
}

module _ {I : RunRecord → Type 0} where
  found_agent-reads : (target : String) (o : Option WorkerAgent) → Keeps I (found_agent target o)
  found_agent-reads target none = record { keeps = λ r i. i }
  found_agent-reads target (some a) = search keeping

  check_attempt_budget-reads : Keeps I check_attempt_budget
  unfolding check_attempt_budget
  check_attempt_budget-reads = search keeping

  pub orchestration_limits-reads : (ns : NodeServices) → Keeps I (orchestration_limits ns)
  unfolding orchestration_limits
  orchestration_limits-reads ns = search keeping depth 24 fits 30000

  check_limits-reads : (limits : Limits) → Keeps I (check_limits limits)
  unfolding check_limits
  check_limits-reads limits = search keeping depth 12

  check_package-reads :
      (ns : NodeServices) (limits : Limits) (intent : NodeIntent)
      → Keeps I (check_package ns limits intent)
  unfolding check_package
  check_package-reads ns limits intent = search keeping depth 24 fits 30000

  fits_schema-reads :
      (ns : NodeServices) (ref : ResourceRef) (inputs : List ResourceRef)
      → Keeps I (fits_schema ns ref inputs)
  unfolding fits_schema
  fits_schema-reads ns ref inputs = search keeping depth 16 fits 30000

  fits_contract-reads :
      (ns : NodeServices) (ref : Option ResourceRef) (inputs : List ResourceRef)
      → Keeps I (fits_contract ns ref inputs)
  fits_contract-reads ns none inputs = search keeping
  fits_contract-reads ns (some ref) inputs = fits_schema-reads ns ref inputs

  check_input-reads :
      (ns : NodeServices) (allowed : List String) (ref : ResourceRef)
      → Keeps I (check_input ns allowed ref)
  unfolding check_input
  check_input-reads ns allowed ref = search keeping

  check_inputs-reads :
      (ns : NodeServices) (allowed : List String) (refs : List ResourceRef)
      → Keeps I (check_inputs ns allowed refs)
  unfolding check_inputs
  check_inputs-reads ns allowed [] = search keeping
  check_inputs-reads ns allowed (ref ∷ refs) =
      Keeps-then {m = check_input ns allowed ref} {n = check_inputs ns allowed refs}
        (check_input-reads ns allowed ref) (check_inputs-reads ns allowed refs)

  check_target-reads :
      (ns : NodeServices) (found : Package) (exported : Export) (selected : String)
      → Keeps I (check_target ns found exported selected)
  unfolding check_target
  check_target-reads ns found exported selected = search keeping depth 20 fits 30000

  pub admission-reads :
      (ns : NodeServices) (limits : Limits) (intent : NodeIntent) (selected : String)
      → Keeps I (admission ns limits intent selected)
  unfolding admission
  admission-reads ns limits intent selected =
      search
        (
          keeping, check_limits-reads, check_package-reads, fits_contract-reads, check_inputs-reads,
          check_target-reads,
        )
        depth 24 fits 30000

  pub dispatch_to-reads :
      (ns : NodeServices) (node : DynamicNode) (target : String)
      → Keeps I (dispatch_to ns node target)
  unfolding dispatch_to
  dispatch_to-reads ns node target =
      search (keeping, found_agent-reads, check_attempt_budget-reads) depth 24 fits 30000

  check_available-reads :
      (ns : NodeServices) (refs : List ResourceRef) → Keeps I (check_available ns refs)
  unfolding check_available
  check_available-reads ns [] = search keeping
  check_available-reads ns (ref ∷ refs) =
      Keeps-then {m = assert (is_some (ns.load_json ref)) node_input_unavailable}
        {n = check_available ns refs} (Keeps-assert _ _) (check_available-reads ns refs)

  lost_lease-reads : (ns : NodeServices) (old : Attempt) → Keeps I (lost_lease ns old)
  unfolding lost_lease
  lost_lease-reads ns old = search keeping depth 12

  pub reassignment-reads :
      (ns : NodeServices) (node : DynamicNode) (old : Attempt) (target : String)
      → Keeps I (reassignment ns node old target)
  unfolding reassignment
  reassignment-reads ns node old target =
      search
        (
          keeping, found_agent-reads, check_attempt_budget-reads, check_available-reads,
          lost_lease-reads,
        )
        depth 30 fits 30000

  pub node_fence-reads : (id : String) (report : Report) → Keeps I (node_fence id report)
  unfolding node_fence
  node_fence-reads id report = search keeping depth 24 fits 30000

  check_name-reads : (contract : NodeContract) (e : Evidence) → Keeps I (check_name contract e)
  unfolding check_name
  check_name-reads contract e = search keeping

  check_names-reads :
      (contract : NodeContract) (es : List Evidence) → Keeps I (check_names contract es)
  unfolding check_names
  check_names-reads contract [] = search keeping
  check_names-reads contract (e ∷ es) =
      Keeps-then {m = check_name contract e} {n = check_names contract es}
        (check_name-reads contract e) (check_names-reads contract es)

  verdict_by-reads :
      (ns : NodeServices) (contract : Option NodeContract) (es : List Evidence) (value : Json)
      → Keeps I (verdict_by ns contract es value)
  unfolding verdict_by
  verdict_by-reads ns none es value = search keeping
  verdict_by-reads ns (some contract) es value = search (keeping, check_names-reads)

  pub node_review-reads :
      (ns : NodeServices) (node : DynamicNode) (report : Report)
      → Keeps I (node_review ns node report)
  unfolding node_review
  node_review-reads ns node report =
      search (keeping, check_evidence-reads, verdict_by-reads) depth 24 fits 30000

  pub check_failing-reads :
      (id : String) (attempt : Option String) → Keeps I (check_failing id attempt)
  unfolding check_failing
  check_failing-reads id none = search keeping
  check_failing-reads id (some a) = search keeping depth 12
