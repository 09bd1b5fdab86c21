-- ===== src/Nodes/Stable.antt =====
-- The calls on nodes keep what the calls of the lifecycle keep: they write the log, change fields of
-- the record, and move the Run by its transitions.
use mathlib.Core.Path.{refl}
use personal_computing_space.Shared.{ℕ, String, Option, none, some, List, [], ◌∷◌}
use personal_computing_space.Shared.Json.{Json}
use personal_computing_space.Runs.Defs.{
  RunRecord, ResourceRef, NodeIntent, DynamicNode, Attempt, TerminalState,
}
use personal_computing_space.Runs.Reports.{Report}
use personal_computing_space.Runs.Keeping.{Keeps, keeping}
use personal_computing_space.Runs.Logged.{IsLoose}
use personal_computing_space.Nodes.Defs.{NodeServices, Limits, NodeContract}
use personal_computing_space.Nodes.Accept.{materialize, accept_as, accept_node_intent}
use personal_computing_space.Nodes.Dispatch.{
  dispatch_dynamic_node, replaced_by, reassign_dynamic_node,
}
use personal_computing_space.Nodes.Results.{
  stop_if, end_node, record_dynamic_node_result, fail_dynamic_node,
}
use personal_computing_space.Nodes.Complete.{
  Problem, reject_output, ask_user, succeed, conclude_with, complete_orchestration,
}
use personal_computing_space.Nodes.Reading.{
  orchestration_limits-reads, admission-reads, dispatch_to-reads, reassignment-reads,
  node_fence-reads, node_review-reads, check_failing-reads,
}

module _ {I : RunRecord → Type 0} (s : IsLoose I) where
  materialize-Keeps :
      (ns : NodeServices) (now : ℕ) (limits : Limits) (intent : NodeIntent)
      (selected execution : String)
      → Keeps I (materialize ns now limits intent selected execution)
  unfolding materialize
  materialize-Keeps ns now limits intent selected execution =
      search (keeping, s.on_log, s.on_set, refl, admission-reads) depth 16 fits 30000

  accept_as-Keeps :
      (ns : NodeServices) (now : ℕ) (limits : Limits) (intent : NodeIntent)
      (selected execution : String) (o : Option DynamicNode)
      → Keeps I (accept_as ns now limits intent selected execution o)
  accept_as-Keeps ns now limits intent selected execution none =
      materialize-Keeps ns now limits intent selected execution
  accept_as-Keeps ns now limits intent selected execution (some n) = search keeping

  pub accept_node_intent-Keeps :
      (ns : NodeServices) (now : ℕ) (intent : NodeIntent) (selected : String)
      → Keeps I (accept_node_intent ns now intent selected)
  unfolding accept_node_intent
  accept_node_intent-Keeps ns now intent selected =
      search (keeping, s.on_log, refl, orchestration_limits-reads, accept_as-Keeps) depth 20 fits
        30000

  pub dispatch_dynamic_node-Keeps :
      (ns : NodeServices) (now : ℕ) (id node_id target : String)
      → Keeps I (dispatch_dynamic_node ns now id node_id target)
  unfolding dispatch_dynamic_node
  dispatch_dynamic_node-Keeps ns now id node_id target =
      search (keeping, s.on_log, s.on_set, refl, dispatch_to-reads) depth 24 fits 30000

  replaced_by-Keeps :
      (ns : NodeServices) (now : ℕ) (execution id node_id target reason : String)
      (node : DynamicNode) (old : Attempt) (r : RunRecord) (o : Option String)
      → Keeps I (replaced_by ns now execution id node_id target reason node old r o)
  replaced_by-Keeps ns now execution id node_id target reason node old r none =
      search (keeping, s.on_log, s.on_set, refl, reassignment-reads) depth 24 fits 30000
  replaced_by-Keeps ns now execution id node_id target reason node old r (some a) = search keeping

  pub reassign_dynamic_node-Keeps :
      (ns : NodeServices) (now : ℕ) (id node_id lost expected_id : String) (expected_epoch : ℕ)
      (target reason : String)
      → Keeps I
          (reassign_dynamic_node ns now id node_id lost expected_id expected_epoch target reason)
  unfolding reassign_dynamic_node
  reassign_dynamic_node-Keeps ns now id node_id lost expected_id expected_epoch target reason =
      search (keeping, replaced_by-Keeps) depth 24 fits 30000

  stop_if-Keeps :
      (now : ℕ) (terminal : TerminalState) (error : Option Json) (value : Json)
      → Keeps I (stop_if now terminal error value)
  stop_if-Keeps now TerminalState.completed error value = search keeping
  stop_if-Keeps now TerminalState.failed error value =
      search (keeping, s.on_transition, s.on_set, refl) depth 12
  stop_if-Keeps now TerminalState.decision_required error value =
      search (keeping, s.on_transition, s.on_set, refl) depth 12

  end_node-Keeps :
      (ns : NodeServices) (now : ℕ) (id : String) (attempt : Attempt) (value : Json)
      (terminal : TerminalState) (error : Option Json)
      → Keeps I (end_node ns now id attempt value terminal error)
  unfolding end_node
  end_node-Keeps ns now id attempt value terminal error =
      search (keeping, s.on_log, s.on_set, refl, stop_if-Keeps) depth 16

  pub record_dynamic_node_result-Keeps :
      (ns : NodeServices) (now : ℕ) (id : String) (report : Report)
      → Keeps I (record_dynamic_node_result ns now id report)
  unfolding record_dynamic_node_result
  record_dynamic_node_result-Keeps ns now id report =
      search (keeping, node_fence-reads, node_review-reads, end_node-Keeps) depth 12

  pub fail_dynamic_node-Keeps :
      (now : ℕ) (id : String) (attempt : Option String) (error : Option Json)
      → Keeps I (fail_dynamic_node now id attempt error)
  unfolding fail_dynamic_node
  fail_dynamic_node-Keeps now id attempt error =
      search (keeping, s.on_transition, s.on_log, s.on_set, refl, check_failing-reads) depth 24 fits
        30000

  reject_output-Keeps : (now : ℕ) (error : Json) → Keeps I (reject_output now error)
  unfolding reject_output
  reject_output-Keeps now error =
      search (keeping, s.on_transition, s.on_log, s.on_set, refl) depth 12

  ask_user-Keeps :
      (now : ℕ) (execution : String) (final : ResourceRef) (value : Option Json)
      → Keeps I (ask_user now execution final value)
  unfolding ask_user
  ask_user-Keeps now execution final value =
      search (keeping, s.on_transition, s.on_log, s.on_set, refl) depth 12

  succeed-Keeps :
      (now : ℕ) (execution : String) (final : ResourceRef) (value : Option Json)
      (entries : List (String × (String × ResourceRef)))
      → Keeps I (succeed now execution final value entries)
  unfolding succeed
  succeed-Keeps now execution final value entries =
      search (keeping, s.on_transition, s.on_log, s.on_set, refl) depth 12

  conclude_with-Keeps :
      (now : ℕ) (execution : String) (final : ResourceRef) (value : Option Json)
      (contract : Option NodeContract) (entries : List (String × (String × ResourceRef)))
      (ps : List Problem)
      → Keeps I (conclude_with now execution final value contract entries ps)
  conclude_with-Keeps now execution final value contract entries [] =
      search (keeping, ask_user-Keeps, succeed-Keeps)
  conclude_with-Keeps now execution final value contract entries (p ∷ ps) = reject_output-Keeps _ _

  pub complete_orchestration-Keeps :
      (ns : NodeServices) (now : ℕ) (final : ResourceRef)
      → Keeps I (complete_orchestration ns now final)
  unfolding complete_orchestration
  complete_orchestration-Keeps ns now final =
      search (keeping, conclude_with-Keeps) depth 24 fits 30000

-- The calls on nodes keep `I`.
pub record KeepsNodes (I : RunRecord → Type 0) (ns : NodeServices) : Type 0 where
  pub on_accept :
      (now : ℕ) (intent : NodeIntent) (selected : String)
      → Keeps I (accept_node_intent ns now intent selected)
  pub on_dispatch :
      (now : ℕ) (id node_id target : String)
      → Keeps I (dispatch_dynamic_node ns now id node_id target)
  pub on_reassign :
      (now : ℕ) (id node_id lost expected_id : String) (expected_epoch : ℕ) (target reason : String)
      → Keeps I
          (reassign_dynamic_node ns now id node_id lost expected_id expected_epoch target reason)
  pub on_result :
      (now : ℕ) (id : String) (report : Report)
      → Keeps I (record_dynamic_node_result ns now id report)
  pub on_failure :
      (now : ℕ) (id : String) (attempt : Option String) (error : Option Json)
      → Keeps I (fail_dynamic_node now id attempt error)
  pub on_complete : (now : ℕ) (final : ResourceRef) → Keeps I (complete_orchestration ns now final)

pub IsLoose-KeepsNodes :
    {I : RunRecord → Type 0} → IsLoose I → (ns : NodeServices) → KeepsNodes I ns
IsLoose-KeepsNodes l ns = record {
  on_accept = accept_node_intent-Keeps l ns;
  on_dispatch = dispatch_dynamic_node-Keeps l ns;
  on_reassign = reassign_dynamic_node-Keeps l ns;
  on_result = record_dynamic_node_result-Keeps l ns;
  on_failure = fail_dynamic_node-Keeps l;
  on_complete = complete_orchestration-Keeps l ns;
}
