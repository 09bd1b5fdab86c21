-- ===== src/Nodes/Ordered.antt =====
-- The calls on nodes keep the order, and so does every history of calls.
use mathlib.Core.Path.{◌≡◌, refl}
use personal_computing_space.Shared.{
  ℕ, String, true, arith, nat_eq, string_eq, option_eq, Option, none, some, List, [], ◌∷◌,
}
use personal_computing_space.Shared.Json.{Json}
use personal_computing_space.Shared.Exec.{◌>>◌}
use personal_computing_space.Runs.Defs.{
  RunRecord, Attempt, DynamicNode, NodeIntent, TerminalState, ResourceRef,
}
use personal_computing_space.Runs.Reports.{Report}
use personal_computing_space.Runs.Keeping.{Keeps, keeping}
use personal_computing_space.Nodes.Defs.{
  NodeServices, Limits, Lease, WorkerAgent, find_node, is_accepted,
}
use personal_computing_space.Nodes.Accept.{with_node, accept_node_intent, accept_as, materialize}
use personal_computing_space.Nodes.Dispatch.{
  dispatch_dynamic_node, dispatched_as, reassign_dynamic_node, reassigned_as, replaced_by,
  live_attempts, only_attempt,
}
use personal_computing_space.Nodes.Results.{
  record_dynamic_node_result, end_node, stop_if, fail_dynamic_node, failed_as, check_failing,
}
use personal_computing_space.Nodes.Complete.{
  complete_orchestration, conclude_with, reject_output, ask_user, succeed, Problem,
}
use personal_computing_space.Nodes.Defs.{NodeContract}
use personal_computing_space.Nodes.Reading.{
  orchestration_limits-reads, admission-reads, dispatch_to-reads, reassignment-reads,
  node_review-reads,
}
use personal_computing_space.Nodes.At.{
  KeepsAt, At-Keeps, At-get, At-assert, At-set, At-need, At-Comes, At-reads,
}
use personal_computing_space.Nodes.Fenced.{
  AdmittedFor, MayFail, node_fence-Comes, check_failing-Comes,
}
use personal_computing_space.Nodes.Stable.{KeepsNodes}
use personal_computing_space.Nodes.Live.{find_node-append}
use personal_computing_space.Nodes.Closing.{last_attempt-id}
use personal_computing_space.Nodes.Orderly.{Orderly, Orders, ordering}
use personal_computing_space.Nodes.Order.{
  Orderly-IsStable, dispatched_to-Orderly, reassigned_to-Orderly, with_result-Orderly,
  with_failure-Orderly,
}

abbrev stable : personal_computing_space.Runs.Logged.IsStable Orderly
stable = Orderly-IsStable

Orders-with_node : (n : DynamicNode) → Orders (with_node n)
Orders-with_node n = record {
  orders = λ r o. record {
    bound = λ d id. omega (arith, o.bound d id, find_node-append id n r.dynamic_nodes);
  };
}

module _ (ns : NodeServices) where
  materialize-Orderly :
      (now : ℕ) (limits : Limits) (intent : NodeIntent) (selected execution : String)
      → Keeps Orderly (materialize ns now limits intent selected execution)
  unfolding materialize
  materialize-Orderly now limits intent selected execution =
      search (keeping, stable.on_log, stable.on_set, refl, Orders-with_node, admission-reads) depth
        16 fits 30000

  accept_as-Orderly :
      (now : ℕ) (limits : Limits) (intent : NodeIntent) (selected execution : String)
      (o : Option DynamicNode)
      → Keeps Orderly (accept_as ns now limits intent selected execution o)
  accept_as-Orderly now limits intent selected execution none =
      materialize-Orderly now limits intent selected execution
  accept_as-Orderly now limits intent selected execution (some n) = search keeping

  accept_node_intent-Orderly :
      (now : ℕ) (intent : NodeIntent) (selected : String)
      → Keeps Orderly (accept_node_intent ns now intent selected)
  unfolding accept_node_intent
  accept_node_intent-Orderly now intent selected =
      search (keeping, stable.on_log, refl, orchestration_limits-reads, accept_as-Orderly) depth 20
        fits 30000

  dispatched_as-Orderly :
      (now : ℕ) (execution id node_id target : String) (agent : WorkerAgent) (r : RunRecord)
      (n : DynamicNode)
      → find_node node_id r.dynamic_nodes ≡ some n
      → is_accepted n.state ≡ true
      → KeepsAt Orderly r (dispatched_as now execution id node_id target agent r)
  dispatched_as-Orderly now execution id node_id target agent r n f w =
      search (At-set, dispatched_to-Orderly, keeping, stable.on_log, refl) depth 12

  dispatch-at :
      (now : ℕ) (id node_id target : String) (r : RunRecord)
      → KeepsAt Orderly r (dispatch_dynamic_node ns now id node_id target)
  unfolding dispatch_dynamic_node
  dispatch-at now id node_id target r =
      search (At-get, At-need, At-assert, At-reads, dispatch_to-reads, dispatched_as-Orderly) depth
        20 fits 30000

  reassigned_as-Orderly :
      (now : ℕ) (execution id node_id lost target reason : String) (found : Lease × WorkerAgent)
      (r : RunRecord) (n : DynamicNode)
      → find_node node_id r.dynamic_nodes ≡ some n
      → only_attempt lost (live_attempts node_id r.attempts) ≡ true
      → KeepsAt Orderly r (reassigned_as now execution id node_id lost target reason found r)
  reassigned_as-Orderly now execution id node_id lost target reason found r n f w =
      search (At-set, reassigned_to-Orderly, keeping, stable.on_log, refl) depth 12

  replaced_by-Orderly :
      (now : ℕ) (execution id node_id target reason : String) (n : DynamicNode) (old : Attempt)
      (r : RunRecord) (o : Option String)
      → find_node node_id r.dynamic_nodes ≡ some n
      → KeepsAt Orderly r (replaced_by ns now execution id node_id target reason n old r o)
  replaced_by-Orderly now execution id node_id target reason n old r none f =
      search (At-assert, At-reads, reassignment-reads, reassigned_as-Orderly) depth 20 fits 30000
  replaced_by-Orderly now execution id node_id target reason n old r (some a) f =
      At-Keeps (search keeping)

  reassign-at :
      (now : ℕ) (id node_id lost expected_id : String) (expected_epoch : ℕ) (target reason : String)
      (r : RunRecord)
      → KeepsAt Orderly r
          (reassign_dynamic_node ns now id node_id lost expected_id expected_epoch target reason)
  unfolding reassign_dynamic_node
  reassign-at now id node_id lost expected_id expected_epoch target reason r =
      search (At-get, At-need, At-assert, replaced_by-Orderly) depth 24 fits 30000

  stop_if-Orderly :
      (now : ℕ) (terminal : TerminalState) (error : Option Json) (value : Json)
      → Keeps Orderly (stop_if now terminal error value)
  stop_if-Orderly now TerminalState.completed error value = search keeping
  stop_if-Orderly now TerminalState.failed error value =
      search (keeping, stable.on_transition, stable.on_set, refl, ordering) depth 12
  stop_if-Orderly now TerminalState.decision_required error value =
      search (keeping, stable.on_transition, stable.on_set, refl, ordering) depth 12

  end_node-Orderly :
      (now : ℕ) (node_id : String) (report : Report) (n : DynamicNode) (a : Attempt) (value : Json)
      (terminal : TerminalState) (error : Option Json) (r : RunRecord)
      → AdmittedFor r node_id report n a
      → KeepsAt Orderly r (end_node ns now node_id a value terminal error)
  unfolding end_node
  end_node-Orderly now node_id report n a value terminal error r admitted =
      search
        (
          At-set,
          with_result-Orderly node_id report n a terminal error (ns.stored value) r admitted
              (last_attempt-id node_id report.attempt_id r.attempts a admitted.named),
          keeping,
          stable.on_log,
          refl,
          stop_if-Orderly,
        )
        depth 16

  result-at :
      (now : ℕ) (node_id : String) (report : Report) (r : RunRecord)
      → KeepsAt Orderly r (record_dynamic_node_result ns now node_id report)
  unfolding record_dynamic_node_result
  result-at now node_id report r =
      At-Comes (λ p. AdmittedFor r node_id report p.0 p.1) _ (node_fence-Comes r node_id report)
        λ p admitted.
          At-reads _ (node_review-reads ns p.0 report)
            λ checked. end_node-Orderly now node_id report p.0 p.1 _ _ _ r admitted

  failed_as-Orderly :
      (now : ℕ) (node_id : String) (id : Option String) (reason : Json) (r : RunRecord)
      → MayFail r node_id id
      → KeepsAt Orderly r (failed_as now node_id id reason r)
  failed_as-Orderly now node_id id reason r may =
      search
        (
          At-set, with_failure-Orderly, keeping, stable.on_transition, stable.on_log, stable.on_set,
          refl, ordering,
        )
        depth 20 fits 30000

  failing-at :
      (now : ℕ) (node_id : String) (id : Option String) (reason : Json) (r : RunRecord)
      → KeepsAt Orderly r (check_failing node_id id >> failed_as now node_id id reason r)
  failing-at now node_id id reason r =
      At-Comes (λ x. MayFail r node_id id) _ (check_failing-Comes r node_id id)
        λ x may. failed_as-Orderly now node_id id reason r may

  fail-at :
      (now : ℕ) (node_id : String) (id : Option String) (error : Option Json) (r : RunRecord)
      → KeepsAt Orderly r (fail_dynamic_node now node_id id error)
  unfolding fail_dynamic_node
  fail-at now node_id id error r = search (At-get, At-need, failing-at) depth 12

  conclude_with-Orderly :
      (now : ℕ) (execution : String) (final : ResourceRef) (value : Option Json)
      (contract : Option NodeContract) (entries : List (String × (String × ResourceRef)))
      (ps : List Problem)
      → Keeps Orderly (conclude_with now execution final value contract entries ps)
  unfolding reject_output ask_user succeed
  conclude_with-Orderly now execution final value contract entries [] =
      search (keeping, stable.on_transition, stable.on_log, stable.on_set, refl, ordering) depth 20
        fits 30000
  conclude_with-Orderly now execution final value contract entries (p ∷ ps) =
      search (keeping, stable.on_transition, stable.on_log, stable.on_set, refl, ordering) depth 20
        fits 30000

  complete-Orderly :
      (now : ℕ) (final : ResourceRef) → Keeps Orderly (complete_orchestration ns now final)
  unfolding complete_orchestration
  complete-Orderly now final = search (keeping, conclude_with-Orderly) depth 24 fits 30000

  pub Orderly-KeepsNodes : KeepsNodes Orderly ns
  Orderly-KeepsNodes = record {
    on_accept = accept_node_intent-Orderly;
    on_dispatch =
        λ now id node target. record { keeps = λ r. (dispatch-at now id node target r).keeps };
    on_reassign = λ now id node lost e epoch target reason. record {
      keeps = λ r. (reassign-at now id node lost e epoch target reason r).keeps;
    };
    on_result = λ now id report. record { keeps = λ r. (result-at now id report r).keeps };
    on_failure =
        λ now id attempt error. record { keeps = λ r. (fail-at now id attempt error r).keeps };
    on_complete = complete-Orderly;
  }
