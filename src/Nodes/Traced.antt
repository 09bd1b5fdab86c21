-- ===== src/Nodes/Traced.antt =====
-- The log that the calls on nodes write gives the nodes back.
use mathlib.Core.Path.{◌≡◌, refl, sym, ap, ◌∙◌, subst}
use personal_computing_space.Shared.{
  ℕ, String, nat_eq, string_eq, option_eq, Option, none, some, [], ◌∷◌, ◌++◌,
}
use personal_computing_space.Shared.Json.{Json}
use personal_computing_space.Shared.Exec.{after}
use personal_computing_space.Runs.Defs.{
  RunRecord, RunState, Attempt, DynamicNode, NodeState, NodeIntent, TerminalState, Event,
}
use personal_computing_space.Runs.Actions.{log}
use personal_computing_space.Runs.Reports.{Report}
use personal_computing_space.Runs.Keeping.{Keeps, keeping}
use personal_computing_space.Runs.Transition.{transition, target}
use personal_computing_space.Nodes.Defs.{NodeServices, Limits, Lease, WorkerAgent}
use personal_computing_space.Nodes.Accept.{accept_node_intent, accept_as, materialize, node_of}
use personal_computing_space.Nodes.Dispatch.{
  dispatch_dynamic_node, dispatched_as, reassign_dynamic_node, reassigned_as, replaced_by,
}
use personal_computing_space.Nodes.Results.{record_dynamic_node_result, end_node}
use personal_computing_space.Nodes.Reading.{
  orchestration_limits-reads, admission-reads, dispatch_to-reads, reassignment-reads,
  node_review-reads,
}
use personal_computing_space.Nodes.At.{
  KeepsAt, At-Keeps, At-get, At-assert, At-need, At-Comes, At-reads,
}
use personal_computing_space.Nodes.Fenced.{AdmittedFor, node_fence-Comes}
use personal_computing_space.Nodes.Rebuild.{apply_event, apply_events}
use personal_computing_space.Nodes.Rebuilt.{
  Rebuilt, apply_events-append, set-Rebuilt, append-Rebuilt, quiet-Rebuilt,
}

-- an entry that says nothing of the nodes
abbrev IsQuiet : Event → Type 0
IsQuiet e = (d : _) → apply_event d e ≡ d

log-Rebuilt : (e : Event) → IsQuiet e → Keeps Rebuilt (log e)
log-Rebuilt e q = record {
  keeps = λ r b. quiet-Rebuilt r b _ refl (apply_events-append [] r.events e ∙ q _);
}

module _ (ns : NodeServices) where
  materialize-Rebuilt :
      (now : ℕ) (limits : Limits) (intent : NodeIntent) (selected execution : String)
      (r : RunRecord)
      → KeepsAt Rebuilt r (materialize ns now limits intent selected execution)
  unfolding materialize apply_event
  materialize-Rebuilt now limits intent selected execution r =
      At-reads _ (admission-reads ns limits intent selected) λ target. record {
        keeps = λ b.
            append-Rebuilt r b _ (node_of ns execution intent r) refl
              (apply_events-append [] r.events _);
      }

  accept_as-Rebuilt :
      (now : ℕ) (limits : Limits) (intent : NodeIntent) (selected execution : String)
      (o : Option DynamicNode)
      → Keeps Rebuilt (accept_as ns now limits intent selected execution o)
  accept_as-Rebuilt now limits intent selected execution none = record {
    keeps = λ r. (materialize-Rebuilt now limits intent selected execution r).keeps;
  }
  accept_as-Rebuilt now limits intent selected execution (some n) = search keeping

  pub accept-Rebuilt :
      (now : ℕ) (intent : NodeIntent) (selected : String)
      → Keeps Rebuilt (accept_node_intent ns now intent selected)
  unfolding accept_node_intent apply_event
  accept-Rebuilt now intent selected =
      search (keeping, log-Rebuilt, refl, orchestration_limits-reads, accept_as-Rebuilt) depth 20
        fits 30000

  dispatched_as-Rebuilt :
      (now : ℕ) (execution id node_id target : String) (agent : WorkerAgent) (r : RunRecord)
      → KeepsAt Rebuilt r (dispatched_as now execution id node_id target agent r)
  unfolding apply_event
  dispatched_as-Rebuilt now execution id node_id target agent r = record {
    keeps = λ b.
        set-Rebuilt r b _ node_id NodeState.dispatched refl (apply_events-append [] r.events _);
  }

  pub dispatch-at :
      (now : ℕ) (id node_id target : String) (r : RunRecord)
      → KeepsAt Rebuilt r (dispatch_dynamic_node ns now id node_id target)
  unfolding dispatch_dynamic_node
  dispatch-at now id node_id target r =
      search (At-get, At-need, At-assert, At-reads, dispatch_to-reads, dispatched_as-Rebuilt) depth
        20 fits 30000

  reassigned_as-Rebuilt :
      (now : ℕ) (execution id node_id lost target reason : String) (found : Lease × WorkerAgent)
      (r : RunRecord)
      → KeepsAt Rebuilt r (reassigned_as now execution id node_id lost target reason found r)
  unfolding apply_event
  reassigned_as-Rebuilt now execution id node_id lost target reason found r = record {
    keeps = λ b.
        set-Rebuilt r b _ node_id NodeState.dispatched refl (apply_events-append [] r.events _);
  }

  replaced_by-Rebuilt :
      (now : ℕ) (execution id node_id target reason : String) (n : DynamicNode) (old : Attempt)
      (r : RunRecord) (o : Option String)
      → KeepsAt Rebuilt r (replaced_by ns now execution id node_id target reason n old r o)
  replaced_by-Rebuilt now execution id node_id target reason n old r none =
      search (At-assert, At-reads, reassignment-reads, reassigned_as-Rebuilt) depth 20 fits 30000
  replaced_by-Rebuilt now execution id node_id target reason n old r (some a) =
      At-Keeps (search keeping)

  pub reassign-at :
      (now : ℕ) (id node_id lost expected_id : String) (expected_epoch : ℕ) (target reason : String)
      (r : RunRecord)
      → KeepsAt Rebuilt r
          (reassign_dynamic_node ns now id node_id lost expected_id expected_epoch target reason)
  unfolding reassign_dynamic_node
  reassign-at now id node_id lost expected_id expected_epoch target reason r =
      search (At-get, At-need, At-assert, replaced_by-Rebuilt) depth 24 fits 30000

  end_node-Rebuilt :
      (now : ℕ) (node_id : String) (a : Attempt) (value : Json) (t : TerminalState)
      (error : Option Json) (r : RunRecord)
      → r.state ≡ RunState.running
      → Rebuilt r
      → Rebuilt (after (end_node ns now node_id a value t error) r)
  unfolding end_node transition target apply_event
  end_node-Rebuilt now node_id a value t error r running b =
      subst
        (λ state.
          Rebuilt (after (end_node ns now node_id a value t error) (record r { state = state })))
        (sym running) (at_running t)
    where
      moved_twice :
          (d : Event) (e : Event)
          → IsQuiet d
          → apply_events [] ((r.events ++ d ∷ []) ++ e ∷ [])
            ≡ apply_event (apply_events [] r.events) e
      moved_twice d e q =
          apply_events-append [] (r.events ++ d ∷ []) e
          ∙ ap (λ nodes. apply_event nodes e) (apply_events-append [] r.events d ∙ q _)

      at_running :
          (t : TerminalState)
          → Rebuilt (
              after
                (end_node ns now node_id a value t error)
                (record r { state = RunState.running }))
      at_running TerminalState.completed =
          set-Rebuilt r b _ node_id NodeState.completed refl (apply_events-append [] r.events _)
      at_running TerminalState.failed =
          set-Rebuilt r b _ node_id NodeState.failed refl (moved_twice _ _ λ d. refl)
      at_running TerminalState.decision_required =
          set-Rebuilt r b _ node_id NodeState.decision_required refl (moved_twice _ _ λ d. refl)

  pub result-at :
      (now : ℕ) (node_id : String) (report : Report) (r : RunRecord)
      → KeepsAt Rebuilt r (record_dynamic_node_result ns now node_id report)
  unfolding record_dynamic_node_result
  result-at now node_id report r =
      At-Comes (λ p. AdmittedFor r node_id report p.0 p.1) _ (node_fence-Comes r node_id report)
        λ p admitted.
          At-reads _ (node_review-reads ns p.0 report)
            λ checked. record { keeps = end_node-Rebuilt now node_id p.1 _ _ _ r admitted.running }
