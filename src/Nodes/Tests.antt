-- ===== src/Nodes/Tests.antt =====
-- An orchestrated Run with a node that is accepted, dispatched and reported on, with the theorems
-- applied to it.
use mathlib.Core.Path.{◌≡◌, refl}
use personal_computing_space.Shared.{◌≤◌, true, none, [], string_beq}
use personal_computing_space.Shared.Exec.{ok, reply, after}
use personal_computing_space.Runs.Defs.{RunState, Attempt, DynamicNode}
use personal_computing_space.Runs.Calls.{open_run, open_record, begin_refinement}
use personal_computing_space.Runs.Execution.{commit, launch, start, check_attempt_budget}
use personal_computing_space.Runs.Transition.{target, transition}
use personal_computing_space.Runs.Reports.{check_evidence}
use personal_computing_space.Runs.Commands.{perform_all}
use personal_computing_space.Runs.Fencing.{Fate}
use personal_computing_space.Runs.Samples.{
  local_services, no_checks, local_nodes, orchestrated, orchestrated_run, started_with_node,
  started_run, with_a_node, reported_run, content, dispatched_run, node_report,
}
use personal_computing_space.Nodes.Defs.{find_node}
use personal_computing_space.Nodes.Accept.{
  accept_node_intent, orchestration_limits, check_limits, check_package, fits_schema, check_input,
  check_inputs, check_target, admission, materialize, collect,
}
use personal_computing_space.Nodes.Dispatch.{dispatch_to, dispatch_dynamic_node}
use personal_computing_space.Nodes.Results.{
  node_fence, node_review, verdict_by, check_names, end_node, record_dynamic_node_result,
}
use personal_computing_space.Nodes.Live.{live, slots, distinct}
use personal_computing_space.Nodes.Fenced.{AdmittedFor, IsTaken, record_dynamic_node_result-Fate}
use personal_computing_space.Nodes.Rebuild.{dynamic_nodes_from_events, apply_events, apply_event}
use personal_computing_space.Nodes.Rebuilt.{distinct_nodes}
use personal_computing_space.Nodes.RoundTrip.{nodes_round_trip}
use personal_computing_space.Nodes.Complete.{complete_orchestration, succeed}
use personal_computing_space.Nodes.Completion.{IsFinished, complete_orchestration-Fate}
use personal_computing_space.Nodes.History.{one_live_attempt}

orchestrated_opened :
    open_run local_services 1 "run-1" "task" "goal" true "w" "draft-1" orchestrated none
    ≡ ok orchestrated_run
unfolding open_run
orchestrated_opened = refl

-- the node is dispatched, and its attempt is live
dispatched_run_state : slots (find_node "node-execution-1-1" dispatched_run.dynamic_nodes) ≡ 1
unfolding perform_all begin_refinement commit start launch check_attempt_budget transition target
    open_record string_beq accept_node_intent orchestration_limits check_limits check_package
    fits_schema check_input check_inputs check_target admission materialize collect dispatch_to
    dispatch_dynamic_node
dispatched_run_state = refl

dispatched_run_distinct : distinct dispatched_run.attempts ≡ true
unfolding perform_all begin_refinement commit start launch check_attempt_budget transition target
    open_record string_beq accept_node_intent orchestration_limits check_limits check_package
    fits_schema check_input check_inputs check_target admission materialize collect dispatch_to
    dispatch_dynamic_node distinct
dispatched_run_distinct = refl

one_live_attempt_example :
    live "node-execution-1-1" dispatched_run.attempts
    ≤ slots (find_node "node-execution-1-1" dispatched_run.dynamic_nodes)
one_live_attempt_example =
    one_live_attempt local_services no_checks local_nodes 1 "run-1" "task" "goal" true "w" "draft-1"
      orchestrated none orchestrated_run started_with_node orchestrated_opened
      dispatched_run_distinct "node-execution-1-1"

-- the report of the attempt is taken up
node_report_taken :
    reply (record_dynamic_node_result local_nodes 7 "node-execution-1-1" node_report) dispatched_run
    ≡ ok tt
unfolding perform_all begin_refinement commit start launch check_attempt_budget transition target
    open_record string_beq accept_node_intent orchestration_limits check_limits check_package
    fits_schema check_input check_inputs check_target admission materialize collect dispatch_to
    dispatch_dynamic_node record_dynamic_node_result node_fence node_review verdict_by check_names
    end_node check_evidence
node_report_taken = refl

record_dynamic_node_result-Fate_example :
    Fate dispatched_run
      (λ x s.
        ((n : DynamicNode) × ((a : Attempt) × AdmittedFor dispatched_run "node-execution-1-1"
              node_report n a))
        × IsTaken s)
      (record_dynamic_node_result local_nodes 7 "node-execution-1-1" node_report dispatched_run)
record_dynamic_node_result-Fate_example =
    record_dynamic_node_result-Fate local_nodes 7 "node-execution-1-1" node_report dispatched_run

started_run_nodes : started_run.dynamic_nodes ≡ []
unfolding perform_all begin_refinement commit start launch check_attempt_budget transition target
    open_record string_beq
started_run_nodes = refl

started_run_log : dynamic_nodes_from_events started_run.events ≡ []
unfolding perform_all begin_refinement commit start launch check_attempt_budget transition target
    open_record string_beq dynamic_nodes_from_events apply_events apply_event
started_run_log = refl

node_added :
    distinct_nodes
      (perform_all local_services no_checks local_nodes with_a_node started_run).dynamic_nodes
    ≡ true
unfolding perform_all begin_refinement commit start launch check_attempt_budget transition target
    open_record string_beq accept_node_intent orchestration_limits check_limits check_package
    fits_schema check_input check_inputs check_target admission materialize collect dispatch_to
    dispatch_dynamic_node distinct_nodes
node_added = refl

nodes_round_trip_example :
    dynamic_nodes_from_events
      (perform_all local_services no_checks local_nodes with_a_node started_run).events
    ≡ (perform_all local_services no_checks local_nodes with_a_node started_run).dynamic_nodes
nodes_round_trip_example =
    nodes_round_trip local_services no_checks local_nodes with_a_node started_run started_run_nodes
      started_run_log refl node_added

-- the orchestration succeeds
completed_run_state :
    (after (complete_orchestration local_nodes 8 content) reported_run).state ≡ RunState.completed
unfolding perform_all begin_refinement commit start launch check_attempt_budget transition target
    open_record string_beq accept_node_intent orchestration_limits check_limits check_package
    fits_schema check_input check_inputs check_target admission materialize collect dispatch_to
    dispatch_dynamic_node record_dynamic_node_result node_fence node_review verdict_by check_names
    end_node check_evidence complete_orchestration succeed
completed_run_state = refl

complete_orchestration-Fate_example :
    Fate reported_run
      (λ x s. s.state ≡ RunState.completed → IsFinished local_nodes reported_run content)
      (complete_orchestration local_nodes 8 content reported_run)
complete_orchestration-Fate_example = complete_orchestration-Fate local_nodes 8 content reported_run
