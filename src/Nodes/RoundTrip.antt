-- ===== src/Nodes/RoundTrip.antt =====
-- Writing the nodes as events and reading them back.
use mathlib.Core.Path.{◌≡◌, refl, sym, ap, ◌∙◌}
use personal_computing_space.Shared.{Bool, true, false, ◌&&◌, arith, List, [], ◌∷◌, String}
use personal_computing_space.Shared.Dict.{Dict, values}
use personal_computing_space.Runs.Defs.{RunRecord, DynamicNode}
use personal_computing_space.Runs.Actions.{Services}
use personal_computing_space.Runs.Reports.{Validation}
use personal_computing_space.Runs.Commands.{
  Call, message, refine, cancel, fail, signal, inspect, patch, commit_draft, begin, report_result,
  resolve, close, recover, accept, dispatch, reassign, report_node, fail_node, complete, perform,
  perform_all,
}
use personal_computing_space.Nodes.Defs.{NodeServices}
use personal_computing_space.Nodes.Rebuild.{dynamic_nodes_from_events}
use personal_computing_space.Nodes.Rebuilt.{Rebuilt, Rebuilt-nodes, distinct_nodes, keyed}
use personal_computing_space.Nodes.Traced.{accept-Rebuilt, dispatch-at, reassign-at, result-at}

-- the calls that change nodes and log each change
abbrev pub is_node_step : Call → Bool
is_node_step (accept now intent selected) = true
is_node_step (dispatch now id node target) = true
is_node_step (reassign now id node lost expected_id expected_epoch target reason) = true
is_node_step (report_node now node report) = true
is_node_step _ = false

abbrev pub all_node_steps : List Call → Bool
all_node_steps [] = true
all_node_steps (c ∷ cs) = is_node_step c && all_node_steps cs

module _ (s : Services) (v : Validation) (ns : NodeServices) where
  step-Rebuilt :
      (c : Call) (r : RunRecord) → is_node_step c ≡ true → Rebuilt r → Rebuilt (perform s v ns c r)
  step-Rebuilt (accept now intent selected) r t = (accept-Rebuilt ns now intent selected).keeps r
  step-Rebuilt (dispatch now id node target) r t = (dispatch-at ns now id node target r).keeps
  step-Rebuilt (reassign now id node lost expected_id expected_epoch target reason) r t =
      (reassign-at ns now id node lost expected_id expected_epoch target reason r).keeps
  step-Rebuilt (report_node now node report) r t = (result-at ns now node report r).keeps
  step-Rebuilt (message now role content id) r t = ground arith
  step-Rebuilt (refine now) r t = ground arith
  step-Rebuilt (cancel now reason) r t = ground arith
  step-Rebuilt (fail now reason) r t = ground arith
  step-Rebuilt (signal now kind payload) r t = ground arith
  step-Rebuilt (inspect now id) r t = ground arith
  step-Rebuilt (patch now version receipt edit base digest op) r t = ground arith
  step-Rebuilt (commit_draft now new_id version digest) r t = ground arith
  step-Rebuilt (begin now execution attempt version) r t = ground arith
  step-Rebuilt (report_result now report) r t = ground arith
  step-Rebuilt (resolve now decision) r t = ground arith
  step-Rebuilt (close now) r t = ground arith
  step-Rebuilt (recover now replayable) r t = ground arith
  step-Rebuilt (fail_node now node attempt error) r t = ground arith
  step-Rebuilt (complete now final) r t = ground arith

  steps-Rebuilt :
      (cs : List Call) (r : RunRecord)
      → all_node_steps cs ≡ true
      → Rebuilt r
      → Rebuilt (perform_all s v ns cs r)
  unfolding perform_all
  steps-Rebuilt [] r t b = b
  steps-Rebuilt (c ∷ cs) r t b =
      steps-Rebuilt cs (perform s v ns c r) (ground arith) (step-Rebuilt c r (ground arith) b)

no_values : (d : Dict String DynamicNode) → values d ≡ [] → d ≡ []
no_values [] e = refl
no_values ((k, n) ∷ d) e = ground arith

no_nodes-Rebuilt :
    (r : RunRecord) → r.dynamic_nodes ≡ [] → dynamic_nodes_from_events r.events ≡ [] → Rebuilt r
unfolding dynamic_nodes_from_events keyed
no_nodes-Rebuilt r n e = record { same = λ d. no_values _ e ∙ ap keyed (sym n) }

-- A record without nodes, whose log names none, on which nodes are accepted, dispatched and reassigned and
-- results of them reported, in any order and with calls that raise among them: reading its event log
-- back gives its nodes, in their order and in their states, if they have different ids.
pub nodes_round_trip :
    (s : Services) (v : Validation) (ns : NodeServices) (cs : List Call) (r : RunRecord)
    → r.dynamic_nodes ≡ []
    → dynamic_nodes_from_events r.events ≡ []
    → all_node_steps cs ≡ true
    → distinct_nodes (perform_all s v ns cs r).dynamic_nodes ≡ true
    → dynamic_nodes_from_events (perform_all s v ns cs r).events
      ≡ (perform_all s v ns cs r).dynamic_nodes
nodes_round_trip s v ns cs r n e t d =
    Rebuilt-nodes _ (steps-Rebuilt s v ns cs r t (no_nodes-Rebuilt r n e)) d
