-- ===== src/Nodes/Rebuild.antt =====
-- `_dynamic_nodes_from_events`: the nodes of a Run read back from its event log.
use personal_computing_space.Shared.{String, List, [], ◌∷◌, ◌==◌, if◌then◌else◌, string_eq}
use personal_computing_space.Shared.Dict.{Dict, values, insert}
use personal_computing_space.Runs.Defs.{
  NodeIntent, NodeState, DynamicNode, Event, node_accepted, node_dispatched, node_reassigned,
  node_completed,
}
use personal_computing_space.Nodes.Results.{node_state}

abbrev pub accepted_node : String → String → NodeIntent → DynamicNode
accepted_node execution id intent = record {
  node_id = id;
  parent_execution_ref = execution;
  intent_id = intent.intent_id;
  package_ref = intent.package_ref;
  capability_descriptor_ref = intent.capability_descriptor_ref;
  input_refs = intent.input_refs;
  state = NodeState.accepted;
}

-- nodes[node_id].state = ..., if node_id in nodes
unfoldable pub put_state : String → NodeState → Dict String DynamicNode → Dict String DynamicNode
put_state id state [] = []
put_state id state ((k, n) ∷ nodes) =
    if k == id then (k, record n { state = state }) ∷ nodes else (k, n) ∷ put_state id state nodes

-- One entry of the log. The ids of nodes and executions that the Observer writes are not empty.
unfoldable pub apply_event : Dict String DynamicNode → Event → Dict String DynamicNode
apply_event nodes (node_accepted execution epoch id intent target now) =
    insert id (accepted_node execution id intent) nodes
apply_event nodes (node_dispatched execution epoch id attempt target instance_id agent now) =
    put_state id NodeState.dispatched nodes
apply_event nodes
      (node_reassigned execution epoch id lost attempt target instance_id agent reason lease now) =
    put_state id NodeState.dispatched nodes
apply_event nodes (node_completed execution epoch id attempt target ref terminal error now) =
    put_state id (node_state terminal) nodes
apply_event nodes _ = nodes

unfoldable pub apply_events : Dict String DynamicNode → List Event → Dict String DynamicNode
apply_events nodes [] = nodes
apply_events nodes (e ∷ events) = apply_events (apply_event nodes e) events

unfoldable pub dynamic_nodes_from_events : List Event → List DynamicNode
dynamic_nodes_from_events events = values (apply_events [] events)
