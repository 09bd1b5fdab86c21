-- ===== src/Nodes/Rebuilt.antt =====
-- Reading the event log back gives the nodes of the record, for the calls that write one entry for each
-- change of a node.
use mathlib.Core.Path.{◌≡◌, refl, sym, ap, ◌∙◌}
use personal_computing_space.Shared.{
  String, Bool, true, false, not, ◌&&◌, ◌||◌, arith, ◌==◌, ==_iff, string_eq, none, List, [], ◌∷◌,
  ◌++◌, if◌then◌else◌,
}
use personal_computing_space.Shared.Lists.{any}
use personal_computing_space.Shared.Dict.{Dict, values, insert}
use personal_computing_space.Runs.Defs.{RunRecord, DynamicNode, NodeState, Event}
use personal_computing_space.Nodes.Defs.{find_node, set_node}
use personal_computing_space.Nodes.Rebuild.{
  put_state, apply_event, apply_events, dynamic_nodes_from_events,
}

-- the nodes under their ids
unfoldable pub keyed : List DynamicNode → Dict String DynamicNode
keyed [] = []
keyed (n ∷ nodes) = (n.node_id, n) ∷ keyed nodes

values-keyed : (nodes : List DynamicNode) → values (keyed nodes) ≡ nodes
unfolding keyed
values-keyed [] = refl
values-keyed (n ∷ nodes) = ap (λ rest. n ∷ rest) (values-keyed nodes)

pub put_state-keyed :
    (id : String) (state : NodeState) (nodes : List DynamicNode)
    → put_state id state (keyed nodes) ≡ keyed (set_node id state nodes)
unfolding keyed put_state
put_state-keyed id state [] = refl
put_state-keyed id state (n ∷ nodes) = by_id (n.node_id == id) (put_state-keyed id state nodes)
  where
    by_id :
        (b : Bool)
        → put_state id state (keyed nodes) ≡ keyed (set_node id state nodes)
        → (if b
            then (n.node_id, record n { state = state }) ∷ keyed nodes
            else (n.node_id, n) ∷ put_state id state (keyed nodes))
          ≡ keyed (if b then record n { state = state } ∷ nodes else n ∷ set_node id state nodes)
    by_id true h = refl
    by_id false h = ap (λ rest. (n.node_id, n) ∷ rest) h

pub insert-keyed :
    (n : DynamicNode) (nodes : List DynamicNode)
    → find_node n.node_id nodes ≡ none
    → insert n.node_id n (keyed nodes) ≡ keyed (nodes ++ n ∷ [])
unfolding keyed insert
insert-keyed n [] e = refl
insert-keyed n (m ∷ nodes) e = ground (arith, insert-keyed n nodes)

pub apply_events-append :
    (d : Dict String DynamicNode) (es : List Event) (e : Event)
    → apply_events d (es ++ e ∷ []) ≡ apply_event (apply_events d es) e
unfolding apply_events
apply_events-append d [] e = refl
apply_events-append d (f ∷ es) e = apply_events-append (apply_event d f) es e

-- no two nodes have the same id
unfoldable pub distinct_nodes : List DynamicNode → Bool
distinct_nodes [] = true
distinct_nodes (n ∷ nodes) = not (any (λ m. m.node_id == n.node_id) nodes) && distinct_nodes nodes

abbrev names : String → List DynamicNode → Bool
names id = any λ m. m.node_id == id

names-append :
    (id : String) (n : DynamicNode) (nodes : List DynamicNode)
    → names id (nodes ++ n ∷ []) ≡ (names id nodes || n.node_id == id)
names-append id n [] = ground arith
names-append id n (m ∷ nodes) = ground (arith, names-append id n nodes)

names-set :
    (id i : String) (state : NodeState) (nodes : List DynamicNode)
    → names id (set_node i state nodes) ≡ names id nodes
names-set id i state [] = refl
names-set id i state (m ∷ nodes) = ground (arith, names-set id i state nodes)

pub distinct_nodes-set :
    (i : String) (state : NodeState) (nodes : List DynamicNode)
    → distinct_nodes (set_node i state nodes) ≡ distinct_nodes nodes
unfolding distinct_nodes
distinct_nodes-set i state [] = refl
distinct_nodes-set i state (m ∷ nodes) =
    ground (arith, names-set m.node_id i state nodes, distinct_nodes-set i state nodes)

pub distinct_nodes-append :
    (n : DynamicNode) (nodes : List DynamicNode)
    → distinct_nodes (nodes ++ n ∷ []) ≡ true
    → distinct_nodes nodes ≡ true
unfolding distinct_nodes
distinct_nodes-append n [] d = refl
distinct_nodes-append n (m ∷ nodes) d =
    ground (arith, names-append m.node_id n nodes, distinct_nodes-append n nodes)

pub find_node-fresh :
    (n : DynamicNode) (nodes : List DynamicNode)
    → distinct_nodes (nodes ++ n ∷ []) ≡ true
    → find_node n.node_id nodes ≡ none
unfolding distinct_nodes
find_node-fresh n [] d = refl
find_node-fresh n (m ∷ nodes) d = ground (
  arith,
  names-append m.node_id n nodes,
  find_node-fresh n nodes,
  ==_iff n.node_id m.node_id,
  ==_iff m.node_id n.node_id,
)

-- The log gives the nodes back, where they have different ids.
pub record Rebuilt (r : RunRecord) : Type 0 where
  pub same :
      distinct_nodes r.dynamic_nodes ≡ true → apply_events [] r.events ≡ keyed r.dynamic_nodes

pub Rebuilt-nodes :
    (r : RunRecord)
    → Rebuilt r
    → distinct_nodes r.dynamic_nodes ≡ true
    → dynamic_nodes_from_events r.events ≡ r.dynamic_nodes
unfolding dynamic_nodes_from_events
Rebuilt-nodes r b d = ap values (b.same d) ∙ values-keyed r.dynamic_nodes

module _ (r : RunRecord) (b : Rebuilt r) (s : RunRecord) where
  -- a change of a node's state, with its entry
  pub set-Rebuilt :
      (id : String) (state : NodeState)
      → s.dynamic_nodes ≡ set_node id state r.dynamic_nodes
      → apply_events [] s.events ≡ put_state id state (apply_events [] r.events)
      → Rebuilt s
  set-Rebuilt id state n l = record {
    same = λ d.
        l
        ∙ ap (put_state id state) (
            b.same
              (sym (distinct_nodes-set id state r.dynamic_nodes) ∙ ap distinct_nodes (sym n) ∙ d))
        ∙ put_state-keyed id state r.dynamic_nodes
        ∙ ap keyed (sym n);
  }

  -- a new node, with its entry
  pub append-Rebuilt :
      (n : DynamicNode)
      → s.dynamic_nodes ≡ r.dynamic_nodes ++ n ∷ []
      → apply_events [] s.events ≡ insert n.node_id n (apply_events [] r.events)
      → Rebuilt s
  append-Rebuilt n m l = record {
    same = λ d.
        l
        ∙ ap (insert n.node_id n)
            (b.same (distinct_nodes-append n r.dynamic_nodes (ap distinct_nodes (sym m) ∙ d)))
        ∙ insert-keyed n r.dynamic_nodes
            (find_node-fresh n r.dynamic_nodes (ap distinct_nodes (sym m) ∙ d))
        ∙ ap keyed (sym m);
  }

  -- nothing of the nodes, and no entry of theirs
  pub quiet-Rebuilt :
      s.dynamic_nodes ≡ r.dynamic_nodes
      → apply_events [] s.events ≡ apply_events [] r.events
      → Rebuilt s
  quiet-Rebuilt n l = record {
    same = λ d. l ∙ b.same (ap distinct_nodes (sym n) ∙ d) ∙ ap keyed (sym n);
  }
