-- ===== src/Nodes/Order.antt =====
-- Every call keeps the order between nodes and attempts: a node has at most one attempt that may still
-- report, and has one only while it is dispatched.
use mathlib.Core.Path.{◌≡◌, refl, sym, ap, ◌∙◌}
use personal_computing_space.Shared.{
  ◌≤◌, String, Bool, true, false, arith, ◌==◌, ==_iff, nat_eq, string_eq, option_eq, Option, none,
  some, List, [], ◌∷◌, ◌++◌,
}
use personal_computing_space.Shared.Json.{Json}
use personal_computing_space.Runs.Defs.{
  RunRecord, Attempt, DynamicNode, NodeState, TerminalState, ResourceRef,
}
use personal_computing_space.Runs.Reports.{Report, is_open}
use personal_computing_space.Runs.Results.{attempt_state}
use personal_computing_space.Runs.Keeping.{Keeps-set_record}
use personal_computing_space.Runs.Logged.{IsStable, transition_case}
use personal_computing_space.Nodes.Defs.{find_node, set_node, is_accepted, is_attempt_of}
use personal_computing_space.Nodes.Dispatch.{
  dispatched_to, reassigned_to, live_attempts, only_attempt, worker_lost, mark_lost,
}
use personal_computing_space.Nodes.Results.{
  with_result, with_failure, last_attempt, ended, node_state,
}
use personal_computing_space.Nodes.Live.{
  live, slots, distinct, live-append, distinct-append, find_node-set_self, find_node-set_other,
  Closes-live, Closes-distinct, ClosesOne-close, Closes,
}
use personal_computing_space.Nodes.Closing.{
  mark_lost-Closes, mark_lost-live, only_attempt-live, change_last-Closes, change_last-live,
  fail_attempts-Closes, live_after_failure, live_after_named_failure,
}
use personal_computing_space.Nodes.Fenced.{AdmittedFor, MayFail}
use personal_computing_space.Nodes.Orderly.{Orderly}

pub Orderly-IsStable : IsStable Orderly
Orderly-IsStable = record {
  on_transition = λ now event reason. record {
    keeps =
        λ r i. transition_case Orderly now event reason r (λ to p. record { bound = i.bound }) i;
  };
  on_log = λ e n. record { keeps = λ r i. record { bound = i.bound } };
  on_set = λ es st o. Keeps-set_record o.orders;
}

-- a dispatch of a node that waits
pub dispatched_to-Orderly :
    (node_id : String) (a : Attempt) (r : RunRecord) (n : DynamicNode)
    → find_node node_id r.dynamic_nodes ≡ some n
    → is_accepted n.state ≡ true
    → a.node_id ≡ some node_id
    → Orderly r
    → Orderly (dispatched_to node_id a r)
dispatched_to-Orderly node_id a r n f w m o = record {
  bound = λ d id. ground (
    arith,
    live-append id a r.attempts,
    o.bound (distinct-append a r.attempts d) id,
    find_node-set_self node_id NodeState.dispatched r.dynamic_nodes n f,
    find_node-set_other node_id id NodeState.dispatched r.dynamic_nodes,
    ==_iff node_id id,
  );
}

-- a reassignment of a dispatched node, of its only live attempt
pub reassigned_to-Orderly :
    (node_id lost lease_state : String) (a : Attempt) (r : RunRecord) (n : DynamicNode)
    → find_node node_id r.dynamic_nodes ≡ some n
    → only_attempt lost (live_attempts node_id r.attempts) ≡ true
    → a.node_id ≡ some node_id
    → Orderly r
    → Orderly (reassigned_to node_id lost lease_state a r)
reassigned_to-Orderly node_id lost lease_state a r n f w m o = record { bound = bounded }
  where
    marked : List Attempt
    marked = mark_lost lost a.attempt_id (worker_lost lease_state) r.attempts

    unmarked : distinct (marked ++ a ∷ []) ≡ true → distinct r.attempts ≡ true
    unmarked d =
        sym (Closes-distinct r.attempts marked (mark_lost-Closes lost _ _ r.attempts))
        ∙ distinct-append a marked d

    bounded :
        distinct (marked ++ a ∷ []) ≡ true
        → (id : String)
        → live id (marked ++ a ∷ [])
          ≤ slots (find_node id (set_node node_id NodeState.dispatched r.dynamic_nodes))
    bounded d id = ground (
      arith,
      live-append id a marked,
      o.bound (unmarked d) id,
      mark_lost-live node_id lost a.attempt_id (worker_lost lease_state) r.attempts (unmarked d)
          (only_attempt-live node_id lost r.attempts w),
      Closes-live r.attempts marked (mark_lost-Closes lost _ _ r.attempts) id,
      find_node-set_self node_id NodeState.dispatched r.dynamic_nodes n f,
      find_node-set_other node_id id NodeState.dispatched r.dynamic_nodes,
      ==_iff node_id id,
    )

-- what a node in a final state has to leave: none of its attempts may report, and no more attempts of
-- other nodes than before
ended-Orderly :
    (node_id : String) (state : NodeState) (r s : RunRecord)
    → Closes r.attempts s.attempts
    → s.dynamic_nodes ≡ set_node node_id state r.dynamic_nodes
    → (Orderly r → distinct r.attempts ≡ true → live node_id s.attempts ≡ 0)
    → Orderly r
    → Orderly s
ended-Orderly node_id state r s c n l o = record { bound = bounded }
  where
    bounded :
        distinct s.attempts ≡ true
        → (id : String) → live id s.attempts ≤ slots (find_node id s.dynamic_nodes)
    bounded d id = rw n (by_id (node_id == id) refl)
      where
        before : distinct r.attempts ≡ true
        before = sym (Closes-distinct r.attempts s.attempts c) ∙ d

        by_id :
            (b : Bool)
            → (node_id == id) ≡ b
            → live id s.attempts ≤ slots (find_node id (set_node node_id state r.dynamic_nodes))
        by_id true e = ground (arith, ==_iff node_id id, l o before)
        by_id false e = omega (
          arith,
          o.bound before id,
          Closes-live r.attempts s.attempts c id,
          find_node-set_other node_id id state r.dynamic_nodes e,
        )

slots-le_one : (n : Option DynamicNode) → slots n ≤ 1
slots-le_one none = omega arith
slots-le_one (some n) = ground arith

attempt_state-closed : (t : TerminalState) → is_open (attempt_state t) ≡ false
attempt_state-closed TerminalState.completed = refl
attempt_state-closed TerminalState.failed = refl
attempt_state-closed TerminalState.decision_required = refl

pub with_result-Orderly :
    (node_id : String) (report : Report) (n : DynamicNode) (a : Attempt) (terminal : TerminalState)
    (error : Option Json) (ref : ResourceRef) (r : RunRecord)
    → AdmittedFor r node_id report n a
    → a.attempt_id ≡ report.attempt_id
    → Orderly r
    → Orderly (with_result node_id a.attempt_id terminal error ref r)
with_result-Orderly node_id report n a terminal error ref r admitted same =
    ended-Orderly node_id (node_state terminal) r _
      (change_last-Closes _ (ended terminal error ref) r.attempts
        λ b. ClosesOne-close b _ refl (attempt_state-closed terminal))
      refl
      λ o d. omega (
        arith,
        o.bound d node_id,
        slots-le_one (find_node node_id r.dynamic_nodes),
        change_last-live node_id a.attempt_id (ended terminal error ref) r.attempts a
            (ap (λ id. last_attempt (is_attempt_of node_id id) r.attempts) same ∙ admitted.named)
            admitted.is_live (λ b. attempt_state-closed terminal),
      )

pub with_failure-Orderly :
    (node_id : String) (id : Option String) (reason : Json) (r : RunRecord)
    → MayFail r node_id id
    → Orderly r
    → Orderly (with_failure node_id id reason r)
with_failure-Orderly node_id none reason r may =
    ended-Orderly node_id NodeState.failed r _ (fail_attempts-Closes _ reason r.attempts) refl
      λ o d. live_after_failure node_id reason r.attempts
with_failure-Orderly node_id (some id) reason r (a, (f, live_a)) =
    ended-Orderly node_id NodeState.failed r _ (fail_attempts-Closes _ reason r.attempts) refl
      λ o d. omega (
        arith,
        o.bound d node_id,
        slots-le_one (find_node node_id r.dynamic_nodes),
        live_after_named_failure node_id id reason r.attempts a f live_a,
      )
