-- ===== src/Nodes/Orderly.antt =====
-- The order between the nodes of a record and its attempts, and the changes of a record that keep it.
use mathlib.Core.Path.{◌≡◌, refl, sym, ap, ◌∙◌}
use personal_computing_space.Shared.{◌≤◌, String, true, false, arith, Option, string_eq, option_eq}
use personal_computing_space.Shared.Json.{Json}
use personal_computing_space.Runs.Defs.{Snapshot, TerminalState, RunRecord}
use personal_computing_space.Runs.Actions.{Services}
use personal_computing_space.Runs.Execution.{new_attempt}
use personal_computing_space.Runs.Recovery.{given_up, replayed, replay_reason, stopped}
use personal_computing_space.Runs.Reports.{Report, is_open}
use personal_computing_space.Runs.Results.{reported, attempt_state}
use personal_computing_space.Nodes.Defs.{find_node}
use personal_computing_space.Nodes.Live.{
  live, slots, distinct, Closes, Closes-live, Closes-distinct, live-append, distinct-append,
}
use personal_computing_space.Nodes.Closing.{mark-Closes, given_up-live}

-- A node has at most one attempt that may still report, and has one only while it is dispatched; this
-- is said of records whose attempts have different ids.
pub record Orderly (r : RunRecord) : Type 0 where
  pub bound :
      distinct r.attempts ≡ true
      → (id : String) → live id r.attempts ≤ slots (find_node id r.dynamic_nodes)

-- a change of the record that keeps the order
pub record Orders (f : RunRecord → RunRecord) : Type 0 where
  pub orders : (r : RunRecord) → Orderly r → Orderly (f r)

pub Orders-closing :
    {f : RunRecord → RunRecord}
    → ((r : RunRecord) → Closes r.attempts (f r).attempts)
    → ((r : RunRecord) → (f r).dynamic_nodes ≡ r.dynamic_nodes)
    → Orders f
Orders-closing {f = f} c n = record {
  orders = λ r o. record {
    bound = λ d id. omega (
      arith,
      Closes-live r.attempts (f r).attempts (c r) id,
      o.bound (sym (Closes-distinct r.attempts (f r).attempts (c r)) ∙ d) id,
      ap (λ nodes. slots (find_node id nodes)) (n r),
    );
  };
}

-- attempts and nodes stay as they are
pub Orders-same :
    {f : RunRecord → RunRecord}
    → ((r : RunRecord) → (f r).attempts ≡ r.attempts)
    → ((r : RunRecord) → (f r).dynamic_nodes ≡ r.dynamic_nodes)
    → Orders f
Orders-same {f = f} a n = record {
  orders = λ r o. record {
    bound = λ d id. rw (a r) (rw (n r) (o.bound (sym (ap distinct (a r)) ∙ d) id));
  };
}

pub Orders-new_attempt :
    (services : Services) (id : String) (snapshot : Snapshot)
    → Orders (new_attempt services id snapshot)
Orders-new_attempt services new_id snapshot = record {
  orders = λ r o. record {
    bound = λ d id.
        omega (arith, live-append id _ r.attempts, o.bound (distinct-append _ r.attempts d) id);
  };
}

attempt_state-closed : (t : TerminalState) → is_open (attempt_state t) ≡ false
attempt_state-closed TerminalState.completed = refl
attempt_state-closed TerminalState.failed = refl
attempt_state-closed TerminalState.decision_required = refl

pub Orders-reported :
    (report : Report) (terminal : TerminalState) (error : Option Json)
    → Orders (reported report terminal error)
Orders-reported report terminal error =
    Orders-closing
      (λ r.
        mark-Closes report.attempt_id (attempt_state terminal) r.attempts
          (attempt_state-closed terminal))
      (λ r. refl)

-- where no attempt may report, the states of the nodes do not matter
Orders-given_up :
    {f : RunRecord → RunRecord} (reason : Json)
    → ((r : RunRecord) → (f r).attempts ≡ given_up reason r.attempts)
    → Orders f
Orders-given_up {f = f} reason a = record {
  orders = λ r o. record {
    bound = λ d id. rw (a r) (omega (arith, given_up-live reason r.attempts id));
  };
}

pub Orders-replayed : Orders replayed
Orders-replayed = Orders-given_up replay_reason λ r. refl

pub Orders-stopped : (reason : Json) → Orders (stopped reason)
Orders-stopped reason = Orders-given_up reason λ r. refl

pub ruleset ordering =
    (Orders-same, Orders-new_attempt, Orders-reported, Orders-replayed, Orders-stopped)
