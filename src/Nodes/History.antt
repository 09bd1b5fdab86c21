-- ===== src/Nodes/History.antt =====
-- The order between nodes and attempts over any history of calls.
use mathlib.Core.Path.{◌≡◌, refl, subst}
use personal_computing_space.Shared.{
  ℕ, ◌≤◌, String, Bool, true, false, arith, if◌then◌else◌, ◌==◌, string_eq, Option, none, some,
  List, [],
}
use personal_computing_space.Shared.Exec.{Result, ok, err, value_error, closure_goal_mismatch}
use personal_computing_space.Runs.Defs.{RunRecord, Snapshot, ClosureContract}
use personal_computing_space.Runs.Actions.{Services}
use personal_computing_space.Runs.Calls.{open_run, open_record}
use personal_computing_space.Runs.Reports.{Validation}
use personal_computing_space.Runs.Commands.{Call, perform_all}
use personal_computing_space.Runs.History.{perform_all-Keeps, OfReturned}
use personal_computing_space.Nodes.Defs.{NodeServices, find_node}
use personal_computing_space.Nodes.Live.{live, slots, distinct}
use personal_computing_space.Nodes.Orderly.{Orderly}
use personal_computing_space.Nodes.Order.{Orderly-IsStable}
use personal_computing_space.Nodes.Ordered.{Orderly-KeepsNodes}

no_attempts-Orderly : (r : RunRecord) → r.attempts ≡ [] → Orderly r
unfolding live
no_attempts-Orderly r e = record { bound = λ d id. rw e (omega arith) }

open_run-Orderly :
    (s : Services) (now : ℕ) (run_id task_ref goal : String) (may_reassign : Bool)
    (workspace version_id : String) (minimal : Snapshot)
    (contract : Option (ClosureContract × String × Snapshot))
    → OfReturned Orderly
        (open_run s now run_id task_ref goal may_reassign workspace version_id minimal contract)
unfolding open_run
open_run-Orderly s now run_id task_ref goal may_reassign workspace version_id minimal none =
    no_attempts-Orderly _ refl
open_run-Orderly s now run_id task_ref goal may_reassign workspace version_id minimal
      (some (c, id, body)) =
    by_goal (c.goal == goal)
  where
    by_goal :
        (b : Bool)
        → OfReturned Orderly (
            if◌then◌else◌ {A = Result RunRecord} b
              (ok (
                open_record s now run_id task_ref goal may_reassign
                  (record c { workspace_id = workspace })
                  version_id
                  id
                  body))
              (err (value_error closure_goal_mismatch)))
    by_goal true = no_attempts-Orderly _ refl
    by_goal false = tt

-- Whatever calls of `Call` are made on a Run that `open_run` returned, in whatever order and whether they
-- return or raise: if the attempts of the Run have different ids, then a dynamic node has at most one
-- attempt that is created or running, and none unless the node is dispatched.
pub one_live_attempt :
    (s : Services) (v : Validation) (ns : NodeServices) (now : ℕ) (run_id task_ref goal : String)
    (may_reassign : Bool) (workspace version_id : String) (minimal : Snapshot)
    (contract : Option (ClosureContract × String × Snapshot)) (r : RunRecord) (cs : List Call)
    → open_run s now run_id task_ref goal may_reassign workspace version_id minimal contract ≡ ok r
    → distinct (perform_all s v ns cs r).attempts ≡ true
    → (id : String)
    → live id (perform_all s v ns cs r).attempts
      ≤ slots (find_node id (perform_all s v ns cs r).dynamic_nodes)
one_live_attempt s v ns now run_id task_ref goal may_reassign workspace version_id minimal contract
      r cs opened d id =
    (perform_all-Keeps Orderly-IsStable s v ns (Orderly-KeepsNodes ns) cs r (
        subst (OfReturned Orderly) opened (
          open_run-Orderly s now run_id task_ref goal may_reassign workspace version_id minimal
            contract))).bound
      d id
