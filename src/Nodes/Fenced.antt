-- ===== src/Nodes/Fenced.antt =====
-- Which results of a node are taken up: those of an attempt of the node that may still report, under
-- the epoch of the execution.
use mathlib.Core.Path.{◌≡◌, refl, sym, ◌∙◌, subst}
use personal_computing_space.Shared.{
  ℕ, String, Bool, true, false, ◌||◌, arith, ◌==◌, ==_iff, nat_eq, string_eq, option_eq, Option,
  none, some,
}
use personal_computing_space.Runs.Defs.{RunState, RunRecord, Attempt, DynamicNode, TerminalState}
use personal_computing_space.Runs.Reports.{Report, is_open}
use personal_computing_space.Runs.Fencing.{
  Comes, Comes-need, Comes-assert, Comes-pure, Comes-get, Comes-bind, Comes-map, Keeps-Comes, Fate,
}
use personal_computing_space.Shared.Exec.{Code, ◌>>=◌}
use personal_computing_space.Runs.Actions.{assert, state_beq}
use personal_computing_space.Runs.Transition.{transition, target}
use personal_computing_space.Nodes.Reading.{node_review-reads}
use personal_computing_space.Shared.Json.{Json}
use personal_computing_space.Shared.Lists.{first}
use personal_computing_space.Nodes.Defs.{NodeServices, find_node, running_execution, is_attempt_of}
use personal_computing_space.Nodes.Results.{
  node_fence, fence_in, last_attempt, check_failing, may_fail, record_dynamic_node_result,
  node_review, end_node, final_state, final_error,
}

-- The report is for an attempt of the node, of the execution that runs, which may still report.
pub record AdmittedFor (r : RunRecord) (node_id : String) (report : Report) (n : DynamicNode)
    (a : Attempt) : Type 0 where
  pub running : r.state ≡ RunState.running
  pub execution : report.execution_id ≡ r.execution_id
  pub found : find_node node_id r.dynamic_nodes ≡ some n
  pub named : last_attempt (is_attempt_of node_id report.attempt_id) r.attempts ≡ some a
  pub reported_epoch : report.execution_epoch ≡ some r.execution_epoch
  pub attempt_epoch : a.execution_epoch ≡ r.execution_epoch
  pub is_live : is_open a.state ≡ true

pub running_state :
    (r : RunRecord) (execution : String)
    → running_execution r ≡ some execution
    → r.state ≡ RunState.running
running_state r execution e = ground arith

running_id :
    (r : RunRecord) (execution : String)
    → running_execution r ≡ some execution
    → r.execution_id ≡ some execution
running_id r execution e = ground arith

admit :
    (r : RunRecord) (node_id : String) (report : Report) (execution : String) (n : DynamicNode)
    (a : Attempt)
    → running_execution r ≡ some execution
    → find_node node_id r.dynamic_nodes ≡ some n
    → (report.execution_id == some execution) ≡ true
    → (report.execution_epoch == some r.execution_epoch) ≡ true
    → last_attempt (is_attempt_of node_id report.attempt_id) r.attempts ≡ some a
    → (a.execution_epoch == r.execution_epoch) ≡ true
    → is_open a.state ≡ true
    → (r ≡ r) × AdmittedFor r node_id report n a
admit r node_id report execution n a running found id epoch named own live = (
  refl,
  record {
    running = running_state r execution running;
    execution =
        (==_iff report.execution_id (some execution)).0 id ∙ sym (running_id r execution running);
    found = found;
    named = named;
    reported_epoch = (==_iff report.execution_epoch (some r.execution_epoch)).0 epoch;
    attempt_epoch = (==_iff a.execution_epoch r.execution_epoch).0 own;
    is_live = live;
  },
)

-- the fence, once the Run is seen to run
fenced_in :
    (r : RunRecord) (node_id : String) (report : Report) (execution : String)
    → running_execution r ≡ some execution
    → Comes r
        (λ p s. (s ≡ r) × AdmittedFor r node_id report p.0 p.1)
        (fence_in node_id report r execution)
fenced_in r node_id report execution running =
    search (Comes-assert, Comes-need, Comes-pure, admit r node_id report execution) depth 30 fits
      30000

pub node_fence-Comes :
    (r : RunRecord) (node_id : String) (report : Report)
    → Comes r (λ p s. (s ≡ r) × AdmittedFor r node_id report p.0 p.1) (node_fence node_id report)
unfolding node_fence
node_fence-Comes r node_id report = search (Comes-get, Comes-need, fenced_in)

-- what a named failure is for
abbrev pub MayFail : RunRecord → String → Option String → Type 0
MayFail r node_id none = Unit
MayFail r node_id (some id) =
    (a : Attempt) × ((first (is_attempt_of node_id id) r.attempts ≡ some a)
      × (is_open a.state ≡ true))

may_fail-MayFail :
    (r : RunRecord) (node_id id : String) (a : Attempt)
    → first (is_attempt_of node_id id) r.attempts ≡ some a
    → may_fail r.execution_epoch a ≡ true
    → MayFail r node_id (some id)
may_fail-MayFail r node_id id a f e = (a, (f, ground arith))

-- a guard that ends the checks
Comes-last :
    {r : RunRecord} {P : Type 0} (c : Code) (b : Bool)
    → (b ≡ true → P)
    → Comes r (λ x s. (s ≡ r) × P) (assert b c)
Comes-last c true p = record { fate = (refl, p refl) }
Comes-last c false p = record { fate = refl }

pub check_failing-Comes :
    (r : RunRecord) (node_id : String) (id : Option String)
    → Comes r (λ x s. (s ≡ r) × MayFail r node_id id) (check_failing node_id id)
unfolding check_failing
check_failing-Comes r node_id none = Comes-pure _ (refl, tt)
check_failing-Comes r node_id (some id) =
    search (Comes-get, Comes-need, Comes-last, may_fail-MayFail r node_id id) depth 20 fits 20000

-- where a result that is taken up leaves the Run
abbrev pub IsTaken : RunRecord → Type 0
IsTaken s =
    (state_beq s.state RunState.running || state_beq s.state RunState.awaiting_decision) ≡ true

end_node-IsTaken :
    (ns : NodeServices) (now : ℕ) (node_id : String) (a : Attempt) (value : Json)
    (t : TerminalState) (error : Option Json) (r : RunRecord)
    → r.state ≡ RunState.running
    → Comes r (λ x s. IsTaken s) (end_node ns now node_id a value t error)
unfolding end_node transition target
end_node-IsTaken ns now node_id a value t error r running = record {
  fate =
      subst
        (λ b.
          Fate r (λ x s. IsTaken s)
            (end_node ns now node_id a value t error (record r { state = b })))
        (sym running) (at_running t);
}
  where
    at_running :
        (t : TerminalState)
        → Fate r
            (λ x s. IsTaken s)
            (end_node ns now node_id a value t error (record r { state = RunState.running }))
    at_running TerminalState.completed = refl
    at_running TerminalState.failed = refl
    at_running TerminalState.decision_required = refl

-- A result of a node is taken up only for an attempt of that node, of the execution that runs and under
-- its epoch, that is created or running, and only while the Run is running; the Run is then still
-- running or awaits a decision. A result that is refused, for whatever reason, leaves the Run as it was.
pub record_dynamic_node_result-Fate :
    (ns : NodeServices) (now : ℕ) (node_id : String) (report : Report) (r : RunRecord)
    → Fate r
        (λ x s.
          ((n : DynamicNode) × ((a : Attempt) × AdmittedFor r node_id report n a)) × IsTaken s)
        (record_dynamic_node_result ns now node_id report r)
unfolding record_dynamic_node_result
record_dynamic_node_result-Fate ns now node_id report r =
    (Comes-bind {R = Taken} (λ p s. (s ≡ r) × AdmittedFor r node_id report p.0 p.1)
      (node_fence-Comes r node_id report) checked).fate
  where
    Taken : Unit {0} → RunRecord → Type 0
    Taken x s = ((n : DynamicNode) × ((a : Attempt) × AdmittedFor r node_id report n a)) × IsTaken s

    checked :
        (p : DynamicNode × Attempt) (s : RunRecord)
        → (s ≡ r) × AdmittedFor r node_id report p.0 p.1
        → (s ≡ r)
          × Comes r Taken (
              node_review ns p.0 report >>= λ c.
              end_node ns now node_id p.1 c.0
                (final_state (c.1).0 (c.1).1)
                (final_error report.terminal_error (c.1).1))
    checked p s (e, admitted) = (
      e,
      Comes-map (λ x s w. ((p.0, (p.1, admitted)), w))
          (Comes-bind (λ c s. s ≡ r) (Keeps-Comes (node_review-reads ns p.0 report))
            λ c s e'. (e', end_node-IsTaken ns now node_id p.1 _ _ _ r admitted.running)),
    )
