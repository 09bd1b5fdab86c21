-- ===== src/Runs/History.antt =====
-- What holds of a Run over any history of calls.
use mathlib.Core.Path.{◌≡◌, refl, subst}
use personal_computing_space.Shared.{
  ℕ, String, Bool, true, false, if◌then◌else◌, ◌==◌, string_eq, Option, none, some, List, [], ◌∷◌,
}
use personal_computing_space.Shared.Exec.{Result, ok, err, value_error, closure_goal_mismatch}
use personal_computing_space.Runs.Defs.{RunRecord, RunState, Snapshot, ClosureContract}
use personal_computing_space.Runs.Actions.{Services, is_over}
use personal_computing_space.Runs.Calls.{open_run, open_record}
use personal_computing_space.Runs.Reports.{Validation}
use personal_computing_space.Runs.Logged.{
  replay, IsLogged, IsStable, IsLoose, IsLoose-IsStable, IsLogged-IsLoose,
}
use personal_computing_space.Runs.Verdict.{HasVerdict, HasVerdict-IsLoose, verdict_refl}
use personal_computing_space.Runs.Stable as RunCalls
use personal_computing_space.Nodes.Stable.{KeepsNodes, IsLoose-KeepsNodes}
use personal_computing_space.Nodes.Defs.{NodeServices}
use personal_computing_space.Runs.Commands.{
  Call, message, refine, cancel, fail, signal, inspect, patch, commit_draft, begin, report_result,
  resolve, close, recover, accept, dispatch, reassign, report_node, fail_node, complete, perform,
  perform_all,
}

module _ {I : RunRecord → Type 0} (stable : IsStable I) (s : Services) (v : Validation)
    (ns : NodeServices) (nodes : KeepsNodes I ns) where
  perform-Keeps : (c : Call) (r : RunRecord) → I r → I (perform s v ns c r)
  perform-Keeps (message now role content id) =
      (RunCalls.append_message-Keeps stable now role content id).keeps
  perform-Keeps (refine now) = (RunCalls.begin_refinement-Keeps stable now).keeps
  perform-Keeps (cancel now reason) = (RunCalls.cancel_run-Keeps stable now reason).keeps
  perform-Keeps (fail now reason) = (RunCalls.fail_run-Keeps stable now reason).keeps
  perform-Keeps (signal now kind payload) =
      (RunCalls.record_agent_signal-Keeps stable now kind payload).keeps
  perform-Keeps (inspect now id) = (RunCalls.inspect_readiness-Keeps stable s now id).keeps
  perform-Keeps (patch now version receipt edit base digest op) =
      (RunCalls.patch_run-Keeps stable s now version receipt edit base digest op).keeps
  perform-Keeps (commit_draft now new_id version digest) =
      (RunCalls.commit-Keeps stable s now new_id version digest).keeps
  perform-Keeps (begin now execution attempt version) =
      (RunCalls.start-Keeps stable s now execution attempt version).keeps
  perform-Keeps (report_result now report) =
      (RunCalls.record_result-Keeps stable v now report).keeps
  perform-Keeps (resolve now decision) = (RunCalls.resolve_run-Keeps stable now decision).keeps
  perform-Keeps (close now) = (RunCalls.close_run-Keeps stable now).keeps
  perform-Keeps (recover now replayable) = (RunCalls.recover_run-Keeps stable now replayable).keeps
  perform-Keeps (accept now intent selected) = (nodes.on_accept now intent selected).keeps
  perform-Keeps (dispatch now id node target) = (nodes.on_dispatch now id node target).keeps
  perform-Keeps (reassign now id node lost expected_id expected_epoch target reason) =
      (nodes.on_reassign now id node lost expected_id expected_epoch target reason).keeps
  perform-Keeps (report_node now node report) = (nodes.on_result now node report).keeps
  perform-Keeps (fail_node now node attempt error) = (nodes.on_failure now node attempt error).keeps
  perform-Keeps (complete now final) = (nodes.on_complete now final).keeps

  pub perform_all-Keeps : (cs : List Call) (r : RunRecord) → I r → I (perform_all s v ns cs r)
  unfolding perform_all
  perform_all-Keeps [] r i = i
  perform_all-Keeps (c ∷ cs) r i = perform_all-Keeps cs (perform s v ns c r) (perform-Keeps c r i)

-- the same of a predicate that every change of other fields keeps
loose-Keeps :
    {I : RunRecord → Type 0} (l : IsLoose I) (s : Services) (v : Validation) (ns : NodeServices)
    (cs : List Call) (r : RunRecord)
    → I r
    → I (perform_all s v ns cs r)
loose-Keeps l s v ns = perform_all-Keeps (IsLoose-IsStable l) s v ns (IsLoose-KeepsNodes l ns)

-- what a call returns, if it returns
abbrev pub OfReturned : (RunRecord → Type 0) → Result RunRecord → Type 0
OfReturned P (ok r) = P r
OfReturned P (err e) = Unit

open_run-IsLogged :
    (s : Services) (now : ℕ) (run_id task_ref goal : String) (may_reassign : Bool)
    (workspace version_id : String) (minimal : Snapshot)
    (contract : Option (ClosureContract × String × Snapshot))
    → OfReturned IsLogged
        (open_run s now run_id task_ref goal may_reassign workspace version_id minimal contract)
unfolding open_run replay
open_run-IsLogged s now run_id task_ref goal may_reassign workspace version_id minimal none = refl
open_run-IsLogged s now run_id task_ref goal may_reassign workspace version_id minimal
      (some (c, id, body)) =
    by_goal (c.goal == goal)
  where
    by_goal :
        (b : Bool)
        → OfReturned IsLogged (
            if◌then◌else◌ {A = Result RunRecord} b
              (ok (
                open_record s now run_id task_ref goal may_reassign
                  (record c { workspace_id = workspace })
                  version_id
                  id
                  body))
              (err (value_error closure_goal_mismatch)))
    by_goal true = refl
    by_goal false = tt

-- Whatever calls of `Call` are made on a Run that `open_run` returned, in whatever order and whether they return
-- or raise: the transitions in its event log are steps of RUN_TRANSITIONS, each from the state the one
-- before led to, from "opened" to the state the Run is in.
pub run-IsLogged :
    (s : Services) (v : Validation) (ns : NodeServices) (now : ℕ) (run_id task_ref goal : String)
    (may_reassign : Bool) (workspace version_id : String) (minimal : Snapshot)
    (contract : Option (ClosureContract × String × Snapshot)) (r : RunRecord) (cs : List Call)
    → open_run s now run_id task_ref goal may_reassign workspace version_id minimal contract ≡ ok r
    → replay RunState.opened (perform_all s v ns cs r).events ≡ some (perform_all s v ns cs r).state
run-IsLogged s v ns now run_id task_ref goal may_reassign workspace version_id minimal contract r cs
      opened =
    loose-Keeps IsLogged-IsLoose s v ns cs r (
      subst (OfReturned IsLogged) opened (
        open_run-IsLogged s now run_id task_ref goal may_reassign workspace version_id minimal
          contract))

-- A Run that is completed, failed, cancelled or closed keeps that verdict under all calls of `Call`: it is in the
-- same state ever after, or closed.
pub verdict_stays :
    (s : Services) (v : Validation) (ns : NodeServices) (r : RunRecord) (cs : List Call)
    → is_over r.state ≡ true
    → HasVerdict r.state (perform_all s v ns cs r)
verdict_stays s v ns r cs over =
    loose-Keeps (HasVerdict-IsLoose r.state over) s v ns cs r (verdict_refl r.state)
