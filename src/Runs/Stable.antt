-- ===== src/Runs/Stable.antt =====
-- Every call keeps what the transitions, the other entries of the log and the changes of other fields
-- keep.
use mathlib.Core.Path.{refl}
use personal_computing_space.Shared.{ℕ, String, Bool, Option, none, some}
use personal_computing_space.Shared.Json.{Json}
use personal_computing_space.Shared.Exec.{Result}
use personal_computing_space.Runs.Defs.{RunRecord, Snapshot, ClosureVersion, TerminalState}
use personal_computing_space.Runs.Actions.{Services}
use personal_computing_space.Runs.Calls.{
  begin_refinement, append_message, cancel_run, fail_run, record_agent_signal,
}
use personal_computing_space.Runs.Execution.{
  inspect_readiness, commit, check_attempt_budget, launch, start, close_run, resolve_run,
}
use personal_computing_space.Runs.Patches.{patch_run}
use personal_computing_space.Runs.Recovery.{recover_run}
use personal_computing_space.Runs.Reports.{Report, Validation, Review}
use personal_computing_space.Runs.Results.{conclude, judge, judged_by, record_result}
use personal_computing_space.Runs.Reading.{fence-reads, review-reads}
use personal_computing_space.Nodes.Orderly.{ordering}
use personal_computing_space.Runs.Keeping.{Keeps, keeping}
use personal_computing_space.Runs.Logged.{IsStable}

module _ {I : RunRecord → Type 0} (s : IsStable I) where
  pub begin_refinement-Keeps : (now : ℕ) → Keeps I (begin_refinement now)
  unfolding begin_refinement
  begin_refinement-Keeps now =
      search (keeping, s.on_transition, s.on_log, s.on_set, refl, ordering) depth 12

  pub append_message-Keeps :
      (now : ℕ) (role content : String) (id : Option String)
      → Keeps I (append_message now role content id)
  unfolding append_message
  append_message-Keeps now role content id =
      search (keeping, s.on_transition, s.on_log, s.on_set, refl, ordering) depth 12

  pub cancel_run-Keeps : (now : ℕ) (reason : Json) → Keeps I (cancel_run now reason)
  unfolding cancel_run
  cancel_run-Keeps now reason =
      search (keeping, s.on_transition, s.on_log, s.on_set, refl, ordering) depth 12

  pub fail_run-Keeps : (now : ℕ) (reason : Json) → Keeps I (fail_run now reason)
  unfolding fail_run
  fail_run-Keeps now reason =
      search (keeping, s.on_transition, s.on_log, s.on_set, refl, ordering) depth 12

  pub record_agent_signal-Keeps :
      (now : ℕ) (kind : String) (payload : Json) → Keeps I (record_agent_signal now kind payload)
  unfolding record_agent_signal
  record_agent_signal-Keeps now kind payload =
      search (keeping, s.on_transition, s.on_log, s.on_set, refl, ordering) depth 12

  pub inspect_readiness-Keeps :
      (services : Services) (now : ℕ) (id : Option String)
      → Keeps I (inspect_readiness services now id)
  unfolding inspect_readiness
  inspect_readiness-Keeps services now id =
      search (keeping, s.on_transition, s.on_log, s.on_set, refl, ordering) depth 12

  pub commit-Keeps :
      (services : Services) (now : ℕ) (new_id version_id digest : String)
      → Keeps I (commit services now new_id version_id digest)
  unfolding commit
  commit-Keeps services now new_id version_id digest =
      search (keeping, s.on_transition, s.on_log, s.on_set, refl, ordering) depth 20

  check_attempt_budget-Keeps : Keeps I check_attempt_budget
  unfolding check_attempt_budget
  check_attempt_budget-Keeps =
      search (keeping, s.on_transition, s.on_log, s.on_set, refl, ordering) depth 12

  launch-Keeps :
      (services : Services) (now : ℕ) (execution_id attempt_id : String) (c : ClosureVersion)
      → Keeps I (launch services now execution_id attempt_id c)
  unfolding launch
  launch-Keeps services now execution_id attempt_id c =
      search
        (keeping, s.on_transition, s.on_log, s.on_set, refl, ordering, check_attempt_budget-Keeps)
        depth 24 fits 30000

  pub start-Keeps :
      (services : Services) (now : ℕ) (execution_id attempt_id version_id : String)
      → Keeps I (start services now execution_id attempt_id version_id)
  unfolding start
  start-Keeps services now execution_id attempt_id version_id =
      search (keeping, s.on_transition, s.on_log, s.on_set, refl, ordering, launch-Keeps) depth 20

  pub close_run-Keeps : (now : ℕ) → Keeps I (close_run now)
  unfolding close_run
  close_run-Keeps now =
      search (keeping, s.on_transition, s.on_log, s.on_set, refl, ordering) depth 12

  pub resolve_run-Keeps : (now : ℕ) (decision : String) → Keeps I (resolve_run now decision)
  unfolding resolve_run
  resolve_run-Keeps now decision =
      search (keeping, s.on_transition, s.on_log, s.on_set, refl, ordering) depth 20

  pub patch_run-Keeps :
      (services : Services) (now : ℕ) (version_id receipt_id : String)
      (edit : Snapshot → Result Snapshot) (base_version base_digest operation_id : String)
      → Keeps I
          (patch_run services now version_id receipt_id edit base_version base_digest operation_id)
  unfolding patch_run
  patch_run-Keeps services now version_id receipt_id edit base_version base_digest operation_id =
      search (keeping, s.on_transition, s.on_log, s.on_set, refl, ordering) depth 24 fits 30000

  pub recover_run-Keeps :
      (now : ℕ) (replayable : Snapshot → Bool) → Keeps I (recover_run now replayable)
  unfolding recover_run
  recover_run-Keeps now replayable =
      search (keeping, s.on_transition, s.on_log, s.on_set, refl, ordering) depth 20

  conclude-Keeps :
      (z : String → Bool) (now : ℕ) (report : Report) (b : Bool) (terminal : TerminalState)
      (error : Option Json)
      → Keeps I (conclude z now report b terminal error)
  unfolding conclude
  conclude-Keeps z now report b terminal error =
      search (keeping, s.on_transition, s.on_log, s.on_set, refl, ordering) depth 12

  judge-Keeps :
      (z : String → Bool) (now : ℕ) (report : Report) (findings : Review)
      → Keeps I (judge z now report findings)
  judge-Keeps z now report findings = by_schema findings.schema_failure
    where
      by_schema : (o : Option Json) → Keeps I (judged_by z now report findings o)
      by_schema none = search (keeping, conclude-Keeps) depth 12
      by_schema (some errors) = conclude-Keeps _ _ _ _ _ _

  pub record_result-Keeps :
      (v : Validation) (now : ℕ) (report : Report) → Keeps I (record_result v now report)
  unfolding record_result
  record_result-Keeps v now report = search (keeping, fence-reads, review-reads, judge-Keeps)
