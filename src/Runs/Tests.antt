-- ===== src/Runs/Tests.antt =====
-- A Run opened, refined, committed, started and reported on, with the theorems applied to it.
use mathlib.Core.Path.{◌≡◌, refl}
use personal_computing_space.Shared.{true, none, some, [], ◌∷◌}
use personal_computing_space.Shared.Json.{Json}
use personal_computing_space.Shared.Exec.{ok, err, value_error, execution_not_running, after, reply}
use personal_computing_space.Shared.{string_beq}
use personal_computing_space.Runs.Defs.{RunRecord, RunState}
use personal_computing_space.Runs.Calls.{open_run, open_record, begin_refinement}
use personal_computing_space.Runs.Execution.{commit, launch, start, check_attempt_budget}
use personal_computing_space.Runs.Transition.{target, transition}
use personal_computing_space.Runs.Reports.{fence, review, check_evidence, check_refs}
use personal_computing_space.Runs.Results.{conclude, record_result}
use personal_computing_space.Runs.Logged.{replay}
use personal_computing_space.Runs.Commands.{refine, cancel, close, perform_all}
use personal_computing_space.Runs.History.{run-IsLogged, verdict_stays}
use personal_computing_space.Runs.Samples.{
  plain, local_services, no_checks, local_nodes, new_run, done_report, launched, running_run,
}
use personal_computing_space.Runs.Verdict.{HasVerdict}
use personal_computing_space.Runs.Fencing.{record_result_once}

-- the Run runs, under epoch 1, with one attempt
running_run_state : running_run.state ≡ RunState.running
unfolding perform_all begin_refinement commit start launch check_attempt_budget transition target
    open_record string_beq
running_run_state = refl

plain_opened :
    open_run local_services 1 "run-1" "task" "goal" true "w" "draft-1" plain none ≡ ok new_run
unfolding open_run
plain_opened = refl

run-IsLogged_example : replay RunState.opened running_run.events ≡ some running_run.state
run-IsLogged_example =
    run-IsLogged local_services no_checks local_nodes 1 "run-1" "task" "goal" true "w" "draft-1"
      plain none new_run launched plain_opened

report_accepted : reply (record_result no_checks 5 done_report) running_run ≡ ok tt
unfolding perform_all begin_refinement commit start launch check_attempt_budget transition target
    open_record string_beq record_result fence review conclude check_evidence check_refs
report_accepted = refl

record_result_once_example :
    record_result no_checks 6 done_report
      (after (record_result no_checks 5 done_report) running_run)
    ≡ (
      after (record_result no_checks 5 done_report) running_run,
      err (value_error execution_not_running),
    )
record_result_once_example =
    record_result_once no_checks no_checks 5 6 done_report done_report running_run report_accepted

abbrev cancelled_run : RunRecord
cancelled_run = record new_run { state = RunState.cancelled }

verdict_stays_example : HasVerdict RunState.cancelled (
    perform_all local_services no_checks local_nodes
      (refine 7 ∷ cancel 8 Json.null ∷ close 9 ∷ [])
      cancelled_run)
verdict_stays_example =
    verdict_stays local_services no_checks local_nodes cancelled_run
      (refine 7 ∷ cancel 8 Json.null ∷ close 9 ∷ []) refl
