-- ===== src/Runs/Commands.antt =====
-- The calls on a Run, of its lifecycle and on its nodes, and histories of them.
use personal_computing_space.Shared.{ℕ, String, Bool, string_eq, Option, List, [], ◌∷◌}
use personal_computing_space.Shared.Json.{Json}
use personal_computing_space.Shared.Exec.{Result, after}
use personal_computing_space.Runs.Defs.{RunRecord, Snapshot, NodeIntent, ResourceRef}
use personal_computing_space.Runs.Actions.{Services}
use personal_computing_space.Runs.Calls.{
  begin_refinement, append_message, cancel_run, fail_run, record_agent_signal,
}
use personal_computing_space.Runs.Execution.{
  inspect_readiness, commit, start, close_run, resolve_run,
}
use personal_computing_space.Runs.Patches.{patch_run}
use personal_computing_space.Runs.Recovery.{recover_run}
use personal_computing_space.Runs.Reports.{Report, Validation}
use personal_computing_space.Runs.Results.{record_result}
use personal_computing_space.Nodes.Defs.{NodeServices}
use personal_computing_space.Nodes.Accept.{accept_node_intent}
use personal_computing_space.Nodes.Dispatch.{dispatch_dynamic_node, reassign_dynamic_node}
use personal_computing_space.Nodes.Results.{record_dynamic_node_result, fail_dynamic_node}
use personal_computing_space.Nodes.Complete.{complete_orchestration}

-- A call on a Run, with the time it is made at and the ids it draws.
pub data Call : Type 0 where
  message : (now : ℕ) (role content : String) (request_id : Option String) → Call
  refine : (now : ℕ) → Call
  cancel fail : (now : ℕ) (reason : Json) → Call
  signal : (now : ℕ) (kind : String) (payload : Json) → Call
  inspect : (now : ℕ) (version_id : Option String) → Call
  patch :
      (now : ℕ) (version_id receipt_id : String) (edit : Snapshot → Result Snapshot)
      (base_version base_digest operation_id : String)
      → Call
  commit_draft : (now : ℕ) (new_id version_id digest : String) → Call
  begin : (now : ℕ) (execution_id attempt_id version_id : String) → Call
  report_result : (now : ℕ) (report : Report) → Call
  resolve : (now : ℕ) (decision : String) → Call
  close : (now : ℕ) → Call
  recover : (now : ℕ) (replayable : Snapshot → Bool) → Call
  accept : (now : ℕ) (intent : NodeIntent) (selected : String) → Call
  dispatch : (now : ℕ) (attempt_id node_id target : String) → Call
  reassign :
      (now : ℕ) (attempt_id node_id lost_attempt_id expected_id : String) (expected_epoch : ℕ)
      (target reason : String)
      → Call
  report_node : (now : ℕ) (node_id : String) (report : Report) → Call
  fail_node : (now : ℕ) (node_id : String) (attempt_id : Option String) (error : Option Json) → Call
  complete : (now : ℕ) (final : ResourceRef) → Call

-- the record after one call, whether it returned or raised
abbrev pub perform : Services → Validation → NodeServices → Call → RunRecord → RunRecord
perform s v ns (message now role content id) = after (append_message now role content id)
perform s v ns (refine now) = after (begin_refinement now)
perform s v ns (cancel now reason) = after (cancel_run now reason)
perform s v ns (fail now reason) = after (fail_run now reason)
perform s v ns (signal now kind payload) = after (record_agent_signal now kind payload)
perform s v ns (inspect now id) = after (inspect_readiness s now id)
perform s v ns (patch now version receipt edit base digest op) =
    after (patch_run s now version receipt edit base digest op)
perform s v ns (commit_draft now new_id version digest) = after (commit s now new_id version digest)
perform s v ns (begin now execution attempt version) = after (start s now execution attempt version)
perform s v ns (report_result now report) = after (record_result v now report)
perform s v ns (resolve now decision) = after (resolve_run now decision)
perform s v ns (close now) = after (close_run now)
perform s v ns (recover now replayable) = after (recover_run now replayable)
perform s v ns (accept now intent selected) = after (accept_node_intent ns now intent selected)
perform s v ns (dispatch now id node target) = after (dispatch_dynamic_node ns now id node target)
perform s v ns (reassign now id node lost expected_id expected_epoch target reason) =
    after (reassign_dynamic_node ns now id node lost expected_id expected_epoch target reason)
perform s v ns (report_node now node report) = after (record_dynamic_node_result ns now node report)
perform s v ns (fail_node now node attempt error) = after (fail_dynamic_node now node attempt error)
perform s v ns (complete now final) = after (complete_orchestration ns now final)

unfoldable pub perform_all :
    Services → Validation → NodeServices → List Call → RunRecord → RunRecord
perform_all s v ns [] r = r
perform_all s v ns (c ∷ cs) r = perform_all s v ns cs (perform s v ns c r)
