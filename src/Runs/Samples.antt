-- ===== src/Runs/Samples.antt =====
-- A Run to try the calls on, the services of an Observer beside it, and an orchestrated Run whose
-- program asks for a node.
use personal_computing_space.Shared.{true, false, none, some, List, [], ◌∷◌, ◌++◌}
use personal_computing_space.Shared.Json.{Json}
use personal_computing_space.Runs.Defs.{RunRecord, RunState, Snapshot, ResourceRef, NodeIntent}
use personal_computing_space.Runs.Actions.{Services}
use personal_computing_space.Runs.Calls.{open_record}
use personal_computing_space.Runs.Reports.{Report, Validation}
use personal_computing_space.Runs.Commands.{
  Call, refine, commit_draft, begin, accept, dispatch, report_node, perform_all,
}
use personal_computing_space.Nodes.Defs.{NodeServices, Package}

abbrev pub plain : Snapshot
plain = record {
  execution_kind = "process:json_stdio";
  execution_version = "1";
  package_ref = none;
  binding_targets = [];
  capability_package_refs = [];
  io_contract_ref = none;
  node_inputs = [];
  locality = none;
  content = Json.null;
}

abbrev pub local_services : Services
local_services = record {
  canonical_digest = λ s. s.execution_kind;
  readiness = λ s. record { ready = true; blockers = Json.null };
  canonical_target = λ t. t;
}

abbrev pub no_checks : Validation
no_checks = record {
  result_digest = λ v. "digest";
  io_contract = λ s. none;
  input_digest = λ s. none;
  schema_errors = λ r v. none;
  validator_errors = λ r v. none;
  is_zero = λ t. false;
}

abbrev pub opened_with : Snapshot → RunRecord
opened_with snapshot =
    open_record local_services 1 "run-1" "task" "goal" true
      (record {
        goal = "goal";
        workspace_id = "w";
        max_attempts = personal_computing_space.Runs.Defs.not_given;
        allow_reassignment = true;
        allowed_effects = [];
      })
      "draft-1" "task" snapshot

abbrev pub new_run : RunRecord
new_run = opened_with plain

abbrev pub done_report : Report
done_report = record {
  attempt_id = "attempt-1";
  execution_epoch = some 1;
  execution_id = some "execution-1";
  value = some Json.null;
  has_digest = false;
  resource_ref = none;
  evidence = some [];
  terminal_state = "";
  terminal_error = none;
  content = Json.null;
}

abbrev pub launched : List Call
launched =
    refine 2
    ∷ commit_draft 3 "committed-1" "draft-1" "process:json_stdio"
    ∷ begin 4 "execution-1" "attempt-1" "committed-1"
    ∷ []

abbrev pub content : ResourceRef
content = record { resource_id = "content://sha256/d"; digest = some "d" }

abbrev pub some_package : Package
some_package = record {
  package_digest = "d";
  is_orchestrator = true;
  is_abandoned = false;
  limits =
      some (record { allowed_node_package_refs = content ∷ []; max_nodes = 2; max_live_nodes = 1 });
}

abbrev pub local_nodes : NodeServices
local_nodes = record {
  lower = λ s. s;
  decimal = λ n. "1";
  canonical_target = λ t. t;
  find_named = λ run ref. some some_package;
  find_package = λ run ref. some some_package;
  is_visible = λ p run. true;
  export_for = λ p ref. some (record { io_contract_ref = content; permissions = [] });
  supports = λ target p. true;
  agent_of = λ target. some (record { instance_id = "i"; epoch = 1 });
  lease_of = λ target instance_id. some (record { lease_epoch = 1; lease_state = "expired" });
  load_json = λ ref. some Json.null;
  content_ref = λ fields. none;
  is_content_ref = λ ref. true;
  io_contract = λ v. some (record {
    input_schema_ref = none;
    output_schema_ref = none;
    success_validator_ref = none;
    has_success_semantics = false;
  });
  is_schema = λ v. true;
  schema_errors = λ schema v. none;
  validate_with = λ ref v. record { passes = true; errors = [] };
  result_digest = λ v. "d";
  stored = λ v. content;
}

abbrev pub orchestrated : Snapshot
orchestrated = record plain {
  execution_kind = "container:python_orchestrator";
  execution_version = "1";
  package_ref = some "capability-package://orchestrator/v1";
  io_contract_ref = some content;
  node_inputs = content ∷ [];
}

abbrev pub orchestrated_run : RunRecord
orchestrated_run = opened_with orchestrated

abbrev pub an_intent : NodeIntent
an_intent = record {
  intent_id = "intent-1";
  execution_id = "execution-1";
  package_ref = content;
  capability_descriptor_ref = content;
  input_refs = content ∷ [];
}

abbrev pub started : List Call
started =
    refine 2
    ∷ commit_draft 3 "committed-1" "draft-1" "container:python_orchestrator"
    ∷ begin 4 "execution-1" "attempt-1" "committed-1"
    ∷ []

abbrev pub with_a_node : List Call
with_a_node =
    accept 5 an_intent "slave-a" ∷ dispatch 6 "attempt-2" "node-execution-1-1" "slave-a" ∷ []

abbrev pub started_with_node : List Call
started_with_node = started ++ with_a_node

abbrev pub node_report : Report
node_report = record done_report { attempt_id = "attempt-2" }

abbrev pub started_run : RunRecord
started_run = perform_all local_services no_checks local_nodes started orchestrated_run

abbrev pub dispatched_run : RunRecord
dispatched_run = perform_all local_services no_checks local_nodes started_with_node orchestrated_run

-- the node is completed
abbrev pub reported_run : RunRecord
reported_run =
    perform_all local_services no_checks local_nodes
      (report_node 7 "node-execution-1-1" node_report ∷ []) dispatched_run

abbrev pub running_run : RunRecord
running_run = perform_all local_services no_checks local_nodes launched new_run
