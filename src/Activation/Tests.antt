-- ===== src/Activation/Tests.antt =====
-- A package asked to run on a slave, with the theorems applied to it.
use personal_computing_space.Shared.{true, false, none, some, [], ◌≡◌, refl, string_beq}
use personal_computing_space.Shared.Exec.{after, reply, ok}
use personal_computing_space.Activation.Calls.{
  Package, HealthReport, ActivationState, DesiredState, Activation, ActivationRecord, current,
  request_decision, set_capability_desired, desired_of,
}
use personal_computing_space.Activation.Health.{record_capability_health}
use personal_computing_space.Activation.Reports.{Answer, record_capability_health-Answer}
use personal_computing_space.Activation.Revisions.{
  IsNext, set_capability_desired-IsNext, set_capability_desired_again,
}

abbrev tool : Package
tool = record {
  version_ref = "tool@v1";
  package_digest = "d";
  is_abandoned = false;
  package_closure_version_ref = "closure-1";
}

abbrev unused : ActivationRecord
unused = record { workspace_id = "w"; activations = []; events = [] }

abbrev first_activation : Activation
first_activation = desired_of tool "slave-a" DesiredState.running "key-1" "" "" none

abbrev asked : ActivationRecord
asked =
    after
      (set_capability_desired 1 tool "slave-a" DesiredState.running "key-1" (some "w") "" "" false)
      unused

asked_reply :
    reply
      (set_capability_desired 1 tool "slave-a" DesiredState.running "key-1" (some "w") "" "" false)
      unused
    ≡ ok first_activation
unfolding set_capability_desired request_decision current string_beq
asked_reply = refl

set_capability_desired-IsNext_example : IsNext (current "tool@v1" "slave-a" asked.activations) (
    current "tool@v1" "slave-a"
      (after
        (set_capability_desired 2 tool "slave-a" DesiredState.stopped "key-2" none "" "" false)
        asked).activations)
set_capability_desired-IsNext_example =
    set_capability_desired-IsNext 2 tool "slave-a" DesiredState.stopped "key-2" none "" "" false
      asked "tool@v1" "slave-a"

set_capability_desired_again_example :
    set_capability_desired 2 tool "slave-a" DesiredState.running "key-1"
      (some "w")
      ""
      ""
      false
      asked
    ≡ (asked, ok first_activation)
set_capability_desired_again_example =
    set_capability_desired_again 1 2 tool "slave-a" DesiredState.running "key-1" (some "w") "" ""
      false unused first_activation asked_reply

abbrev ready_report : HealthReport
ready_report = record {
  report_id = "report-1";
  package_digest = "d";
  target_slave = "slave-a";
  activation_state = ActivationState.ready;
  evidence_refs = [];
  runtime_profile = none;
  details = "";
  activation_revision = 1;
}

record_capability_health-Answer_example :
    Answer
      (λ x y. true)
      tool
      ready_report
      asked
      (record_capability_health (λ x y. true) 3 tool ready_report asked)
record_capability_health-Answer_example =
    record_capability_health-Answer (λ x y. true) 3 tool ready_report asked
