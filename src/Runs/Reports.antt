-- ===== src/Runs/Reports.antt =====
-- `record_result`: the terminal report of an attempt. It is fenced to the attempt and the epoch of
-- the current execution, its evidence is checked, the Observer validates the output again, and the
-- Run is moved by what comes out of that.
use personal_computing_space.Shared.{
  ℕ, String, Bool, true, false, not, ◌&&◌, Option, none, some, List, [], ◌∷◌, ◌==◌, if◌then◌else◌,
  nat_eq, string_eq, option_eq, is_some,
}
use personal_computing_space.Shared.Lists.{first}
use personal_computing_space.Shared.Json.{Json, Fields}
use personal_computing_space.Shared.Exec.{
  Exec, execution_not_running, stale_attempt, stale_execution_epoch, stale_execution_id,
  output_missing, redundant_result_digest, invalid_resource_ref, resource_ref_digest_mismatch,
  invalid_validation_evidence, stale_validation_evidence, validation_evidence_digest_mismatch,
  io_contract_invalid, validation_evidence_schema_mismatch, validation_evidence_validator_mismatch,
  validation_evidence_input_digest_mismatch, pure, raise, ◌>>=◌, ◌>>◌,
}
use personal_computing_space.Runs.Defs.{
  RunState, Snapshot, ClosureVersion, Attempt, AttemptState, ResourceRef, RunRecord,
}
use personal_computing_space.Runs.Actions.{state_beq, get_record, assert, need}

-- A ValidationEvidence, or an item that is none.
pub record Evidence : Type 0 where
  pub attempt_id : String
  pub execution_epoch : ℕ
  pub issuer : String
  pub output_digest : Option String
  pub schema_ref : Option ResourceRef
  pub validator_ref : Option ResourceRef
  pub input_digest : Option String

-- The result that a slave reports. `none` in `execution_epoch` is one that `int` does not read, in
-- `evidence` a list that does not validate, and in `resource_ref` under `some` likewise.
pub record Report : Type 0 where
  pub attempt_id : String
  pub execution_epoch : Option ℕ
  pub execution_id : Option String
  pub value : Option Json
  pub has_digest : Bool
  pub resource_ref : Option (Option ResourceRef)
  pub evidence : Option (List Evidence)
  pub terminal_state : String
  pub terminal_error : Option Json
  pub content : Json

pub record IoContract : Type 0 where
  pub output_schema_ref : Option ResourceRef
  pub success_validator_ref : Option ResourceRef

-- What the report is checked with: the digests, the contract of a snapshot (it names none, or one
-- that does not load, or one), the errors of a value against a schema, and the errors that a
-- validator program finds, if any; and whether the text of a number is one of zero.
pub record Validation : Type 0 where
  pub result_digest : Json → String
  pub io_contract : Snapshot → Option (Option IoContract)
  pub input_digest : Snapshot → Option String
  pub schema_errors : ResourceRef → Json → Option Json
  pub validator_errors : ResourceRef → Json → Option Json
  pub is_zero : String → Bool

abbrev pub find_attempt : String → List Attempt → Option Attempt
find_attempt id = first λ a. a.attempt_id == id

abbrev pub is_open : AttemptState → Bool
is_open AttemptState.created = true
is_open AttemptState.running = true
is_open _ = false

-- attempt["state"] = ...
abbrev pub mark : String → AttemptState → List Attempt → List Attempt
mark id state [] = []
mark id state (a ∷ others) =
    if a.attempt_id == id then record a { state = state } ∷ others else a ∷ mark id state others

-- The fence: the attempt that the report is for, if it may still report.
unfoldable pub fence : Report → Exec RunRecord Attempt
fence report = do
  r ← get_record
  assert (state_beq r.state RunState.running) execution_not_running
  attempt ← need (find_attempt report.attempt_id r.attempts) stale_attempt
  assert (report.execution_epoch == some r.execution_epoch) stale_execution_epoch
  assert (attempt.execution_epoch == r.execution_epoch) stale_execution_epoch
  assert (is_open attempt.state) stale_attempt
  assert (report.execution_id == r.execution_id) stale_execution_id
  pure attempt

-- the digest of a `resource_ref` has to be the digest of the value
abbrev pub check_resource_ref : Option (Option ResourceRef) → String → Exec RunRecord (Unit {0})
check_resource_ref none expected = pure tt
check_resource_ref (some none) expected = raise invalid_resource_ref
check_resource_ref (some (some ref)) expected =
    assert (ref.digest == some expected) resource_ref_digest_mismatch

abbrev agrees : Option String → String → Bool
agrees none expected = true
agrees (some d) expected = d == expected

unfoldable pub check_item : String → ℕ → String → Evidence → Exec RunRecord (Unit {0})
check_item attempt_id epoch expected e = do
  assert ((e.attempt_id == attempt_id) && (e.execution_epoch == epoch)) stale_validation_evidence
  assert (e.issuer == "slave") invalid_validation_evidence
  assert (agrees e.output_digest expected) validation_evidence_digest_mismatch

unfoldable pub check_evidence : String → ℕ → String → List Evidence → Exec RunRecord (Unit {0})
check_evidence attempt_id epoch expected [] = pure tt
check_evidence attempt_id epoch expected (e ∷ es) =
    check_item attempt_id epoch expected e >> check_evidence attempt_id epoch expected es

abbrev key_of : ResourceRef → String
key_of ref = elim ref.digest [
  | none ↦ ref.resource_id
  | some d ↦ if d == "" then ref.resource_id else d
]

abbrev pub same_ref : Option ResourceRef → Option ResourceRef → Bool
same_ref none none = true
same_ref (some a) (some b) = key_of a == key_of b
same_ref _ _ = false

abbrev schema_agrees : Option ResourceRef → Option ResourceRef → Bool
schema_agrees item none = true
schema_agrees item (some schema) = same_ref item (some schema)

abbrev input_agrees : Option String → Option String → Bool
input_agrees none expected = true
input_agrees (some d) expected = some d == expected

unfoldable pub check_item_refs : IoContract → Option String → Evidence → Exec RunRecord (Unit {0})
check_item_refs contract input e = do
  assert (schema_agrees e.schema_ref contract.output_schema_ref) validation_evidence_schema_mismatch
  assert (same_ref e.validator_ref contract.success_validator_ref)
      validation_evidence_validator_mismatch
  assert (input_agrees e.input_digest input) validation_evidence_input_digest_mismatch

unfoldable pub check_refs : IoContract → Option String → List Evidence → Exec RunRecord (Unit {0})
check_refs contract input [] = pure tt
check_refs contract input (e ∷ es) =
    check_item_refs contract input e >> check_refs contract input es

abbrev no_contract : IoContract
no_contract = record { output_schema_ref = none; success_validator_ref = none }

abbrev pub loaded : Option (Option IoContract) → Exec RunRecord IoContract
loaded none = pure no_contract
loaded (some contract) = need contract io_contract_invalid

-- the contract of the committed snapshot
abbrev pub contract_of : Validation → Option ClosureVersion → Exec RunRecord IoContract
contract_of v none = pure no_contract
contract_of v (some c) = loaded (v.io_contract c.snapshot)

abbrev input_of : Validation → Option ClosureVersion → Option String
input_of v none = none
input_of v (some c) = v.input_digest c.snapshot

-- the errors of an optional check
abbrev found : (ResourceRef → Json → Option Json) → Option ResourceRef → Json → Option Json
found check none value = none
found check (some ref) value = check ref value

abbrev pub failure : String → Json → Json
failure code errors =
    Json.obj (Fields.field "code" (Json.str code) (Fields.field "errors" errors Fields.end))

-- What the checks of a report leave: the errors of the output against its schema, and those of the
-- validator.
pub record Review : Type 0 where
  pub schema_failure : Option Json
  pub validator_failure : Option Json
  pub has_schema : Bool

unfoldable pub review : Validation → Report → Exec RunRecord Review
review v report = do
  r ← get_record
  value ← need report.value output_missing
  assert (not report.has_digest) redundant_result_digest
  check_resource_ref report.resource_ref (v.result_digest value)
  evidence ← need report.evidence invalid_validation_evidence
  check_evidence report.attempt_id r.execution_epoch (v.result_digest value) evidence
  contract ← contract_of v r.committed
  check_refs contract (input_of v r.committed) evidence
  pure (record {
    schema_failure = found v.schema_errors contract.output_schema_ref value;
    validator_failure = found v.validator_errors contract.success_validator_ref value;
    has_schema = is_some contract.output_schema_ref;
  })
