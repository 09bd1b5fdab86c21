-- ===== src/Shared/Exec.antt =====
-- Methods that change an object and may raise. What was written before a raise stays written, so
-- the state comes back beside the exception too.
use Prim.Native.String.{String}

-- The texts of the `ValueError`s.
pub data Code : Type 0 where
  execution_not_running stale_attempt stale_execution_epoch stale_execution_id : Code
  output_missing redundant_result_digest invalid_terminal_state : Code
  request_id_reused receipt_terminal stale_claim_token invalid_receipt_transition : Code
  illegal_state_transition version_conflict closure_not_committed readiness_blocked : Code
  run_not_terminal invalid_decision orchestration_attempt_limit_exceeded : Code
  closure_goal_mismatch unsupported_message_role empty_message : Code
  stale_driver_epoch stale_agent_lease agent_not_found : Code
  capability_package_abandoned capability_package_identity_conflict : Code
  target_slave_required idempotency_key_required idempotency_key_reused : Code
  workspace_binding_mismatch capability_package_digest_mismatch : Code
  activation_desired_state_missing stale_activation_revision future_activation_revision : Code
  invalid_resource_ref resource_ref_digest_mismatch invalid_validation_evidence : Code
  stale_validation_evidence validation_evidence_digest_mismatch io_contract_invalid : Code
  validation_evidence_schema_mismatch validation_evidence_validator_mismatch : Code
  validation_evidence_input_digest_mismatch : Code
  thread_binding_conflict : Code
  health_report_id_reused activation_state_transition_invalid : Code
  node_intent_execution_mismatch orchestration_package_not_bound : Code
  capability_package_scope_mismatch orchestration_package_not_found : Code
  orchestration_package_invalid node_intent_conflict orchestration_node_limit_exceeded : Code
  orchestration_live_node_limit_exceeded node_package_not_allowed node_package_not_found : Code
  node_package_digest_mismatch node_capability_export_not_found node_io_contract_unavailable : Code
  node_input_schema_mismatch node_input_unavailable node_input_not_allowed : Code
  node_target_unavailable node_permission_denied dynamic_node_not_found : Code
  dynamic_node_not_dispatchable node_target_mismatch reassignment_not_allowed : Code
  worker_lease_not_lost worker_lease_active orchestration_not_running : Code
  dynamic_nodes_not_successful dynamic_nodes_not_terminal io_contract_unavailable : Code
  promotion_digest_mismatch semantic_not_closed package_captures_run_state : Code

pub data Error : Type 0 where
  key_error : String → Error
  value_error : Code → Error
  integrity_error attribute_error : Error

pub data Result {ℓ} (A : Type ℓ) : Type ℓ where
  ok : A → Result A
  err : Error → Result A

abbrev pub Exec {ℓ κ} : Type ℓ → Type κ → Type (ℓ ⊔ κ)
Exec S A = S → S × Result A

module _ {ℓ κ} {S : Type ℓ} {A : Type κ} where
  abbrev pub pure : A → Exec S A
  pure a s = (s, ok a)

  abbrev pub throw : Error → Exec S A
  throw e s = (s, err e)

  abbrev pub raise : Code → Exec S A
  raise c s = (s, err (value_error c))

module _ {ℓ κ μ} {S : Type ℓ} {A : Type κ} {B : Type μ} where
  abbrev pub resume : S × Result A → (A → Exec S B) → S × Result B
  resume (s, ok a) f = f a s
  resume (s, err e) f = (s, err e)

  infixl 5 ◌>>=◌ ◌>>◌
  abbrev pub ◌>>=◌ : Exec S A → (A → Exec S B) → Exec S B
  ◌>>=◌ m f s = resume (m s) f

  abbrev pub ◌>>◌ : Exec S A → Exec S B → Exec S B
  m >> n = m >>= λ _. n

-- The state that a call leaves, whether it returns or raises.
abbrev pub after {ℓ κ} : {S : Type ℓ} {A : Type κ} → Exec S A → S → S
after m s = (m s).0

-- What a call returns or raises.
abbrev pub reply {ℓ κ} : {S : Type ℓ} {A : Type κ} → Exec S A → S → Result A
reply m s = (m s).1
