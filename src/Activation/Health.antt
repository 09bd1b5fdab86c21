-- ===== src/Activation/Health.antt =====
-- `record_capability_health`: a slave's report of the actual state of a package.
use personal_computing_space.Shared.{
  ℕ, ltb, String, Bool, true, false, not, ◌&&◌, ◌||◌, Option, none, some, List, [], ◌∷◌, ◌++◌, ◌==◌,
  if◌then◌else◌, nat_eq, string_eq, is_some,
}
use personal_computing_space.Shared.Json.{Json}
use personal_computing_space.Shared.Exec.{
  Exec, Code, ok, err, value_error, capability_package_digest_mismatch,
  activation_desired_state_missing, stale_activation_revision, future_activation_revision,
  health_report_id_reused, activation_state_transition_invalid,
}
use personal_computing_space.Activation.Calls.{
  Package, Activation, ActivationState, ActivationEvent, health_reported, HealthReport,
  ActivationRecord, state_beq, current, replaced,
}

-- allowed_transitions
unfoldable pub is_allowed : ActivationState → ActivationState → Bool
is_allowed ActivationState.not_installed ActivationState.ready = true
is_allowed ActivationState.not_installed ActivationState.failed = true
is_allowed ActivationState.provisioning ActivationState.ready = true
is_allowed ActivationState.provisioning ActivationState.degraded = true
is_allowed ActivationState.provisioning ActivationState.failed = true
is_allowed ActivationState.ready ActivationState.ready = true
is_allowed ActivationState.ready ActivationState.degraded = true
is_allowed ActivationState.ready ActivationState.failed = true
is_allowed ActivationState.degraded ActivationState.ready = true
is_allowed ActivationState.degraded ActivationState.degraded = true
is_allowed ActivationState.degraded ActivationState.failed = true
is_allowed ActivationState.failed ActivationState.failed = true
is_allowed ActivationState.lost ActivationState.ready = true
is_allowed ActivationState.lost ActivationState.degraded = true
is_allowed ActivationState.lost ActivationState.failed = true
is_allowed _ ActivationState.stopped = true
is_allowed _ _ = false

-- previous_report: the first event with the report's id
unfoldable pub previous : String → List ActivationEvent → Option HealthReport
previous id [] = none
previous id (health_reported ref h desired t ∷ es) =
    if h.report_id == id then some h else previous id es
previous id (e ∷ es) = previous id es

unfoldable pub refs_beq : List String → List String → Bool
refs_beq [] [] = true
refs_beq (a ∷ l) (b ∷ k) = (a == b) && refs_beq l k
refs_beq _ _ = false

-- the fields that a repeated report is compared by; the profile is part of `details`
abbrev pub same_report : (Option Json → Option Json → Bool) → HealthReport → HealthReport → Bool
same_report json_beq a b =
    (a.package_digest == b.package_digest)
    && ((a.target_slave == b.target_slave)
        && ((a.activation_revision == b.activation_revision)
            && (state_beq a.activation_state b.activation_state
                && (refs_beq a.evidence_refs b.evidence_refs
                    && ((a.details == b.details)
                        && json_beq a.runtime_profile b.runtime_profile)))))

abbrev pub reported : HealthReport → Activation → Activation
reported h a = record a {
  activation_state = h.activation_state;
  evidence_refs = h.evidence_refs;
  runtime_profile = elim h.runtime_profile [ none ↦ a.runtime_profile | some p ↦ some p ];
}

-- something that the activation keeps has changed
abbrev pub is_news : HealthReport → Activation → Bool
is_news h a =
    not (state_beq h.activation_state a.activation_state)
    || (not (refs_beq h.evidence_refs a.evidence_refs) || is_some h.runtime_profile)

abbrev pub updated : HealthReport → Activation → Activation
updated h a = if is_news h a then reported h a else a

abbrev pub stored : Package → HealthReport → Activation → List Activation → List Activation
stored p h a l = if is_news h a then replaced p.version_ref h.target_slave (reported h a) l else l

-- what a report finds
pub data Finding : Type 0 where
  refused : Code → Finding
  repeated taken : Activation → Finding

abbrev pub repetition :
    (Option Json → Option Json → Bool) → HealthReport → Activation → Option HealthReport → Finding
repetition json_beq h a none =
    if is_allowed a.activation_state h.activation_state
    then Finding.taken a
    else Finding.refused activation_state_transition_invalid
repetition json_beq h a (some old) =
    if same_report json_beq old h
    then Finding.repeated a
    else Finding.refused health_report_id_reused

unfoldable pub health_decision :
    (Option Json → Option Json → Bool)
    → Package
    → HealthReport
    → ActivationRecord
    → Option Activation
    → Finding
health_decision json_beq p h r none = Finding.refused activation_desired_state_missing
health_decision json_beq p h r (some a) =
    if ltb h.activation_revision a.activation_revision
    then Finding.refused stale_activation_revision
    else if ltb a.activation_revision h.activation_revision
    then Finding.refused future_activation_revision
    else repetition json_beq h a (previous h.report_id r.events)

abbrev pub noted : ℕ → Package → HealthReport → Finding → Exec ActivationRecord Activation
noted now p h (Finding.refused c) r = (r, err (value_error c))
noted now p h (Finding.repeated a) r = (r, ok a)
noted now p h (Finding.taken a) r = (
  record r {
    activations = stored p h a r.activations;
    events = r.events ++ health_reported p.version_ref h (updated h a).desired_state now ∷ [];
  },
  ok (updated h a),
)

unfoldable pub record_capability_health :
    (Option Json → Option Json → Bool)
    → ℕ
    → Package
    → HealthReport
    → Exec ActivationRecord Activation
record_capability_health json_beq now p h r =
    if p.package_digest == h.package_digest
    then noted now p h
        (health_decision json_beq p h r (current p.version_ref h.target_slave r.activations)) r
    else (r, err (value_error capability_package_digest_mismatch))
