-- ===== src/Activation/Calls.antt =====
-- The desired state of a package on a slave, and the reports of its actual state. The package and
-- the record it belongs to are found by the caller.
use personal_computing_space.Shared.{
  ℕ, ◌+◌, String, Bool, true, false, not, ◌&&◌, Option, none, some, List, [], ◌∷◌, ◌++◌, ◌==◌,
  if◌then◌else◌, nat_eq, string_eq,
}
use personal_computing_space.Shared.Json.{Json}
use personal_computing_space.Shared.Exec.{
  Exec, Code, ok, err, value_error, target_slave_required, idempotency_key_required,
  capability_package_abandoned, workspace_binding_mismatch, capability_package_identity_conflict,
  idempotency_key_reused,
}

pub data DesiredState : Type 0 where
  running stopped : DesiredState

pub data ActivationState : Type 0 where
  not_installed provisioning ready degraded stopped failed lost : ActivationState

pub record Package : Type 0 where
  pub version_ref : String
  pub package_digest : String
  pub is_abandoned : Bool
  pub package_closure_version_ref : String

pub record Activation : Type 0 where
  pub package_version_ref : String
  pub package_digest : String
  pub target_slave : String
  pub activation_closure_version_ref : String
  pub compute_binding_ref : String
  pub desired_state : DesiredState
  pub activation_revision : ℕ
  pub last_idempotency_key : String
  pub evidence_refs : List String
  pub activation_state : ActivationState
  pub runtime_profile : Option Json

pub record HealthReport : Type 0 where
  pub report_id : String
  pub package_digest : String
  pub target_slave : String
  pub activation_state : ActivationState
  pub evidence_refs : List String
  -- the profile in `details`, if it names one, and the rest
  pub runtime_profile : Option Json
  pub details : String
  pub activation_revision : ℕ

pub data ActivationEvent : Type 0 where
  desired_state_changed :
      (package_ref package_digest target : String) (desired : DesiredState) (revision : ℕ)
      (key : String) (created_at : ℕ)
      → ActivationEvent
  health_reported :
      (package_ref : String) (report : HealthReport) (desired : DesiredState) (created_at : ℕ)
      → ActivationEvent

-- what the two calls use of the Run's record
pub record ActivationRecord : Type 0 where
  pub workspace_id : String
  pub activations : List Activation
  pub events : List ActivationEvent

abbrev pub desired_beq : DesiredState → DesiredState → Bool
desired_beq DesiredState.running DesiredState.running = true
desired_beq DesiredState.stopped DesiredState.stopped = true
desired_beq _ _ = false

abbrev pub state_beq : ActivationState → ActivationState → Bool
state_beq ActivationState.not_installed ActivationState.not_installed = true
state_beq ActivationState.provisioning ActivationState.provisioning = true
state_beq ActivationState.ready ActivationState.ready = true
state_beq ActivationState.degraded ActivationState.degraded = true
state_beq ActivationState.stopped ActivationState.stopped = true
state_beq ActivationState.failed ActivationState.failed = true
state_beq ActivationState.lost ActivationState.lost = true
state_beq _ _ = false

-- the activation of a package version on a slave
abbrev pub is_for : String → String → Activation → Bool
is_for ref target a = (a.package_version_ref == ref) && (a.target_slave == target)

unfoldable pub current : String → String → List Activation → Option Activation
current ref target [] = none
current ref target (a ∷ rest) = if is_for ref target a then some a else current ref target rest

-- the list without that activation, and the new one at its end
unfoldable pub replaced : String → String → Activation → List Activation → List Activation
replaced ref target new [] = new ∷ []
replaced ref target new (a ∷ rest) =
    let others = replaced ref target new rest in if is_for ref target a then others else a ∷ others

abbrev revision_after : Option Activation → ℕ
revision_after none = 1
revision_after (some a) = a.activation_revision + 1

abbrev state_after : DesiredState → Option Activation → ActivationState
state_after DesiredState.running a = ActivationState.provisioning
state_after DesiredState.stopped none = ActivationState.stopped
state_after DesiredState.stopped (some a) = a.activation_state

-- a or b or ..., on strings
abbrev given_or : String → String → String
given_or a b = if a == "" then b else a

abbrev pub desired_of :
    Package → String → DesiredState → String → String → String → Option Activation → Activation
desired_of p target desired key closure binding old = record {
  package_version_ref = p.version_ref;
  package_digest = p.package_digest;
  target_slave = target;
  activation_closure_version_ref = given_or closure (elim old [
    | none ↦ p.package_closure_version_ref
    | some a ↦ a.activation_closure_version_ref
  ]);
  compute_binding_ref = given_or binding (elim old [ none ↦ "" | some a ↦ a.compute_binding_ref ]);
  desired_state = desired;
  activation_revision = revision_after old;
  last_idempotency_key = key;
  evidence_refs = elim old [ none ↦ [] | some a ↦ a.evidence_refs ];
  activation_state = state_after desired old;
  runtime_profile = elim old [ none ↦ none | some a ↦ a.runtime_profile ];
}

-- what a request finds: a refusal, an answer from what is there, or a new revision
pub data Request : Type 0 where
  refused : Code → Request
  answered : Activation → Request
  next : Request

unfoldable pub request_decision :
    Package → DesiredState → String → Bool → Option Activation → Request
request_decision p desired key rebuild none = Request.next
request_decision p desired key rebuild (some a) =
    if not (a.package_digest == p.package_digest)
    then Request.refused capability_package_identity_conflict
    else if a.last_idempotency_key == key
    then (if desired_beq a.desired_state desired
        then Request.answered a
        else Request.refused idempotency_key_reused)
    else if desired_beq a.desired_state desired && not rebuild
    then Request.answered a
    else Request.next

abbrev workspace_agrees : Option String → String → Bool
workspace_agrees none w = true
workspace_agrees (some v) w = v == w

-- the guards before the lock
abbrev pub guard_of : Package → String → String → Option String → ActivationRecord → Option Code
guard_of p target key workspace r =
    if target == ""
    then some target_slave_required
    else if key == ""
    then some idempotency_key_required
    else if p.is_abandoned
    then some capability_package_abandoned
    else if workspace_agrees workspace r.workspace_id
    then none
    else some workspace_binding_mismatch

abbrev pub requested :
    ℕ → Package → String → String → DesiredState → Activation → ActivationRecord → ActivationRecord
requested now p target key desired new r = record r {
  activations = replaced p.version_ref target new r.activations;
  events =
      r.events
      ++ desired_state_changed p.version_ref p.package_digest target desired new.activation_revision
          key now
        ∷ [];
}

abbrev pub carried_out :
    ℕ
    → Package
    → String
    → DesiredState
    → String
    → String
    → String
    → Request
    → Exec ActivationRecord Activation
carried_out now p target desired key closure binding (Request.refused c) r =
    (r, err (value_error c))
carried_out now p target desired key closure binding (Request.answered a) r = (r, ok a)
carried_out now p target desired key closure binding Request.next r =
    let new =
      desired_of p target desired key closure binding
        (current p.version_ref target r.activations) in
    (requested now p target key desired new r, ok new)

abbrev pub unless_guarded :
    Option Code → Exec ActivationRecord Activation → Exec ActivationRecord Activation
unless_guarded none m r = m r
unless_guarded (some c) m r = (r, err (value_error c))

unfoldable pub set_capability_desired :
    ℕ
    → Package
    → String
    → DesiredState
    → String
    → Option String
    → String
    → String
    → Bool
    → Exec ActivationRecord Activation
set_capability_desired now p target desired key workspace closure binding rebuild r =
    unless_guarded (guard_of p target key workspace r)
      (carried_out now p target desired key closure binding
        (request_decision p desired key rebuild (current p.version_ref target r.activations)))
      r
