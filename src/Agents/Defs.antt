-- ===== src/Agents/Defs.antt =====
-- The records of agents, their leases and the threads of a Driver. Times are in microseconds.
use personal_computing_space.Shared.Dict.{Dict}
use personal_computing_space.Shared.{
  ◌≡◌, ℕ, String, Bool, true, false, Option, List, HasEq, pair_eq, string_eq, arith, ◌↔◌,
}
use personal_computing_space.Shared.Json.{Json}
use personal_computing_space.Receipts.Defs.{Key, MessageReceipt}

pub data Role : Type 0 where
  driver slave : Role

abbrev pub role_beq : Role → Role → Bool
role_beq Role.driver Role.driver = true
role_beq Role.slave Role.slave = true
role_beq _ _ = false

pub role_beq_iff : (a b : Role) → (role_beq a b ≡ true) ↔ (a ≡ b)
role_beq_iff a b = (λ h. ground arith, λ h. ground arith)

instance abbrev pub role_eq : HasEq Role
role_eq = record { eqb = role_beq; eqb_iff = role_beq_iff }

-- (workspace_id, role, agent_id, instance_id)
abbrev pub AgentKey : Type 0
AgentKey = String × (Role × (String × String))

instance abbrev pub agent_key_eq : HasEq AgentKey
agent_key_eq = pair_eq

pub data LeaseState : Type 0 where
  active expired released : LeaseState

pub record AgentRegistration : Type 0 where
  pub role : Role
  pub agent_id : String
  pub instance_id : String
  pub workspace_id : String
  pub endpoint_url : String
  pub protocol_version : String
  pub capabilities : Json

-- an entry of `self.agents`
pub record Agent : Type 0 where
  pub workspace_id : String
  pub role : Role
  pub agent_id : String
  pub instance_id : String
  pub endpoint_url : String
  pub protocol_version : String
  pub capabilities : Json
  pub epoch : ℕ
  pub lease_id_hash : String
  pub lease_state : LeaseState
  pub last_seen_at : ℕ
  pub created_at : ℕ
  pub updated_at : ℕ

pub data TurnState : Type 0 where
  idle starting in_progress completed interrupted recovery_pending : TurnState

pub record DriverThreadBinding : Type 0 where
  pub workspace_id : String
  pub conversation_ref : String
  pub thread_id : String
  pub model : String
  pub workspace_root : String
  pub last_turn_id : Option String
  pub turn_state : TurnState
  pub active_request_id : Option String
  pub driver_epoch : ℕ

-- what a registration or a heartbeat is answered with
pub record AgentLease : Type 0 where
  pub agent_id : String
  pub instance_id : String
  pub workspace_id : String
  pub lease_id : String
  pub epoch : ℕ
  pub thread_bindings : List DriverThreadBinding

-- "driver_registered" or "slave_registered", by the role
pub record AgentEvent : Type 0 where
  pub role : Role
  pub workspace_id : String
  pub agent_id : String
  pub instance_id : String
  pub epoch : ℕ
  pub created_at : ℕ

-- The part of `ObserverRepository` that the leases live in.
pub record Registry : Type 0 where
  pub agents : Dict AgentKey Agent
  pub agent_events : List AgentEvent
  -- by (workspace_id, conversation_ref)
  pub driver_threads : Dict (String × String) DriverThreadBinding
  pub message_receipts : Dict Key MessageReceipt

-- `_lease_hash`, and the endpoint without the slashes at its end
pub record Text : Type 0 where
  pub lease_hash : String → String
  pub without_slashes : String → String
