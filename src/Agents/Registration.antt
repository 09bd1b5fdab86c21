-- ===== src/Agents/Registration.antt =====
-- `register_agent`: the lease of a new instance, under an epoch above those before it.
use personal_computing_space.Shared.Dict.{Dict, lookup, insert}
use personal_computing_space.Shared.{
  ℕ, ◌+◌, max, String, Bool, true, false, ◌&&◌, ◌||◌, Option, none, some, List, [], ◌∷◌, ◌++◌, ◌==◌,
  if◌then◌else◌, nat_eq, string_eq, pair_eq,
}
use personal_computing_space.Shared.Exec.{Exec, ok}
use personal_computing_space.Agents.Defs.{
  Role, role_eq, agent_key_eq, AgentKey, LeaseState, AgentRegistration, Agent, TurnState,
  DriverThreadBinding, AgentLease, Registry, Text,
}
use personal_computing_space.Receipts.Rules.{fence_entries}

abbrev pub is_driver : Role → Bool
is_driver Role.driver = true
is_driver Role.slave = false

abbrev pub is_active : LeaseState → Bool
is_active LeaseState.active = true
is_active _ = false

-- the entries whose lease the registration replaces: a driver's those of all drivers of the workspace,
-- a slave's those of the same slave
abbrev pub is_rival : AgentRegistration → AgentKey → Bool
is_rival r (w, (role, (agent, instance_id))) =
    (w == r.workspace_id) && ((role == r.role) && (is_driver r.role || (agent == r.agent_id)))

-- the highest epoch of a rival
unfoldable pub highest : AgentRegistration → Dict AgentKey Agent → ℕ
highest r [] = 0
highest r ((k, a) ∷ d) = let rest = highest r d in if is_rival r k then max a.epoch rest else rest

abbrev pub expire : ℕ → Agent → Agent
expire now a =
    if is_active a.lease_state
    then record a { lease_state = LeaseState.expired; updated_at = now }
    else a

unfoldable pub expire_rivals : ℕ → AgentRegistration → Dict AgentKey Agent → Dict AgentKey Agent
expire_rivals now r [] = []
expire_rivals now r ((k, a) ∷ d) =
    (k, if is_rival r k then expire now a else a) ∷ expire_rivals now r d

abbrev pub key_of : AgentRegistration → AgentKey
key_of r = (r.workspace_id, (r.role, (r.agent_id, r.instance_id)))

abbrev epoch_of : Option Agent → ℕ
epoch_of none = 0
epoch_of (some a) = a.epoch

abbrev created_of : ℕ → Option Agent → ℕ
created_of now none = now
created_of now (some a) = a.created_at

abbrev pub next_epoch : AgentRegistration → Dict AgentKey Agent → ℕ
next_epoch r d =
    let epoch = max (highest r d) (epoch_of (lookup (key_of r) d)) in
    if is_driver r.role then epoch + 1 else max epoch 1

abbrev pub leased : Text → ℕ → String → AgentRegistration → ℕ → Option Agent → Agent
leased text now lease_id r epoch previous = record {
  workspace_id = r.workspace_id;
  role = r.role;
  agent_id = r.agent_id;
  instance_id = r.instance_id;
  endpoint_url = text.without_slashes r.endpoint_url;
  protocol_version = r.protocol_version;
  capabilities = r.capabilities;
  epoch = epoch;
  lease_id_hash = text.lease_hash lease_id;
  lease_state = LeaseState.active;
  last_seen_at = now;
  created_at = created_of now previous;
  updated_at = now;
}

abbrev is_turning : TurnState → Bool
is_turning TurnState.starting = true
is_turning TurnState.in_progress = true
is_turning _ = false

-- the threads of the workspace that were in a turn wait for their recovery
unfoldable pub suspend :
    String
    → ℕ
    → Dict (String × String) DriverThreadBinding
    → Dict (String × String) DriverThreadBinding
suspend w epoch [] = []
suspend w epoch (((v, c), t) ∷ d) =
    (
      (v, c),
      if (v == w) && is_turning t.turn_state
          then record t { turn_state = TurnState.recovery_pending; driver_epoch = epoch }
          else t,
    )
    ∷ suspend w epoch d

unfoldable pub threads_of :
    String → Dict (String × String) DriverThreadBinding → List DriverThreadBinding
threads_of w [] = []
threads_of w (((v, c), t) ∷ d) = let rest = threads_of w d in if v == w then t ∷ rest else rest

unfoldable pub register_agent : Text → ℕ → String → AgentRegistration → Exec Registry AgentLease
register_agent text now lease_id r g =
    let epoch = next_epoch r g.agents in
    let expired_agents = expire_rivals now r g.agents in
    let agents =
      insert (key_of r) (leased text now lease_id r epoch (lookup (key_of r) expired_agents))
        expired_agents in
    let threads =
      if is_driver r.role
      then suspend r.workspace_id epoch g.driver_threads
      else g.driver_threads in
    (
      record g {
        agents = agents;
        agent_events =
            g.agent_events
            ++ (record {
              role = r.role;
              workspace_id = r.workspace_id;
              agent_id = r.agent_id;
              instance_id = r.instance_id;
              epoch = epoch;
              created_at = now;
            })
              ∷ [];
        driver_threads = threads;
        message_receipts =
            if is_driver r.role
            then fence_entries now r.workspace_id g.message_receipts
            else g.message_receipts;
      },
      ok (record {
        agent_id = r.agent_id;
        instance_id = r.instance_id;
        workspace_id = r.workspace_id;
        lease_id = lease_id;
        epoch = epoch;
        thread_bindings = if is_driver r.role then threads_of r.workspace_id threads else [];
      }),
    )
