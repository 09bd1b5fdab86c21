-- ===== src/Agents/Leases.antt =====
-- `list_agents`, `_agent_record`, `heartbeat_agent` and `release_agent`.
use personal_computing_space.Shared.Dict.{Dict, insert}
use personal_computing_space.Shared.{
  ℕ, ◌+◌, max, ltb, or_else, String, Bool, ◌&&◌, Option, none, some, List, [], ◌∷◌, ◌==◌,
  if◌then◌else◌, nat_eq, string_eq, pair_eq,
}
use personal_computing_space.Shared.Exec.{
  Exec, Code, Result, ok, err, value_error, stale_driver_epoch, stale_agent_lease, agent_not_found,
}
use personal_computing_space.Agents.Defs.{
  Role, role_eq, agent_key_eq, AgentKey, LeaseState, Agent, AgentLease, Registry, Text,
}
use personal_computing_space.Agents.Registration.{is_active}

abbrev pub listed : String → Option Role → AgentKey → Bool
listed w none (v, (role, (agent, instance_id))) = v == w
listed w (some wanted) (v, (role, (agent, instance_id))) = (v == w) && (role == wanted)

-- last_seen_at before now - max(1.0, ttl)
abbrev pub is_stale : ℕ → ℕ → Agent → Bool
is_stale ttl now a = is_active a.lease_state && ltb (a.last_seen_at + max 1000000 ttl) now

-- The entries after `list_agents`.
unfoldable pub swept : ℕ → ℕ → String → Option Role → Dict AgentKey Agent → Dict AgentKey Agent
swept ttl now w role [] = []
swept ttl now w role ((k, a) ∷ d) =
    (
      k,
      if listed w role k && is_stale ttl now a
          then record a { lease_state = LeaseState.expired }
          else a,
    )
    ∷ swept ttl now w role d

unfoldable pub rows : String → Option Role → Dict AgentKey Agent → List Agent
rows w role [] = []
rows w role ((k, a) ∷ d) = let rest = rows w role d in if listed w role k then a ∷ rest else rest

unfoldable pub list_agents : ℕ → ℕ → String → Option Role → Exec Registry (List Agent)
list_agents ttl now w role g =
    let agents = swept ttl now w role g.agents in
    (record g { agents = agents }, ok (rows w role agents))

-- the entries `_agent_record` picks from, with their keys
unfoldable pub matching :
    String → Role → String → String → Dict AgentKey Agent → Dict AgentKey Agent
matching w role agent instance_id [] = []
matching w role agent instance_id (((v, (r, (a, i))), x) ∷ d) =
    let rest = matching w role agent instance_id d in
    if ((v == w) && ((r == role) && (a == agent))) && (x.instance_id == instance_id)
    then ((v, (r, (a, i))), x) ∷ rest
    else rest

-- the first of those updated last
unfoldable pub newest : Dict AgentKey Agent → Option (AgentKey × Agent)
newest [] = none
newest (x ∷ d) = elim (newest d) [
  | none ↦ some x
  | some y ↦ some (if ltb ((x.1).updated_at) ((y.1).updated_at) then y else x)
]

-- without a workspace: the first entry of the role and the agent
unfoldable pub first_candidate : Role → String → Dict AgentKey Agent → Option (AgentKey × Agent)
first_candidate role agent [] = none
first_candidate role agent (((v, (r, (a, i))), x) ∷ d) =
    if (r == role) && (a == agent) then some ((v, (r, (a, i))), x) else first_candidate role agent d

-- the lease the heartbeat shows is the one of the entry
abbrev pub holds : Text → String → String → ℕ → Agent → Bool
holds text instance_id lease_id epoch a =
    (a.instance_id == instance_id)
    && (is_active a.lease_state
        && ((a.epoch == epoch) && (a.lease_id_hash == text.lease_hash lease_id)))

abbrev pub stale_code : Role → Code
stale_code Role.driver = stale_driver_epoch
stale_code Role.slave = stale_agent_lease

abbrev pub seen : ℕ → Agent → Agent
seen now a = record a { last_seen_at = now; updated_at = now }

abbrev pub lease_of : String → String → String → String → ℕ → AgentLease
lease_of w agent instance_id lease_id epoch = record {
  agent_id = agent;
  instance_id = instance_id;
  workspace_id = w;
  lease_id = lease_id;
  epoch = epoch;
  thread_bindings = [];
}

-- the end of `heartbeat_agent`, on the entry that was found
unfoldable pub beat :
    Text
    → ℕ
    → Option String
    → Role
    → String
    → String
    → String
    → ℕ
    → Option (AgentKey × Agent)
    → Exec Registry AgentLease
beat text now w role agent instance_id lease_id epoch none g =
    (g, err (value_error (stale_code role)))
beat text now w role agent instance_id lease_id epoch (some (k, a)) g =
    if holds text instance_id lease_id epoch a
    then (
      record g { agents = insert k (seen now a) g.agents },
      ok (lease_of (or_else w a.workspace_id) agent instance_id lease_id epoch),
    )
    else (g, err (value_error (stale_code role)))

unfoldable pub heartbeat_agent :
    Text → ℕ → ℕ → String → String → String → ℕ → Option String → Role → Exec Registry AgentLease
heartbeat_agent text ttl now agent instance_id lease_id epoch (some w) role g =
    let agents = swept ttl now w (some role) g.agents in
    beat text now (some w) role agent instance_id lease_id epoch
      (newest (matching w role agent instance_id agents)) (record g { agents = agents })
heartbeat_agent text ttl now agent instance_id lease_id epoch none role g =
    beat text now none role agent instance_id lease_id epoch (first_candidate role agent g.agents) g

-- the entry that `release_agent` gives up, the first that matches
unfoldable pub give_up :
    ℕ → String → Role → String → String → Dict AgentKey Agent → Dict AgentKey Agent
give_up now w role agent instance_id [] = []
give_up now w role agent instance_id (((v, (r, (a, i))), x) ∷ d) =
    let rest = give_up now w role agent instance_id d in
    if ((v == w) && ((r == role) && (a == agent))) && (x.instance_id == instance_id)
    then ((v, (r, (a, i))), record x { lease_state = LeaseState.released; updated_at = now }) ∷ d
    else ((v, (r, (a, i))), x) ∷ rest

-- what follows the heartbeat of `release_agent`
abbrev release_after :
    ℕ
    → String
    → String
    → Option String
    → Role
    → Registry × Result AgentLease
    → Registry × Result (Unit {0})
release_after now agent instance_id w role (g, err e) = (g, err e)
release_after now agent instance_id none role (g, ok lease) = (g, err (value_error agent_not_found))
release_after now agent instance_id (some w) role (g, ok lease) =
    (record g { agents = give_up now w role agent instance_id g.agents }, ok tt)

unfoldable pub release_agent :
    Text → ℕ → ℕ → String → String → String → ℕ → Option String → Role → Exec Registry (Unit {0})
release_agent text ttl now agent instance_id lease_id epoch w role g =
    release_after now agent instance_id w role
      (heartbeat_agent text ttl now agent instance_id lease_id epoch w role g)
