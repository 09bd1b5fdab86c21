-- ===== src/Agents/Ownership.antt =====
-- Who owns a workspace after a registration.
use personal_computing_space.Shared.{
  ℕ, ◌<◌, String, Bool, true, false, some, [], ◌∷◌, ◌==◌, ==_iff, if◌then◌else◌, ◌≡◌, refl, ◌⊎◌,
  inl, inr, nat_eq, string_eq, pair_eq, arith,
}
use personal_computing_space.Shared.Lists.{All}
use personal_computing_space.Shared.Dict.{Dict, lookup, insert, lookup-insert_self}
use personal_computing_space.Shared.Exec.{after, reply, ok}
use personal_computing_space.Agents.Defs.{
  role_eq, agent_key_eq, AgentKey, LeaseState, Agent, AgentRegistration, AgentLease, Registry, Text,
}
use personal_computing_space.Agents.Registration.{
  is_driver, is_active, is_rival, highest, expire, expire_rivals, key_of, next_epoch, leased,
  threads_of, suspend, register_agent,
}

-- A rival with an active lease is the entry of the registration itself.
abbrev pub IsSole : AgentRegistration → Agent → AgentKey × Agent → Type 0
IsSole r new (k, a) =
    is_rival r k ≡ true → is_active a.lease_state ≡ true → (k ≡ key_of r) × (a ≡ new)

-- A rival's epoch is below `n`, but for the entry of the registration itself.
abbrev pub IsOlder : AgentRegistration → ℕ → AgentKey × Agent → Type 0
IsOlder r n (k, a) = is_rival r k ≡ true → (k ≡ key_of r) ⊎ (a.epoch < n)

expired_inactive : (now : ℕ) (a : Agent) → is_active (expire now a).lease_state ≡ false
expired_inactive now a = expired_from a.lease_state
  where
    expired_from :
        (s : LeaseState)
        → is_active
            (if is_active s
              then record a { lease_state = LeaseState.expired; updated_at = now }
              else record a { lease_state = s }).lease_state
          ≡ false
    expired_from LeaseState.active = refl
    expired_from LeaseState.expired = refl
    expired_from LeaseState.released = refl

entry-IsSole :
    (now : ℕ) (r : AgentRegistration) (new : Agent) (k : AgentKey) (a : Agent)
    → IsSole r new (k, if is_rival r k then expire now a else a)
entry-IsSole now r new k a rival act = ground (arith, expired_inactive now a)

expire_rivals-IsSole :
    (now : ℕ) (r : AgentRegistration) (new : Agent) (d : Dict AgentKey Agent)
    → All (IsSole r new) (expire_rivals now r d)
unfolding expire_rivals
expire_rivals-IsSole now r new [] = tt
expire_rivals-IsSole now r new ((k, a) ∷ d) =
    (entry-IsSole now r new k a, expire_rivals-IsSole now r new d)

-- an entry stored under a key for which `P` holds whatever the value
All-insert :
    (P : AgentKey × Agent → Type 0) (k : AgentKey) (a : Agent) (d : Dict AgentKey Agent)
    → ((j : AgentKey) → (j == k) ≡ true → P (j, a))
    → All P d
    → All P (insert k a d)
unfolding insert
All-insert P k a [] h i = (h k ((==_iff k k).1 refl), tt)
All-insert P k a ((j, b) ∷ d) h (p, i) = stored (j == k) refl (All-insert P k a d h i)
  where
    stored :
        (t : Bool)
        → (j == k) ≡ t
        → All P (insert k a d)
        → All P (if t then (j, a) ∷ d else (j, b) ∷ insert k a d)
    stored true e rest = (h j e, i)
    stored false e rest = (p, rest)

-- the entry that a registration writes
abbrev pub new_entry : Text → ℕ → String → AgentRegistration → Registry → Agent
new_entry text now lease_id r g =
    leased text now lease_id r (next_epoch r g.agents)
      (lookup (key_of r) (expire_rivals now r g.agents))

pub registered-IsSole :
    (text : Text) (now : ℕ) (lease_id : String) (r : AgentRegistration) (g : Registry)
    → All
        (IsSole r (new_entry text now lease_id r g))
        (after (register_agent text now lease_id r) g).agents
unfolding register_agent
registered-IsSole text now lease_id r g =
    All-insert _ (key_of r) _ _ (λ j e rival act. ((==_iff j (key_of r)).0 e, refl))
      (expire_rivals-IsSole now r _ g.agents)

-- The entry of the registration is stored, with an active lease of the id that was given.
pub record IsLeased (text : Text) (now : ℕ) (lease_id : String) (r : AgentRegistration)
    (agents : Dict AgentKey Agent) (a : Agent) : Type 0 where
  pub is_stored : lookup (key_of r) agents ≡ some a
  pub is_active_now : a.lease_state ≡ LeaseState.active
  pub has_lease : a.lease_id_hash ≡ text.lease_hash lease_id
  pub was_seen : a.last_seen_at ≡ now

stored_entry :
    (text : Text) (now : ℕ) (lease_id : String) (r : AgentRegistration) (g : Registry)
    → lookup (key_of r) (after (register_agent text now lease_id r) g).agents
      ≡ some (new_entry text now lease_id r g)
unfolding register_agent
stored_entry text now lease_id r g =
    lookup-insert_self (key_of r) (new_entry text now lease_id r g) (expire_rivals now r g.agents)

-- After a registration its entry is stored with an active lease of the id just given, and no other entry
-- among the drivers of the workspace, or among the instances of the slave, has an active lease.
pub register_agent-IsSole :
    (text : Text) (now : ℕ) (lease_id : String) (r : AgentRegistration) (g : Registry)
    → (a : Agent) × IsLeased text now lease_id r
        (after (register_agent text now lease_id r) g).agents
        a
      × All (IsSole r a) (after (register_agent text now lease_id r) g).agents
register_agent-IsSole text now lease_id r g = (
  new_entry text now lease_id r g,
  record {
    is_stored = stored_entry text now lease_id r g;
    is_active_now = refl;
    has_lease = refl;
    was_seen = refl;
  },
  registered-IsSole text now lease_id r g,
)

expire_epoch : (now : ℕ) (a : Agent) → (expire now a).epoch ≡ a.epoch
expire_epoch now a = kept (is_active a.lease_state)
  where
    kept :
        (b : Bool)
        → (if◌then◌else◌ {A = Agent} b
            (record a { lease_state = LeaseState.expired; updated_at = now })
            a).epoch
          ≡ a.epoch
    kept true = refl
    kept false = refl

kept_epoch : (now : ℕ) (b : Bool) (a : Agent) → (if b then expire now a else a).epoch ≡ a.epoch
kept_epoch now true a = expire_epoch now a
kept_epoch now false a = refl

highest_bound :
    (r : AgentRegistration) (now n : ℕ) (d : Dict AgentKey Agent)
    → highest r d < n
    → All (IsOlder r n) (expire_rivals now r d)
unfolding highest expire_rivals
highest_bound r now n [] h = tt
highest_bound r now n ((k, a) ∷ d) h = (
  (λ rival. inr (ground (arith, kept_epoch now (is_rival r k) a, h, rival))),
  highest_bound r now n d (ground (arith, h)),
)

-- the lease that a registration answers with
abbrev lease_given : Text → ℕ → String → AgentRegistration → Registry → AgentLease
lease_given text now lease_id r g = record {
  agent_id = r.agent_id;
  instance_id = r.instance_id;
  workspace_id = r.workspace_id;
  lease_id = lease_id;
  epoch = next_epoch r g.agents;
  thread_bindings =
      if is_driver r.role
      then threads_of r.workspace_id (
          if is_driver r.role
          then suspend r.workspace_id (next_epoch r g.agents) g.driver_threads
          else g.driver_threads)
      else [];
}

-- every rival's epoch, its own earlier one included
abbrev pub IsBelow : AgentRegistration → ℕ → AgentKey × Agent → Type 0
IsBelow r n (k, a) = is_rival r k ≡ true → a.epoch < n

highest_above :
    (r : AgentRegistration) (n : ℕ) (d : Dict AgentKey Agent)
    → highest r d < n
    → All (IsBelow r n) d
unfolding highest
highest_above r n [] h = tt
highest_above r n ((k, a) ∷ d) h =
    ((λ rival. ground (arith, h, rival)), highest_above r n d (ground (arith, h)))

-- A Driver that registers gets a lease under an epoch above the epochs of all drivers that the workspace
-- had, its own earlier entry included, whether their leases were active or not. Its entry is stored
-- with that epoch, and afterwards every other driver's epoch is below it.
pub register_agent-IsOlder :
    (text : Text) (now : ℕ) (lease_id : String) (r : AgentRegistration) (g : Registry)
    → is_driver r.role ≡ true
    → (lease : AgentLease) × (reply (register_agent text now lease_id r) g ≡ ok lease)
      × All (IsBelow r lease.epoch) g.agents
      × ((a : Agent) × (lookup (key_of r) (after (register_agent text now lease_id r) g).agents
            ≡ some a)
          × (a.epoch ≡ lease.epoch))
      × All (IsOlder r lease.epoch) (after (register_agent text now lease_id r) g).agents
register_agent-IsOlder text now lease_id r g driver = (
  lease_given text now lease_id r g,
  unfold register_agent in refl,
  highest_above r _ g.agents (rw driver (ground arith)),
  (new_entry text now lease_id r g, stored_entry text now lease_id r g, refl),
  unfold register_agent in
      All-insert _ (key_of r) _ _ (λ j e rival. inl ((==_iff j (key_of r)).0 e))
        (highest_bound r now _ g.agents (rw driver (ground arith))),
)
