-- ===== src/Agents/Fencing.antt =====
-- What a heartbeat needs once a Driver has registered.
use personal_computing_space.Shared.{
  ℕ, ltb, or_else, String, Bool, true, false, ◌&&◌, Option, none, some, [], ◌∷◌, ==_iff,
  if◌then◌else◌, ◌≡◌, refl, nat_eq, string_eq, arith,
}
use mathlib.Core.Path.{subst}
use personal_computing_space.Shared.Lists.{All}
use personal_computing_space.Shared.Dict.{Dict, insert}
use personal_computing_space.Shared.Exec.{after, reply, ok, Result, err, value_error}
use personal_computing_space.Agents.Defs.{
  Role, role_eq, agent_key_eq, AgentKey, LeaseState, Agent, AgentLease, AgentRegistration, Registry,
  Text,
}
use personal_computing_space.Agents.Registration.{is_driver, is_active, next_epoch, register_agent}
use personal_computing_space.Agents.Leases.{
  listed, is_stale, swept, matching, newest, holds, seen, stale_code, lease_of, beat,
  heartbeat_agent,
}
use personal_computing_space.Agents.Ownership.{IsSole, registered-IsSole}

-- an entry whose lease, if active, is `new`
abbrev IsOnly : Agent → AgentKey × Agent → Type 0
IsOnly new (k, a) = is_active a.lease_state ≡ true → a ≡ new

swept_one :
    (b : Bool) (r : AgentRegistration) (new : Agent) (k : AgentKey) (a : Agent)
    → IsSole r new (k, a)
    → IsSole r new (k, if b then record a { lease_state = LeaseState.expired } else a)
swept_one true r new k a i = λ rival act. ground (arith, act)
swept_one false r new k a i = i

swept-IsSole :
    (ttl now : ℕ) (w : String) (role : Option Role) (r : AgentRegistration) (new : Agent)
    (d : Dict AgentKey Agent)
    → All (IsSole r new) d
    → All (IsSole r new) (swept ttl now w role d)
unfolding swept
swept-IsSole ttl now w role r new [] i = tt
swept-IsSole ttl now w role r new ((k, a) ∷ d) (i, is) = (
  swept_one (listed w role k && is_stale ttl now a) r new k a i,
  swept-IsSole ttl now w role r new d is,
)

All-if :
    (P : AgentKey × Agent → Type 0) (b : Bool) (e : AgentKey × Agent) (d : Dict AgentKey Agent)
    → (b ≡ true → P e)
    → All P d
    → All P (if b then e ∷ d else d)
All-if P true e d p q = (p refl, q)
All-if P false e d p q = q

matching-IsOnly :
    (r : AgentRegistration) (new : Agent) (agent instance_id : String) (d : Dict AgentKey Agent)
    → is_driver r.role ≡ true
    → All (IsSole r new) d
    → All (IsOnly new) (matching r.workspace_id r.role agent instance_id d)
unfolding matching
matching-IsOnly r new agent instance_id [] driver i = tt
matching-IsOnly r new agent instance_id (((v, (role, (a, j))), x) ∷ d) driver (i, is) =
    All-if (IsOnly new) _ _ _ (λ m act. (i (ground (arith, m, driver)) act).1)
      (matching-IsOnly r new agent instance_id d driver is)

-- the same of an entry that may be missing
abbrev Found : Agent → Option (AgentKey × Agent) → Type 0
Found new none = Unit
Found new (some x) = IsOnly new x

newest-Found : (new : Agent) (d : Dict AgentKey Agent) → All (IsOnly new) d → Found new (newest d)
unfolding newest
newest-Found new [] i = tt
newest-Found new (x ∷ d) (i, is) = later (newest d) (newest-Found new d is)
  where
    chosen : (b : Bool) (y : AgentKey × Agent) → IsOnly new y → IsOnly new (if b then y else x)
    chosen true y j = j
    chosen false y j = i

    later :
        (o : Option (AgentKey × Agent))
        → Found new o
        → Found new (elim o [
          | none ↦ some x
          | some y ↦ some (if ltb x.1.updated_at y.1.updated_at then y else x)
        ])
    later none j = i
    later (some y) j = chosen (ltb x.1.updated_at y.1.updated_at) y j

-- what a heartbeat that was answered showed
abbrev Shows : Text → String → String → ℕ → Agent → Type 0
Shows text instance_id lease_id epoch a =
    (a.instance_id ≡ instance_id)
    × ((a.epoch ≡ epoch) × (a.lease_id_hash ≡ text.lease_hash lease_id))

holds-Shows :
    (text : Text) (instance_id lease_id : String) (epoch : ℕ) (a : Agent)
    → holds text instance_id lease_id epoch a ≡ true
    → (is_active a.lease_state ≡ true) × Shows text instance_id lease_id epoch a
holds-Shows text instance_id lease_id epoch a h = (
  ground (arith, h),
  (
    (==_iff a.instance_id instance_id).0 (ground (arith, h)),
    (
      (==_iff a.epoch epoch).0 (ground (arith, h)),
      (==_iff a.lease_id_hash (text.lease_hash lease_id)).0 (ground (arith, h)),
    ),
  ),
)

beat-Shows :
    (text : Text) (now : ℕ) (w : Option String) (role : Role) (agent instance_id lease_id : String)
    (epoch : ℕ) (new : Agent) (o : Option (AgentKey × Agent)) (g : Registry) (lease : AgentLease)
    → Found new o
    → reply (beat text now w role agent instance_id lease_id epoch o) g ≡ ok lease
    → Shows text instance_id lease_id epoch new
unfolding beat
beat-Shows text now w role agent instance_id lease_id epoch new none g lease i e = ground arith
beat-Shows text now w role agent instance_id lease_id epoch new (some (k, a)) g lease i e =
    answered (holds text instance_id lease_id epoch a) refl e
  where
    answered :
        (b : Bool)
        → holds text instance_id lease_id epoch a ≡ b
        → (if◌then◌else◌ {A = Registry × Result AgentLease} b
            (
              record g { agents = insert k (seen now a) g.agents },
              ok (lease_of (or_else w a.workspace_id) agent instance_id lease_id epoch),
            )
            (g, err (value_error (stale_code role)))).1
          ≡ ok lease
        → Shows text instance_id lease_id epoch new
    answered true h q =
        let shown = holds-Shows text instance_id lease_id epoch a h in
        subst (Shows text instance_id lease_id epoch) (i shown.0) shown.1
    answered false h q = ground arith

-- Right after a Driver has registered, a Driver's heartbeat that names the workspace is answered only if
-- it shows the instance, the epoch and the lease hash of that registration.
pub heartbeat_after_register :
    (text : Text) (ttl now later : ℕ) (lease_id : String) (r : AgentRegistration) (g : Registry)
    (agent instance_id shown : String) (epoch : ℕ) (lease : AgentLease)
    → is_driver r.role ≡ true
    → reply
        (heartbeat_agent text ttl later agent instance_id shown epoch (some r.workspace_id) r.role)
        (after (register_agent text now lease_id r) g)
      ≡ ok lease
    → (r.instance_id ≡ instance_id)
      × ((next_epoch r g.agents ≡ epoch) × (text.lease_hash lease_id ≡ text.lease_hash shown))
unfolding heartbeat_agent
heartbeat_after_register text ttl now later lease_id r g agent instance_id shown epoch lease driver
      answered =
    beat-Shows text later (some r.workspace_id) r.role agent instance_id shown epoch _ _ _ lease
      (newest-Found _ _ (
        matching-IsOnly r _ agent instance_id _ driver (
          swept-IsSole ttl later r.workspace_id (some r.role) r _ _
            (registered-IsSole text now lease_id r g))))
      answered
