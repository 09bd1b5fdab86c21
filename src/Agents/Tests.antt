-- ===== src/Agents/Tests.antt =====
-- Two Drivers of one workspace, one after the other, with the theorems applied to them.
use personal_computing_space.Shared.{
  ◌∷◌, arith, none, List, String, some, [], ◌≡◌, refl, string_beq, pair_beq,
}
use personal_computing_space.Shared.Lists.{All}
use personal_computing_space.Shared.Dict.{lookup, insert}
use personal_computing_space.Shared.Json.{Json}
use personal_computing_space.Shared.Exec.{after, reply, ok}
use personal_computing_space.Agents.Defs.{
  Agent, agent_key_eq, role_eq, TurnState, DriverThreadBinding, Role, AgentRegistration, AgentLease,
  Registry, Text,
}
use personal_computing_space.Agents.Registration.{
  key_of, highest, expire_rivals, suspend, threads_of, next_epoch, register_agent,
}
use personal_computing_space.Agents.Leases.{swept, matching, newest, beat, heartbeat_agent}
use personal_computing_space.Agents.Ownership.{
  IsSole, IsOlder, IsBelow, IsLeased, register_agent-IsSole, register_agent-IsOlder,
}
use personal_computing_space.Agents.Threads.{
  ThreadCall, bind, IsInjective, call_threads, call_threads-IsInjective,
}
use personal_computing_space.Agents.Fencing.{heartbeat_after_register}

abbrev plain_text : Text
plain_text = record { lease_hash = λ s. s; without_slashes = λ s. s }

abbrev driver_at : String → AgentRegistration
driver_at instance_id = record {
  role = Role.driver;
  agent_id = "driver";
  instance_id = instance_id;
  workspace_id = "w";
  endpoint_url = "http://driver";
  protocol_version = "1";
  capabilities = Json.null;
}

abbrev nobody : Registry
nobody = record { agents = []; agent_events = []; driver_threads = []; message_receipts = [] }

abbrev first_driver : Registry
first_driver = after (register_agent plain_text 100 "lease-1" (driver_at "one")) nobody

abbrev second_lease : AgentLease
second_lease = record {
  agent_id = "driver";
  instance_id = "two";
  workspace_id = "w";
  lease_id = "lease-2";
  epoch = 2;
  thread_bindings = [];
}

-- the agents after a second instance has registered
abbrev two_drivers : Registry
two_drivers = after (register_agent plain_text 200 "lease-2" (driver_at "two")) first_driver

register_agent-IsSole_example :
    (a : Agent) × IsLeased plain_text 200 "lease-2" (driver_at "two") two_drivers.agents a
    × All (IsSole (driver_at "two") a) two_drivers.agents
register_agent-IsSole_example =
    register_agent-IsSole plain_text 200 "lease-2" (driver_at "two") first_driver

register_agent-IsOlder_example :
    (lease : AgentLease) × (reply
        (register_agent plain_text 200 "lease-2" (driver_at "two"))
        first_driver
      ≡ ok lease)
    × All (IsBelow (driver_at "two") lease.epoch) first_driver.agents
    × ((a : Agent) × (lookup (key_of (driver_at "two")) two_drivers.agents ≡ some a)
        × (a.epoch ≡ lease.epoch))
    × All (IsOlder (driver_at "two") lease.epoch) two_drivers.agents
register_agent-IsOlder_example =
    register_agent-IsOlder plain_text 200 "lease-2" (driver_at "two") first_driver refl

second_beats :
    reply
      (heartbeat_agent plain_text 15000000 300 "driver" "two" "lease-2" 2 (some "w") Role.driver)
      (after (register_agent plain_text 200 "lease-2" (driver_at "two")) first_driver)
    ≡ ok second_lease
unfolding heartbeat_agent register_agent highest expire_rivals suspend threads_of swept matching
    newest beat lookup insert string_beq pair_beq
second_beats = refl

heartbeat_after_register_example :
    ((driver_at "two").instance_id ≡ "two")
    × ((next_epoch (driver_at "two") first_driver.agents ≡ 2)
        × (plain_text.lease_hash "lease-2" ≡ "lease-2"))
heartbeat_after_register_example =
    heartbeat_after_register plain_text 15000000 200 300 "lease-2" (driver_at "two") first_driver
      "driver" "two" "lease-2" 2 second_lease refl second_beats

abbrev thread_one : DriverThreadBinding
thread_one = record {
  workspace_id = "w";
  conversation_ref = "c";
  thread_id = "t";
  model = "m";
  workspace_root = "/";
  last_turn_id = none;
  turn_state = TurnState.idle;
  active_request_id = none;
  driver_epoch = 1;
}

-- the second binding is refused: the thread is the other conversation's
abbrev thread_calls : List ThreadCall
thread_calls = bind thread_one ∷ bind (record thread_one { conversation_ref = "other" }) ∷ []

no_threads : IsInjective []
unfolding lookup
no_threads j k x y p q w s = ground arith

call_threads-IsInjective_example : IsInjective (call_threads thread_calls [])
call_threads-IsInjective_example = call_threads-IsInjective thread_calls [] no_threads
