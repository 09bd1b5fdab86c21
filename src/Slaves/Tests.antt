-- ===== src/Slaves/Tests.antt =====
-- A slave that was reported twice, first without a lease.
use mathlib.Core.Path.{◌≡◌, refl}
use personal_computing_space.Shared.{
  String, false, Option, none, some, List, [], ◌∷◌, ◌==◌, string_eq, string_beq,
}
use personal_computing_space.Shared.Dict.{lookup}
use personal_computing_space.Shared.Json.{null}
use personal_computing_space.Slaves.Selection.{AgentReport, select_slave_agents}
use personal_computing_space.Slaves.Preferred.{preferred, lookup-select_slave_agents}

abbrev reported : String → Option String → AgentReport
reported id lease = record { agent_id = id; lease_state = lease; details = null }

abbrev reports : List AgentReport
reports =
    reported "s1" (some "expired")
    ∷ reported "" (some "active")
    ∷ reported "s2" none
    ∷ reported "s1" (some "active")
    ∷ []

named : ◌==◌ {A = String} "s1" "" ≡ false
unfolding string_beq
named = refl

active_preferred : preferred "s1" reports ≡ some (reported "s1" (some "active"))
unfolding string_beq
active_preferred = refl

lookup-select_slave_agents_example :
    lookup "s1" (select_slave_agents reports) ≡ preferred "s1" reports
lookup-select_slave_agents_example = lookup-select_slave_agents "s1" reports named
