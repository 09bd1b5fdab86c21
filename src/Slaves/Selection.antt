-- ===== src/Slaves/Selection.antt =====
-- `select_slave_agents`: one entry for each slave, of those that were reported.
use personal_computing_space.Shared.{
  String, Bool, true, not, ◌&&◌, Option, none, some, List, [], ◌∷◌, ◌==◌, if◌then◌else◌, string_eq,
  option_eq,
}
use personal_computing_space.Shared.Dict.{Dict, lookup, insert}
use personal_computing_space.Shared.Json.{Json}

-- An entry: its id as text, which is empty if there is none, its lease state, and the rest.
pub record AgentReport : Type 0 where
  pub agent_id : String
  pub lease_state : Option String
  pub details : Json

abbrev pub is_active : AgentReport → Bool
is_active a = a.lease_state == some "active"

abbrev pub replaces : AgentReport → Option AgentReport → Bool
replaces a none = true
replaces a (some c) = is_active a && not (is_active c)

-- one turn of the loop
unfoldable pub considered : AgentReport → Dict String AgentReport → Dict String AgentReport
considered a d =
    if a.agent_id == ""
    then d
    else if replaces a (lookup a.agent_id d)
    then insert a.agent_id a d
    else d

unfoldable pub selected_from : List AgentReport → Dict String AgentReport → Dict String AgentReport
selected_from [] d = d
selected_from (a ∷ rest) d = selected_from rest (considered a d)

abbrev pub select_slave_agents : List AgentReport → Dict String AgentReport
select_slave_agents agents = selected_from agents []
