-- ===== src/Slaves/Preferred.antt =====
-- The selection is the first entry with an active lease, or else the first entry.
use mathlib.Core.Path.{◌≡◌, refl, sym, ap, ◌∙◌}
use personal_computing_space.Shared.{
  String, Bool, false, ◌&&◌, arith, Option, none, some, List, [], ◌∷◌, ◌==◌, ==_iff, if◌then◌else◌,
  string_eq, option_eq, Bool-cases, inl, inr,
}
use personal_computing_space.Shared.Lists.{first}
use personal_computing_space.Shared.Dict.{Dict, lookup, lookup-insert, lookup-insert_self}
use personal_computing_space.Slaves.Selection.{
  AgentReport, is_active, replaces, considered, selected_from, select_slave_agents,
}

abbrev is_of : String → AgentReport → Bool
is_of id a = a.agent_id == id

abbrev or_else : Option AgentReport → Option AgentReport → Option AgentReport
or_else none o = o
or_else (some a) o = some a

-- the first entry of the slave with an active lease, or else its first entry
abbrev pub preferred : String → List AgentReport → Option AgentReport
preferred id agents =
    or_else (first (λ a. is_of id a && is_active a) agents) (first (is_of id) agents)

-- the same, where an entry was selected before
abbrev preferred_to : String → Option AgentReport → List AgentReport → Option AgentReport
preferred_to id none agents = preferred id agents
preferred_to id (some c) agents =
    if is_active c then some c else or_else (first (λ a. is_of id a && is_active a) agents) (some c)

considered_own :
    (a : AgentReport) (d : Dict String AgentReport)
    → (a.agent_id == "") ≡ false
    → lookup a.agent_id (considered a d)
      ≡ (if replaces a (lookup a.agent_id d) then some a else lookup a.agent_id d)
unfolding considered
considered_own a d h = rw h (elim (Bool-cases (replaces a (lookup a.agent_id d))) [
  | inl e ↦ rw e (lookup-insert_self a.agent_id a d)
  | inr e ↦ rw e refl
])

considered_other :
    (id : String) (a : AgentReport) (d : Dict String AgentReport)
    → is_of id a ≡ false
    → lookup id (considered a d) ≡ lookup id d
unfolding considered
considered_other id a d h = ground (arith, lookup-insert a.agent_id id a d)

lookup-considered :
    (id : String) (a : AgentReport) (d : Dict String AgentReport)
    → (id == "") ≡ false
    → lookup id (considered a d)
      ≡ (if is_of id a && replaces a (lookup id d) then some a else lookup id d)
lookup-considered id a d h = elim (Bool-cases (is_of id a)) [
  | inl e ↦ rw e (same ((==_iff a.agent_id id).0 e))
  | inr e ↦ rw e (considered_other id a d e)
]
  where
    same :
        a.agent_id ≡ id
        → lookup id (considered a d) ≡ (if replaces a (lookup id d) then some a else lookup id d)
    same e =
        ap (λ i. lookup i (considered a d)) (sym e)
        ∙ considered_own a d (ap (λ i. i == "") e ∙ h)
        ∙ ap (λ i. if replaces a (lookup i d) then some a else lookup i d) e

preferred_to-step :
    (id : String) (a : AgentReport) (rest : List AgentReport) (o : Option AgentReport)
    → preferred_to id (if is_of id a && replaces a o then some a else o) rest
      ≡ preferred_to id o (a ∷ rest)
preferred_to-step id a rest none = ground arith
preferred_to-step id a rest (some c) = ground arith

lookup-selected_from :
    (id : String) (agents : List AgentReport) (d : Dict String AgentReport)
    → (id == "") ≡ false
    → lookup id (selected_from agents d) ≡ preferred_to id (lookup id d) agents
unfolding selected_from
lookup-selected_from id [] d h = unchanged (lookup id d)
  where
    unchanged : (o : Option AgentReport) → o ≡ preferred_to id o []
    unchanged none = refl
    unchanged (some c) = ground arith
lookup-selected_from id (a ∷ rest) d h =
    lookup-selected_from id rest (considered a d) h
    ∙ ap (λ o. preferred_to id o rest) (lookup-considered id a d h)
    ∙ preferred_to-step id a rest (lookup id d)

-- For every id that is not empty, what is selected of a list of reports is the first of its reports with an
-- active lease, or the first of its reports if there is none, and nothing if it has no report.
pub lookup-select_slave_agents :
    (id : String) (agents : List AgentReport)
    → (id == "") ≡ false
    → lookup id (select_slave_agents agents) ≡ preferred id agents
unfolding lookup
lookup-select_slave_agents id agents h = lookup-selected_from id agents [] h
