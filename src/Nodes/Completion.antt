-- ===== src/Nodes/Completion.antt =====
-- What `complete_orchestration` has established where it takes the Run to "completed".
use mathlib.Core.Path.{◌≡◌, refl, sym, subst}
use personal_computing_space.Shared.{
  ℕ, String, Bool, true, false, not, arith, ==_iff, string_eq, Option, none, some, List, [], ◌∷◌,
  if◌then◌else◌,
}
use personal_computing_space.Shared.Lists.{any}
use personal_computing_space.Shared.Json.{Json}
use personal_computing_space.Shared.Exec.{Exec}
use personal_computing_space.Runs.Defs.{RunRecord, RunState, ResourceRef}
use personal_computing_space.Runs.Transition.{transition, target}
use personal_computing_space.Runs.Fencing.{Fate, Comes, Comes-need, Comes-assert, Comes-get}
use personal_computing_space.Nodes.Defs.{NodeServices, NodeContract, running_execution, digest_of}
use personal_computing_space.Nodes.Accept.{contract_at}
use personal_computing_space.Nodes.Complete.{
  Problem, problems, lineage_of, comes_from, is_completed, conclude_with, reject_output, ask_user,
  succeed, complete_orchestration,
}
use personal_computing_space.Nodes.Fenced.{running_state}

-- The final output is loaded, the ref has its digest, and so has a result that a completed attempt of one
-- of the nodes left.
pub record IsProduced (ns : NodeServices) (r : RunRecord) (final : ResourceRef) : Type 0 where
  pub value : Json
  pub is_loaded : ns.load_json final ≡ some value
  pub has_digest : digest_of ns final ≡ ns.result_digest value
  pub has_source :
      comes_from ns (ns.result_digest value) (lineage_of r.attempts r.dynamic_nodes) ≡ true

-- and all nodes are completed
pub record IsFinished (ns : NodeServices) (r : RunRecord) (final : ResourceRef) : Type 0 where
  pub all_completed : any (λ n. not (is_completed n.state)) r.dynamic_nodes ≡ false
  pub is_produced : IsProduced ns r final

problems-IsProduced :
    (ns : NodeServices) (r : RunRecord) (final : ResourceRef) (value : Option Json)
    (contract : Option NodeContract)
    → ns.load_json final ≡ value
    → problems ns final value contract (lineage_of r.attempts r.dynamic_nodes) ≡ []
    → IsProduced ns r final
problems-IsProduced ns r final none contract l p = ground arith
problems-IsProduced ns r final (some v) none l p = ground arith
problems-IsProduced ns r final (some v) (some c) l p = record {
  value = v;
  is_loaded = l;
  has_digest = ground (arith, ==_iff (digest_of ns final) (ns.result_digest v));
  has_source = ground arith;
}

-- what a call that returns has established, if it leaves the Run completed
abbrev pub OnSuccess : NodeServices → RunRecord → ResourceRef → RunRecord → Type 0
OnSuccess ns r final s = s.state ≡ RunState.completed → IsFinished ns r final

module _ (ns : NodeServices) (r : RunRecord) (final : ResourceRef) where
  reject-Comes :
      (now : ℕ) (error : Json)
      → r.state ≡ RunState.running
      → Comes r (λ x s. OnSuccess ns r final s) (reject_output now error)
  unfolding reject_output transition target
  reject-Comes now error running = record {
    fate =
        subst
          (λ b.
            Fate r (λ x s. OnSuccess ns r final s)
              (reject_output now error (record r { state = b })))
          (sym running) (λ e. ground arith);
  }

  ask-Comes :
      (now : ℕ) (execution : String) (value : Option Json)
      → r.state ≡ RunState.running
      → Comes r (λ x s. OnSuccess ns r final s) (ask_user now execution final value)
  unfolding ask_user transition target
  ask-Comes now execution value running = record {
    fate =
        subst
          (λ b.
            Fate r (λ x s. OnSuccess ns r final s)
              (ask_user now execution final value (record r { state = b })))
          (sym running) (λ e. ground arith);
  }

  succeed-Comes :
      (now : ℕ) (execution : String) (value : Option Json)
      (entries : List (String × (String × ResourceRef)))
      → r.state ≡ RunState.running
      → IsFinished ns r final
      → Comes r (λ x s. OnSuccess ns r final s) (succeed now execution final value entries)
  unfolding succeed transition target
  succeed-Comes now execution value entries running finished = record {
    fate =
        subst
          (λ b.
            Fate r (λ x s. OnSuccess ns r final s)
              (succeed now execution final value entries (record r { state = b })))
          (sym running) (λ e. finished);
  }

  either-Comes :
      (b : Bool) (m n : Exec RunRecord (Unit {0}))
      → Comes r (λ x s. OnSuccess ns r final s) m
      → Comes r (λ x s. OnSuccess ns r final s) n
      → Comes r (λ x s. OnSuccess ns r final s) (if b then m else n)
  either-Comes true m n k l = k
  either-Comes false m n k l = l

  conclude_with-Comes :
      (now : ℕ) (execution : String) (value : Option Json) (contract : Option NodeContract)
      (entries : List (String × (String × ResourceRef))) (ps : List Problem)
      → running_execution r ≡ some execution
      → (ps ≡ [] → IsFinished ns r final)
      → Comes r
          (λ x s. OnSuccess ns r final s)
          (conclude_with now execution final value contract entries ps)
  conclude_with-Comes now execution value contract entries (p ∷ ps) running finished =
      reject-Comes now _ (running_state r execution running)
  conclude_with-Comes now execution value contract entries [] running finished =
      either-Comes _ _ _ (ask-Comes now execution value (running_state r execution running)) (
        succeed-Comes now execution value entries (running_state r execution running)
          (finished refl))

  problems-IsFinished :
      (ref : ResourceRef)
      → not (any (λ n. not (is_completed n.state)) r.dynamic_nodes) ≡ true
      → problems ns final
          (ns.load_json final)
          (contract_at ns ref)
          (lineage_of r.attempts r.dynamic_nodes)
        ≡ []
      → IsFinished ns r final
  problems-IsFinished ref c p = record {
    all_completed = ground arith;
    is_produced = problems-IsProduced ns r final (ns.load_json final) (contract_at ns ref) refl p;
  }

-- A call of `complete_orchestration` that returns and leaves the Run completed has seen all nodes of the Run
-- completed, and the final output loaded, with the digest that its ref states, which is also the
-- digest of a result that a completed attempt of one of the nodes left. A call that raises leaves the
-- Run as it was.
pub complete_orchestration-Fate :
    (ns : NodeServices) (now : ℕ) (final : ResourceRef) (r : RunRecord)
    → Fate r
        (λ x s. s.state ≡ RunState.completed → IsFinished ns r final)
        (complete_orchestration ns now final r)
unfolding complete_orchestration
complete_orchestration-Fate ns now final r = (completing ns now final r).fate
  where
    completing :
        (ns : NodeServices) (now : ℕ) (final : ResourceRef) (r : RunRecord)
        → Comes r (λ x s. OnSuccess ns r final s) (complete_orchestration ns now final)
    completing ns now final r =
        search (Comes-get, Comes-need, Comes-assert, conclude_with-Comes, problems-IsFinished) depth
          24 fits 30000
