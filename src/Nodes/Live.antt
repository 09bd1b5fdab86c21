-- ===== src/Nodes/Live.antt =====
-- How many attempts of a node may still report, and how the changes of the attempts and of the nodes
-- change that number and the number that the state of the node allows.
use mathlib.Core.Path.{◌≡◌, refl}
use personal_computing_space.Shared.{
  ℕ, ◌+◌, ◌≤◌, String, Bool, true, false, not, ◌&&◌, ◌||◌, arith, Option, none, some, List, [], ◌∷◌,
  ◌++◌, ◌==◌, ==_iff, if◌then◌else◌, string_eq, option_eq,
}
use personal_computing_space.Shared.Lists.{any}
use personal_computing_space.Runs.Defs.{NodeState, DynamicNode, Attempt}
use personal_computing_space.Runs.Reports.{is_open}
use personal_computing_space.Nodes.Defs.{find_node, set_node, is_dispatched}

abbrev pub is_live_of : String → Attempt → Bool
is_live_of id a = (a.node_id == some id) && is_open a.state

abbrev pub one_if : Bool → ℕ
one_if b = if b then 1 else 0

-- how many attempts of the node may still report
unfoldable pub live : String → List Attempt → ℕ
live id [] = 0
live id (a ∷ attempts) = one_if (is_live_of id a) + live id attempts

-- how many the state of the node allows
abbrev pub slots : Option DynamicNode → ℕ
slots none = 0
slots (some n) = one_if (is_dispatched n.state)

abbrev pub has_id : String → List Attempt → Bool
has_id id = any λ a. a.attempt_id == id

-- no two attempts have the same id
unfoldable pub distinct : List Attempt → Bool
distinct [] = true
distinct (a ∷ attempts) = not (has_id a.attempt_id attempts) && distinct attempts

pub live-append :
    (id : String) (a : Attempt) (attempts : List Attempt)
    → live id (attempts ++ a ∷ []) ≡ live id attempts + one_if (is_live_of id a)
unfolding live
live-append id a [] = omega arith
live-append id a (b ∷ attempts) = omega (arith, live-append id a attempts)

has_id-append :
    (id : String) (a : Attempt) (attempts : List Attempt)
    → has_id id (attempts ++ a ∷ []) ≡ (has_id id attempts || a.attempt_id == id)
has_id-append id a [] = ground arith
has_id-append id a (b ∷ attempts) = ground (arith, has_id-append id a attempts)

pub distinct-append :
    (a : Attempt) (attempts : List Attempt)
    → distinct (attempts ++ a ∷ []) ≡ true
    → distinct attempts ≡ true
unfolding distinct
distinct-append a [] d = refl
distinct-append a (b ∷ attempts) d =
    ground (arith, distinct-append a attempts, has_id-append b.attempt_id a attempts)

-- node.state = ..., seen from the number that it allows
pub find_node-set_self :
    (i : String) (state : NodeState) (nodes : List DynamicNode) (n : DynamicNode)
    → find_node i nodes ≡ some n
    → slots (find_node i (set_node i state nodes)) ≡ one_if (is_dispatched state)
find_node-set_self i state [] n e = ground arith
find_node-set_self i state (m ∷ nodes) n e =
    ground (arith, ==_iff m.node_id i, find_node-set_self i state nodes n)

pub find_node-set_other :
    (i j : String) (state : NodeState) (nodes : List DynamicNode)
    → (i == j) ≡ false
    → slots (find_node j (set_node i state nodes)) ≡ slots (find_node j nodes)
find_node-set_other i j state [] e = refl
find_node-set_other i j state (m ∷ nodes) e =
    ground (
      arith,
      ==_iff i j,
      ==_iff m.node_id i,
      ==_iff m.node_id j,
      find_node-set_other i j state nodes,
    )

pub find_node-append :
    (j : String) (n : DynamicNode) (nodes : List DynamicNode)
    → slots (find_node j nodes) ≤ slots (find_node j (nodes ++ n ∷ []))
find_node-append j n [] = ground arith
find_node-append j n (m ∷ nodes) = ground (arith, find_node-append j n nodes)

-- `b` is what a call leaves of the attempt `a`: its id is the same, and it may report for a node only if
-- `a` might.
pub record ClosesOne (a b : Attempt) : Type 0 where
  pub same_id : b.attempt_id ≡ a.attempt_id
  pub no_more : (id : String) → one_if (is_live_of id b) ≤ one_if (is_live_of id a)

abbrev pub Closes : List Attempt → List Attempt → Type 0
Closes [] [] = Unit
Closes (a ∷ xs) (b ∷ ys) = ClosesOne a b × Closes xs ys
Closes _ _ = ⊥

pub Closes-live : (xs ys : List Attempt) → Closes xs ys → (id : String) → live id ys ≤ live id xs
unfolding live
Closes-live [] [] c id = omega arith
Closes-live [] (b ∷ ys) c id = elim c [ ]
Closes-live (a ∷ xs) [] c id = elim c [ ]
Closes-live (a ∷ xs) (b ∷ ys) (c, d) id = omega (arith, c.no_more id, Closes-live xs ys d id)

Closes-has_id : (xs ys : List Attempt) → Closes xs ys → (id : String) → has_id id ys ≡ has_id id xs
Closes-has_id [] [] c id = refl
Closes-has_id [] (b ∷ ys) c id = elim c [ ]
Closes-has_id (a ∷ xs) [] c id = elim c [ ]
Closes-has_id (a ∷ xs) (b ∷ ys) (c, d) id = rw c.same_id (rw (Closes-has_id xs ys d id))

pub Closes-distinct : (xs ys : List Attempt) → Closes xs ys → distinct ys ≡ distinct xs
unfolding distinct
Closes-distinct [] [] c = refl
Closes-distinct [] (b ∷ ys) c = elim c [ ]
Closes-distinct (a ∷ xs) [] c = elim c [ ]
Closes-distinct (a ∷ xs) (b ∷ ys) (c, d) =
    rw c.same_id (rw (Closes-has_id xs ys d a.attempt_id) (rw (Closes-distinct xs ys d)))

pub ClosesOne-refl : (a : Attempt) → ClosesOne a a
ClosesOne-refl a = record { same_id = refl; no_more = λ id. omega arith }

pub Closes-refl : (xs : List Attempt) → Closes xs xs
Closes-refl [] = tt
Closes-refl (a ∷ xs) = (ClosesOne-refl a, Closes-refl xs)

-- an attempt that is put in a state that cannot report
pub ClosesOne-close :
    (a b : Attempt) → b.attempt_id ≡ a.attempt_id → is_open b.state ≡ false → ClosesOne a b
ClosesOne-close a b e c = record { same_id = e; no_more = λ id. ground arith }

-- a change under a condition
pub ClosesOne-if : (t : Bool) (a b : Attempt) → ClosesOne a b → ClosesOne a (if t then b else a)
ClosesOne-if true a b c = c
ClosesOne-if false a b c = ClosesOne-refl a

pub Closes-if :
    (t : Bool) (xs ys zs : List Attempt)
    → Closes xs ys
    → Closes xs zs
    → Closes xs (if t then ys else zs)
Closes-if true xs ys zs c d = c
Closes-if false xs ys zs c d = d
