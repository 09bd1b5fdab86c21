-- ===== src/Nodes/Closing.antt =====
-- The changes that the calls make to attempts close attempts: none of them lets an attempt report
-- that might not before.
use mathlib.Core.Path.{◌≡◌, refl}
use personal_computing_space.Shared.{
  ◌+◌, ◌≤◌, String, Bool, true, false, ◌&&◌, arith, none, some, List, [], ◌∷◌, ◌==◌, ==_iff,
  if◌then◌else◌, string_eq, option_eq,
}
use personal_computing_space.Shared.Lists.{any, first}
use personal_computing_space.Shared.Json.{Json}
use personal_computing_space.Runs.Defs.{Attempt, AttemptState}
use personal_computing_space.Runs.Reports.{is_open, mark}
use personal_computing_space.Runs.Recovery.{given_up}
use personal_computing_space.Nodes.Defs.{is_attempt_of}
use personal_computing_space.Nodes.Dispatch.{mark_lost, live_attempts, only_attempt}
use personal_computing_space.Nodes.Results.{last_attempt, change_last, fail_attempts, is_failing}
use personal_computing_space.Nodes.Live.{
  is_live_of, live, has_id, distinct, Closes, ClosesOne, Closes-refl, Closes-if, ClosesOne-close,
  ClosesOne-if, ClosesOne-refl, Closes-live,
}

pub mark-Closes :
    (id : String) (state : AttemptState) (xs : List Attempt)
    → is_open state ≡ false
    → Closes xs (mark id state xs)
mark-Closes id state [] c = tt
mark-Closes id state (a ∷ xs) c =
    Closes-if (a.attempt_id == id) (a ∷ xs) (record a { state = state } ∷ xs) (a ∷ mark id state xs)
      (ClosesOne-close a (record a { state = state }) refl c, Closes-refl xs)
      (ClosesOne-refl a, mark-Closes id state xs c)

pub given_up-Closes : (reason : Json) (xs : List Attempt) → Closes xs (given_up reason xs)
given_up-Closes reason [] = tt
given_up-Closes reason (a ∷ xs) =
    (ClosesOne-if _ a _ (ClosesOne-close a _ refl refl), given_up-Closes reason xs)

pub given_up-live :
    (reason : Json) (xs : List Attempt) (id : String) → live id (given_up reason xs) ≡ 0
unfolding live
given_up-live reason [] id = refl
given_up-live reason (a ∷ xs) id = ground (arith, given_up-live reason xs id)

pub mark_lost-Closes :
    (id replacement : String) (reason : Json) (xs : List Attempt)
    → Closes xs (mark_lost id replacement reason xs)
mark_lost-Closes id replacement reason [] = tt
mark_lost-Closes id replacement reason (a ∷ xs) =
    Closes-if (a.attempt_id == id) (a ∷ xs) (_ ∷ xs) (a ∷ mark_lost id replacement reason xs)
      (ClosesOne-close a _ refl refl, Closes-refl xs)
      (ClosesOne-refl a, mark_lost-Closes id replacement reason xs)

pub change_last-Closes :
    (p : Attempt → Bool) (f : Attempt → Attempt) (xs : List Attempt)
    → ((a : Attempt) → ClosesOne a (f a))
    → Closes xs (change_last p f xs)
change_last-Closes p f [] c = tt
change_last-Closes p f (a ∷ xs) c =
    Closes-if (any p xs) (a ∷ xs) (a ∷ change_last p f xs) (if p a then f a ∷ xs else a ∷ xs)
      (ClosesOne-refl a, change_last-Closes p f xs c)
      (Closes-if (p a) (a ∷ xs) (f a ∷ xs) (a ∷ xs) (c a, Closes-refl xs) (Closes-refl (a ∷ xs)))

pub fail_attempts-Closes :
    (p : Attempt → Bool) (reason : Json) (xs : List Attempt) → Closes xs (fail_attempts p reason xs)
fail_attempts-Closes p reason [] = tt
fail_attempts-Closes p reason (a ∷ xs) =
    (ClosesOne-if _ a _ (ClosesOne-close a _ refl refl), fail_attempts-Closes p reason xs)

-- the attempt that a call ends might report before, and may not any more

last_attempt-any :
    (p : Attempt → Bool) (xs : List Attempt) → any p xs ≡ false → last_attempt p xs ≡ none
last_attempt-any p [] e = refl
last_attempt-any p (a ∷ xs) e = ground (arith, last_attempt-any p xs)

last_attempt-none :
    (p : Attempt → Bool) (xs : List Attempt) → any p xs ≡ true → last_attempt p xs ≡ none → ⊥
last_attempt-none p [] e n = ground arith
last_attempt-none p (a ∷ xs) e n = ground (arith, last_attempt-none p xs)

pub change_last-live :
    (node id : String) (f : Attempt → Attempt) (xs : List Attempt) (a : Attempt)
    → last_attempt (is_attempt_of node id) xs ≡ some a
    → is_open a.state ≡ true
    → ((b : Attempt) → is_open (f b).state ≡ false)
    → live node (change_last (is_attempt_of node id) f xs) + 1 ≡ live node xs
unfolding live
change_last-live node id f [] a e o c = ground arith
change_last-live node id f (b ∷ xs) a e o c = ground (
  arith,
  last_attempt-any (is_attempt_of node id) xs,
  last_attempt-none (is_attempt_of node id) xs,
  change_last-live node id f xs a,
  c b,
)

pub live_after_failure :
    (node : String) (reason : Json) (xs : List Attempt)
    → live node (fail_attempts (is_failing node none) reason xs) ≡ 0
unfolding live
live_after_failure node reason [] = refl
live_after_failure node reason (a ∷ xs) = ground (arith, live_after_failure node reason xs)

pub live_after_named_failure :
    (node id : String) (reason : Json) (xs : List Attempt) (a : Attempt)
    → first (is_attempt_of node id) xs ≡ some a
    → is_open a.state ≡ true
    → live node (fail_attempts (is_attempt_of node id) reason xs) + 1 ≤ live node xs
unfolding live
live_after_named_failure node id reason [] a e o = ground arith
live_after_named_failure node id reason (b ∷ xs) a e o = ground (
  arith,
  live_after_named_failure node id reason xs a,
  Closes-live xs (fail_attempts (is_attempt_of node id) reason xs)
      (fail_attempts-Closes (is_attempt_of node id) reason xs) node,
)

-- an attempt of the node that has the id and may still report
abbrev pub is_the_live : String → String → Attempt → Bool
is_the_live node id a = (a.attempt_id == id) && is_live_of node a

the_live-has_id :
    (node id : String) (xs : List Attempt)
    → any (is_the_live node id) xs ≡ true
    → has_id id xs ≡ true
the_live-has_id node id [] e = ground arith
the_live-has_id node id (a ∷ xs) e = ground (arith, the_live-has_id node id xs)

pub mark_lost-live :
    (node id replacement : String) (reason : Json) (xs : List Attempt)
    → distinct xs ≡ true
    → any (is_the_live node id) xs ≡ true
    → live node (mark_lost id replacement reason xs) + 1 ≡ live node xs
unfolding live distinct
mark_lost-live node id replacement reason [] d e = ground arith
mark_lost-live node id replacement reason (a ∷ xs) d e = ground (
  arith,
  ==_iff a.attempt_id id,
  the_live-has_id node id xs,
  mark_lost-live node id replacement reason xs,
)

none_kept : (node : String) (xs : List Attempt) → live_attempts node xs ≡ [] → live node xs ≡ 0
unfolding live
none_kept node [] e = refl
none_kept node (a ∷ xs) e = ground (arith, none_kept node xs)

pub only_attempt-live :
    (node id : String) (xs : List Attempt)
    → only_attempt id (live_attempts node xs) ≡ true
    → any (is_the_live node id) xs ≡ true
only_attempt-live node id [] e = ground arith
only_attempt-live node id (a ∷ xs) e =
    ground (arith, only_attempt-live node id xs, none_kept node xs)

pub last_attempt-id :
    (node id : String) (xs : List Attempt) (a : Attempt)
    → last_attempt (is_attempt_of node id) xs ≡ some a
    → a.attempt_id ≡ id
last_attempt-id node id [] a e = ground arith
last_attempt-id node id (b ∷ xs) a e =
    ground (arith, last_attempt-id node id xs a, ==_iff b.attempt_id id)
