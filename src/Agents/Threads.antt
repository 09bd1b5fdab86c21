-- ===== src/Agents/Threads.antt =====
-- `bind_thread`, `get_thread` and `set_turn_state`: the thread of each conversation of a workspace.
use personal_computing_space.Shared.{
  ℕ, String, Bool, true, false, not, ◌&&◌, ◌||◌, Option, none, some, List, [], ◌∷◌, ◌==◌, ==_iff,
  if◌then◌else◌, or_else, ◌≡◌, refl, string_eq, pair_eq, arith,
}
use personal_computing_space.Shared.Dict.{Dict, lookup, insert, lookup-insert}
use personal_computing_space.Shared.Exec.{
  Exec, Result, ok, err, key_error, value_error, thread_binding_conflict, after,
}
use personal_computing_space.Agents.Defs.{TurnState, DriverThreadBinding}

abbrev pub Threads : Type 0
Threads = Dict (String × String) DriverThreadBinding

abbrev pub thread_key : DriverThreadBinding → String × String
thread_key b = (b.workspace_id, b.conversation_ref)

-- the thread of `b` is bound to another conversation of its workspace
unfoldable pub is_taken : DriverThreadBinding → Threads → Bool
is_taken b [] = false
is_taken b ((k, x) ∷ d) =
    ((k.0 == b.workspace_id) && ((x.thread_id == b.thread_id) && not (k == thread_key b)))
    || is_taken b d

unfoldable pub bind_thread : DriverThreadBinding → Exec Threads DriverThreadBinding
bind_thread b d =
    if is_taken b d
    then (d, err (value_error thread_binding_conflict))
    else (insert (thread_key b) b d, ok b)

unfoldable pub get_thread : String → String → Exec Threads (Option DriverThreadBinding)
get_thread w c d = (d, ok (lookup (w, c) d))

abbrev given : Option String → Option String → Option String
given none old = old
given (some a) old = some a

-- the fields of `set_turn_state` that are given
abbrev turned :
    TurnState → Option String → Option String → Option ℕ → DriverThreadBinding → DriverThreadBinding
turned state request turn epoch b = record b {
  turn_state = state;
  active_request_id = given request b.active_request_id;
  last_turn_id = given turn b.last_turn_id;
  driver_epoch = or_else epoch b.driver_epoch;
}

abbrev turned_entry :
    TurnState
    → Option String
    → Option String
    → Option ℕ
    → String
    → Option DriverThreadBinding
    → Exec Threads DriverThreadBinding
turned_entry state request turn epoch c none d = (d, err (key_error c))
turned_entry state request turn epoch c (some b) d =
    bind_thread (turned state request turn epoch b) d

unfoldable pub set_turn_state :
    String
    → String
    → TurnState
    → Option String
    → Option String
    → Option ℕ
    → Exec Threads DriverThreadBinding
set_turn_state w c state request turn epoch d =
    turned_entry state request turn epoch c (lookup (w, c) d) d

-- A thread belongs to one conversation of a workspace.
abbrev pub IsInjective : Threads → Type 0
IsInjective d =
    (j k : String × String) (x y : DriverThreadBinding)
    → lookup j d ≡ some x
    → lookup k d ≡ some y
    → j.0 ≡ k.0
    → x.thread_id ≡ y.thread_id
    → j ≡ k

untaken :
    (b : DriverThreadBinding) (d : Threads) (k : String × String) (y : DriverThreadBinding)
    → is_taken b d ≡ false
    → lookup k d ≡ some y
    → k.0 ≡ b.workspace_id
    → y.thread_id ≡ b.thread_id
    → k ≡ thread_key b
unfolding is_taken lookup
untaken b [] k y t e w s = ground arith
untaken b ((j, x) ∷ d) k y t e w s = ground (
  arith,
  ==_iff j k,
  ==_iff j (thread_key b),
  ==_iff j.0 b.workspace_id,
  ==_iff x.thread_id b.thread_id,
  untaken b d k y,
)

bound :
    (b : DriverThreadBinding) (d : Threads)
    → is_taken b d ≡ false
    → IsInjective d
    → IsInjective (insert (thread_key b) b d)
bound b d t i j k x y p q w s = ground (
  arith,
  ==_iff (thread_key b) j,
  ==_iff (thread_key b) k,
  lookup-insert (thread_key b) j b d,
  lookup-insert (thread_key b) k b d,
  untaken b d k y t,
  untaken b d j x t,
  i j k x y,
)

bind_thread-IsInjective :
    (b : DriverThreadBinding) (d : Threads) → IsInjective d → IsInjective (after (bind_thread b) d)
unfolding bind_thread
bind_thread-IsInjective b d i = by_taken (is_taken b d) refl
  where
    by_taken :
        (t : Bool)
        → is_taken b d ≡ t
        → IsInjective
            (if◌then◌else◌ {A = Threads × Result DriverThreadBinding} t
              (d, err (value_error thread_binding_conflict))
              (insert (thread_key b) b d, ok b)).0
    by_taken true e = i
    by_taken false e = bound b d e i

turned_entry-IsInjective :
    (state : TurnState) (request turn : Option String) (epoch : Option ℕ) (c : String)
    (o : Option DriverThreadBinding) (d : Threads)
    → IsInjective d
    → IsInjective (after (turned_entry state request turn epoch c o) d)
turned_entry-IsInjective state request turn epoch c none d i = i
turned_entry-IsInjective state request turn epoch c (some b) d i =
    bind_thread-IsInjective (turned state request turn epoch b) d i

-- a call that writes the threads
pub data ThreadCall : Type 0 where
  bind : DriverThreadBinding → ThreadCall
  turn :
      (w c : String) (state : TurnState) (request last : Option String) (epoch : Option ℕ)
      → ThreadCall

abbrev pub call_thread : ThreadCall → Threads → Threads
call_thread (bind b) = after (bind_thread b)
call_thread (turn w c state request last epoch) =
    after (set_turn_state w c state request last epoch)

unfoldable pub call_threads : List ThreadCall → Threads → Threads
call_threads [] d = d
call_threads (x ∷ xs) d = call_threads xs (call_thread x d)

call_thread-IsInjective :
    (x : ThreadCall) (d : Threads) → IsInjective d → IsInjective (call_thread x d)
unfolding set_turn_state
call_thread-IsInjective (bind b) d i = bind_thread-IsInjective b d i
call_thread-IsInjective (turn w c state request last epoch) d i =
    turned_entry-IsInjective state request last epoch c (lookup (w, c) d) d i

-- Over any sequence of bindings and turn changes, whether they are carried out or refused, no thread is
-- bound to two conversations of one workspace if none was before.
pub call_threads-IsInjective :
    (xs : List ThreadCall) (d : Threads) → IsInjective d → IsInjective (call_threads xs d)
unfolding call_threads
call_threads-IsInjective [] d i = i
call_threads-IsInjective (x ∷ xs) d i =
    call_threads-IsInjective xs (call_thread x d) (call_thread-IsInjective x d i)
