-- ===== src/Receipts/Tests.antt =====
-- Concrete runs of the receipts: a table in memory for the parameter, and each theorem at an input.
mod Table
use personal_computing_space.Shared.{
  ℕ, String, ◌⊎◌, ◌++◌, inl, inr, ◌≡◌, refl, Bool, true, false, Option, none, some, List, [], ◌∷◌,
  arith, ◌==◌, if◌then◌else◌, string_eq, pair_eq, ==_iff, string_beq, pair_beq,
}
use personal_computing_space.Shared.Dict.{lookup}
use personal_computing_space.Shared.Exec.{
  request_id_reused, Result, ok, err, value_error, stale_claim_token, after, reply,
}
use personal_computing_space.Receipts.Defs.{
  conflict, ReceiptState, accepted, in_flight, completed, MessageReceipt, Key, key, Repository,
}
use personal_computing_space.Receipts.Store.{
  view, IsSynced, receipt_event, load_message_receipt, persist_message_receipt,
}
use personal_computing_space.Receipts.Rules.{
  is_terminal, fresh_receipt, fenced, fence, retry_delay, claim_decision, dispatchable, Update,
  is_claimed_in,
}
use personal_computing_space.Receipts.Calls.{
  handle, claim_message_receipt, update_message_receipt, create_or_get_message_receipt,
  recover_message_receipts_for_driver,
}
use personal_computing_space.Receipts.Handling.{Handled, handle-Handled}
use personal_computing_space.Receipts.Decisions.{IsValid, claim-KeepsKey, retry_delay_exact}
use personal_computing_space.Receipts.Creation.{Created, create_or_get-Created, offered}
use personal_computing_space.Receipts.Fenced.{AllClaimOther}
use personal_computing_space.Receipts.History.{
  Call, create, claim, update, recover, queue, scan, run, run-Follows,
}
use personal_computing_space.Receipts.Follows.{Follows}
use personal_computing_space.Receipts.Validity.{run-IsValid, AllValid, AllHaveTokens}
use personal_computing_space.Receipts.Claims.{claim_race, recover_fences, create_again}
use Table.{
  memory_table, contested_table, contested-IsValid, add_contested, add_row, update_row, get_row,
}

abbrev k1 : Key
k1 = ("ws", "m1")

abbrev waiting : MessageReceipt
waiting = fresh_receipt 10 k1 "c1" "hello"

abbrev taken : MessageReceipt
taken = record waiting {
  state = in_flight;
  claim_token = some "old";
  attempt_count = 1;
  next_attempt_at = none;
}

abbrev stored : MessageReceipt → Repository memory_table
stored r = record { message_receipts = []; sessions = some (r ∷ []); message_receipt_events = [] }

stored-IsSynced : (r : MessageReceipt) → IsSynced memory_table (stored r)
unfolding lookup
stored-IsSynced r = record {
  keyed = λ k x h. absurd (ground arith);
  written = λ rows k x e h. absurd (ground arith);
}

view-stored : (r : MessageReceipt) → view memory_table (stored r) (key r) ≡ some r
unfolding view lookup get_row
view-stored r = ground (arith, ==_iff (key r) (key r))

abbrev claimed_a : MessageReceipt
claimed_a = record waiting {
  state = in_flight;
  claim_token = some "a";
  attempt_count = 1;
  next_attempt_at = none;
  updated_at = 20;
}

abbrev finish : Update
finish = record {
  state = some completed;
  assistant_text = some "hi";
  run_id = none;
  outcome = none;
}

-- One request, claimed, recovered and claimed again, and completed.
abbrev script : List Call
script =
    create 11 k1 "c1" "hello"
    ∷ scan 12 "ws"
    ∷ queue 13 k1
    ∷ claim 14 k1 "a" none
    ∷ recover 15 "ws"
    ∷ claim 16 k1 "b" (some "c1")
    ∷ update 17 k1 "b" finish
    ∷ []

claim_race_example :
    let claim_a = claim_message_receipt memory_table 20 k1 "a" (some "c1") in
    let claim_b = claim_message_receipt memory_table 30 k1 "b" (some "c1") in
    let s' = after claim_a (stored waiting) in
    (reply claim_a (stored waiting) ≡ ok claimed_a)
    × (reply claim_b s' ≡ ok claimed_a)
    × ((j : Key)
        → view memory_table (after claim_b s') j
          ≡ (if k1 == j then some claimed_a else view memory_table (stored waiting) j))
    × ((after claim_b s').message_receipt_events
        ≡ (stored waiting).message_receipt_events ++ receipt_event claimed_a ∷ [])
claim_race_example =
    claim_race memory_table (stored waiting) (stored-IsSynced waiting) k1 waiting
      (view-stored waiting) 20 30 "a" "b" (some "c1") (some "c1") refl (inr refl) (inr refl)

taken_in_ws : is_claimed_in "ws" taken ≡ true
unfolding string_beq
taken_in_ws = refl

-- another Driver claims the receipt after the recovery
abbrev taken_over : List Call
taken_over = scan 21 "ws" ∷ claim 22 k1 "new" (some "c1") ∷ []

taken_over_other : AllClaimOther "old" taken_over
unfolding string_beq
taken_over_other = (tt, (refl, tt))

recover_fences_example :
    let s' =
      run memory_table taken_over
        (after (recover_message_receipts_for_driver memory_table 20 "ws") (stored taken)) in
    let late = update_message_receipt memory_table 30 k1 "old" finish in
    (r' : MessageReceipt) × (view memory_table s' k1 ≡ some r')
    × ((j : Key) → view memory_table (after late s') j ≡ view memory_table s' j)
    × ((reply late s' ≡ err (value_error stale_claim_token)) ⊎ (is_terminal r'.state ≡ true))
recover_fences_example =
    recover_fences memory_table (stored taken) (stored-IsSynced taken) k1 taken (view-stored taken)
      20 30 "ws" "old" finish taken_over taken_in_ws taken_over_other

create_again_example :
    let first = create_or_get_message_receipt memory_table 20 k1 "c1" "hello" in
    let second = create_or_get_message_receipt memory_table 30 k1 "c1" "bye" in
    let s = stored waiting in
    (r : MessageReceipt) × (view memory_table (after first s) k1 ≡ some r)
    × (reply first s ≡ offered "c1" "hello" r)
    × (reply second (after first s) ≡ offered "c1" "bye" r)
    × ((j : Key)
        → view memory_table (after second (after first s)) j ≡ view memory_table (after first s) j)
create_again_example =
    create_again memory_table (stored waiting) (stored-IsSynced waiting) k1 20 30 "c1" "hello" "c1"
      "bye"

-- a table in which another process is about to create the same request
abbrev contested : Repository contested_table
contested = record {
  message_receipts = [];
  sessions = some ([], some (15, ("c9", "first")));
  message_receipt_events = [];
}

contested-IsSynced : IsSynced contested_table contested
unfolding lookup
contested-IsSynced = record {
  keyed = λ k x h. absurd (ground arith);
  written = λ rows k x e h. absurd (ground arith);
}

lost_to_other :
    reply (create_or_get_message_receipt contested_table 20 k1 "c1" "again") contested
    ≡ err (value_error request_id_reused)
unfolding create_or_get_message_receipt load_message_receipt persist_message_receipt get_row
    add_contested add_row update_row lookup string_beq pair_beq
lost_to_other = refl

create_or_get-Created_example :
    Created contested_table contested 20 k1 "c1" "again"
      (create_or_get_message_receipt contested_table 20 k1 "c1" "again" contested)
create_or_get-Created_example =
    create_or_get-Created contested_table contested contested-IsSynced 20 k1 "c1" "again"

handle-Handled_example :
    Handled memory_table
      (stored waiting)
      k1
      waiting
      (claim_decision 20 "a" none waiting)
      (claim_message_receipt memory_table 20 k1 "a" none (stored waiting))
unfolding handle
handle-Handled_example =
    handle-Handled memory_table (stored waiting) (stored-IsSynced waiting) k1
      (claim_decision 20 "a" none) waiting (claim-KeepsKey 20 "a" none) (view-stored waiting)

retry_delay_exact_example : retry_delay 3 ≡ 2000000
retry_delay_exact_example = retry_delay_exact 3

run-Follows_example :
    (r' : MessageReceipt) × (view memory_table (run memory_table script (stored waiting)) k1
      ≡ some r')
    × Follows waiting r'
run-Follows_example =
    run-Follows memory_table script (stored waiting) k1 waiting (stored-IsSynced waiting)
      (view-stored waiting)

contested-AllValid : AllValid contested_table contested
unfolding view lookup get_row
contested-AllValid j r h = cc

script_tokens : AllHaveTokens script
unfolding string_beq
script_tokens = (tt, (tt, (tt, (refl, (tt, (refl, (tt, tt)))))))

run-IsValid_example : AllValid contested_table (run contested_table script contested)
run-IsValid_example =
    run-IsValid contested_table contested-IsValid script contested contested-IsSynced script_tokens
      contested-AllValid
