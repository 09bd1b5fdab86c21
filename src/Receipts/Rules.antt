-- ===== src/Receipts/Rules.antt =====
-- What each call on a receipt decides, as the conditions of its method do: to return the receipt, to
-- raise, or to persist a copy with changed fields.
use personal_computing_space.Shared.{
  ℕ, ◌+◌, ◌*◌, ◌^◌, min, max, String, Bool, true, false, not, ◌&&◌, ◌||◌, Option, none, some, List,
  [], ◌∷◌, ◌==◌, if◌then◌else◌, leb, or_else, string_eq, option_eq,
}
use personal_computing_space.Shared.Json.{Json, Fields, end, field, obj, error_code, error_outcome}
use personal_computing_space.Shared.Exec.{
  Code, request_id_reused, receipt_terminal, stale_claim_token, invalid_receipt_transition,
}
use personal_computing_space.Receipts.Defs.{
  ReceiptState, accepted, queued, in_flight, completed, retryable, failed, interrupted, state_beq,
  MessageReceipt, Key,
}

-- receipt.state in {"completed", "failed", "interrupted"}
abbrev pub is_terminal : ReceiptState → Bool
is_terminal completed = true
is_terminal failed = true
is_terminal interrupted = true
is_terminal _ = false

-- receipt.state in {"accepted", "queued", "retryable"}
abbrev pub is_dispatchable : ReceiptState → Bool
is_dispatchable accepted = true
is_dispatchable queued = true
is_dispatchable retryable = true
is_dispatchable _ = false

pub data Decision : Type 0 where
  returns : Decision
  raises : Code → Decision
  saves : MessageReceipt → Decision

-- bool(receipt.claim_token)
abbrev pub has_token : Option String → Bool
has_token none = false
has_token (some t) = not (t == "")

unfoldable pub queue_decision : ℕ → MessageReceipt → Decision
queue_decision now r =
    if state_beq r.state accepted || state_beq r.state retryable
    then saves (record r { state = queued; updated_at = now })
    else returns

-- min(60.0, max(0.25, 0.25 * (2 ** min(receipt.attempt_count, 8)))), in microseconds
unfoldable pub retry_delay : ℕ → ℕ
retry_delay attempts = min 60000000 (max 250000 (250000 * 2 ^ min attempts 8))

-- reason or {"code": "driver_unavailable"}
abbrev pub retry_reason : Option Fields → Json
retry_reason none = error_code "driver_unavailable"
retry_reason (some end) = error_code "driver_unavailable"
retry_reason (some (field k v fs)) = obj (field k v fs)

unfoldable pub retry_decision : ℕ → Option Fields → MessageReceipt → Decision
retry_decision now reason r =
    if is_terminal r.state || (state_beq r.state in_flight && has_token r.claim_token)
    then returns
    else saves (record r {
      state = retryable;
      next_attempt_at = some (now + retry_delay r.attempt_count);
      updated_at = now;
      outcome = some (error_outcome (retry_reason reason));
    })

unfoldable pub interrupt_decision : ℕ → MessageReceipt → Decision
interrupt_decision now r =
    if is_terminal r.state || state_beq r.state in_flight
    then returns
    else saves (record r {
      state = interrupted;
      claim_token = none;
      next_attempt_at = none;
      updated_at = now;
      outcome = some (error_outcome (error_code "user_interrupt"));
    })

-- conversation_ref is not None and receipt.conversation_ref != conversation_ref
abbrev pub other_conversation : Option String → MessageReceipt → Bool
other_conversation none r = false
other_conversation (some c) r = not (r.conversation_ref == c)

-- The last guard of the method names every state that is left, so it never raises.
unfoldable pub claim_decision : ℕ → String → Option String → MessageReceipt → Decision
claim_decision now token conversation r =
    if other_conversation conversation r
    then raises request_id_reused
    else if is_terminal r.state || state_beq r.state in_flight
    then returns
    else saves (record r {
      state = in_flight;
      claim_token = some token;
      attempt_count = r.attempt_count + 1;
      next_attempt_at = none;
      updated_at = now;
    })

-- The optional arguments of `update_message_receipt`.
pub record Update : Type 0 where
  pub state : Option ReceiptState
  pub assistant_text : Option String
  pub run_id : Option String
  pub outcome : Option Json

-- The new value of a field that is written only when the argument is given.
abbrev pub given {ℓ} : {A : Type ℓ} → Option A → Option A → Option A
given none old = old
given (some a) old = some a

-- state is None or state == receipt.state
abbrev pub same_state : Option ReceiptState → ReceiptState → Bool
same_state none old = true
same_state (some new) old = state_beq new old

-- new_state not in {"accepted", "queued"}
abbrev pub is_update_state : ReceiptState → Bool
is_update_state accepted = false
is_update_state queued = false
is_update_state _ = true

-- new_state in {"completed", "failed", "interrupted", "retryable"}
abbrev pub drops_claim : ReceiptState → Bool
drops_claim in_flight = false
drops_claim _ = true

abbrev pub updated : ℕ → Update → ReceiptState → MessageReceipt → MessageReceipt
updated now u new r = record r {
  state = new;
  updated_at = now;
  assistant_text = given u.assistant_text r.assistant_text;
  run_id = given u.run_id r.run_id;
  outcome = given u.outcome r.outcome;
  claim_token = if drops_claim new then none else r.claim_token;
  next_attempt_at = if state_beq new retryable then some now else r.next_attempt_at;
}

unfoldable pub update_decision : ℕ → String → Update → MessageReceipt → Decision
update_decision now token u r =
    if is_terminal r.state
    then (if same_state u.state r.state then returns else raises receipt_terminal)
    else if not (r.claim_token == some token)
    then raises stale_claim_token
    else let new = or_else u.state r.state in
      if is_update_state new then saves (updated now u new r) else raises invalid_receipt_transition

abbrev pub released : Update
released = record {
  state = some retryable;
  assistant_text = none;
  run_id = none;
  outcome = some (error_outcome (error_code "delivery_released"));
}

-- existing.conversation_ref != conversation_ref or existing.prompt != prompt
abbrev pub other_message : String → String → MessageReceipt → Bool
other_message conversation prompt r =
    not (r.conversation_ref == conversation) || not (r.prompt == prompt)

abbrev pub fresh_receipt : ℕ → Key → String → String → MessageReceipt
fresh_receipt now k conversation prompt = record {
  workspace_id = k.0;
  request_id = k.1;
  conversation_ref = conversation;
  prompt = prompt;
  state = accepted;
  run_id = none;
  assistant_text = none;
  outcome = none;
  claim_token = none;
  attempt_count = 0;
  next_attempt_at = some now;
  created_at = now;
  updated_at = now;
}

abbrev pub in_workspace : String → MessageReceipt → Bool
in_workspace w r = r.workspace_id == w

abbrev pub is_due : ℕ → MessageReceipt → Bool
is_due now r = elim r.next_attempt_at [ none ↦ true | some t ↦ leb t now ]

abbrev pub dispatchable : ℕ → String → MessageReceipt → Bool
dispatchable now w r = in_workspace w r && (is_dispatchable r.state && is_due now r)

-- The receipt that `recover_message_receipts_for_driver` writes back.
abbrev pub fenced : ℕ → MessageReceipt → MessageReceipt
fenced now r = record r {
  state = retryable;
  claim_token = none;
  next_attempt_at = some now;
  updated_at = now;
}

abbrev pub is_claimed_in : String → MessageReceipt → Bool
is_claimed_in w r = in_workspace w r && state_beq r.state in_flight

abbrev pub fence : ℕ → String → MessageReceipt → MessageReceipt
fence now w r = if is_claimed_in w r then fenced now r else r

-- The loop over the cache, which changes entries in place.
abbrev pub fence_entries : ℕ → String → List (Key × MessageReceipt) → List (Key × MessageReceipt)
fence_entries now w [] = []
fence_entries now w ((k, r) ∷ d) = (k, fence now w r) ∷ fence_entries now w d

abbrev pub map_fenced : ℕ → List MessageReceipt → List MessageReceipt
map_fenced now [] = []
map_fenced now (r ∷ rs) = fenced now r ∷ map_fenced now rs
