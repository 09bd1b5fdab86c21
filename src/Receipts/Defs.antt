-- ===== src/Receipts/Defs.antt =====
-- The record of a message receipt, the database table that holds the receipts, and the part of the
-- repository's state that the calls on receipts read and write.
use personal_computing_space.Shared.{
  ℕ, String, ◌≡◌, ◌↔◌, Bool, true, false, Option, some, List, ◌==◌, if◌then◌else◌, string_eq,
  pair_eq,
}
use personal_computing_space.Shared.Dict.{Dict}
use personal_computing_space.Shared.Json.{Json}
use personal_computing_space.Shared.Lists.{In}

-- MessageReceiptState
pub data ReceiptState : Type 0 where
  accepted queued in_flight completed retryable failed interrupted : ReceiptState

abbrev pub state_beq : ReceiptState → ReceiptState → Bool
state_beq accepted accepted = true
state_beq queued queued = true
state_beq in_flight in_flight = true
state_beq completed completed = true
state_beq retryable retryable = true
state_beq failed failed = true
state_beq interrupted interrupted = true
state_beq _ _ = false

pub record MessageReceipt : Type 0 where
  pub workspace_id : String
  pub request_id : String
  pub conversation_ref : String
  pub prompt : String
  pub state : ReceiptState
  pub run_id : Option String
  pub assistant_text : Option String
  pub outcome : Option Json
  pub claim_token : Option String
  pub attempt_count : ℕ
  pub next_attempt_at : Option ℕ
  pub created_at : ℕ
  pub updated_at : ℕ

-- (workspace_id, request_id)
abbrev pub Key : Type 0
Key = String × String

abbrev pub key : MessageReceipt → Key
key r = (r.workspace_id, r.request_id)

-- An insert of a row commits, or loses the race for its primary key to the row of another process.
pub data Added (Rows : Type 0) : Type 0 where
  added : Rows → Added Rows
  conflict : Rows → MessageReceipt → Added Rows

-- The table `MessageReceiptRow`, as the sessions of the database answer for it.
pub record ReceiptTable : Type 1 where
  pub Rows : Type 0
  pub get : Rows → Key → Option MessageReceipt
  pub add : Rows → MessageReceipt → Added Rows
  pub update : Rows → MessageReceipt → Rows
  pub select : Rows → (MessageReceipt → Bool) → List MessageReceipt
  pub get-add :
      (rows rows' : Rows) (r : MessageReceipt) (k : Key)
      → add rows r ≡ added rows'
      → get rows' k ≡ (if key r == k then some r else get rows k)
  pub get-conflict :
      (rows rows' : Rows) (r winner : MessageReceipt) (k : Key)
      → add rows r ≡ conflict rows' winner
      → get rows' k ≡ (if key r == k then some winner else get rows k)
  pub get-update :
      (rows : Rows) (r : MessageReceipt) (k : Key)
      → get (update rows r) k ≡ (if key r == k then some r else get rows k)
  pub get-key : (rows : Rows) (k : Key) (r : MessageReceipt) → get rows k ≡ some r → key r ≡ k
  pub select_iff :
      (rows : Rows) (p : MessageReceipt → Bool) (r : MessageReceipt)
      → In r (select rows p) ↔ ((get rows (key r) ≡ some r) × (p r ≡ true))

-- An entry of `message_receipt_events`.
pub record ReceiptEvent : Type 0 where
  pub workspace_id : String
  pub conversation_ref : String
  pub request_id : String
  pub state : ReceiptState
  pub created_at : ℕ

module _ (T : ReceiptTable) where
  -- The attributes `message_receipts`, `sessions` and `message_receipt_events`.
  pub record Repository : Type 0 where
    pub message_receipts : Dict Key MessageReceipt
    pub sessions : Option T.Rows
    pub message_receipt_events : List ReceiptEvent
