-- ===== src/Receipts/Store.antt =====
-- Loading and persisting one receipt: the cache `message_receipts` in front of the table.
use personal_computing_space.Shared.{
  ◌≡◌, Bool, true, not, Option, none, some, [], ◌∷◌, ◌++◌, if◌then◌else◌, string_eq, pair_eq,
  or_else,
}
use personal_computing_space.Shared.Dict.{lookup, insert}
use personal_computing_space.Shared.Exec.{
  Exec, ok, err, key_error, integrity_error, pure, throw, ◌>>=◌,
}
use personal_computing_space.Receipts.Defs.{
  ReceiptState, state_beq, MessageReceipt, Key, key, added, conflict, ReceiptTable, ReceiptEvent,
  Repository,
}

abbrev pub receipt_event : MessageReceipt → ReceiptEvent
receipt_event r = record {
  workspace_id = r.workspace_id;
  conversation_ref = r.conversation_ref;
  request_id = r.request_id;
  state = r.state;
  created_at = r.updated_at;
}

-- previous_state != receipt.state
abbrev state_changed : Option ReceiptState → ReceiptState → Bool
state_changed none new = true
state_changed (some old) new = not (state_beq old new)

abbrev state_of : Option MessageReceipt → Option ReceiptState
state_of none = none
state_of (some r) = some r.state

module _ (T : ReceiptTable) where
  -- _load_message_receipt
  unfoldable pub load_message_receipt : Key → Exec (Repository T) (Option MessageReceipt)
  load_message_receipt k s = elim (lookup k s.message_receipts) [
    | some r ↦ (s, ok (some r))
    | none ↦ elim s.sessions [
      | none ↦ (s, ok none)
      | some rows ↦ elim (T.get rows k) [
        | none ↦ (s, ok none)
        | some r ↦ (record s { message_receipts = insert k r s.message_receipts }, ok (some r))
      ]
    ]
  ]

  -- _record_message_receipt_event, if the state has changed
  unfoldable pub record_message_receipt_event :
      Option ReceiptState → MessageReceipt → Repository T → Repository T
  record_message_receipt_event previous r s =
      if state_changed previous r.state
      then record s { message_receipt_events = s.message_receipt_events ++ receipt_event r ∷ [] }
      else s

  abbrev pub cached : MessageReceipt → Repository T → Repository T
  cached r s = record s { message_receipts = insert (key r) r s.message_receipts }

  -- The insert of `session.add`, then the assignment to the cache; an `IntegrityError` leaves the
  -- cache as it was.
  unfoldable pub persist_new :
      Option ReceiptState → MessageReceipt → T.Rows → Exec (Repository T) (Unit {0})
  persist_new previous r rows s = elim (T.add rows r) [
    | added rows' ↦ (
      record_message_receipt_event previous r (cached r (record s { sessions = some rows' })),
      ok tt,
    )
    | conflict rows' _ ↦ (record s { sessions = some rows' }, err integrity_error)
  ]

  -- _persist_message_receipt
  unfoldable pub persist_message_receipt : MessageReceipt → Exec (Repository T) (Unit {0})
  unfolding persist_new record_message_receipt_event
  persist_message_receipt r s =
      let previous = state_of (lookup (key r) s.message_receipts) in
      elim s.sessions [
        | none ↦ (record_message_receipt_event previous r (cached r s), ok tt)
        | some rows ↦ elim (T.get rows (key r)) [
          | none ↦ persist_new previous r rows s
          | some row ↦ (
            record_message_receipt_event (some (or_else previous row.state)) r
                (cached r (record s { sessions = some (T.update rows r) })),
            ok tt,
          )
        ]
      ]

  -- `receipt = await self._load_message_receipt(...)`, `if receipt is None: raise KeyError(...)`
  unfoldable pub require_message_receipt : Key → Exec (Repository T) MessageReceipt
  unfolding load_message_receipt
  require_message_receipt k = do
    found ← load_message_receipt k
    elim found [ none ↦ throw (key_error k.1) | some r ↦ pure r ]

  -- What a load of the key answers: the cache, else the table.
  unfoldable pub view : Repository T → Key → Option MessageReceipt
  view s k = elim (lookup k s.message_receipts) [
    | some r ↦ some r
    | none ↦ elim s.sessions [ none ↦ none | some rows ↦ T.get rows k ]
  ]

  -- The cache holds each receipt under its own key, and nothing that the table does not hold.
  pub record IsSynced (s : Repository T) : Type 0 where
    pub keyed : (k : Key) (r : MessageReceipt) → lookup k s.message_receipts ≡ some r → key r ≡ k
    pub written :
        (rows : T.Rows) (k : Key) (r : MessageReceipt)
        → s.sessions ≡ some rows
        → lookup k s.message_receipts ≡ some r
        → T.get rows k ≡ some r
