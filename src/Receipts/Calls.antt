-- ===== src/Receipts/Calls.antt =====
-- The calls on message receipts. Each loads a receipt, decides on it as the method's conditions do,
-- and returns it, raises, or persists a copy with changed fields and returns that.
use personal_computing_space.Shared.{
  ℕ, ◌+◌, ◌*◌, ◌^◌, min, max, String, Bool, true, false, not, ◌&&◌, ◌||◌, Option, none, some, List,
  [], ◌∷◌, ◌==◌, if◌then◌else◌, leb, or_else, string_eq, option_eq,
}
use personal_computing_space.Shared.Dict.{values}
use personal_computing_space.Shared.Lists.{keep, length}
use personal_computing_space.Shared.Json.{Fields}
use personal_computing_space.Shared.Exec.{
  Exec, ok, err, Error, Code, value_error, integrity_error, request_id_reused, receipt_terminal,
  stale_claim_token, invalid_receipt_transition, pure, throw, raise, after, reply, ◌>>=◌, ◌>>◌,
}
use personal_computing_space.Receipts.Defs.{MessageReceipt, Key, ReceiptTable, Repository}
use personal_computing_space.Receipts.Store.{
  cached, load_message_receipt, persist_message_receipt, require_message_receipt,
}
use personal_computing_space.Receipts.Rules.{
  Decision, returns, raises, saves, Update, is_dispatchable, queue_decision, retry_decision,
  interrupt_decision, claim_decision, update_decision, released, other_message, fresh_receipt,
  in_workspace, dispatchable, fenced, is_claimed_in, fence_entries, map_fenced,
}

module _ (T : ReceiptTable) where
  -- await self._persist_message_receipt(updated); return updated
  abbrev pub save : MessageReceipt → Exec (Repository T) MessageReceipt
  save r = do persist_message_receipt T r; pure r

  unfoldable pub act : Decision → MessageReceipt → Exec (Repository T) MessageReceipt
  act returns r = pure r
  act (raises c) r = raise c
  act (saves r') r = save r'

  unfoldable pub handle : Key → (MessageReceipt → Decision) → Exec (Repository T) MessageReceipt
  unfolding act
  handle k d = do r ← require_message_receipt T k; act (d r) r

  abbrev pub queue_message_receipt : ℕ → Key → Exec (Repository T) MessageReceipt
  queue_message_receipt now k = handle k (queue_decision now)

  abbrev pub retry_message_receipt : ℕ → Key → Option Fields → Exec (Repository T) MessageReceipt
  retry_message_receipt now k reason = handle k (retry_decision now reason)

  abbrev pub interrupt_message_receipt : ℕ → Key → Exec (Repository T) MessageReceipt
  interrupt_message_receipt now k = handle k (interrupt_decision now)

  abbrev pub claim_message_receipt :
      ℕ → Key → String → Option String → Exec (Repository T) MessageReceipt
  claim_message_receipt now k token conversation = handle k (claim_decision now token conversation)

  abbrev pub update_message_receipt : ℕ → Key → String → Update → Exec (Repository T) MessageReceipt
  update_message_receipt now k token u = handle k (update_decision now token u)

  abbrev pub release_message_receipt : ℕ → Key → String → Exec (Repository T) MessageReceipt
  release_message_receipt now k token = update_message_receipt now k token released

  abbrev pub existing_or_raise :
      String → String → MessageReceipt → Exec (Repository T) MessageReceipt
  existing_or_raise conversation prompt r =
      if other_message conversation prompt r then raise request_id_reused else pure r

  -- except IntegrityError: load the receipt of the process that won the race
  unfoldable pub lost_race : Key → String → String → Exec (Repository T) MessageReceipt
  lost_race k conversation prompt = do
    existing ← load_message_receipt T k
    elim existing [
      | none ↦ throw integrity_error
      | some r ↦ existing_or_raise conversation prompt r
    ]

  abbrev pub catch_conflict :
      Exec (Repository T) MessageReceipt
      → Repository T × (personal_computing_space.Shared.Exec.Result MessageReceipt)
      → Repository T × (personal_computing_space.Shared.Exec.Result MessageReceipt)
  catch_conflict handler (s, ok r) = (s, ok r)
  catch_conflict handler (s, err integrity_error) = handler s
  catch_conflict handler (s, err e) = (s, err e)

  unfoldable pub create_or_get_message_receipt :
      ℕ → Key → String → String → Exec (Repository T) MessageReceipt
  unfolding lost_race
  create_or_get_message_receipt now k conversation prompt = do
    existing ← load_message_receipt T k
    elim existing [
      | some r ↦ existing_or_raise conversation prompt r
      | none ↦ λ s.
          catch_conflict (lost_race k conversation prompt)
            (save (fresh_receipt now k conversation prompt) s)
    ]

  abbrev pub get_message_receipt : Key → Exec (Repository T) (Option MessageReceipt)
  get_message_receipt k = load_message_receipt T k

  -- The rows of a scan are put in the cache, in order.
  abbrev pub cache_all : List MessageReceipt → Repository T → Repository T
  cache_all [] s = s
  cache_all (r ∷ rs) s = cache_all rs (cached T r s)

  unfoldable pub list_dispatchable_message_receipts :
      ℕ → String → Exec (Repository T) (List MessageReceipt)
  list_dispatchable_message_receipts now w s = elim s.sessions [
    | none ↦ (s, ok (keep (dispatchable now w) (values s.message_receipts)))
    | some rows ↦
        let receipts = T.select rows (λ r. in_workspace w r && is_dispatchable r.state) in
        (cache_all receipts s, ok (keep (dispatchable now w) receipts))
  ]

  -- The loop over the selected rows: each is written, and put in the cache after the commit.
  abbrev pub fence_rows : ℕ → List MessageReceipt → T.Rows → T.Rows
  fence_rows now [] rows = rows
  fence_rows now (r ∷ rs) rows = fence_rows now rs (T.update rows (fenced now r))

  unfoldable pub recover_message_receipts_for_driver : ℕ → String → Exec (Repository T) ℕ
  recover_message_receipts_for_driver now w s = elim s.sessions [
    | none ↦ (
      record s { message_receipts = fence_entries now w s.message_receipts },
      ok (length (keep (is_claimed_in w) (values s.message_receipts))),
    )
    | some rows ↦
        let claimed = T.select rows (is_claimed_in w) in
        (
          cache_all (map_fenced now claimed)
              (record s { sessions = some (fence_rows now claimed rows) }),
          ok (length claimed),
        )
  ]
