-- ===== src/Receipts/History.antt =====
-- Histories of calls on the receipts, from any number of callers, each call under the lock of the
-- repository.
use personal_computing_space.Shared.{
  ℕ, String, ◌≡◌, refl, sym, Option, some, List, [], ◌∷◌, ◌==◌, string_eq, pair_eq, ==_iff,
  Bool-cases, inl, inr, ap, ◌∙◌,
}
use personal_computing_space.Shared.Json.{Fields}
use personal_computing_space.Shared.Exec.{after}
use personal_computing_space.Receipts.Defs.{MessageReceipt, Key, ReceiptTable, Repository}
use personal_computing_space.Receipts.Store.{view, IsSynced}
use personal_computing_space.Receipts.View.{view-load, load-IsSynced}
use personal_computing_space.Receipts.Rules.{Decision, Update, fence}
use personal_computing_space.Receipts.Calls.{
  handle, queue_message_receipt, retry_message_receipt, interrupt_message_receipt,
  claim_message_receipt, update_message_receipt, create_or_get_message_receipt, get_message_receipt,
  list_dispatchable_message_receipts, recover_message_receipts_for_driver,
}
use personal_computing_space.Receipts.Handling.{
  KeepsKey, outcome_of, map_option, handle-IsSynced, view-handle,
}
use personal_computing_space.Receipts.Decisions.{
  queue-KeepsKey, retry-KeepsKey, interrupt-KeepsKey, claim-KeepsKey, update-KeepsKey,
}
use personal_computing_space.Receipts.Creation.{create_or_get-Created}
use personal_computing_space.Receipts.Recovery.{view-recover, recover-IsSynced}
use personal_computing_space.Receipts.Dispatch.{view-scan, scan-IsSynced}
use personal_computing_space.Receipts.Follows.{
  Follows, Follows-refl, Follows-trans, queue-Follows, retry-Follows, interrupt-Follows,
  claim-Follows, update-Follows, fence-Follows,
}

-- A call, with the time at which it reads the clock.
pub data Call : Type 0 where
  create : ℕ → Key → String → String → Call
  get : Key → Call
  queue : ℕ → Key → Call
  retry : ℕ → Key → Option Fields → Call
  interrupt : ℕ → Key → Call
  claim : ℕ → Key → String → Option String → Call
  update : ℕ → Key → String → Update → Call
  scan : ℕ → String → Call
  recover : ℕ → String → Call

module _ (T : ReceiptTable) where
  unfoldable pub step : Call → Repository T → Repository T
  step (create now k c prompt) = after (create_or_get_message_receipt T now k c prompt)
  step (get k) = after (get_message_receipt T k)
  step (queue now k) = after (queue_message_receipt T now k)
  step (retry now k reason) = after (retry_message_receipt T now k reason)
  step (interrupt now k) = after (interrupt_message_receipt T now k)
  step (claim now k token c) = after (claim_message_receipt T now k token c)
  step (update now k token u) = after (update_message_receipt T now k token u)
  step (scan now w) = after (list_dispatchable_message_receipts T now w)
  step (recover now w) = after (recover_message_receipts_for_driver T now w)

  unfoldable pub run : List Call → Repository T → Repository T
  run [] s = s
  run (c ∷ cs) s = run cs (step c s)

  pub step-IsSynced : (c : Call) (s : Repository T) → IsSynced T s → IsSynced T (step c s)
  unfolding step
  step-IsSynced (create now k c prompt) s v = (create_or_get-Created T s v now k c prompt).synced
  step-IsSynced (get k) s v = load-IsSynced T s k v
  step-IsSynced (queue now k) s v = handle-IsSynced T s v k _ (queue-KeepsKey now)
  step-IsSynced (retry now k reason) s v = handle-IsSynced T s v k _ (retry-KeepsKey now reason)
  step-IsSynced (interrupt now k) s v = handle-IsSynced T s v k _ (interrupt-KeepsKey now)
  step-IsSynced (claim now k token c) s v = handle-IsSynced T s v k _ (claim-KeepsKey now token c)
  step-IsSynced (update now k token u) s v = handle-IsSynced T s v k _ (update-KeepsKey now token u)
  step-IsSynced (scan now w) s v = scan-IsSynced T s v now w
  step-IsSynced (recover now w) s v = recover-IsSynced T s now w v

  -- The receipt `r` of the key, and the later version of it.
  abbrev Successor : Repository T → Key → MessageReceipt → Type 0
  Successor s' j r = (r' : MessageReceipt) × (view T s' j ≡ some r') × Follows r r'

  handle-Successor :
      (s : Repository T)
      → IsSynced T s
      → (k j : Key) (d : MessageReceipt → Decision) (r : MessageReceipt) → KeepsKey d
      → Follows r (outcome_of (d r) r)
      → view T s j ≡ some r
      → Successor (after (handle T k d) s) j r
  handle-Successor s v k j d r keeps f h = elim (Bool-cases (k == j)) [
    | inl e ↦ (outcome_of (d r) r, view-handle T s v k d keeps j ∙ rw (e, h) refl, f)
    | inr e ↦ (r, view-handle T s v k d keeps j ∙ rw (e, h) refl, Follows-refl r)
  ]

  -- a creation leaves a receipt that is there
  pub create_keeps :
      (s : Repository T)
      → IsSynced T s
      → (now : ℕ) (k j : Key) (c prompt : String) (r : MessageReceipt) → view T s j ≡ some r
      → view T (after (create_or_get_message_receipt T now k c prompt) s) j ≡ some r
  create_keeps s v now k j c prompt r h =
      let made = create_or_get-Created T s v now k c prompt in
      elim (Bool-cases (k == j)) [
        | inl e ↦
            let same = (==_iff k j).0 e in
            let kept = (made.kept r (ap (view T s) same ∙ h)).0 in
            ap (view T made_state) (sym same) ∙ made.stored ∙ ap some kept
        | inr e ↦ made.others j e ∙ h
      ]
    where
      made_state : Repository T
      made_state = after (create_or_get_message_receipt T now k c prompt) s

  step-Successor :
      (c : Call) (s : Repository T) (j : Key) (r : MessageReceipt)
      → IsSynced T s
      → view T s j ≡ some r
      → Successor (step c s) j r
  unfolding step
  step-Successor (create now k c prompt) s j r v h =
      (r, create_keeps s v now k j c prompt r h, Follows-refl r)
  step-Successor (get k) s j r v h = (r, view-load T s k j ∙ h, Follows-refl r)
  step-Successor (queue now k) s j r v h =
      handle-Successor s v k j _ r (queue-KeepsKey now) (queue-Follows now r) h
  step-Successor (retry now k reason) s j r v h =
      handle-Successor s v k j _ r (retry-KeepsKey now reason) (retry-Follows now r reason) h
  step-Successor (interrupt now k) s j r v h =
      handle-Successor s v k j _ r (interrupt-KeepsKey now) (interrupt-Follows now r) h
  step-Successor (claim now k token c) s j r v h =
      handle-Successor s v k j _ r (claim-KeepsKey now token c) (claim-Follows now r token c) h
  step-Successor (update now k token u) s j r v h =
      handle-Successor s v k j _ r (update-KeepsKey now token u) (update-Follows now r token u) h
  step-Successor (scan now w) s j r v h = (r, view-scan T s v now w j ∙ h, Follows-refl r)
  step-Successor (recover now w) s j r v h = (
    fence now w r,
    view-recover T s now w v j ∙ ap (map_option (fence now w)) h,
    fence-Follows now r w,
  )

  -- Whatever the calls, a stored receipt stays stored under its key: it keeps its message, its number
  -- of attempts never falls, and once it is completed, failed or interrupted it never changes.
  pub run-Follows :
      (cs : List Call) (s : Repository T) (j : Key) (r : MessageReceipt)
      → IsSynced T s
      → view T s j ≡ some r
      → (r' : MessageReceipt) × (view T (run cs s) j ≡ some r') × Follows r r'
  unfolding run
  run-Follows [] s j r v h = (r, h, Follows-refl r)
  run-Follows (c ∷ cs) s j r v h =
      let (r', h', f) = step-Successor c s j r v h in
      let (r'', h'', g) = run-Follows cs (step c s) j r' (step-IsSynced c s v) h' in
      (r'', h'', Follows-trans f g)
