-- ===== src/Receipts/View.antt =====
-- What the calls on one receipt see of the cache and the table: the laws of loading and persisting.
use personal_computing_space.Shared.{
  ◌≡◌, none, some, arith, ◌==◌, if◌then◌else◌, string_eq, pair_eq, ==_iff, Option-cases, inl, inr,
  sym, ◌∙◌, [], ◌∷◌, ◌++◌,
}
use personal_computing_space.Shared.Dict.{lookup, lookup-insert}
use personal_computing_space.Shared.Exec.{ok, err, key_error, after, reply}
use personal_computing_space.Receipts.Defs.{
  state_beq, MessageReceipt, Key, key, ReceiptTable, Repository,
}
use personal_computing_space.Receipts.Store.{
  load_message_receipt, persist_message_receipt, require_message_receipt, receipt_event, view,
  IsSynced,
}

module _ (T : ReceiptTable) (s : Repository T) where
  pub reply-load : (k : Key) → reply (load_message_receipt T k) s ≡ ok (view T s k)
  unfolding load_message_receipt view
  reply-load k = ground arith

  pub view-load : (k j : Key) → view T (after (load_message_receipt T k) s) j ≡ view T s j
  unfolding load_message_receipt view
  view-load k j = elim (Option-cases (view T s k)) [
    | inl e ↦ ground arith
    | inr (r, e) ↦ ground (arith, lookup-insert k j r s.message_receipts, ==_iff k j)
  ]

  pub require-missing :
      (k : Key) → view T s k ≡ none → require_message_receipt T k s ≡ (s, err (key_error k.1))
  unfolding require_message_receipt view
  require-missing k h = ground arith

  pub require-found :
      (k : Key) (r : MessageReceipt)
      → view T s k ≡ some r
      → require_message_receipt T k s ≡ (after (load_message_receipt T k) s, ok r)
  unfolding require_message_receipt view
  require-found k r h = ground arith

  pub events-load :
      (k : Key)
      → (after (load_message_receipt T k) s).message_receipt_events ≡ s.message_receipt_events
  unfolding load_message_receipt
  events-load k = ground arith

  -- The key under which a load finds a receipt is the receipt's own.
  pub view-key : IsSynced T s → (k : Key) (r : MessageReceipt) → view T s k ≡ some r → key r ≡ k
  unfolding view
  view-key v k r h = elim (Option-cases s.sessions) [
    | inl e ↦ ground (arith, v.keyed k r)
    | inr (rows, e) ↦ ground (arith, v.keyed k r, T.get-key rows k r)
  ]

  -- With a database, what a load finds is in the table.
  pub table-view :
      IsSynced T s
      → (rows : T.Rows) (k : Key) (r : MessageReceipt) → s.sessions ≡ some rows
      → view T s k ≡ some r
      → T.get rows k ≡ some r
  unfolding view
  table-view v rows k r e h = ground (arith, v.written rows k r)

  cached-load :
      (k j : Key) (r : MessageReceipt)
      → lookup j (after (load_message_receipt T k) s).message_receipts ≡ some r
      → view T s j ≡ some r
  cached-load k j r h = elim (Option-cases (view T s k)) [
    | inl e ↦ unfold load_message_receipt view in ground arith
    | inr (found, e) ↦
        unfold load_message_receipt view in
        ground (arith, lookup-insert k j found s.message_receipts, ==_iff k j)
  ]

  pub sessions-load : (k : Key) → (after (load_message_receipt T k) s).sessions ≡ s.sessions
  unfolding load_message_receipt
  sessions-load k = ground arith

  pub load-IsSynced : (k : Key) → IsSynced T s → IsSynced T (after (load_message_receipt T k) s)
  load-IsSynced k v = record {
    keyed = λ j r h. view-key v j r (cached-load k j r h);
    written =
        λ rows j r e h. table-view v rows j r (sym (sessions-load k) ∙ e) (cached-load k j r h);
  }

  pub reply-persist :
      IsSynced T s
      → (r old : MessageReceipt) → view T s (key r) ≡ some old
      → reply (persist_message_receipt T r) s ≡ ok tt
  unfolding persist_message_receipt
  reply-persist v r old h = elim (Option-cases s.sessions) [
    | inl e ↦ ground arith
    | inr (rows, e) ↦ ground (arith, table-view v rows (key r) old e h)
  ]

  pub view-persist :
      IsSynced T s
      → (r old : MessageReceipt) (j : Key) → view T s (key r) ≡ some old
      → view T (after (persist_message_receipt T r) s) j
        ≡ (if key r == j then some r else view T s j)
  view-persist v r old j h = elim (Option-cases s.sessions) [
    | inl e ↦
        unfold persist_message_receipt view in
        ground (arith, lookup-insert (key r) j r s.message_receipts)
    | inr (rows, e) ↦
        let stored = table-view v rows (key r) old e h in
        unfold persist_message_receipt view in
        ground (arith, stored, lookup-insert (key r) j r s.message_receipts, T.get-update rows r j)
  ]

  pub events-persist :
      IsSynced T s
      → (r old : MessageReceipt) → view T s (key r) ≡ some old
      → (after (persist_message_receipt T r) s).message_receipt_events ≡ (
          if state_beq old.state r.state
          then s.message_receipt_events
          else s.message_receipt_events ++ receipt_event r ∷ [])
  events-persist v r old h = elim (Option-cases s.sessions) [
    | inl e ↦ unfold persist_message_receipt view in ground arith
    | inr (rows, e) ↦
        let stored = table-view v rows (key r) old e h in
        unfold persist_message_receipt view in ground (arith, stored)
  ]

  cached-persist :
      IsSynced T s
      → (r old : MessageReceipt) (j : Key) → view T s (key r) ≡ some old
      → lookup j (after (persist_message_receipt T r) s).message_receipts
        ≡ (if key r == j then some r else lookup j s.message_receipts)
  cached-persist v r old j h = elim (Option-cases s.sessions) [
    | inl e ↦
        unfold persist_message_receipt view in
        ground (arith, lookup-insert (key r) j r s.message_receipts)
    | inr (rows, e) ↦
        let stored = table-view v rows (key r) old e h in
        unfold persist_message_receipt view in
        ground (arith, stored, lookup-insert (key r) j r s.message_receipts)
  ]

  written-persist :
      IsSynced T s
      → (r old : MessageReceipt) (rows : T.Rows) (j : Key) (r' : MessageReceipt)
      → view T s (key r) ≡ some old
      → (after (persist_message_receipt T r) s).sessions ≡ some rows
      → (if key r == j then some r else lookup j s.message_receipts) ≡ some r'
      → T.get rows j ≡ some r'
  written-persist v r old rows j r' h p e = elim (Option-cases s.sessions) [
    | inl q ↦ unfold persist_message_receipt in ground arith
    | inr (before, q) ↦
        let stored = table-view v before (key r) old q h in
        unfold persist_message_receipt in
        ground (arith, stored, v.written before j r', T.get-update before r j)
  ]

  pub persist-IsSynced :
      IsSynced T s
      → (r old : MessageReceipt) → view T s (key r) ≡ some old
      → IsSynced T (after (persist_message_receipt T r) s)
  persist-IsSynced v r old h = record {
    keyed = λ j r' e.
        ground (arith, sym (cached-persist v r old j h) ∙ e, v.keyed j r', ==_iff (key r) j);
    written = λ rows j r' p e.
        written-persist v r old rows j r' h p (sym (cached-persist v r old j h) ∙ e);
  }
