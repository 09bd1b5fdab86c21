-- ===== src/Receipts/Recovery.antt =====
-- Recovery: the claims of an earlier Driver epoch are fenced, in the cache and in the table.
use personal_computing_space.Shared.{
  ℕ, String, ◌≡◌, refl, sym, Bool, true, false, Option, none, some, List, [], ◌∷◌, arith, ◌==◌,
  if◌then◌else◌, string_eq, pair_eq, ==_iff, Option-cases, Bool-cases, inl, inr, ap, ◌∙◌,
}
use personal_computing_space.Shared.Dict.{Dict, lookup, lookup-insert}
use personal_computing_space.Shared.Lists.{In, any}
use personal_computing_space.Shared.Exec.{after}
use personal_computing_space.Receipts.Defs.{MessageReceipt, Key, key, ReceiptTable, Repository}
use personal_computing_space.Receipts.Store.{cached, view, IsSynced}
use personal_computing_space.Receipts.Rules.{
  fenced, fence, is_claimed_in, fence_entries, map_fenced,
}
use personal_computing_space.Receipts.Calls.{
  cache_all, fence_rows, recover_message_receipts_for_driver,
}
use personal_computing_space.Receipts.Handling.{map_option}

-- A row of the key is in the list.
abbrev pub has_key : Key → List MessageReceipt → Bool
has_key j = any (λ r. key r == j)

lookup-fence_entries :
    (now : ℕ) (w : String) (d : Dict Key MessageReceipt) (j : Key)
    → lookup j (fence_entries now w d) ≡ map_option (fence now w) (lookup j d)
unfolding lookup
lookup-fence_entries now w [] j = refl
lookup-fence_entries now w ((k, r) ∷ d) j = ground (arith, lookup-fence_entries now w d j)

module _ (T : ReceiptTable) (now : ℕ) (before : T.Rows) where
  -- Every row of the list is what the table `before` holds.
  abbrev AreRows : List MessageReceipt → Type 0
  AreRows rs = (r : MessageReceipt) → In r rs → T.get before (key r) ≡ some r

  get-fence_rows :
      (rs : List MessageReceipt) (rows : T.Rows) (j : Key)
      → AreRows rs
      → T.get (fence_rows T now rs rows) j
        ≡ (if has_key j rs then map_option (fenced now) (T.get before j) else T.get rows j)
  get-fence_rows [] rows j h = refl
  get-fence_rows (r ∷ rs) rows j h = ground (
    arith,
    get-fence_rows rs (T.update rows (fenced now r)) j (λ r' m. h r' (inr m)),
    T.get-update rows (fenced now r) j,
    ==_iff (key r) j,
    h r (inl refl),
  )

  cached-cache_all :
      (rs : List MessageReceipt) (s : Repository T) (j : Key)
      → AreRows rs
      → lookup j (cache_all T (map_fenced now rs) s).message_receipts ≡ (
          if has_key j rs
          then map_option (fenced now) (T.get before j)
          else lookup j s.message_receipts)
  cached-cache_all [] s j h = refl
  cached-cache_all (r ∷ rs) s j h = ground (
    arith,
    cached-cache_all rs (cached T (fenced now r) s) j (λ r' m. h r' (inr m)),
    lookup-insert (key r) j (fenced now r) s.message_receipts,
    ==_iff (key r) j,
    h r (inl refl),
  )

  sessions-cache_all :
      (rs : List MessageReceipt) (s : Repository T)
      → (cache_all T (map_fenced now rs) s).sessions ≡ s.sessions
  sessions-cache_all [] s = refl
  sessions-cache_all (r ∷ rs) s = sessions-cache_all rs (cached T (fenced now r) s)

pub any-In :
    (p : MessageReceipt → Bool) (rs : List MessageReceipt)
    → any p rs ≡ true
    → (r : MessageReceipt) × In r rs × (p r ≡ true)
any-In p [] h = cc
any-In p (r ∷ rs) h = elim (Bool-cases (p r)) [
  | inl e ↦ (r, inl refl, e)
  | inr e ↦ let (r', m, e') = any-In p rs (rw e at h) in (r', inr m, e')
]

pub In-any :
    (p : MessageReceipt → Bool) (r : MessageReceipt) (rs : List MessageReceipt)
    → p r ≡ true
    → In r rs
    → any p rs ≡ true
In-any p r [] h m = elim m [ ]
In-any p r (x ∷ rs) h (inl e) = ground (arith, ap p e)
In-any p r (x ∷ rs) h (inr m) = ground (arith, In-any p r rs h m)

-- The row is in flight in the workspace.
abbrev claimed_row : String → Option MessageReceipt → Bool
claimed_row w none = false
claimed_row w (some r) = is_claimed_in w r

module _ (T : ReceiptTable) (w : String) (rows : T.Rows) (j : Key) where
  selected_row :
      (r : MessageReceipt)
      → In r (T.select rows (is_claimed_in w))
      → (key r == j) ≡ true
      → claimed_row w (T.get rows j) ≡ true
  selected_row r m e =
      let (stored, claimed) = (T.select_iff rows (is_claimed_in w) r).0 m in
      let same = (==_iff (key r) j).0 e in rw (← same, stored) claimed

  row_selected :
      (r : MessageReceipt)
      → T.get rows j ≡ some r
      → is_claimed_in w r ≡ true
      → has_key j (T.select rows (is_claimed_in w)) ≡ true
  row_selected r e h =
      let own = T.get-key rows j r e in
      In-any (λ r. key r == j) r (T.select rows (is_claimed_in w)) ((==_iff (key r) j).1 own)
        ((T.select_iff rows (is_claimed_in w) r).1 (ap (T.get rows) own ∙ e, h))

  has_key-select : has_key j (T.select rows (is_claimed_in w)) ≡ claimed_row w (T.get rows j)
  has_key-select = elim (Bool-cases (has_key j (T.select rows (is_claimed_in w)))) [
    | inl e ↦
        let (r, m, same) = any-In (λ r. key r == j) (T.select rows (is_claimed_in w)) e in
        e ∙ sym (selected_row r m same)
    | inr e ↦ elim (Option-cases (T.get rows j)) [
      | inl q ↦ rw q e
      | inr (r, q) ↦ elim (Bool-cases (is_claimed_in w r)) [
        | inl c ↦ absurd (cc (row_selected r q c))
        | inr c ↦ rw q (e ∙ sym c)
      ]
    ]
  ]

module _ (T : ReceiptTable) (s : Repository T) (now : ℕ) (w : String) (v : IsSynced T s) where
  AreRows-select : (rows : T.Rows) → AreRows T now rows (T.select rows (is_claimed_in w))
  AreRows-select rows r m = ((T.select_iff rows (is_claimed_in w) r).0 m).0

  module _ (rows : T.Rows) (e : s.sessions ≡ some rows) (j : Key) where
    cached-recover :
        lookup j (after (recover_message_receipts_for_driver T now w) s).message_receipts ≡ (
          if claimed_row w (T.get rows j)
          then map_option (fenced now) (T.get rows j)
          else lookup j s.message_receipts)
    cached-recover =
        unfold recover_message_receipts_for_driver in
        let claimed = T.select rows (is_claimed_in w) in
        let s' : Repository T = record s { sessions = some (fence_rows T now claimed rows) } in
        rw (e, ← has_key-select T w rows j)
          (cached-cache_all T now rows claimed s' j (AreRows-select rows))

    sessions-recover :
        (after (recover_message_receipts_for_driver T now w) s).sessions
        ≡ some (fence_rows T now (T.select rows (is_claimed_in w)) rows)
    sessions-recover =
        unfold recover_message_receipts_for_driver in
        let claimed = T.select rows (is_claimed_in w) in
        let s' : Repository T = record s { sessions = some (fence_rows T now claimed rows) } in
        rw e (sessions-cache_all T now rows claimed s')

    stored-recover : T.get (fence_rows T now (T.select rows (is_claimed_in w)) rows) j ≡ (
        if claimed_row w (T.get rows j)
        then map_option (fenced now) (T.get rows j)
        else T.get rows j)
    stored-recover =
        rw (← has_key-select T w rows j)
          (get-fence_rows T now rows (T.select rows (is_claimed_in w)) rows j (AreRows-select rows))

    view-recover_table :
        view T (after (recover_message_receipts_for_driver T now w) s) j
        ≡ map_option (fence now w) (view T s j)
    view-recover_table = elim (Option-cases (lookup j s.message_receipts)) [
      | inl q ↦ unfold view in ground (arith, cached-recover, sessions-recover, stored-recover)
      | inr (r, q) ↦
          unfold view in
          ground (arith, cached-recover, sessions-recover, stored-recover, v.written rows j r e q)
    ]

  -- After the recovery each receipt of the workspace that was in flight is retryable and unclaimed,
  -- and every other receipt is as it was.
  pub view-recover :
      (j : Key)
      → view T (after (recover_message_receipts_for_driver T now w) s) j
        ≡ map_option (fence now w) (view T s j)
  view-recover j = elim (Option-cases s.sessions) [
    | inl e ↦
        unfold recover_message_receipts_for_driver view in
        ground (arith, lookup-fence_entries now w s.message_receipts j)
    | inr (rows, e) ↦ view-recover_table rows e j
  ]

  module _ (e : s.sessions ≡ none) (k : Key) (r : MessageReceipt) where
    keyed-memory :
        lookup k (after (recover_message_receipts_for_driver T now w) s).message_receipts ≡ some r
        → key r ≡ k
    keyed-memory h = elim (Option-cases (lookup k s.message_receipts)) [
      | inl q ↦
          unfold recover_message_receipts_for_driver in
          ground (arith, lookup-fence_entries now w s.message_receipts k)
      | inr (old, q) ↦
          unfold recover_message_receipts_for_driver in
          ground (arith, lookup-fence_entries now w s.message_receipts k, v.keyed k old q)
    ]

    written-memory :
        (rows : T.Rows)
        → (after (recover_message_receipts_for_driver T now w) s).sessions ≡ some rows
        → T.get rows k ≡ some r
    written-memory rows h = unfold recover_message_receipts_for_driver in ground arith

  module _ (rows : T.Rows) (e : s.sessions ≡ some rows) (k : Key) (r : MessageReceipt)
      (h : lookup k (after (recover_message_receipts_for_driver T now w) s).message_receipts
        ≡ some r) where
    keyed-table : key r ≡ k
    keyed-table = elim (Option-cases (T.get rows k)) [
      | inl q ↦ ground (arith, cached-recover rows e k, v.keyed k r)
      | inr (old, q) ↦ ground (arith, cached-recover rows e k, v.keyed k r, T.get-key rows k old q)
    ]

    written-table :
        (rows' : T.Rows)
        → (after (recover_message_receipts_for_driver T now w) s).sessions ≡ some rows'
        → T.get rows' k ≡ some r
    written-table rows' p = ground (
      arith,
      cached-recover rows e k,
      sessions-recover rows e k,
      stored-recover rows e k,
      v.written rows k r e,
    )

  pub recover-IsSynced : IsSynced T (after (recover_message_receipts_for_driver T now w) s)
  recover-IsSynced = elim (Option-cases s.sessions) [
    | inl e ↦ record {
      keyed = λ k r h. keyed-memory e k r h;
      written = λ rows k r q h. written-memory e k r rows q;
    }
    | inr (rows, e) ↦ record {
      keyed = λ k r h. keyed-table rows e k r h;
      written = λ rows' k r q h. written-table rows e k r h rows' q;
    }
  ]
