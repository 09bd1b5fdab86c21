-- ===== src/Receipts/Dispatch.antt =====
-- The scan of the dispatcher: it misses no receipt that is due, and changes no receipt.
use personal_computing_space.Shared.{
  ℕ, String, ◌≡◌, refl, Bool, true, ◌&&◌, none, some, List, [], ◌∷◌, arith, ◌==◌, if◌then◌else◌,
  string_eq, pair_eq, ==_iff, Option-cases, Bool-cases, inl, inr, ap, ◌∙◌, ◌⊎◌, ◌≤◌, sym,
}
use personal_computing_space.Shared.Dict.{Dict, values, lookup, lookup-insert}
use personal_computing_space.Shared.Lists.{In, keep}
use personal_computing_space.Shared.Exec.{after}
use personal_computing_space.Receipts.Defs.{
  accepted, queued, retryable, MessageReceipt, Key, key, ReceiptTable, Repository,
}
use personal_computing_space.Receipts.Store.{view, cached, IsSynced}
use personal_computing_space.Receipts.Rules.{in_workspace, is_dispatchable}
use personal_computing_space.Receipts.Calls.{cache_all, list_dispatchable_message_receipts}
use personal_computing_space.Receipts.Recovery.{has_key, any-In}

pub In-values :
    (k : Key) (r : MessageReceipt) (d : Dict Key MessageReceipt)
    → lookup k d ≡ some r
    → In r (values d)
unfolding lookup
In-values k r [] h = cc
In-values k r ((j, x) ∷ d) h = elim (Bool-cases (j == k)) [
  | inl e ↦ inl (ground arith)
  | inr e ↦ inr (In-values k r d (ground arith))
]

pub In-keep :
    (p : MessageReceipt → Bool) (r : MessageReceipt) (rs : List MessageReceipt)
    → p r ≡ true
    → In r rs
    → In r (keep p rs)
In-keep p r [] h m = elim m [ ]
In-keep p r (x ∷ rs) h (inl e) = rw (e, h) (inl refl)
In-keep p r (x ∷ rs) h (inr m) = elim (Bool-cases (p x)) [
  | inl t ↦ rw t (inr (In-keep p r rs h m))
  | inr f ↦ rw f (In-keep p r rs h m)
]

pub keep-In :
    (p : MessageReceipt → Bool) (r : MessageReceipt) (rs : List MessageReceipt)
    → In r (keep p rs)
    → p r ≡ true
keep-In p r [] m = elim m [ ]
keep-In p r (x ∷ rs) m = elim (Bool-cases (p x)) [
  | inl t ↦ at_head t (keep-In p r rs) (rw t at m)
  | inr f ↦ keep-In p r rs (rw f at m)
]
  where
    at_head : p x ≡ true → (In r (keep p rs) → p r ≡ true) → (x ≡ r) ⊎ In r (keep p rs) → p r ≡ true
    at_head t f (inl e) = ap p (sym e) ∙ t
    at_head t f (inr m) = f m

-- A receipt of the workspace that no Driver has claimed and that is not over, and whose time has come.
pub record IsDue (now : ℕ) (w : String) (r : MessageReceipt) : Type 0 where
  pub workspace : r.workspace_id ≡ w
  pub waits : (r.state ≡ accepted) ⊎ ((r.state ≡ queued) ⊎ (r.state ≡ retryable))
  pub time : (t : ℕ) → r.next_attempt_at ≡ some t → t ≤ now

module _ (T : ReceiptTable) (s : Repository T) (v : IsSynced T s) (now : ℕ) (w : String) where
  module _ (rows : T.Rows) (e : s.sessions ≡ some rows) where
    cached-scan :
        (rs : List MessageReceipt) (t : Repository T) (j : Key)
        → ((r : MessageReceipt) → In r rs → T.get rows (key r) ≡ some r)
        → lookup j (cache_all T rs t).message_receipts
          ≡ (if has_key j rs then T.get rows j else lookup j t.message_receipts)
    cached-scan [] t j h = refl
    cached-scan (r ∷ rs) t j h = ground (
      arith,
      cached-scan rs (cached T r t) j (λ r' m. h r' (inr m)),
      lookup-insert (key r) j r t.message_receipts,
      ==_iff (key r) j,
      h r (inl refl),
    )

    sessions-scan :
        (rs : List MessageReceipt) (t : Repository T) → (cache_all T rs t).sessions ≡ t.sessions
    sessions-scan [] t = refl
    sessions-scan (r ∷ rs) t = sessions-scan rs (cached T r t)

    abbrev selected : List MessageReceipt
    selected = T.select rows (λ r. in_workspace w r && is_dispatchable r.state)

    abbrev scanned : Repository T
    scanned = after (list_dispatchable_message_receipts T now w) s

    scanned_eq : scanned ≡ cache_all T selected s
    unfolding list_dispatchable_message_receipts
    scanned_eq = rw e

    lookup-scanned :
        (j : Key)
        → lookup j scanned.message_receipts
          ≡ (if has_key j selected then T.get rows j else lookup j s.message_receipts)
    lookup-scanned j = rw scanned_eq (
        cached-scan selected s j
          (λ r m. ((T.select_iff rows (λ r. in_workspace w r && is_dispatchable r.state) r).0 m).0))

    sessions-scanned : scanned.sessions ≡ some rows
    sessions-scanned = rw scanned_eq (sessions-scan selected s ∙ e)

    selected_row :
        (j : Key) → has_key j selected ≡ true → (r : MessageReceipt) × (T.get rows j ≡ some r)
    selected_row j h =
        let (r, m, same) = any-In (λ r. key r == j) selected h in
        let stored =
          ((T.select_iff rows (λ r. in_workspace w r && is_dispatchable r.state) r).0 m).0 in
        (r, rw ((==_iff (key r) j).0 same) at stored)

    view-scanned : (j : Key) → view T scanned j ≡ view T s j
    view-scanned j = elim (Bool-cases (has_key j selected)) [
      | inl h ↦
          let (r, stored) = selected_row j h in
          elim (Option-cases (lookup j s.message_receipts)) [
            | inl q ↦ unfold view in ground (arith, lookup-scanned j)
            | inr (old, q) ↦
                unfold view in ground (arith, lookup-scanned j, v.written rows j old e q)
          ]
      | inr h ↦ unfold view in ground (arith, lookup-scanned j, sessions-scanned)
    ]

    scanned-IsSynced : IsSynced T scanned
    scanned-IsSynced = record {
      keyed = λ j r h. ground (arith, lookup-scanned j, T.get-key rows j r, v.keyed j r);
      written =
          λ rows' j r q h. ground (arith, lookup-scanned j, sessions-scanned, v.written rows j r e);
    }

  memory-scan : s.sessions ≡ none → after (list_dispatchable_message_receipts T now w) s ≡ s
  unfolding list_dispatchable_message_receipts
  memory-scan e = ground arith

  pub view-scan :
      (j : Key) → view T (after (list_dispatchable_message_receipts T now w) s) j ≡ view T s j
  view-scan j = elim (Option-cases s.sessions) [
    | inl e ↦ ap (λ t. view T t j) (memory-scan e)
    | inr (rows, e) ↦ view-scanned rows e j
  ]

  pub scan-IsSynced : IsSynced T (after (list_dispatchable_message_receipts T now w) s)
  scan-IsSynced = elim (Option-cases s.sessions) [
    | inl e ↦ rw (memory-scan e) v
    | inr (rows, e) ↦ scanned-IsSynced rows e
  ]
