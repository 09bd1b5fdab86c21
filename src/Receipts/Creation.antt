-- ===== src/Receipts/Creation.antt =====
-- The creation of a receipt: one receipt for a request, whoever inserts it first.
use mathlib.Core.Path.{subst₂}
use personal_computing_space.Shared.{
  ℕ, String, ◌≡◌, refl, sym, false, Option, none, some, arith, ◌==◌, if◌then◌else◌, string_eq,
  pair_eq, ==_iff, Option-cases, inl, inr, ◌∙◌,
}
use personal_computing_space.Shared.Dict.{lookup, lookup-insert, insert}
use personal_computing_space.Shared.Exec.{ok, err, value_error, request_id_reused, Result, after}
use personal_computing_space.Receipts.Defs.{
  key, Added, MessageReceipt, Key, added, conflict, ReceiptTable, Repository,
}
use personal_computing_space.Receipts.Store.{
  load_message_receipt, persist_message_receipt, view, IsSynced,
}
use personal_computing_space.Receipts.View.{view-load, load-IsSynced, sessions-load}
use personal_computing_space.Receipts.Rules.{other_message, fresh_receipt}
use personal_computing_space.Receipts.Calls.{create_or_get_message_receipt}

-- What the caller gets for the receipt that is stored under its request.
abbrev pub offered : String → String → MessageReceipt → Result MessageReceipt
offered c prompt r = if other_message c prompt r then err (value_error request_id_reused) else ok r

module _ (T : ReceiptTable) (s : Repository T) (now : ℕ) (k : Key) (c prompt : String) where
  abbrev created : Repository T × Result MessageReceipt
  created = create_or_get_message_receipt T now k c prompt s

  abbrev fresh : MessageReceipt
  fresh = fresh_receipt now k c prompt

  pub create-found :
      (r : MessageReceipt)
      → view T s k ≡ some r
      → created ≡ (after (load_message_receipt T k) s, offered c prompt r)
  unfolding create_or_get_message_receipt load_message_receipt view
  create-found r h = ground arith

-- Where a new receipt comes from. With no database it is the caller's own; with one, it is the caller's if the
-- insert of it commits, and else the row of the process that was first, which the insert reports; the
-- table is as that insert leaves it.
pub data IsOrigin (T : ReceiptTable) (new r : MessageReceipt)
    : Option T.Rows → Option T.Rows → Type 0 where
  kept_in_memory : r ≡ new → IsOrigin T new r none none
  inserted :
      (rows rows' : T.Rows)
      → T.get rows (key new) ≡ none
      → T.add rows new ≡ added rows'
      → r ≡ new
      → IsOrigin T new r (some rows) (some rows')
  lost :
      (rows rows' : T.Rows)
      → T.get rows (key new) ≡ none
      → T.add rows new ≡ conflict rows' r
      → IsOrigin T new r (some rows) (some rows')

-- A creation answered for the receipt that is stored under the request.
pub record Created (T : ReceiptTable) (s : Repository T) (now : ℕ) (k : Key) (c prompt : String)
    (done : Repository T × Result MessageReceipt) : Type 0 where
  pub receipt : MessageReceipt
  pub synced : IsSynced T done.0
  pub stored : view T done.0 k ≡ some receipt
  pub answer : done.1 ≡ offered c prompt receipt
  pub origin :
      view T s k ≡ none
      → IsOrigin T (fresh_receipt now k c prompt) receipt s.sessions done.0.sessions
  pub kept :
      (r : MessageReceipt) → view T s k ≡ some r → (receipt ≡ r) × (done.0.sessions ≡ s.sessions)
  pub others : (j : Key) → (k == j) ≡ false → view T done.0 j ≡ view T s j

module _ (T : ReceiptTable) (s : Repository T) (v : IsSynced T s) (now : ℕ) (k : Key)
    (c prompt : String) where
  abbrev done : Repository T × Result MessageReceipt
  done = create_or_get_message_receipt T now k c prompt s

  abbrev new : MessageReceipt
  new = fresh_receipt now k c prompt

  offered-new : offered c prompt new ≡ ok new
  offered-new = ground (arith, ==_iff c c, ==_iff prompt prompt)

  found-Created : (r : MessageReceipt) → view T s k ≡ some r → Created T s now k c prompt done
  found-Created r h = rw (create-found T s now k c prompt r h) (record {
    receipt = r;
    synced = load-IsSynced T s k v;
    stored = view-load T s k k ∙ h;
    answer = refl;
    origin = λ h'. absurd (ground arith);
    kept = λ r' h'. (ground arith, sessions-load T s k);
    others = λ j _. view-load T s k j;
  })

  -- The table before and after, if there is one.
  abbrev Grown : MessageReceipt → Option T.Rows → Option T.Rows → Type 0
  Grown r none none = Unit
  Grown r none (some rows') = ⊥
  Grown r (some rows) none = ⊥
  Grown r (some rows) (some rows') =
      (j : Key) → T.get rows' j ≡ (if k == j then some r else T.get rows j)

  -- A receipt that was inserted under the key, in the cache and in the table.
  module _ (r : MessageReceipt) (own : key r ≡ k) (s' : Repository T)
      (cache : s'.message_receipts ≡ insert k r s.message_receipts)
      (table : Grown r s.sessions s'.sessions) where
    cached_lookup :
        (j : Key)
        → lookup j s'.message_receipts ≡ (if k == j then some r else lookup j s.message_receipts)
    cached_lookup j = rw cache (lookup-insert k j r s.message_receipts)

    view-inserted : (j : Key) → view T s' j ≡ (if k == j then some r else view T s j)
    unfolding view
    view-inserted j = go s.sessions s'.sessions refl refl table
      where
        go :
            (old new : Option T.Rows)
            → s.sessions ≡ old
            → s'.sessions ≡ new
            → Grown r old new
            → view T s' j ≡ (if k == j then some r else view T s j)
        go none none p q g = ground (arith, cached_lookup j)
        go none (some rows') p q g = elim g [ ]
        go (some rows) none p q g = elim g [ ]
        go (some rows) (some rows') p q g = ground (arith, cached_lookup j, g j)

    written-inserted :
        (rows' : T.Rows) (j : Key) (r' : MessageReceipt)
        → s'.sessions ≡ some rows'
        → lookup j s'.message_receipts ≡ some r'
        → T.get rows' j ≡ some r'
    written-inserted rows' j r' q h = go s.sessions refl (rw q at table)
      where
        go :
            (old : Option T.Rows)
            → s.sessions ≡ old
            → Grown r old (some rows')
            → T.get rows' j ≡ some r'
        go none p g = elim g [ ]
        go (some rows) p g = ground (arith, cached_lookup j, g j, v.written rows j r' p)

    inserted-IsSynced : IsSynced T s'
    inserted-IsSynced = record {
      keyed = λ j r' h. ground (arith, cached_lookup j, ==_iff k j, v.keyed j r');
      written = λ rows' j r' q h. written-inserted rows' j r' q h;
    }

    inserted-Created :
        (answer : Result MessageReceipt)
        → IsOrigin T new r s.sessions s'.sessions
        → view T s k ≡ none
        → answer ≡ offered c prompt r
        → Created T s now k c prompt (s', answer)
    inserted-Created answer from missing a = record {
      receipt = r;
      synced = inserted-IsSynced;
      stored = ground (arith, view-inserted k, ==_iff k k);
      answer = a;
      origin = λ _. from;
      kept = λ r' h. absurd (ground arith);
      others = λ j h. ground (arith, view-inserted j);
    }

  -- What the insertion of `r` makes of the repository.
  record Inserts (r : MessageReceipt) (old new_rows : Option T.Rows) : Type 0 where
    cache : done.0.message_receipts ≡ insert k r s.message_receipts
    sessions : done.0.sessions ≡ new_rows
    answer : done.1 ≡ offered c prompt r

  Inserts-Created :
      (r : MessageReceipt) (old new_rows : Option T.Rows)
      → key r ≡ k
      → IsOrigin T new r old new_rows
      → view T s k ≡ none
      → s.sessions ≡ old
      → Grown r old new_rows
      → Inserts r old new_rows
      → Created T s now k c prompt done
  Inserts-Created r old new_rows own from missing e grown ins =
      inserted-Created r own done.0 ins.cache (subst₂ (Grown r) (sym e) (sym ins.sessions) grown)
        done.1 (subst₂ (IsOrigin T new r) (sym e) (sym ins.sessions) from) missing ins.answer

  module _ (missing : view T s k ≡ none) where
    memory-Inserts : s.sessions ≡ none → Inserts new none none
    unfolding create_or_get_message_receipt load_message_receipt persist_message_receipt view
    memory-Inserts e = ground (arith, offered-new)

    module _ (rows rows' : T.Rows) (e : s.sessions ≡ some rows) where
      added-Inserts : T.add rows new ≡ added rows' → Inserts new (some rows) (some rows')
      unfolding create_or_get_message_receipt load_message_receipt persist_message_receipt view
      added-Inserts p = ground (arith, offered-new)

      conflict-Inserts :
          (winner : MessageReceipt)
          → T.add rows new ≡ conflict rows' winner
          → Inserts winner (some rows) (some rows')
      unfolding create_or_get_message_receipt load_message_receipt persist_message_receipt view
      conflict-Inserts winner p =
          ground (arith, T.get-conflict rows rows' new winner k p, ==_iff k k)

  absent : (rows : T.Rows) → s.sessions ≡ some rows → view T s k ≡ none → T.get rows k ≡ none
  unfolding view
  absent rows e missing = ground arith

  inserted_row :
      (rows : T.Rows)
      → s.sessions ≡ some rows
      → view T s k ≡ none
      → (a : Added T.Rows) → T.add rows new ≡ a
      → Created T s now k c prompt done
  inserted_row rows e missing (added rows') p =
      Inserts-Created new (some rows) (some rows') refl
        (inserted rows rows' (absent rows e missing) p refl) missing e
        (λ j. T.get-add rows rows' new j p) (added-Inserts missing rows rows' e p)
  inserted_row rows e missing (conflict rows' winner) p =
      let held = λ (j : Key). T.get-conflict rows rows' new winner j p in
      let own : key winner ≡ k = T.get-key rows' k winner (ground (arith, held k, ==_iff k k)) in
      Inserts-Created winner (some rows) (some rows') own
        (lost rows rows' (absent rows e missing) p) missing e held
        (conflict-Inserts missing rows rows' e winner p)

  -- A creation answers for the receipt that is stored under its request: the caller gets it, or
  -- `request_id_reused` if it is another message. A receipt that was there is kept, and the table with it.
  -- A new one is the caller's own, or the row of the process that won the race for the insert; the
  -- table is left as the insert leaves it, the winner's row included. No other receipt changes.
  pub create_or_get-Created : Created T s now k c prompt done
  create_or_get-Created = elim (Option-cases (view T s k)) [
    | inr (r, h) ↦ found-Created r h
    | inl missing ↦ elim (Option-cases s.sessions) [
      | inl e ↦
          Inserts-Created new none none refl (kept_in_memory refl) missing e tt
            (memory-Inserts missing e)
      | inr (rows, e) ↦ inserted_row rows e missing (T.add rows new) refl
    ]
  ]
