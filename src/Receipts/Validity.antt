-- ===== src/Receipts/Validity.antt =====
-- The claim of a receipt: a token is held exactly while the receipt is in flight.
use personal_computing_space.Shared.{
  ℕ, String, ◌≡◌, refl, sym, true, false, Option, none, some, List, [], ◌∷◌, arith, ◌==◌, string_eq,
  pair_eq, ==_iff, Option-cases, Bool-cases, inl, inr, ap, ◌∙◌,
}
use mathlib.Core.Path.{subst}
use mathlib.Core.Option.{some-injective}
use personal_computing_space.Receipts.Defs.{
  MessageReceipt, Key, key, ReceiptTable, Repository, conflict,
}
use personal_computing_space.Receipts.Store.{view, IsSynced}
use personal_computing_space.Receipts.View.{view-load}
use personal_computing_space.Receipts.Rules.{Decision, fence, fresh_receipt}
use personal_computing_space.Receipts.Calls.{handle, create_or_get_message_receipt}
use personal_computing_space.Receipts.Handling.{KeepsKey, outcome_of, map_option, view-handle}
use personal_computing_space.Receipts.Decisions.{
  IsValid, queue-KeepsKey, retry-KeepsKey, interrupt-KeepsKey, claim-KeepsKey, update-KeepsKey,
  queue-IsValid, retry-IsValid, interrupt-IsValid, claim-IsValid, update-IsValid,
}
use personal_computing_space.Receipts.Creation.{
  Created, create_or_get-Created, IsOrigin, kept_in_memory, inserted, lost,
}
use personal_computing_space.Receipts.Recovery.{view-recover}
use personal_computing_space.Receipts.Dispatch.{view-scan}
use personal_computing_space.Receipts.History.{
  Call, create, get, queue, retry, interrupt, claim, update, scan, recover, step, run,
  step-IsSynced,
}

-- The claim tokens of a call are not empty, as the Driver's are.
abbrev pub HasToken : Call → Type 0
HasToken (claim now k token c) = (token == "") ≡ false
HasToken _ = Unit

abbrev pub AllHaveTokens : List Call → Type 0
AllHaveTokens [] = Unit
AllHaveTokens (c ∷ cs) = HasToken c × AllHaveTokens cs

-- A row of another process that an insert of an absent key meets is valid: a process inserts receipts
-- that hold no claim.
abbrev pub CompetitorsValid : ReceiptTable → Type 0
CompetitorsValid T =
    (rows rows' : T.Rows) (r winner : MessageReceipt)
    → T.get rows (key r) ≡ none
    → T.add rows r ≡ conflict rows' winner
    → IsValid winner

abbrev pub AllValid : (T : ReceiptTable) → Repository T → Type 0
AllValid T s = (j : Key) (r : MessageReceipt) → view T s j ≡ some r → IsValid r

fence-IsValid : (now : ℕ) (w : String) (r : MessageReceipt) → IsValid r → IsValid (fence now w r)
fence-IsValid now w r v = ground arith

module _ (T : ReceiptTable) (competitors : CompetitorsValid T) where
  module _ (s : Repository T) (v : IsSynced T s) (valid : AllValid T s) where
    handle-AllValid :
        (k : Key) (d : MessageReceipt → Decision)
        → KeepsKey d
        → ((r : MessageReceipt) → IsValid r → IsValid (outcome_of (d r) r))
        → AllValid T (handle T k d s).0
    handle-AllValid k d keeps f j r h = elim (Bool-cases (k == j)) [
      | inl e ↦ mapped (view T s j) refl (sym (view-handle T s v k d keeps j ∙ rw e refl) ∙ h)
      | inr e ↦ valid j r (sym (view-handle T s v k d keeps j ∙ rw e refl) ∙ h)
    ]
      where
        mapped :
            (o : Option MessageReceipt)
            → view T s j ≡ o
            → map_option (λ x. outcome_of (d x) x) o ≡ some r
            → IsValid r
        mapped none p q = cc
        mapped (some x) p q = subst IsValid (some-injective _ _ q) (f x (valid j x p))

    recover-AllValid : (now : ℕ) (w : String) → AllValid T (step T (recover now w) s)
    recover-AllValid now w j r h =
        mapped (view T s j) refl (sym (view-recover T s now w v j) ∙ unfold step in h)
      where
        mapped :
            (o : Option MessageReceipt)
            → view T s j ≡ o
            → map_option (fence now w) o ≡ some r
            → IsValid r
        mapped none p q = cc
        mapped (some x) p q =
            subst IsValid (some-injective _ _ q) (fence-IsValid now w x (valid j x p))

    origin-IsValid :
        (new r : MessageReceipt) (old after : Option T.Rows)
        → IsValid new
        → IsOrigin T new r old after
        → IsValid r
    origin-IsValid new r old after n (kept_in_memory e) = subst IsValid (sym e) n
    origin-IsValid new r old after n (inserted rows rows' g p e) = subst IsValid (sym e) n
    origin-IsValid new r old after n (lost rows rows' g p) = competitors rows rows' new r g p

    create-AllValid :
        (now : ℕ) (k : Key) (c prompt : String)
        → AllValid T (create_or_get_message_receipt T now k c prompt s).0
    create-AllValid now k c prompt j r h = elim (Bool-cases (k == j)) [
      | inl e ↦ subst IsValid (some-injective _ _ (sym made.stored ∙ at_key e)) own
      | inr e ↦ valid j r (sym (made.others j e) ∙ h)
    ]
      where
        made : Created T s now k c prompt (create_or_get_message_receipt T now k c prompt s)
        made = create_or_get-Created T s v now k c prompt

        at_key :
            (k == j) ≡ true → view T (create_or_get_message_receipt T now k c prompt s).0 k ≡ some r
        at_key e =
            ap (view T (create_or_get_message_receipt T now k c prompt s).0) ((==_iff k j).0 e) ∙ h

        fresh-IsValid : IsValid (fresh_receipt now k c prompt)
        fresh-IsValid = ground arith

        own : IsValid made.receipt
        own = elim (Option-cases (view T s k)) [
          | inl p ↦
              origin-IsValid (fresh_receipt now k c prompt) made.receipt _ _ fresh-IsValid
                (made.origin p)
          | inr (old, p) ↦ subst IsValid (sym (made.kept old p).0) (valid k old p)
        ]

  step-AllValid :
      (c : Call) (s : Repository T)
      → IsSynced T s
      → HasToken c
      → AllValid T s
      → AllValid T (step T c s)
  unfolding step
  step-AllValid (create now k c prompt) s v t a = create-AllValid s v a now k c prompt
  step-AllValid (get k) s v t a = λ j r h. a j r (sym (view-load T s k j) ∙ h)
  step-AllValid (queue now k) s v t a =
      handle-AllValid s v a k _ (queue-KeepsKey now) (queue-IsValid now)
  step-AllValid (retry now k reason) s v t a =
      handle-AllValid s v a k _ (retry-KeepsKey now reason) (retry-IsValid now reason)
  step-AllValid (interrupt now k) s v t a =
      handle-AllValid s v a k _ (interrupt-KeepsKey now) (interrupt-IsValid now)
  step-AllValid (claim now k token c) s v t a =
      handle-AllValid s v a k _ (claim-KeepsKey now token c)
        (λ r x. claim-IsValid now token c r t x)
  step-AllValid (update now k token u) s v t a =
      handle-AllValid s v a k _ (update-KeepsKey now token u) (update-IsValid now token u)
  step-AllValid (scan now w) s v t a = λ j r h. a j r (sym (view-scan T s v now w j) ∙ h)
  step-AllValid (recover now w) s v t a = recover-AllValid s v a now w

  -- If the rows that other processes insert first are valid, no claim token of the calls is empty, and
  -- every receipt is valid to begin with: after any history of calls a receipt holds a claim token, which
  -- is not empty, exactly while it is in flight, and then it has been claimed at least once.
  pub run-IsValid :
      (cs : List Call) (s : Repository T)
      → IsSynced T s
      → AllHaveTokens cs
      → AllValid T s
      → AllValid T (run T cs s)
  unfolding run
  run-IsValid [] s v t a = a
  run-IsValid (c ∷ cs) s v t a =
      run-IsValid cs (step T c s) (step-IsSynced T c s v) t.1 (step-AllValid c s v t.0 a)
