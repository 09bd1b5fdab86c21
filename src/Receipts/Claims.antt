-- ===== src/Receipts/Claims.antt =====
-- Who owns a message: races of two Drivers for one receipt, and claims of an earlier Driver epoch.
use personal_computing_space.Shared.{
  ℕ, ◌+◌, String, ◌≡◌, refl, true, Option, none, some, arith, ◌==◌, if◌then◌else◌, string_eq,
  pair_eq, option_eq, ==_iff, ap, ◌∙◌, ◌⊎◌, ◌++◌, List, [], ◌∷◌, false, Bool, Bool-cases, inl, inr,
}
use personal_computing_space.Shared.Exec.{
  ok, err, value_error, stale_claim_token, Result, after, reply,
}
use personal_computing_space.Receipts.Defs.{
  MessageReceipt, Key, ReceiptTable, Repository, in_flight,
}
use personal_computing_space.Receipts.Store.{view, IsSynced, receipt_event}
use personal_computing_space.Receipts.View.{view-load}
use personal_computing_space.Receipts.Rules.{
  Update, saves, returns, is_dispatchable, is_claimed_in, fenced, claim_decision,
  other_conversation, is_terminal, update_decision,
}
use personal_computing_space.Receipts.Calls.{
  claim_message_receipt, update_message_receipt, create_or_get_message_receipt,
  recover_message_receipts_for_driver,
}
use personal_computing_space.Receipts.Handling.{handle-Handled, outcome_of, reply_of, log_of}
use personal_computing_space.Receipts.Decisions.{claim-KeepsKey, update-KeepsKey}
use personal_computing_space.Receipts.History.{Call, run}
use personal_computing_space.Receipts.Fenced.{IsFree, AllClaimOther, run-IsFree}
use personal_computing_space.Receipts.Creation.{offered, create-found, create_or_get-Created}
use personal_computing_space.Receipts.Recovery.{view-recover, recover-IsSynced}

-- A claim names the conversation of the receipt, or none.
abbrev pub IsNamed : Option String → MessageReceipt → Type 0
IsNamed c r = (c ≡ none) ⊎ (c ≡ some r.conversation_ref)

named_conversation :
    (c : Option String) (r : MessageReceipt) → IsNamed c r → other_conversation c r ≡ false
named_conversation none r n = refl
named_conversation (some c) r n = ground (arith, n, ==_iff r.conversation_ref c)

claim_free :
    (now : ℕ) (token : String) (c : Option String) (r : MessageReceipt)
    → other_conversation c r ≡ false
    → is_dispatchable r.state ≡ true
    → claim_decision now token c r
      ≡ saves (record r {
        state = in_flight;
        claim_token = some token;
        attempt_count = r.attempt_count + 1;
        next_attempt_at = none;
        updated_at = now;
      })
unfolding claim_decision
claim_free now token c r n h = ground arith

claim_held :
    (now : ℕ) (token : String) (c : Option String) (r : MessageReceipt)
    → other_conversation c r ≡ false
    → r.state ≡ in_flight
    → claim_decision now token c r ≡ returns
unfolding claim_decision
claim_held now token c r n h = ground arith

-- An update under a token that the receipt does not have changes nothing.
update_free :
    (now : ℕ) (token : String) (u : Update) (r : MessageReceipt)
    → IsFree token r
    → (outcome_of (update_decision now token u r) r ≡ r)
      × ((reply_of (update_decision now token u r) r ≡ err (value_error stale_claim_token))
          ⊎ (is_terminal r.state ≡ true))
unfolding update_decision
update_free now token u r f = elim (Bool-cases (is_terminal r.state)) [
  | inl e ↦ (ground arith, inr e)
  | inr e ↦ (ground arith, inl (ground arith))
]

hit : (k : Key) (a b : Option MessageReceipt) → (if k == k then a else b) ≡ a
hit k a b = ground (arith, ==_iff k k)

module _ (T : ReceiptTable) (s : Repository T) (v : IsSynced T s) (k : Key) (r : MessageReceipt)
    (found : view T s k ≡ some r) where
  abbrev claimed : ℕ → String → MessageReceipt
  claimed now token = record r {
    state = in_flight;
    claim_token = some token;
    attempt_count = r.attempt_count + 1;
    next_attempt_at = none;
    updated_at = now;
  }

  -- Of two Drivers that claim one waiting receipt, each naming its conversation or none, the first gets it;
  -- the second gets the receipt with the first one's token. After both, the receipt is the first one's,
  -- every other receipt is as it was, and the log has the first claim and nothing of the second.
  pub claim_race :
      (now later : ℕ) (first second : String) (c d : Option String)
      → is_dispatchable r.state ≡ true
      → IsNamed c r
      → IsNamed d r
      → let s' = after (claim_message_receipt T now k first c) s in
        let s'' = after (claim_message_receipt T later k second d) s' in
        (reply (claim_message_receipt T now k first c) s ≡ ok (claimed now first))
        × (reply (claim_message_receipt T later k second d) s' ≡ ok (claimed now first))
        × ((j : Key) → view T s'' j ≡ (if k == j then some (claimed now first) else view T s j))
        × (s''.message_receipt_events
            ≡ s.message_receipt_events ++ receipt_event (claimed now first) ∷ [])
  claim_race now later first second c d h n m =
      let s' = after (claim_message_receipt T now k first c) s in
      let one =
        handle-Handled T s v k (claim_decision now first c) r (claim-KeepsKey now first c) found in
      let got = claimed now first in
      let taken = claim_free now first c r (named_conversation c r n) h in
      let stored = (one.views k ∙ hit k _ _) ∙ ap (λ d. some (outcome_of d r)) taken in
      let two =
        handle-Handled T _ one.synced k (claim_decision later second d) got
          (claim-KeepsKey later second d) stored in
      let kept = claim_held later second d got (named_conversation d got m) refl in
      (
        one.answer ∙ ap (λ d. reply_of d r) taken,
        two.answer ∙ ap (λ d. reply_of d got) kept,
        λ j.
            two.views j
            ∙ ap (λ d. if k == j then some (outcome_of d got) else view T s' j) kept
            ∙ ap (λ o. if k == j then some got else o)
                (one.views j ∙ ap (λ d. if k == j then some (outcome_of d r) else view T s j) taken)
            ∙ twice (k == j) _ _,
        two.log
            ∙ ap (λ d. log_of d got s'.message_receipt_events) kept
            ∙ one.log
            ∙ ap (λ d. log_of d r s.message_receipt_events) taken
            ∙ noted now first h,
      )
    where
      twice :
          (b : Bool) (x y : Option MessageReceipt)
          → (if b then x else if b then x else y) ≡ (if b then x else y)
      twice true x y = refl
      twice false x y = refl

      noted :
          (now : ℕ) (first : String)
          → is_dispatchable r.state ≡ true
          → log_of (saves (claimed now first)) r s.message_receipt_events
            ≡ s.message_receipt_events ++ receipt_event (claimed now first) ∷ []
      noted now first h = ground arith

  -- After a recovery the holder of an earlier claim cannot write to the receipt, whatever is called in
  -- between, other Drivers' claims included, as long as no call claims with its token again: an update
  -- under that token leaves every receipt as it is, and is refused as stale unless the receipt is over.
  pub recover_fences :
      (now later : ℕ) (w token : String) (u : Update) (cs : List Call)
      → is_claimed_in w r ≡ true
      → AllClaimOther token cs
      → let s' = run T cs (after (recover_message_receipts_for_driver T now w) s) in
        (r' : MessageReceipt) × (view T s' k ≡ some r')
        × ((j : Key) → view T (after (update_message_receipt T later k token u) s') j ≡ view T s' j)
        × ((reply (update_message_receipt T later k token u) s'
              ≡ err (value_error stale_claim_token))
            ⊎ (is_terminal r'.state ≡ true))
  recover_fences now later w token u cs h o =
      let s0 = after (recover_message_receipts_for_driver T now w) s in
      let stored : view T s0 k ≡ some (fenced now r) =
        view-recover T s now w v k ∙ rw found (rw h refl) in
      let (synced, (r', there, free)) =
        run-IsFree T token cs s0 k (fenced now r) (recover-IsSynced T s now w v) o stored refl in
      let late =
        handle-Handled T (run T cs s0) synced k (update_decision later token u) r'
          (update-KeepsKey later token u) there in
      let (same, refused) = update_free later token u r' free in
      (
        r',
        there,
        λ j.
            late.views j
            ∙ ap (λ x. if k == j then some x else view T (run T cs s0) j) same
            ∙ own (run T cs s0) r' there j,
        elim refused [ inl e ↦ inl (late.answer ∙ e) | inr e ↦ inr e ],
      )
    where
      own :
          (t : Repository T) (x : MessageReceipt)
          → view T t k ≡ some x
          → (j : Key) → (if k == j then some x else view T t j) ≡ view T t j
      own t x e j = ground (arith, ==_iff k j)

module _ (T : ReceiptTable) (s : Repository T) (v : IsSynced T s) (k : Key) where
  -- Two requests with one request id are answered for one receipt, the stored one: each gets it if
  -- the conversation and the prompt are its own, and `request_id_reused` if not. The second request
  -- changes no receipt.
  pub create_again :
      (now later : ℕ) (c prompt c' prompt' : String)
      → let first = create_or_get_message_receipt T now k c prompt in
        let second = create_or_get_message_receipt T later k c' prompt' in
        (r : MessageReceipt) × (view T (after first s) k ≡ some r)
        × (reply first s ≡ offered c prompt r)
        × (reply second (after first s) ≡ offered c' prompt' r)
        × ((j : Key) → view T (after second (after first s)) j ≡ view T (after first s) j)
  create_again now later c prompt c' prompt' =
      let one = create_or_get-Created T s v now k c prompt in
      let s' = after (create_or_get_message_receipt T now k c prompt) s in
      let again = create-found T s' later k c' prompt' one.receipt one.stored in
      (
        one.receipt,
        one.stored,
        one.answer,
        ap (λ (p : Repository T × Result MessageReceipt). p.1) again,
        λ j.
            ap (λ (p : Repository T × Result MessageReceipt). view T p.0 j) again
            ∙ view-load T s' k j,
      )
