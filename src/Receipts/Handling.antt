-- ===== src/Receipts/Handling.antt =====
-- What a call on one receipt does to the repository, from its decision alone: the same with and
-- without a database.
use personal_computing_space.Shared.{
  ◌≡◌, refl, Option, none, some, List, [], ◌∷◌, ◌++◌, arith, ◌==◌, if◌then◌else◌, string_eq,
  pair_eq, ==_iff, Option-cases, inl, inr, ap, ◌∙◌,
}
use personal_computing_space.Shared.Exec.{
  Exec, ok, err, key_error, value_error, Result, after, resume,
}
use personal_computing_space.Receipts.Defs.{
  state_beq, MessageReceipt, Key, key, ReceiptTable, Repository, ReceiptEvent,
}
use personal_computing_space.Receipts.Store.{
  receipt_event, load_message_receipt, persist_message_receipt, view, IsSynced,
}
use personal_computing_space.Receipts.View.{
  view-load, load-IsSynced, events-load, require-missing, require-found, view-key, reply-persist,
  view-persist, events-persist, persist-IsSynced,
}
use personal_computing_space.Receipts.Rules.{Decision, returns, raises, saves}
use personal_computing_space.Receipts.Calls.{act, handle}

-- The receipt after the decision.
abbrev pub outcome_of : Decision → MessageReceipt → MessageReceipt
outcome_of returns r = r
outcome_of (raises c) r = r
outcome_of (saves r') r = r'

abbrev pub reply_of : Decision → MessageReceipt → Result MessageReceipt
reply_of returns r = ok r
reply_of (raises c) r = err (value_error c)
reply_of (saves r') r = ok r'

-- The log after the decision: an event for each change of the state.
abbrev pub log_of : Decision → MessageReceipt → List ReceiptEvent → List ReceiptEvent
log_of returns r log = log
log_of (raises c) r log = log
log_of (saves r') r log = if state_beq r.state r'.state then log else log ++ receipt_event r' ∷ []

abbrev pub KeepsKey : (MessageReceipt → Decision) → Type 0
KeepsKey d = (r : MessageReceipt) → key (outcome_of (d r) r) ≡ key r

abbrev pub map_option :
    (MessageReceipt → MessageReceipt) → Option MessageReceipt → Option MessageReceipt
map_option f none = none
map_option f (some r) = some (f r)

resume-ok :
    {S A B : Type 0} (p : S × Result A) (f : A → Exec S B) {a : A}
    → p.1 ≡ ok a
    → resume p f ≡ f a p.0
resume-ok (s, ok b) f h = ground arith
resume-ok (s, err e) f h = cc

-- A call took decision `c` on the receipt `r` of key `k`.
pub record Handled (T : ReceiptTable) (s : Repository T) (k : Key) (r : MessageReceipt)
    (c : Decision) (done : Repository T × Result MessageReceipt) : Type 0 where
  pub synced : IsSynced T done.0
  pub views : (j : Key) → view T done.0 j ≡ (if k == j then some (outcome_of c r) else view T s j)
  pub answer : done.1 ≡ reply_of c r
  pub log : done.0.message_receipt_events ≡ log_of c r s.message_receipt_events

module _ (T : ReceiptTable) (s : Repository T) (v : IsSynced T s) (k : Key)
    (r : MessageReceipt) where
  unchanged_view :
      view T s k ≡ some r → (j : Key) → view T s j ≡ (if k == j then some r else view T s j)
  unchanged_view h j = ground (arith, ==_iff k j)

  act-Handled :
      (c : Decision)
      → view T s k ≡ some r
      → key (outcome_of c r) ≡ k
      → Handled T s k r c (act T c r s)
  unfolding act
  act-Handled returns h e = record {
    synced = v;
    views = unchanged_view h;
    answer = refl;
    log = refl;
  }
  act-Handled (raises c) h e = record {
    synced = v;
    views = unchanged_view h;
    answer = refl;
    log = refl;
  }
  act-Handled (saves r') h e =
      let present : view T s (key r') ≡ some r = ap (view T s) e ∙ h in
      rw (resume-ok (persist_message_receipt T r' s) _ (reply-persist T s v r' r present)) (record {
        synced = persist-IsSynced T s v r' r present;
        views = λ j. rw (view-persist T s v r' r j present, e);
        answer = refl;
        log = events-persist T s v r' r present;
      })

module _ (T : ReceiptTable) (s : Repository T) (v : IsSynced T s) (k : Key) where
  -- A receipt that is found: the decision is carried out on it, and no other receipt changes.
  pub handle-Handled :
      (d : MessageReceipt → Decision) (r : MessageReceipt)
      → KeepsKey d
      → view T s k ≡ some r
      → Handled T s k r (d r) (handle T k d s)
  unfolding handle
  handle-Handled d r keeps h =
      let t = after (load_message_receipt T k) s in
      let done =
        act-Handled T t (load-IsSynced T s k v) k r (d r) (view-load T s k k ∙ h)
          (keeps r ∙ view-key T s v k r h) in
      rw (require-found T s k r h) (record {
        synced = done.synced;
        views = λ j.
            done.views j
            ∙ ap (λ o. if k == j then some (outcome_of (d r) r) else o) (view-load T s k j);
        answer = done.answer;
        log = done.log ∙ ap (log_of (d r) r) (events-load T s k);
      })

  -- A receipt that is not found: the call raises `KeyError` and changes nothing.
  pub handle-missing :
      (d : MessageReceipt → Decision)
      → view T s k ≡ none
      → handle T k d s ≡ (s, err (key_error k.1))
  unfolding handle
  handle-missing d h = rw (require-missing T s k h)

  pub handle-IsSynced : (d : MessageReceipt → Decision) → KeepsKey d → IsSynced T (handle T k d s).0
  handle-IsSynced d keeps = elim (Option-cases (view T s k)) [
    | inl e ↦ rw (handle-missing d e) v
    | inr (r, e) ↦ (handle-Handled d r keeps e).synced
  ]

  pub view-handle :
      (d : MessageReceipt → Decision)
      → KeepsKey d
      → (j : Key)
      → view T (handle T k d s).0 j
        ≡ (if k == j then map_option (λ r. outcome_of (d r) r) (view T s j) else view T s j)
  view-handle d keeps j = elim (Option-cases (view T s k)) [
    | inl e ↦ rw (handle-missing d e) (ground (arith, ==_iff k j))
    | inr (r, e) ↦ ground (arith, (handle-Handled d r keeps e).views j, ==_iff k j)
  ]
