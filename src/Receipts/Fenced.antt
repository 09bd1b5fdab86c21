-- ===== src/Receipts/Fenced.antt =====
-- A claim that was lost stays lost, whatever is called later, until its token is claimed again.
use personal_computing_space.Shared.{
  String, ◌≡◌, refl, sym, false, some, List, [], ◌∷◌, arith, ◌==◌, string_eq, pair_eq, option_eq,
  Bool-cases, inl, inr, ap, ◌∙◌, ◌⊎◌,
}
use mathlib.Core.Path.{subst}
use personal_computing_space.Shared.Exec.{after}
use personal_computing_space.Receipts.Defs.{MessageReceipt, Key, ReceiptTable, Repository}
use personal_computing_space.Receipts.Store.{view, IsSynced}
use personal_computing_space.Receipts.View.{view-load}
use personal_computing_space.Receipts.Rules.{
  Decision, fence, queue_decision, retry_decision, interrupt_decision, claim_decision,
  update_decision,
}
use personal_computing_space.Receipts.Calls.{handle}
use personal_computing_space.Receipts.Handling.{KeepsKey, outcome_of, map_option, view-handle}
use personal_computing_space.Receipts.Decisions.{
  queue-KeepsKey, retry-KeepsKey, interrupt-KeepsKey, claim-KeepsKey, update-KeepsKey,
}
use personal_computing_space.Receipts.Recovery.{view-recover}
use personal_computing_space.Receipts.Dispatch.{view-scan}
use personal_computing_space.Receipts.History.{
  Call, create, get, queue, retry, interrupt, claim, update, scan, recover, step, run,
  step-IsSynced, create_keeps,
}

-- The receipt after a call that is about it.
abbrev effect : Call → MessageReceipt → MessageReceipt
effect (queue now k) r = outcome_of (queue_decision now r) r
effect (retry now k reason) r = outcome_of (retry_decision now reason r) r
effect (interrupt now k) r = outcome_of (interrupt_decision now r) r
effect (claim now k token c) r = outcome_of (claim_decision now token c r) r
effect (update now k token u) r = outcome_of (update_decision now token u r) r
effect (recover now w) r = fence now w r
effect _ r = r

-- Calls that do not claim with the token.
abbrev pub ClaimsOther : String → Call → Type 0
ClaimsOther token (claim now k t c) = (t == token) ≡ false
ClaimsOther token _ = Unit

abbrev pub AllClaimOther : String → List Call → Type 0
AllClaimOther token [] = Unit
AllClaimOther token (c ∷ cs) = ClaimsOther token c × AllClaimOther token cs

-- The receipt is not claimed with the token.
abbrev pub IsFree : String → MessageReceipt → Type 0
IsFree token r = (r.claim_token == some token) ≡ false

effect-IsFree :
    (token : String) (c : Call) (r : MessageReceipt)
    → ClaimsOther token c
    → IsFree token r
    → IsFree token (effect c r)
unfolding queue_decision retry_decision interrupt_decision claim_decision update_decision
effect-IsFree token (create now k c prompt) r o f = f
effect-IsFree token (get k) r o f = f
effect-IsFree token (queue now k) r o f = ground arith
effect-IsFree token (retry now k reason) r o f = ground arith
effect-IsFree token (interrupt now k) r o f = ground arith
effect-IsFree token (claim now k t c) r o f = ground arith
effect-IsFree token (update now k t u) r o f = ground arith
effect-IsFree token (scan now w) r o f = f
effect-IsFree token (recover now w) r o f = ground arith

module _ (T : ReceiptTable) where
  -- the receipt is as it was, or as the call makes it
  abbrev Became : Repository T → Key → Call → MessageReceipt → Type 0
  Became s' j c r = (r' : MessageReceipt) × (view T s' j ≡ some r') × ((r' ≡ r) ⊎ (r' ≡ effect c r))

  handle-Became :
      (s : Repository T)
      → IsSynced T s
      → (k j : Key) (d : MessageReceipt → Decision) (r : MessageReceipt) → KeepsKey d
      → view T s j ≡ some r
      → (r' : MessageReceipt) × (view T (after (handle T k d) s) j ≡ some r')
        × ((r' ≡ r) ⊎ (r' ≡ outcome_of (d r) r))
  handle-Became s v k j d r keeps h = elim (Bool-cases (k == j)) [
    | inl e ↦ (outcome_of (d r) r, view-handle T s v k d keeps j ∙ rw (e, h) refl, inr refl)
    | inr e ↦ (r, view-handle T s v k d keeps j ∙ rw (e, h) refl, inl refl)
  ]

  step-Became :
      (c : Call) (s : Repository T) (j : Key) (r : MessageReceipt)
      → IsSynced T s
      → view T s j ≡ some r
      → Became (step T c s) j c r
  unfolding step
  step-Became (create now k c prompt) s j r v h =
      (r, create_keeps T s v now k j c prompt r h, inl refl)
  step-Became (get k) s j r v h = (r, view-load T s k j ∙ h, inl refl)
  step-Became (queue now k) s j r v h = handle-Became s v k j _ r (queue-KeepsKey now) h
  step-Became (retry now k reason) s j r v h =
      handle-Became s v k j _ r (retry-KeepsKey now reason) h
  step-Became (interrupt now k) s j r v h = handle-Became s v k j _ r (interrupt-KeepsKey now) h
  step-Became (claim now k token c) s j r v h =
      handle-Became s v k j _ r (claim-KeepsKey now token c) h
  step-Became (update now k token u) s j r v h =
      handle-Became s v k j _ r (update-KeepsKey now token u) h
  step-Became (scan now w) s j r v h = (r, view-scan T s v now w j ∙ h, inl refl)
  step-Became (recover now w) s j r v h =
      (fence now w r, view-recover T s now w v j ∙ ap (map_option (fence now w)) h, inr refl)

  -- what is kept of a receipt that is free of a token
  pub run-IsFree :
      (token : String) (cs : List Call) (s : Repository T) (j : Key) (r : MessageReceipt)
      → IsSynced T s
      → AllClaimOther token cs
      → view T s j ≡ some r
      → IsFree token r
      → IsSynced T (run T cs s)
        × ((r' : MessageReceipt) × (view T (run T cs s) j ≡ some r') × IsFree token r')
  unfolding run
  run-IsFree token [] s j r v o h f = (v, (r, h, f))
  run-IsFree token (c ∷ cs) s j r v o h f =
      let (r', h', b) = step-Became c s j r v h in
      run-IsFree token cs (step T c s) j r' (step-IsSynced T c s v) o.1 h' (free r' b)
    where
      free : (r' : MessageReceipt) → (r' ≡ r) ⊎ (r' ≡ effect c r) → IsFree token r'
      free r' (inl e) = subst (IsFree token) (sym e) f
      free r' (inr e) = subst (IsFree token) (sym e) (effect-IsFree token c r o.0 f)
