-- ===== src/Receipts/Decisions.antt =====
-- The decisions on one receipt: which of its fields they may change, and when.
use personal_computing_space.Shared.{
  ℕ, zero, suc, ltb, ◌*◌, ◌^◌, ◌<◌, min, String, ◌≡◌, refl, false, Option, none, some, arith, ◌==◌,
  if◌then◌else◌, string_eq, option_eq, ==_iff,
}
use personal_computing_space.Shared.Json.{Fields}
use personal_computing_space.Receipts.Defs.{ReceiptState, in_flight, MessageReceipt}
use personal_computing_space.Receipts.Rules.{
  Update, queue_decision, retry_delay, retry_decision, interrupt_decision, claim_decision,
  update_decision,
}
use personal_computing_space.Receipts.Handling.{outcome_of, KeepsKey}

-- A claim token is held exactly while the receipt is in flight, and it is not empty.
abbrev pub IsClaimConsistent : ReceiptState → Option String → Type 0
IsClaimConsistent in_flight token = (t : String) × (token ≡ some t) × ((t == "") ≡ false)
IsClaimConsistent _ token = token ≡ none

pub record IsValid (r : MessageReceipt) : Type 0 where
  pub claim : IsClaimConsistent r.state r.claim_token
  pub counted : r.state ≡ in_flight → 0 < r.attempt_count

-- The delay before the next delivery: a quarter of a second that doubles with each attempt, and a
-- minute from the eighth attempt on.
pub retry_delay_exact : (n : ℕ) → retry_delay n ≡ (if ltb n 8 then 250000 * 2 ^ n else 60000000)
unfolding retry_delay
retry_delay_exact zero = refl
retry_delay_exact (suc zero) = refl
retry_delay_exact (suc (suc zero)) = refl
retry_delay_exact (suc (suc (suc zero))) = refl
retry_delay_exact (suc (suc (suc (suc zero)))) = refl
retry_delay_exact (suc (suc (suc (suc (suc zero))))) = refl
retry_delay_exact (suc (suc (suc (suc (suc (suc zero)))))) = refl
retry_delay_exact (suc (suc (suc (suc (suc (suc (suc zero))))))) = refl
retry_delay_exact (suc (suc (suc (suc (suc (suc (suc (suc n)))))))) =
    let capped : min (suc (suc (suc (suc (suc (suc (suc (suc n)))))))) 8 ≡ 8 = omega arith in
    rw capped (ground arith)

module _ (now : ℕ) where
  pub queue-KeepsKey : KeepsKey (queue_decision now)
  unfolding queue_decision
  queue-KeepsKey r = ground arith

  pub retry-KeepsKey : (reason : Option Fields) → KeepsKey (retry_decision now reason)
  unfolding retry_decision
  retry-KeepsKey reason r = ground arith

  pub interrupt-KeepsKey : KeepsKey (interrupt_decision now)
  unfolding interrupt_decision
  interrupt-KeepsKey r = ground arith

  pub claim-KeepsKey : (token : String) (c : Option String) → KeepsKey (claim_decision now token c)
  unfolding claim_decision
  claim-KeepsKey token c r = ground arith

  pub update-KeepsKey : (token : String) (u : Update) → KeepsKey (update_decision now token u)
  unfolding update_decision
  update-KeepsKey token u r = ground arith

  pub queue-IsValid :
      (r : MessageReceipt) → IsValid r → IsValid (outcome_of (queue_decision now r) r)
  unfolding queue_decision
  queue-IsValid r v = ground arith

  pub retry-IsValid :
      (reason : Option Fields) (r : MessageReceipt)
      → IsValid r
      → IsValid (outcome_of (retry_decision now reason r) r)
  unfolding retry_decision
  retry-IsValid reason r v = ground arith

  pub interrupt-IsValid :
      (r : MessageReceipt) → IsValid r → IsValid (outcome_of (interrupt_decision now r) r)
  unfolding interrupt_decision
  interrupt-IsValid r v = ground arith

  pub claim-IsValid :
      (token : String) (c : Option String) (r : MessageReceipt)
      → (token == "") ≡ false
      → IsValid r
      → IsValid (outcome_of (claim_decision now token c r) r)
  unfolding claim_decision
  claim-IsValid token c r h v = ground arith

  pub update-IsValid :
      (token : String) (u : Update) (r : MessageReceipt)
      → IsValid r
      → IsValid (outcome_of (update_decision now token u r) r)
  unfolding update_decision
  update-IsValid token u r v = ground (arith, ==_iff r.claim_token (some token))
