-- ===== src/Receipts/Follows.antt =====
-- What no call changes in a receipt, and what it may only increase.
use personal_computing_space.Shared.{ℕ, ◌≤◌, String, ◌≡◌, true, Option, arith}
use personal_computing_space.Shared.Json.{Fields}
use personal_computing_space.Receipts.Defs.{MessageReceipt, key}
use personal_computing_space.Receipts.Rules.{
  is_terminal, Update, queue_decision, retry_decision, interrupt_decision, claim_decision,
  update_decision, fence,
}
use personal_computing_space.Receipts.Handling.{outcome_of}

-- `r'` is a later version of the receipt `r`: the message is the same, the number of attempts has not
-- fallen, and a receipt in a terminal state has not changed at all.
pub record Follows (r r' : MessageReceipt) : Type 0 where
  pub same_key : key r' ≡ key r
  pub same_conversation : r'.conversation_ref ≡ r.conversation_ref
  pub same_prompt : r'.prompt ≡ r.prompt
  pub same_creation : r'.created_at ≡ r.created_at
  pub attempts : r.attempt_count ≤ r'.attempt_count
  pub frozen : is_terminal r.state ≡ true → r' ≡ r

pub Follows-refl : (r : MessageReceipt) → Follows r r
Follows-refl r = ground arith

pub Follows-trans : {a b c : MessageReceipt} → Follows a b → Follows b c → Follows a c
Follows-trans f g = ground arith

module _ (now : ℕ) (r : MessageReceipt) where
  pub queue-Follows : Follows r (outcome_of (queue_decision now r) r)
  unfolding queue_decision
  queue-Follows = ground arith

  pub retry-Follows :
      (reason : Option Fields) → Follows r (outcome_of (retry_decision now reason r) r)
  unfolding retry_decision
  retry-Follows reason = ground arith

  pub interrupt-Follows : Follows r (outcome_of (interrupt_decision now r) r)
  unfolding interrupt_decision
  interrupt-Follows = ground arith

  pub claim-Follows :
      (token : String) (c : Option String) → Follows r (outcome_of (claim_decision now token c r) r)
  unfolding claim_decision
  claim-Follows token c = ground arith

  pub update-Follows :
      (token : String) (u : Update) → Follows r (outcome_of (update_decision now token u r) r)
  unfolding update_decision
  update-Follows token u = ground arith

  pub fence-Follows : (w : String) → Follows r (fence now w r)
  fence-Follows w = ground arith
