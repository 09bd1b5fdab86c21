-- ===== src/Receipts/Recovered.antt =====
-- What a recovery does to the receipts, to the log, and what it counts.
use personal_computing_space.Shared.{
  ℕ, String, ◌≡◌, ◌&&◌, none, some, ◌==◌, if◌then◌else◌, string_eq, pair_eq,
}
use personal_computing_space.Receipts.Defs.{in_flight, retryable, state_beq, MessageReceipt}

-- A receipt of the workspace that is in flight loses its token, waits to be delivered at once, and is
-- stamped; any other is as it was.
abbrev pub retried : ℕ → String → MessageReceipt → MessageReceipt
retried now w r =
    if (r.workspace_id == w) && state_beq r.state in_flight
    then record r {
      state = retryable;
      claim_token = none;
      next_attempt_at = some now;
      updated_at = now;
    }
    else r

-- The receipts that a recovery is about.
abbrev pub IsTaken : String → MessageReceipt → Type 0
IsTaken w r = (r.workspace_id ≡ w) × (r.state ≡ in_flight)
