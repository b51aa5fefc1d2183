-- ===== src/Payout/Execution.antt =====
-- internal/payout/execution.go: broadcasting the signed transaction, and the terminal states.
use stablecoin_gateway.Prelude.{
  ℕ, ◌+◌, String, Bool, false, not, ◌&&◌, ◌||◌, Option, none, some, ltb, leb, if◌then◌else◌, ℤ, pos,
  text_eq, trim_space, pure, gets, or_raise, ◌>>=◌, ◌>>◌, raise_if, modify,
}
use stablecoin_gateway.Tron.Types.{SignedTransaction}
use stablecoin_gateway.Payout.State.{
  ready_for_broadcast, confirming, Payout, no_broadcast_job, no_confirmation_job,
  invalid_execution_claim, execution_lease_lost, Tx, has_status, is_free, milliseconds, first_by,
  is_failure_code, valid_claim, valid_worker,
}
use stablecoin_gateway.Payout.Signing.{
  lease_of, has_id, update_payouts, update_one, updated_at_key, holds, holds_live,
}

pub record BroadcastClaim : Type 0 where
  pub payout_id : String
  pub worker_id : String
  pub lease_epoch : ℕ
  pub transaction : SignedTransaction

pub record ConfirmationClaim : Type 0 where
  pub payout_id : String
  pub worker_id : String
  pub lease_epoch : ℕ
  pub expires_at : ℕ
  pub transaction : SignedTransaction

abbrev pub or_empty : Option String → String
or_empty none = ""
or_empty (some s) = s

abbrev or_zero : Option ℕ → ℕ
or_zero none = 0
or_zero (some n) = n

-- A row past signing has both columns: a check of the table says so.
abbrev stored_transaction : Payout → SignedTransaction
stored_transaction p = record {
  id = or_empty p.transaction_id;
  payload = or_empty p.signed_transaction;
}

abbrev pub is_broadcast_candidate : (String → Bool) → ℕ → Payout → Bool
is_broadcast_candidate locked now p =
    has_status ready_for_broadcast p && is_free now p.lease && not (locked p.id)

abbrev pub claim_broadcast_row : String → ℕ → ℤ → Payout → Payout
claim_broadcast_row worker now duration p = record p {
  lease = lease_of worker now duration;
  lease_epoch = p.lease_epoch + 1;
  broadcast_attempts = p.broadcast_attempts + 1;
  updated_at = now;
}

-- `ClaimBroadcast`
unfoldable pub claim_broadcast : (String → Bool) → ℕ → String → ℤ → Tx BroadcastClaim
claim_broadcast locked now worker_id duration = do
  let worker = trim_space worker_id
  raise_if (not (valid_worker worker_id duration)) invalid_execution_claim
  db ← gets (λ db. db)
  p ←
      or_raise (first_by updated_at_key (is_broadcast_candidate locked now) db.payouts)
        no_broadcast_job
  modify (update_payouts (has_id p.id) (claim_broadcast_row worker now duration))
  pure (record {
    payout_id = p.id;
    worker_id = worker;
    lease_epoch = p.lease_epoch + 1;
    transaction = stored_transaction p;
  })

-- `NULLIF($5, '')`
abbrev non_empty : String → Option String
non_empty s = if text_eq s "" then none else some s

abbrev pub broadcasted_row : String → String → ℕ → Payout → Payout
broadcasted_row result failure_code now p = record p {
  status = confirming;
  broadcasted_at = some now;
  broadcast_result = some result;
  next_confirmation_at = some now;
  last_execution_error = non_empty failure_code;
  lease = none;
  updated_at = now;
}

-- `BeginConfirmation`
unfoldable pub begin_confirmation : ℕ → BroadcastClaim → String → String → Tx (Unit {0})
unfolding update_one
begin_confirmation now b result failure_code = do
  raise_if (not (valid_claim b.payout_id b.worker_id b.lease_epoch)) invalid_execution_claim
  raise_if (not (text_eq result "accepted" || text_eq result "unknown")) invalid_execution_claim
  raise_if (not (text_eq result "accepted" || is_failure_code (trim_space failure_code)))
      invalid_execution_claim
  update_one (holds_live now ready_for_broadcast b.payout_id b.worker_id b.lease_epoch)
      (broadcasted_row result (if text_eq result "accepted" then "" else trim_space failure_code)
        now)
      execution_lease_lost

abbrev is_due : ℕ → Option ℕ → Bool
is_due now none = false
is_due now (some at) = leb at now

abbrev pub is_confirmation_candidate : (String → Bool) → ℕ → Payout → Bool
is_confirmation_candidate locked now p =
    has_status confirming p
    && is_due now p.next_confirmation_at
    && is_free now p.lease
    && not (locked p.id)

abbrev pub claim_confirmation_row : String → ℕ → ℤ → Payout → Payout
claim_confirmation_row worker now duration p = record p {
  lease = lease_of worker now duration;
  lease_epoch = p.lease_epoch + 1;
  confirmation_attempts = p.confirmation_attempts + 1;
  updated_at = now;
}

abbrev pub next_confirmation_key : Payout → ℕ
next_confirmation_key p = or_zero p.next_confirmation_at

-- `ClaimConfirmation`
unfoldable pub claim_confirmation : (String → Bool) → ℕ → String → ℤ → Tx ConfirmationClaim
claim_confirmation locked now worker_id duration = do
  let worker = trim_space worker_id
  raise_if (not (valid_worker worker_id duration)) invalid_execution_claim
  db ← gets (λ db. db)
  p ←
      or_raise (first_by next_confirmation_key (is_confirmation_candidate locked now) db.payouts)
        no_confirmation_job
  modify (update_payouts (has_id p.id) (claim_confirmation_row worker now duration))
  pure (record {
    payout_id = p.id;
    worker_id = worker;
    lease_epoch = p.lease_epoch + 1;
    expires_at = or_zero p.transaction_expires_at;
    transaction = stored_transaction p;
  })

abbrev is_positive_duration : ℤ → Bool
is_positive_duration (pos n) = ltb 0 n
is_positive_duration _ = false

abbrev pub delayed_row : ℕ → ℤ → String → Payout → Payout
delayed_row now delay failure_code p = record p {
  next_confirmation_at = some (now + milliseconds delay);
  last_execution_error = non_empty failure_code;
  lease = none;
  updated_at = now;
}

-- `ReleaseConfirmation`
unfoldable pub release_confirmation : ℕ → ConfirmationClaim → ℤ → String → Tx (Unit {0})
unfolding update_one
release_confirmation now f delay failure_code = do
  raise_if (not (valid_claim f.payout_id f.worker_id f.lease_epoch && is_positive_duration delay))
      invalid_execution_claim
  raise_if (not (text_eq (trim_space failure_code) "" || is_failure_code (trim_space failure_code)))
      invalid_execution_claim
  update_one (holds confirming f.payout_id f.worker_id f.lease_epoch)
      (delayed_row now delay (trim_space failure_code)) execution_lease_lost
