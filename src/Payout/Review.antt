-- ===== src/Payout/Review.antt =====
-- internal/payout/review.go: the review of a payout, which a rejection ends with the release of the
-- frozen balance.
mod Rows
unfoldable pub use Rows.*
use Prim.Native.String.{◌++◌ as text_append}
use stablecoin_gateway.Prelude.{
  ℕ, String, len, Bool, true, false, not, ◌&&◌, ◌||◌, Option, none, some, List, [], ◌∷◌, ltb, ◌==◌,
  if◌then◌else◌, pos, is_some, text_eq, trim_space, find, count_where, update_where, ok, err, pure,
  gets, or_raise, transaction, ◌>>=◌, ◌>>◌, raise_if,
}
use stablecoin_gateway.Tron.Address.{normalize_address_base58}
use stablecoin_gateway.Ledger.Transaction
use stablecoin_gateway.Ledger.Transaction.{Side}
use stablecoin_gateway.Ledger.Repository.{Payload}
use stablecoin_gateway.Payout.State.{
  Status, pending_review, approved, rejected, Payout, Asset, JobStatus, job_completed, job_closed,
  ScreeningJob, ScreeningResult, ReviewAudit, Database, invalid_amount, invalid_destination,
  ledger_unavailable, insufficient_frozen_balance, invalid_balance, payout_not_found,
  invalid_review, constraint_violated, payout_state_conflict, screening_approval_required, Tx,
  has_status, valid_uuid,
}
use stablecoin_gateway.Payout.Signing.{has_id, update_one, asset_of}
use stablecoin_gateway.Payout.Execution.{or_empty}
use stablecoin_gateway.Payout.Accounts.{
  account_balance, frozen_account, available_account, parse_amount,
}
use stablecoin_gateway.Payout.Posting.{post_to_ledger, enqueue}

-- Go's standard library and the random identities, as for the finalization of a payout.
pub record ReviewEnvironment : Type 0 where
  pub sha256 : List ℕ → List ℕ
  pub digest : Payload → String
  pub encode : RejectedPayload → String
  pub json_valid : String → Bool
  pub journal_id : String
  pub event_id : String

module _ (env : ReviewEnvironment) (now : ℕ) where
  -- `enqueuePayoutRejected`
  unfoldable pub enqueue_payout_rejected : RejectedPayload → Tx (Unit {0})
  enqueue_payout_rejected payload = do
    destination ←
        or_raise (normalize_address_base58 env.sha256 payload.destination_address)
          invalid_destination
    enqueue env.json_valid (record {
      id = env.event_id;
      topic = "payout.rejected";
      aggregate_type = "payout";
      aggregate_id = payload.payout_id;
      payload = env.encode (record payload { destination_address = destination });
    })

  -- `unfreezeRejectedPayout`
  unfoldable pub unfreeze_rejected_payout : ReviewRequest → Payout → Tx String
  unfreeze_rejected_payout r p = do
    amount ← or_raise (parse_amount p.amount) invalid_amount
    db ← gets (λ db. db)
    available ← or_raise (available_account db.journal p) ledger_unavailable
    frozen ← or_raise (frozen_account db.journal p) ledger_unavailable
    balance ← or_raise (account_balance db.journal frozen.id) invalid_balance
    raise_if (ltb balance amount) insufficient_frozen_balance
    result ←
        post_to_ledger env.digest
          (unfreeze_transaction env.journal_id r p amount frozen.id available.id)
    pure result.transaction_id

  abbrev pub unfreeze_unless : Bool → ReviewRequest → Payout → Tx String
  unfreeze_unless true r p = pure ""
  unfreeze_unless false r p = unfreeze_rejected_payout r p

  abbrev pub rejected_payload : ReviewRequest → Payout → Asset → String → RejectedPayload
  rejected_payload r p a unfreeze_id = record {
    payout_id = r.payout_id;
    merchant_id = p.merchant_id;
    merchant_reference = p.merchant_reference;
    asset_id = p.asset_id;
    network = a.network;
    destination_address = p.destination_address;
    amount = p.amount;
    status = rejected;
    ledger_transaction_id = unfreeze_id;
    reason_code = "manual_review_rejected";
    reviewed_at = now;
  }

  abbrev pub enqueue_unless : Bool → RejectedPayload → Tx (Unit {0})
  enqueue_unless true payload = pure tt
  enqueue_unless false payload = enqueue_payout_rejected payload

  -- The updates of the payout and of its screening job, and the audit.
  unfoldable pub mark_reviewed : Bool → ReviewRequest → String → Tx (Unit {0})
  mark_reviewed approves r unfreeze_id = do
    update_one (is_pending_review r.payout_id) (reviewed_row approves r unfreeze_id now)
        payout_state_conflict
    close_job now r.payout_id
    record_audit (audit_row approves r now)

  -- The writes of `Review` on a payout that waits for it.
  unfoldable pub write_review : Bool → ReviewRequest → Payout → Asset → Tx ReviewResult
  write_review approves r p a = do
    unfreeze_id ← unfreeze_unless approves r p
    mark_reviewed approves r unfreeze_id
    enqueue_unless approves (rejected_payload r p a unfreeze_id)
    pure (record {
      payout_id = r.payout_id;
      status = target_status approves;
      reviewer = r.reviewer;
      reason = r.reason;
      reviewed_at = now;
      unfreeze_transaction_id = unfreeze_id;
      changed = true;
    })

  -- The answer to a review of a payout that does not wait for one.
  abbrev pub answer_repeated : Bool → ReviewRequest → Payout → Tx ReviewResult
  answer_repeated approves r p = do
    raise_if (not (is_repeated approves r p)) payout_state_conflict
    reviewed_at ← or_raise p.reviewed_at payout_state_conflict
    pure (record {
      payout_id = r.payout_id;
      status = p.status;
      reviewer = or_empty p.reviewed_by;
      reason = or_empty p.review_reason;
      reviewed_at = reviewed_at;
      unfreeze_transaction_id = or_empty p.unfreeze_transaction_id;
      changed = false;
    })

  -- `Review` from the test of the screening on.
  unfoldable pub review_pending : Database → Bool → ReviewRequest → Payout → Asset → Tx ReviewResult
  review_pending db approves r p a = do
    raise_if (approves && not (is_screening_allowed now r.payout_id db)) screening_approval_required
    write_review approves r p a

  abbrev review_row : Database → Bool → ReviewRequest → Payout → Asset → Tx ReviewResult
  review_row db approves r p a =
      if has_status pending_review p
      then review_pending db approves r p a
      else answer_repeated approves r p

  -- The body of the database transaction of `Review`.
  unfoldable pub review_in_transaction : Bool → ReviewRequest → Tx ReviewResult
  review_in_transaction approves r = do
    db ← gets (λ db. db)
    p ← or_raise (find (has_id r.payout_id) db.payouts) payout_not_found
    a ← or_raise (asset_of db p) payout_not_found
    review_row db approves r p a

  -- `Review`
  unfoldable pub review : ReviewRequest → Tx ReviewResult
  review request = do
    let r = normalize_review_request request
    approves ← or_raise (validate_review_request r) invalid_review
    transaction (review_in_transaction approves r)
