-- ===== src/Payout/State/Tables.antt =====
-- The tables that the payout operations read and write, and the errors of these operations.
use stablecoin_gateway.Prelude.{ℕ, String, Bool, Option, List}
use stablecoin_gateway.Lease.{Lease}
use stablecoin_gateway.Ledger.Transaction
use stablecoin_gateway.Ledger.Repository.{Journal}
use stablecoin_gateway.Outbox.Enqueue.{PendingEvent}

pub data Status : Type 0 where
  pending_review approved ready_for_broadcast confirming succeeded failed rejected : Status

pub Status-discrete : Discrete Status
Status-discrete = hlevel

-- A row of `payouts`. Times are milliseconds of the database's clock.
pub record Payout : Type 0 where
  pub id : String
  pub merchant_id : String
  pub idempotency_key : String
  pub merchant_reference : String
  pub request_hash : String
  pub asset_id : String
  pub destination_address : String
  pub amount : ℕ
  pub status : Status
  pub lease : Option Lease
  pub lease_epoch : ℕ
  pub signing_attempts : ℕ
  pub broadcast_attempts : ℕ
  pub confirmation_attempts : ℕ
  pub transaction_id : Option String
  pub signed_transaction : Option String
  pub transaction_expires_at : Option ℕ
  pub broadcasted_at : Option ℕ
  pub broadcast_result : Option String
  pub next_confirmation_at : Option ℕ
  pub confirmed_at : Option ℕ
  pub failed_at : Option ℕ
  pub failure_reason : Option String
  pub settlement_transaction_id : Option String
  pub unfreeze_transaction_id : Option String
  pub last_execution_error : Option String
  pub freeze_transaction_id : String
  pub reviewed_by : Option String
  pub review_reason : Option String
  pub reviewed_at : Option ℕ
  pub created_at : ℕ
  pub updated_at : ℕ

pub record Asset : Type 0 where
  pub id : String
  pub network : String
  pub contract_address : String
  pub symbol : String
  pub decimals : ℕ
  pub is_active : Bool

pub record Merchant : Type 0 where
  pub id : String
  pub is_active : Bool

pub data JobStatus : Type 0 where
  job_pending job_processing job_completed job_closed : JobStatus

-- A row of `payout_screening_jobs`.
pub record ScreeningJob : Type 0 where
  pub payout_id : String
  pub network : String
  pub address : String
  pub status : JobStatus
  pub current_result_id : Option String
  pub lease : Option Lease
  pub lease_epoch : ℕ
  pub attempts : ℕ
  pub last_error : Option String
  pub updated_at : ℕ

-- A row of `payout_screening_results`; `decision` is one of allow, deny and review.
pub record ScreeningResult : Type 0 where
  pub id : String
  pub payout_id : String
  pub attempt : ℕ
  pub provider : String
  pub decision : String
  pub reason_codes : List String
  pub provider_reference : String
  pub response_hash : String
  pub checked_at : ℕ
  pub valid_until : ℕ

-- A row of `payout_review_audits`.
pub record ReviewAudit : Type 0 where
  pub payout_id : String
  pub decision : String
  pub resulting_status : Status
  pub reviewer : String
  pub reason : String
  pub created_at : ℕ

pub record Database : Type 0 where
  pub payouts : List Payout
  pub assets : List Asset
  pub journal : Journal
  pub outbox : List PendingEvent
  pub merchants : List Merchant
  pub screening_jobs : List ScreeningJob
  pub screening_results : List ScreeningResult
  pub audits : List ReviewAudit

pub data Error : Type 0 where
  no_signing_job invalid_signing_claim signing_lease_lost : Error
  invalid_signed_transaction signed_transaction_conflict : Error
  no_broadcast_job no_confirmation_job invalid_execution_claim execution_lease_lost : Error
  invalid_amount invalid_destination ledger_unavailable insufficient_frozen_balance : Error
  invalid_event invalid_balance : Error
  invalid_request payout_conflict payout_not_found merchant_unavailable : Error
  asset_unavailable unsupported_network insufficient_balance constraint_violated : Error
  row_missing invalid_review payout_state_conflict screening_approval_required : Error
  no_screening_job invalid_screening_claim screening_lease_lost invalid_result : Error
  ledger : Transaction.Error → Error
