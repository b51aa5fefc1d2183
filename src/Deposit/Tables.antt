-- ===== src/Deposit/Tables.antt =====
-- The tables that the matching of deposits reads and writes, and its errors.
use stablecoin_gateway.Prelude.{ℕ, String, Bool, Option, List, Action}
use stablecoin_gateway.Lease.{Lease}
use stablecoin_gateway.Ledger.Transaction
use stablecoin_gateway.Ledger.Repository.{Journal}
use stablecoin_gateway.Outbox.Enqueue.{PendingEvent}
use stablecoin_gateway.Indexer.Cursor.{ChainEvent}
use stablecoin_gateway.Payout.State.{Asset, Merchant, JobStatus}

pub data IntentStatus : Type 0 where
  pending partially_paid paid overpaid expired underpaid : IntentStatus

-- A row of `deposit_intents`; amounts are whole numbers of the asset's smallest unit.
pub record Intent : Type 0 where
  pub id : String
  pub merchant_id : String
  pub asset_id : String
  pub merchant_reference : String
  pub address_id : String
  pub created_at : ℕ
  pub expires_at : ℕ
  pub expected_amount : ℕ
  pub received_amount : ℕ
  pub status : IntentStatus
  pub ledger_transaction_id : Option String
  pub credited_amount : Option ℕ
  pub credited_at : Option ℕ
  pub updated_at : ℕ

-- A row of `deposit_addresses`.
pub record Address : Type 0 where
  pub id : String
  pub asset_id : String
  pub merchant_id : String
  pub address : String
  pub is_active : Bool

-- A row of `deposit_screening_jobs`.
pub record Job : Type 0 where
  pub id : String
  pub network : String
  pub contract : String
  pub transaction_id : String
  pub log_index : ℕ
  pub status : JobStatus
  pub current_result_id : Option String
  pub lease : Option Lease
  pub updated_at : ℕ

-- A row of `deposit_screening_results`.
pub record ScreeningAnswer : Type 0 where
  pub id : String
  pub decision : String
  pub valid_until : ℕ

-- A row of `deposit_event_matches`; `reason` is null in a row whose status is matched.
pub record EventMatch : Type 0 where
  pub network : String
  pub contract : String
  pub transaction_id : String
  pub log_index : ℕ
  pub address_id : String
  pub intent_id : Option String
  pub is_matched : Bool
  pub reason : Option String
  pub amount : ℕ

pub record Database : Type 0 where
  pub events : List ChainEvent
  pub assets : List Asset
  pub addresses : List Address
  pub merchants : List Merchant
  pub jobs : List Job
  pub answers : List ScreeningAnswer
  pub matches : List EventMatch
  pub intents : List Intent
  pub journal : Journal
  pub outbox : List PendingEvent

pub data Error : Type 0 where
  invalid_amount intent_changed already_credited job_changed : Error
  invalid_decision invalid_limit invalid_event constraint_violated : Error
  ledger : Transaction.Error → Error

abbrev pub Tx : Type 0 → Type 0
Tx = Action Database Error
