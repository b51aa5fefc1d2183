-- ===== src/Tron/Types.antt =====
-- internal/chain/tron/types.go: blocks, events, execution results and signed transactions.
use stablecoin_gateway.Prelude.{ℕ, String, Bool, Option, List}

-- `timestamp` is in milliseconds; `none` is the zero time.
pub record Header : Type 0 where
  pub height : ℕ
  pub hash : String
  pub parent_hash : String
  pub timestamp : Option ℕ

pub record EventId : Type 0 where
  pub network : String
  pub contract : String
  pub transaction_id : String
  pub log_index : ℕ

pub record Transfer : Type 0 where
  pub id : EventId
  pub from : String
  pub to : String
  pub amount : String

-- `unknown` is any value of the `uint8` but the two constants.
pub data ExecutionOutcome : Type 0 where
  succeeded failed : ExecutionOutcome
  unknown : ℕ → ExecutionOutcome

pub record Receipt : Type 0 where
  pub transaction_id : String
  pub outcome : ExecutionOutcome

pub record Block : Type 0 where
  pub header : Header
  pub receipts : List Receipt
  pub transfers : List Transfer

pub data TransactionStatus : Type 0 where
  not_found pending succeeded failed : TransactionStatus

-- `block` is `none` where the source leaves the zero header.
pub record TransactionState : Type 0 where
  pub status : TransactionStatus
  pub block : Option Header
  pub solidified : Bool

pub record SignedTransaction : Type 0 where
  pub id : String
  pub payload : String
