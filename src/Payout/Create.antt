-- ===== src/Payout/Create.antt =====
-- internal/payout/store.go: the creation of a payout, which freezes its amount, and its details.
mod Requests
unfoldable pub use Requests.*
use Prim.Native.Char.{code}
use Prim.Native.String.{◌++◌ as text_append}
use stablecoin_gateway.Prelude.{
  ℕ, ◌+◌, String, len, Bool, true, false, not, ◌&&◌, ◌||◌, Option, none, some, List, [], ◌∷◌, ltb,
  leb, ◌==◌, if◌then◌else◌, max_int64, pos, text_eq, trim_space, find, any, Result, ok, err, pure,
  gets, or_raise, transaction, ◌>>=◌, ◌>>◌, raise_if,
}
use stablecoin_gateway.Tron.Address.{normalize_address, normalize_address_hex}
use stablecoin_gateway.Tron.Simulator.Blocks.{all_digits, decimal_value}
use stablecoin_gateway.Ledger.Transaction
use stablecoin_gateway.Ledger.Transaction.{Side}
use stablecoin_gateway.Ledger.Repository.{
  Payload, Account, AccountStatus, active, Journal, c, merchant,
}
use stablecoin_gateway.Payout.State.{
  Status, pending_review, Payout, Asset, job_pending, ScreeningJob, Database, Error,
  invalid_request, payout_conflict, payout_not_found, merchant_unavailable, asset_unavailable,
  unsupported_network, ledger_unavailable, invalid_balance, insufficient_balance,
  constraint_violated, row_missing, Tx, valid_uuid,
}
use stablecoin_gateway.Payout.Signing.{has_id, asset_of}
use stablecoin_gateway.Payout.Execution.{or_empty}
use stablecoin_gateway.Payout.Accounts.{account_balance, is_account}
use stablecoin_gateway.Payout.Posting.{post_to_ledger}

-- The query of `queryDetails`, with its join.
abbrev pub details_of : Payout → Asset → Details
details_of p a = record {
  id = p.id;
  merchant_reference = p.merchant_reference;
  asset_id = p.asset_id;
  network = a.network;
  contract_address = a.contract_address;
  symbol = a.symbol;
  decimals = a.decimals;
  destination_address = p.destination_address;
  amount = p.amount;
  status = p.status;
  transaction_id = or_empty p.transaction_id;
  freeze_transaction_id = p.freeze_transaction_id;
  created_at = p.created_at;
  updated_at = p.updated_at;
}

abbrev pub is_of_merchant : String → String → Payout → Bool
is_of_merchant merchant_id id p = text_eq p.merchant_id merchant_id && has_id id p

unfoldable pub query_details : String → String → Database → Option Details
query_details merchant_id id db = elim (find (is_of_merchant merchant_id id) db.payouts) [
  | none ↦ none
  | some p ↦ elim (asset_of db p) [ none ↦ none | some a ↦ some (details_of p a) ]
]

-- `Get`
unfoldable pub get : String → String → Tx Details
get merchant_id id = do
  db ← gets (λ db. db)
  or_raise (query_details merchant_id id db) payout_not_found

-- `WHERE merchant_id = $1 AND (idempotency_key = $2 OR merchant_reference = $3)`
abbrev pub is_same_request : Request → Payout → Bool
is_same_request r p =
    text_eq p.merchant_id r.merchant_id
    && (text_eq p.idempotency_key r.idempotency_key
        || text_eq p.merchant_reference r.merchant_reference)

-- The loop of `findExisting` over these rows; `existing` is the identity so far.
unfoldable pub existing_id : Request → String → String → List Payout → Result Error String
existing_id r hash existing [] = ok existing
existing_id r hash existing (p ∷ ps) =
    let skipped = existing_id r hash existing ps in
    let taken = existing_id r hash p.id ps in
    if not (is_same_request r p)
    then skipped
    else if not (text_eq p.request_hash hash)
        || (not (text_eq existing "") && not (text_eq existing p.id))
    then err payout_conflict
    else taken

-- `findExisting`; `none` is that there is no such payout.
unfoldable pub find_existing : Request → String → Tx (Option Details)
find_existing r hash db = elim (existing_id r hash "" db.payouts) [
  | err x ↦ (err x, db)
  | ok id ↦ if text_eq id "" then (ok none, db) else elim (query_details r.merchant_id id db) [
    | none ↦ (err row_missing, db)
    | some details ↦ (ok (some details), db)
  ]
]

abbrev is_active : AccountStatus → Bool
is_active active = true
is_active _ = false

-- The accounts that the amount is frozen between have to be active.
abbrev pub is_active_account : String → Request → Account → Bool
is_active_account account_code r a =
    is_account merchant r.merchant_id r.asset_id account_code c a && is_active a.status

abbrev pub active_account : String → Request → Journal → Option Account
active_account account_code r j = find (is_active_account account_code r) j.accounts

abbrev pub active_asset : Request → Database → Option Asset
active_asset r db = find (λ a. text_eq a.id r.asset_id && a.is_active) db.assets

abbrev pub freeze_transaction : String → Request → ℕ → String → String → Transaction.Transaction
freeze_transaction journal_id r amount available_id frozen_id = record {
  id = journal_id;
  requester_type = "merchant";
  requester_id = r.merchant_id;
  idempotency_key = text_append "payout-freeze:" r.idempotency_key;
  reference_type = "payout_freeze";
  reference_id = r.id;
  entries =
      record {
        account_id = available_id;
        asset_id = r.asset_id;
        side = Side.debit;
        amount = pos amount;
      }
      ∷ record {
        account_id = frozen_id;
        asset_id = r.asset_id;
        side = Side.credit;
        amount = pos amount;
      }
      ∷ [];
}

-- The row of the `INSERT INTO payouts`.
abbrev pub payout_row : Request → ℕ → String → String → ℕ → Payout
payout_row r amount hash freeze_id now = record {
  id = r.id;
  merchant_id = r.merchant_id;
  idempotency_key = r.idempotency_key;
  merchant_reference = r.merchant_reference;
  request_hash = hash;
  asset_id = r.asset_id;
  destination_address = r.destination_address;
  amount = amount;
  status = pending_review;
  lease = none;
  lease_epoch = 0;
  signing_attempts = 0;
  broadcast_attempts = 0;
  confirmation_attempts = 0;
  transaction_id = none;
  signed_transaction = none;
  transaction_expires_at = none;
  broadcasted_at = none;
  broadcast_result = none;
  next_confirmation_at = none;
  confirmed_at = none;
  failed_at = none;
  failure_reason = none;
  settlement_transaction_id = none;
  unfreeze_transaction_id = none;
  last_execution_error = none;
  freeze_transaction_id = freeze_id;
  reviewed_by = none;
  review_reason = none;
  reviewed_at = none;
  created_at = now;
  updated_at = now;
}

-- The primary key and the three unique constraints of `payouts`.
abbrev pub clashes : Payout → Payout → Bool
clashes p q =
    text_eq q.id p.id
    || (text_eq q.merchant_id p.merchant_id && text_eq q.idempotency_key p.idempotency_key)
    || (text_eq q.merchant_id p.merchant_id && text_eq q.merchant_reference p.merchant_reference)
    || text_eq q.freeze_transaction_id p.freeze_transaction_id

unfoldable pub insert_payout : Payout → Tx (Unit {0})
insert_payout p db =
    if any (clashes p) db.payouts
    then (err constraint_violated, db)
    else (ok tt, record db { payouts = p ∷ db.payouts })

abbrev pub screening_job : Request → String → ℕ → ScreeningJob
screening_job r network now = record {
  payout_id = r.id;
  network = network;
  address = r.destination_address;
  status = job_pending;
  current_result_id = none;
  lease = none;
  lease_epoch = 0;
  attempts = 0;
  last_error = none;
  updated_at = now;
}

unfoldable pub insert_job : ScreeningJob → Tx (Unit {0})
insert_job j db =
    if any (λ k. text_eq k.payout_id j.payout_id) db.screening_jobs
    then (err constraint_violated, db)
    else (ok tt, record db { screening_jobs = j ∷ db.screening_jobs })

-- Go's standard library: `sha256`, and the hexadecimal SHA-256 of the JSON of two payloads.
pub record Hashes : Type 0 where
  pub sha256 : List ℕ → List ℕ
  pub digest : Payload → String
  pub request_digest : Fingerprint → String

module _ (hashes : Hashes) where
  -- `requestFingerprint`
  unfoldable pub request_fingerprint : Request → String
  request_fingerprint r = hashes.request_digest (record {
    merchant_id = r.merchant_id;
    asset_id = r.asset_id;
    merchant_reference = r.merchant_reference;
    destination_address = r.destination_address;
    amount = r.amount;
  })

  -- The checks of `Create` before its database transaction: the request with its address in
  -- hexadecimal form, and its amount.
  unfoldable pub prepare : Request → Option (Request × ℕ)
  prepare request =
      let r = normalize_request request in
      elim (validate_request r) [
        | none ↦ none
        | some amount ↦ elim (normalize_address hashes.sha256 r.destination_address) [
          | none ↦ none
          | some checked ↦ elim (normalize_address_hex hashes.sha256 r.destination_address) [
            | none ↦ none
            | some address ↦ some (record r { destination_address = address }, amount)
          ]
        ]
      ]

  -- `journal_id` is what `identity.NewUUID` returned.
  module _ (journal_id : String) (now : ℕ) where
    -- The writes of `Create`: the ledger transaction, the payout and its screening job.
    unfoldable pub write_payout : Request → ℕ → Asset → String → String → Tx CreateResult
    write_payout r amount a available_id frozen_id = do
      result ←
          post_to_ledger hashes.digest
            (freeze_transaction journal_id r amount available_id frozen_id)
      let p = payout_row r amount (request_fingerprint r) result.transaction_id now
      insert_payout p
      insert_job (screening_job r a.network now)
      pure (record { payout = details_of p a; created = true })

    -- `Create` where no such payout exists.
    unfoldable pub create_new : Request → ℕ → Bool → Tx CreateResult
    create_new r amount merchant_active = do
      raise_if (not merchant_active) merchant_unavailable
      db ← gets (λ db. db)
      a ← or_raise (active_asset r db) asset_unavailable
      raise_if (not (is_tron a.network)) unsupported_network
      available ← or_raise (active_account "available" r db.journal) ledger_unavailable
      frozen ← or_raise (active_account "frozen" r db.journal) ledger_unavailable
      balance ← or_raise (account_balance db.journal available.id) invalid_balance
      raise_if (ltb balance amount) insufficient_balance
      write_payout r amount a available.id frozen.id

    abbrev pub answer_or_create : Request → ℕ → Bool → Option Details → Tx CreateResult
    answer_or_create r amount merchant_active (some details) =
        pure (record { payout = details; created = false })
    answer_or_create r amount merchant_active none = create_new r amount merchant_active

    -- The database transaction of `Create`.
    unfoldable pub create_in_transaction : Request → ℕ → Tx CreateResult
    create_in_transaction r amount = do
      db ← gets (λ db. db)
      m ← or_raise (find (λ m. text_eq m.id r.merchant_id) db.merchants) merchant_unavailable
      existing ← find_existing r (request_fingerprint r)
      answer_or_create r amount m.is_active existing

    -- `Create`
    unfoldable pub create : Request → Tx CreateResult
    create request = do
      (r, amount) ← or_raise (prepare request) invalid_request
      transaction (create_in_transaction r amount)
