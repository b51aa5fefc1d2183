-- ===== src/Payout/Creations.antt =====
-- What the creation of a payout has done, and what its repetition answers.
use Prim.Native.String.{◌++◌ as text_append}
use stablecoin_gateway.Prelude.{
  none, ℕ, String, ◌≡◌, true, false, some, ◌∷◌, ltb, arith, ok, Outcome-cases, Option-cases,
  Bool-cases, inl, inr, find, any, text_eq,
}
use stablecoin_gateway.Ledger.Booking.{Books, post_in_transaction-Books}
use stablecoin_gateway.Ledger.Repository.{Account, PostResult, post_in_transaction}
use stablecoin_gateway.Payout.State.{
  pending_review, job_pending, Payout, ScreeningJob, Asset, Merchant, Database,
}
use stablecoin_gateway.Payout.Accounts.{account_balance}
use stablecoin_gateway.Payout.Posting.{post_to_ledger}
use stablecoin_gateway.Payout.Create.{
  Request, Details, CreateResult, is_tron, existing_id, active_account, active_asset,
  freeze_transaction, payout_row, insert_payout, clashes, insert_job, Hashes, request_fingerprint,
  write_payout, create_new,
}

module _ (hashes : Hashes) (journal_id : String) (now : ℕ) where
  -- The row of a payout that waits for its review, and its open screening job.
  abbrev pub new_row : Request → ℕ → String → String → Payout
  new_row r amount hash freeze_id = record {
    id = r.id;
    merchant_id = r.merchant_id;
    idempotency_key = r.idempotency_key;
    merchant_reference = r.merchant_reference;
    request_hash = hash;
    asset_id = r.asset_id;
    destination_address = r.destination_address;
    amount = amount;
    status = pending_review;
    lease = none;
    lease_epoch = 0;
    signing_attempts = 0;
    broadcast_attempts = 0;
    confirmation_attempts = 0;
    transaction_id = none;
    signed_transaction = none;
    transaction_expires_at = none;
    broadcasted_at = none;
    broadcast_result = none;
    next_confirmation_at = none;
    confirmed_at = none;
    failed_at = none;
    failure_reason = none;
    settlement_transaction_id = none;
    unfreeze_transaction_id = none;
    last_execution_error = none;
    freeze_transaction_id = freeze_id;
    reviewed_by = none;
    review_reason = none;
    reviewed_at = none;
    created_at = now;
    updated_at = now;
  }

  abbrev pub new_job : Request → String → ScreeningJob
  new_job r network = record {
    payout_id = r.id;
    network = network;
    address = r.destination_address;
    status = job_pending;
    current_result_id = none;
    lease = none;
    lease_epoch = 0;
    attempts = 0;
    last_error = none;
    updated_at = now;
  }

  -- The writes of a creation: the freeze, the new payout and its screening job.
  pub record Writes (r : Request) (amount : ℕ) (a : Asset) (available_id frozen_id : String)
      (db db' : Database) (details : Details) : Type 0 where
    pub result : PostResult
    pub booked :
        Books hashes.digest
          (record {
            id = journal_id;
            requester_type = "merchant";
            requester_id = r.merchant_id;
            idempotency_key = text_append "payout-freeze:" r.idempotency_key;
            reference_type = "payout_freeze";
            reference_id = r.id;
            debited = available_id;
            credited = frozen_id;
            asset_id = r.asset_id;
            amount = amount;
          })
          db.journal
          db'.journal
          result
    pub new :
        any
          (clashes (new_row r amount (request_fingerprint hashes r) result.transaction_id))
          db.payouts
        ≡ false
    pub added :
        db'.payouts
        ≡ new_row r amount (request_fingerprint hashes r) result.transaction_id ∷ db.payouts
    pub queued : db'.screening_jobs ≡ new_job r a.network ∷ db.screening_jobs
    pub silent : db'.outbox ≡ db.outbox
    pub assets_kept : db'.assets ≡ db.assets
    pub merchants_kept : db'.merchants ≡ db.merchants
    pub results_kept : db'.screening_results ≡ db.screening_results
    pub answer : details ≡ record {
      id = r.id;
      merchant_reference = r.merchant_reference;
      asset_id = r.asset_id;
      network = a.network;
      contract_address = a.contract_address;
      symbol = a.symbol;
      decimals = a.decimals;
      destination_address = r.destination_address;
      amount = amount;
      status = pending_review;
      transaction_id = "";
      freeze_transaction_id = result.transaction_id;
      created_at = now;
      updated_at = now;
    }

  -- A creation: the merchant and the asset are active, the asset's network is a Tron network, and
  -- the balance of the merchant's active available account covers the amount.
  pub record Creates (r : Request) (amount : ℕ) (db db' : Database) (details : Details)
      : Type 0 where
    pub owner : Merchant
    pub asset : Asset
    pub available : Account
    pub frozen : Account
    pub balance : ℕ
    pub unknown : existing_id r (request_fingerprint hashes r) "" db.payouts ≡ ok ""
    pub merchant_is : find (λ m. text_eq m.id r.merchant_id) db.merchants ≡ some owner
    pub merchant_active : owner.is_active ≡ true
    pub asset_is : active_asset r db ≡ some asset
    pub on_tron : is_tron asset.network ≡ true
    pub available_is : active_account "available" r db.journal ≡ some available
    pub frozen_is : active_account "frozen" r db.journal ≡ some frozen
    pub balance_is : account_balance db.journal available.id ≡ some balance
    pub covered : ltb balance amount ≡ false
    pub writes : Writes r amount asset available.id frozen.id db db' details

  write_payout-Writes :
      (r : Request) (amount : ℕ) (a : Asset) (available_id frozen_id : String) (db db' : Database)
      (result : CreateResult)
      → write_payout hashes journal_id now r amount a available_id frozen_id db ≡ (ok result, db')
      → Writes r amount a available_id frozen_id db db' result.payout × (result.created ≡ true)
  unfolding write_payout post_to_ledger insert_payout insert_job
  write_payout-Writes r amount a available_id frozen_id db db' result h =
      elim (Outcome-cases (
        post_in_transaction hashes.digest
          (freeze_transaction journal_id r amount available_id frozen_id) db.journal)) [
            | inr (x, j, refused) ↦ absurd (ground arith)
            | inl (posted, j, done) ↦
                elim (Bool-cases (
                  any
                    (clashes (
                      payout_row r amount (request_fingerprint hashes r) posted.transaction_id now))
                    db.payouts)) [
                      | inl clash ↦ absurd (ground arith)
                      | inr free ↦
                          elim (Bool-cases
                            (any (λ k. text_eq k.payout_id r.id) db.screening_jobs)) [
                              | inl clash ↦ absurd (ground arith)
                              | inr no_job ↦ (
                                record {
                                  result = posted;
                                  booked =
                                      post_in_transaction-Books hashes.digest _ db.journal
                                        db'.journal posted (ground arith);
                                  new = free;
                                  added = ground arith;
                                  queued = ground arith;
                                  silent = ground arith;
                                  assets_kept = ground arith;
                                  merchants_kept = ground arith;
                                  results_kept = ground arith;
                                  answer = ground arith;
                                },
                                ground arith,
                              )
                            ]
                    ]
          ]

  pub create_new-Creates :
      (r : Request) (amount : ℕ) (owner : Merchant) (db db' : Database) (result : CreateResult)
      → existing_id r (request_fingerprint hashes r) "" db.payouts ≡ ok ""
      → find (λ m. text_eq m.id r.merchant_id) db.merchants ≡ some owner
      → create_new hashes journal_id now r amount owner.is_active db ≡ (ok result, db')
      → Creates r amount db db' result.payout × (result.created ≡ true)
  unfolding create_new
  create_new-Creates r amount owner db db' result unknown merchant_is h =
      elim (Bool-cases owner.is_active) [
        | inr closed ↦ absurd (ground arith)
        | inl merchant_active ↦ elim (Option-cases (active_asset r db)) [
          | inl e ↦ absurd (ground arith)
          | inr (asset, asset_is) ↦ elim (Bool-cases (is_tron asset.network)) [
            | inr other ↦ absurd (ground arith)
            | inl on_tron ↦ elim (Option-cases (active_account "available" r db.journal)) [
              | inl e ↦ absurd (ground arith)
              | inr (available, available_is) ↦
                  elim (Option-cases (active_account "frozen" r db.journal)) [
                    | inl e ↦ absurd (ground arith)
                    | inr (frozen, frozen_is) ↦
                        elim (Option-cases (account_balance db.journal available.id)) [
                          | inl e ↦ absurd (ground arith)
                          | inr (balance, balance_is) ↦ elim (Bool-cases (ltb balance amount)) [
                            | inl short ↦ absurd (ground arith)
                            | inr covered ↦
                                let written =
                                  write_payout-Writes r amount asset available.id frozen.id db db'
                                    result (ground arith) in
                                (
                                  record {
                                    owner = owner;
                                    asset = asset;
                                    available = available;
                                    frozen = frozen;
                                    balance = balance;
                                    unknown = unknown;
                                    merchant_is = merchant_is;
                                    merchant_active = merchant_active;
                                    asset_is = asset_is;
                                    on_tron = on_tron;
                                    available_is = available_is;
                                    frozen_is = frozen_is;
                                    balance_is = balance_is;
                                    covered = covered;
                                    writes = written.0;
                                  },
                                  written.1,
                                )
                          ]
                        ]
                  ]
            ]
          ]
        ]
      ]
