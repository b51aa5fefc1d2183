-- ===== src/Payout/Settlement.antt =====
-- What a payout that reaches a terminal state has done to the ledger and to the outbox.
use Prim.Native.String.{◌++◌ as text_append}
use stablecoin_gateway.Prelude.{
  ℕ, String, ◌≡◌, refl, Bool, true, false, none, some, ◌∷◌, arith, ◌==◌, ◌⊎◌, Result-cases, ok, err,
  Outcome-cases, Option-cases, Bool-cases, inl, inr, count_where, update_where, find,
}
use stablecoin_gateway.Tron.Address.{normalize_address_base58}
use stablecoin_gateway.Ledger.Booking.{Movement, Books, post_in_transaction-Books}
use stablecoin_gateway.Ledger.Repository.{Account, Journal, PostResult, post_in_transaction}
use stablecoin_gateway.Outbox.Enqueue.{PendingEvent, enqueue_in_transaction}
use stablecoin_gateway.Payout.State.{confirming, succeeded, failed, Payout, Database, Error}
use stablecoin_gateway.Payout.Signing.{holds_live, asset_of}
use stablecoin_gateway.Payout.Execution.{ConfirmationClaim, or_empty}
use stablecoin_gateway.Payout.Accounts.{
  frozen_account, available_account, custody_account, parse_amount,
}
use stablecoin_gateway.Payout.Posting.{post_to_ledger, enqueue}
use stablecoin_gateway.Payout.Finalization.{
  Environment, is_fenced, final_row, final_status, topic, credit_account, has_balance,
  terminal_transaction, Terminal, write_terminal, enqueue_terminal, finalize_in_transaction,
  finalize_confirmation,
}

module _ (env : Environment) (now : ℕ) (f : ConfirmationClaim) (success : Bool)
    (reason : String) where
  abbrev fenced_rows : Payout → Bool
  fenced_rows = is_fenced f.payout_id f.worker_id f.lease_epoch

  -- The amount that leaves the frozen account, by a settlement or by a release.
  abbrev pub settlement : Payout → Terminal → Movement
  settlement p t = record {
    id = env.journal_id;
    requester_type = "system";
    requester_id = "payout-confirmation";
    idempotency_key =
        text_append
          (text_append
            (elim success [ true ↦ "payout_settlement" | false ↦ "payout_failure_release" ]) ":")
          f.payout_id;
    reference_type = elim success [ true ↦ "payout_settlement" | false ↦ "payout_failure_release" ];
    reference_id = f.payout_id;
    debited = t.debit.id;
    credited = t.credit.id;
    asset_id = p.asset_id;
    amount = t.amount;
  }

  -- The row of the payout in its terminal state, without a lease.
  abbrev pub settled : String → Payout → Payout
  settled id p = elim success [
    | true ↦ record p {
      status = succeeded;
      settlement_transaction_id = some id;
      confirmed_at = some now;
      lease = none;
      last_execution_error = none;
      updated_at = now;
    }
    | false ↦ record p {
      status = failed;
      unfreeze_transaction_id = some id;
      failed_at = some now;
      failure_reason = some reason;
      lease = none;
      last_execution_error = none;
      updated_at = now;
    }
  ]

  -- The writes of a finalization that succeeded: the ledger transaction, the update of one row and
  -- an event.
  pub record Writes (p : Payout) (t : Terminal) (db db' : Database) : Type 0 where
    pub result : PostResult
    pub event : PendingEvent
    pub booked : Books env.digest (settlement p t) db.journal db'.journal result
    pub one_row : count_where fenced_rows db.payouts ≡ 1
    pub updated : db'.payouts ≡ update_where fenced_rows (settled result.transaction_id) db.payouts
    pub enqueued : db'.outbox ≡ event ∷ db.outbox
    pub topic_sent :
        event.topic ≡ (elim success [ true ↦ "payout.succeeded" | false ↦ "payout.failed" ])
    pub aggregate_sent : event.aggregate_id ≡ f.payout_id

  write_terminal-Writes :
      (p : Payout) (t : Terminal) (db db' : Database)
      → write_terminal env now f success reason p t db ≡ (ok tt, db')
      → Writes p t db db'
  unfolding write_terminal post_to_ledger enqueue_terminal enqueue enqueue_in_transaction
  write_terminal-Writes p t db db' h =
      elim (Outcome-cases (
        post_in_transaction env.digest
          (terminal_transaction success env.journal_id f.payout_id p t.amount t.debit.id
            t.credit.id)
          db.journal)) [
            | inl (r, j, posted) ↦ elim (Bool-cases (count_where fenced_rows db.payouts == 1)) [
              | inl one ↦ record {
                result = r;
                event = record {
                  id = env.event_id;
                  topic = topic success;
                  aggregate_type = "payout";
                  aggregate_id = f.payout_id;
                  payload = env.encode (record {
                    payout_id = f.payout_id;
                    merchant_id = p.merchant_id;
                    merchant_reference = p.merchant_reference;
                    asset_id = p.asset_id;
                    network = t.network;
                    destination_address = t.destination;
                    amount = p.amount;
                    status = final_status success;
                    transaction_id = or_empty p.transaction_id;
                    ledger_transaction_id = r.transaction_id;
                    failure_reason = reason;
                  });
                };
                booked =
                    post_in_transaction-Books env.digest (settlement p t) db.journal db'.journal r
                      (ground arith);
                one_row = ground arith;
                updated = ground arith;
                enqueued = ground arith;
                topic_sent = refl;
                aggregate_sent = refl;
              }
              | inr other ↦ absurd (ground arith)
            ]
            | inr (x, j, refused) ↦ absurd (ground arith)
          ]

  -- A finalization that succeeded: the leased row in confirmation, an amount that is a positive
  -- `int64`, its open accounts, a frozen balance that covers it, and the writes.
  pub record Finalizes (db db' : Database) : Type 0 where
    pub row : Payout
    pub reads : Terminal
    pub found :
        find (holds_live now confirming f.payout_id f.worker_id f.lease_epoch) db.payouts ≡ some row
    pub amount : parse_amount row.amount ≡ some reads.amount
    pub frozen : frozen_account db.journal row ≡ some reads.debit
    pub credit :
        (elim success [
          | true ↦ custody_account db.journal row
          | false ↦ available_account db.journal row
        ])
        ≡ some reads.credit
    pub covered : has_balance env db.journal reads.debit reads.amount ≡ true
    pub writes : Writes row reads db db'

  credited_to :
      (j : Journal) (p : Payout) (a : Account)
      → credit_account success j p ≡ some a
      → (elim success [ true ↦ custody_account j p | false ↦ available_account j p ]) ≡ some a
  credited_to j p a h = elim (Bool-cases success) [
    | inl done ↦ ground arith
    | inr undone ↦ ground arith
  ]

  finalize_in_transaction-Finalizes :
      (db db' : Database)
      → finalize_in_transaction env now f success reason db ≡ (ok tt, db')
      → Finalizes db db'
  unfolding finalize_in_transaction
  finalize_in_transaction-Finalizes db db' h =
      elim (Option-cases
        (find (holds_live now confirming f.payout_id f.worker_id f.lease_epoch) db.payouts)) [
          | inl e ↦ absurd (ground arith)
          | inr (row, found) ↦ elim (Option-cases (asset_of db row)) [
            | inl e ↦ absurd (ground arith)
            | inr (asset, asset_found) ↦ elim (Option-cases (parse_amount row.amount)) [
              | inl e ↦ absurd (ground arith)
              | inr (amount, amount_valid) ↦
                  elim (Option-cases
                    (normalize_address_base58 env.sha256 row.destination_address)) [
                      | inl e ↦ absurd (ground arith)
                      | inr (destination, normalized) ↦
                          elim (Option-cases (frozen_account db.journal row)) [
                            | inl e ↦ absurd (ground arith)
                            | inr (debit, frozen) ↦
                                elim (Option-cases (credit_account success db.journal row)) [
                                  | inl e ↦ absurd (ground arith)
                                  | inr (credit, credited) ↦
                                      elim (Bool-cases (has_balance env db.journal debit amount)) [
                                        | inl covered ↦
                                            let t : Terminal = record {
                                              network = asset.network;
                                              destination = destination;
                                              amount = amount;
                                              debit = debit;
                                              credit = credit;
                                            } in
                                            record {
                                              row = row;
                                              reads = t;
                                              found = found;
                                              amount = amount_valid;
                                              frozen = frozen;
                                              credit = credited_to db.journal row credit credited;
                                              covered = covered;
                                              writes =
                                                  write_terminal-Writes row t db db' (ground arith);
                                            }
                                        | inr short ↦ absurd (ground arith)
                                      ]
                                ]
                          ]
                    ]
            ]
          ]
        ]

  pub finalize_confirmation-Finalizes :
      (db : Database)
      → ((x : Error)
          → (finalize_confirmation env now f success reason db).0 ≡ err x
          → (finalize_confirmation env now f success reason db).1 ≡ db)
        × ((finalize_confirmation env now f success reason db).0 ≡ ok tt
            → Finalizes db (finalize_confirmation env now f success reason db).1)
  unfolding finalize_confirmation
  finalize_confirmation-Finalizes db =
      elim (Outcome-cases (finalize_in_transaction env now f success reason db)) [
        | inl (u, db', h) ↦ (
          λ x e. ground arith,
          λ e.
              let done : (finalize_confirmation env now f success reason db).1 ≡ db' =
                ground arith in
              rw done (finalize_in_transaction-Finalizes db db' h),
        )
        | inr (x, db', h) ↦ (λ y e. ground arith, λ e. absurd (ground arith))
      ]

  -- A call of `finalizeConfirmation` that fails leaves the database as it was. One that succeeds has
  -- found the claimed row leased and in confirmation, with an amount that is a positive `int64` and
  -- that the frozen balance of the merchant covers; the journal has gained a posted transaction
  -- with a debit of that amount on the frozen account and a credit on the custody account (success)
  -- or the available account (failure), or is left as an earlier posting of the same request, under
  -- the same key or reference, has made it; the call has made the payout's one row succeeded or failed, without a lease and with the ledger transaction's identity, and
  -- added one event of the outcome's topic to the outbox.
  pub finalize_confirmation_ends :
      (db : Database)
      → ((x : Error) × (finalize_confirmation env now f success reason db ≡ (err x, db)))
        ⊎ ((finalize_confirmation env now f success reason db).0 ≡ ok tt)
          × Finalizes db (finalize_confirmation env now f success reason db).1
  finalize_confirmation_ends db =
      let ends = finalize_confirmation-Finalizes db in
      elim (Result-cases (finalize_confirmation env now f success reason db).0) [
        | inl (u, done) ↦ inr (done, ends.1 done)
        | inr (x, refused) ↦ inl (x, λ i. (refused i, ends.0 x refused i))
      ]

pub settled_is :
    (env : Environment) (now : ℕ) (f : ConfirmationClaim) (success : Bool) (reason id : String)
    → settled env now f success reason id ≡ final_row success id reason now
settled_is env now f true reason id = refl
settled_is env now f false reason id = refl
