-- ===== src/Payout/Reviews/Writes.antt =====
-- The writes of a review: the release of the frozen amount, the rows, the audit and the event.
use Prim.Native.String.{◌++◌ as text_append}
use stablecoin_gateway.Prelude.{
  ℕ, String, ◌≡◌, refl, Bool, true, false, none, some, ◌∷◌, leb, arith, ok, Outcome-cases,
  Option-cases, Bool-cases, inl, inr, count_where, update_where, find, any, text_eq, if◌then◌else◌,
  ◌==◌,
}
use stablecoin_gateway.Ledger.Booking.{Books, post_in_transaction-Books}
use stablecoin_gateway.Ledger.Repository.{Account, Journal, PostResult, post_in_transaction}
use stablecoin_gateway.Outbox.Enqueue.{PendingEvent, enqueue_in_transaction}
use stablecoin_gateway.Tron.Address.{normalize_address_base58}
use stablecoin_gateway.Payout.State.{
  pending_review, approved, rejected, job_closed, ScreeningJob, Payout, Asset, Database, has_status,
}
use stablecoin_gateway.Payout.Signing.{has_id, update_one}
use stablecoin_gateway.Payout.Accounts.{
  account_balance, frozen_account, available_account, parse_amount,
}
use stablecoin_gateway.Payout.Posting.{post_to_ledger, enqueue}
use stablecoin_gateway.Payout.Review.{
  ReviewRequest, ReviewResult, is_screening_allowed, reviewed_row, is_pending_review, is_open_job,
  is_later_job, audit_row, close_job, record_audit, unfreeze_transaction, ReviewEnvironment,
  enqueue_payout_rejected, unfreeze_rejected_payout, mark_reviewed, has_audit, rejected_payload,
}

module _ (env : ReviewEnvironment) (now : ℕ) where
  -- A rejection's release: the ledger transaction that debits the frozen account, whose balance
  -- covers it, and credits the available one.
  pub record Unfreezes (r : ReviewRequest) (p : Payout) (j j' : Journal) (id : String)
      : Type 0 where
    pub amount : ℕ
    pub balance : ℕ
    pub frozen : Account
    pub available : Account
    pub result : PostResult
    pub amount_is : parse_amount p.amount ≡ some amount
    pub frozen_is : frozen_account j p ≡ some frozen
    pub available_is : available_account j p ≡ some available
    pub balance_is : account_balance j frozen.id ≡ some balance
    pub covered : leb amount balance ≡ true
    pub booked :
        Books env.digest
          (record {
            id = env.journal_id;
            requester_type = "operator";
            requester_id = r.reviewer;
            idempotency_key = text_append "payout-unfreeze:" r.payout_id;
            reference_type = "payout_unfreeze";
            reference_id = r.payout_id;
            debited = frozen.id;
            credited = available.id;
            asset_id = p.asset_id;
            amount = amount;
          })
          j
          j'
          result
    pub is_its_id : id ≡ result.transaction_id

  -- An approval needs a screening that allows the payout now and touches neither ledger nor outbox;
  -- a rejection releases the frozen amount and adds an event.
  pub data Decided (r : ReviewRequest) (p : Payout) (db db' : Database) (id : String)
      : Bool → Type 0 where
    approval :
        is_screening_allowed now r.payout_id db ≡ true
        → db'.journal ≡ db.journal
        → db'.outbox ≡ db.outbox
        → id ≡ ""
        → Decided r p db db' id true
    rejection :
        (event : PendingEvent)
        → Unfreezes r p db.journal db'.journal id
        → db'.outbox ≡ event ∷ db.outbox
        → event.topic ≡ "payout.rejected"
        → event.aggregate_id ≡ r.payout_id
        → Decided r p db db' id false

  -- The row of the payout after the decision.
  abbrev pub decided_row : Bool → ReviewRequest → String → Payout → Payout
  decided_row approves r id p = record p {
    status = elim approves [ true ↦ approved | false ↦ rejected ];
    reviewed_by = some r.reviewer;
    review_reason = some r.reason;
    reviewed_at = some now;
    unfreeze_transaction_id = if text_eq id "" then none else some id;
    updated_at = now;
  }

  abbrev pub closed_row : ScreeningJob → ScreeningJob
  closed_row j = record j { status = job_closed; lease = none; updated_at = now }

  -- The writes that both decisions make.
  pub record Records (approves : Bool) (r : ReviewRequest) (db db' : Database) (id : String)
      : Type 0 where
    pub one_row : count_where (is_pending_review r.payout_id) db.payouts ≡ 1
    pub updated :
        db'.payouts
        ≡ update_where (is_pending_review r.payout_id) (decided_row approves r id) db.payouts
    pub one_job : count_where (is_open_job r.payout_id) db.screening_jobs ≡ 1
    pub closed :
        db'.screening_jobs ≡ update_where (is_open_job r.payout_id) closed_row db.screening_jobs
    pub audited :
        db'.audits
        ≡ record {
          payout_id = r.payout_id;
          decision = r.decision;
          resulting_status = elim approves [ true ↦ approved | false ↦ rejected ];
          reviewer = r.reviewer;
          reason = r.reason;
          created_at = now;
        }
          ∷ db.audits
    pub results_kept : db'.screening_results ≡ db.screening_results

  -- A review that has changed a payout.
  pub record Reviews (approves : Bool) (r : ReviewRequest) (db db' : Database)
      (result : ReviewResult) : Type 0 where
    pub row : Payout
    pub found : find (has_id r.payout_id) db.payouts ≡ some row
    pub waiting : has_status pending_review row ≡ true
    pub records : Records approves r db db' result.unfreeze_transaction_id
    pub decided : Decided r row db db' result.unfreeze_transaction_id approves
    pub changed : result.changed ≡ true

  pub unfreeze_rejected_payout-Unfreezes :
      (r : ReviewRequest) (p : Payout) (db db' : Database) (id : String)
      → unfreeze_rejected_payout env now r p db ≡ (ok id, db')
      → Unfreezes r p db.journal db'.journal id × (db' ≡ record db { journal = db'.journal })
  unfolding unfreeze_rejected_payout post_to_ledger
  unfreeze_rejected_payout-Unfreezes r p db db' id h = elim (Option-cases (parse_amount p.amount)) [
    | inl e ↦ absurd (ground arith)
    | inr (amount, amount_is) ↦ elim (Option-cases (available_account db.journal p)) [
      | inl e ↦ absurd (ground arith)
      | inr (available, available_is) ↦ elim (Option-cases (frozen_account db.journal p)) [
        | inl e ↦ absurd (ground arith)
        | inr (frozen, frozen_is) ↦ elim (Option-cases (account_balance db.journal frozen.id)) [
          | inl e ↦ absurd (ground arith)
          | inr (balance, balance_is) ↦
              elim (Outcome-cases (
                post_in_transaction env.digest
                  (unfreeze_transaction env.journal_id r p amount frozen.id available.id)
                  db.journal)) [
                    | inr (x, j, refused) ↦ absurd (ground arith)
                    | inl (result, j, posted) ↦ (
                      record {
                        amount = amount;
                        balance = balance;
                        frozen = frozen;
                        available = available;
                        result = result;
                        amount_is = amount_is;
                        frozen_is = frozen_is;
                        available_is = available_is;
                        balance_is = balance_is;
                        covered = ground arith;
                        booked =
                            post_in_transaction-Books env.digest _ db.journal db'.journal result
                              (ground arith);
                        is_its_id = ground arith;
                      },
                      ground arith,
                    )
                  ]
        ]
      ]
    ]
  ]

  decided_rows :
      (approves : Bool) (r : ReviewRequest) (id : String) (db db' : Database)
      → db'.payouts
        ≡ update_where (is_pending_review r.payout_id) (reviewed_row approves r id now) db.payouts
      → db'.payouts
        ≡ update_where (is_pending_review r.payout_id) (decided_row approves r id) db.payouts
  decided_rows true r id db db' e = e
  decided_rows false r id db db' e = e

  audited_rows :
      (approves : Bool) (r : ReviewRequest) (db db' : Database)
      → db'.audits ≡ audit_row approves r now ∷ db.audits
      → db'.audits
        ≡ record {
          payout_id = r.payout_id;
          decision = r.decision;
          resulting_status = elim approves [ true ↦ approved | false ↦ rejected ];
          reviewer = r.reviewer;
          reason = r.reason;
          created_at = now;
        }
          ∷ db.audits
  audited_rows true r db db' e = e
  audited_rows false r db db' e = e

  pub mark_reviewed-Records :
      (approves : Bool) (r : ReviewRequest) (id : String) (db db' : Database)
      → mark_reviewed env now approves r id db ≡ (ok tt, db')
      → Records approves r db db' id × (db'.journal ≡ db.journal) × (db'.outbox ≡ db.outbox)
  unfolding mark_reviewed update_one close_job record_audit
  mark_reviewed-Records approves r id db db' h =
      elim (Bool-cases (count_where (is_pending_review r.payout_id) db.payouts == 1)) [
        | inr other ↦ absurd (ground arith)
        | inl one ↦ elim (Bool-cases (any (is_later_job now r.payout_id) db.screening_jobs)) [
          | inl later ↦ absurd (ground arith)
          | inr earlier ↦
              elim (Bool-cases (count_where (is_open_job r.payout_id) db.screening_jobs == 1)) [
                | inr other ↦ absurd (ground arith)
                | inl job ↦ elim (Bool-cases (has_audit r.payout_id db.audits)) [
                  | inl there ↦ absurd (ground arith)
                  | inr new ↦ (
                    record {
                      one_row = ground arith;
                      updated = decided_rows approves r id db db' (ground arith);
                      one_job = ground arith;
                      closed = ground arith;
                      audited = audited_rows approves r db db' (ground arith);
                      results_kept = ground arith;
                    },
                    ground arith,
                    ground arith,
                  )
                ]
              ]
        ]
      ]

  -- The event of a rejection.
  pub record Announces (r : ReviewRequest) (db db' : Database) : Type 0 where
    pub event : PendingEvent
    pub sent : db' ≡ record db { outbox = event ∷ db.outbox }
    pub topic : event.topic ≡ "payout.rejected"
    pub aggregate : event.aggregate_id ≡ r.payout_id

  pub enqueue_payout_rejected-Announces :
      (r : ReviewRequest) (p : Payout) (a : Asset) (id : String) (db db' : Database)
      → enqueue_payout_rejected env now (rejected_payload env now r p a id) db ≡ (ok tt, db')
      → Announces r db db'
  unfolding enqueue_payout_rejected enqueue enqueue_in_transaction
  enqueue_payout_rejected-Announces r p a id db db' h =
      elim (Option-cases (normalize_address_base58 env.sha256 p.destination_address)) [
        | inl e ↦ absurd (ground arith)
        | inr (destination, normalized) ↦ record {
          event = record {
            id = env.event_id;
            topic = "payout.rejected";
            aggregate_type = "payout";
            aggregate_id = r.payout_id;
            payload =
                env.encode (record (rejected_payload env now r p a id) {
                  destination_address = destination;
                });
          };
          sent = ground arith;
          topic = refl;
          aggregate = refl;
        }
      ]
