-- ===== src/Payout/Approvals.antt =====
-- The conditions under which a review approves a payout.
use stablecoin_gateway.Prelude.{
  ℕ, ◌≡◌, true, false, some, ◌∷◌, arith, ok, none, any, ltb, ◌&&◌, count_where, update_where, find,
}
use stablecoin_gateway.Payout.State.{
  pending_review, approved, job_closed, Payout, Asset, Database, ScreeningJob, ReviewAudit,
  has_status, payout_state_conflict,
}
use stablecoin_gateway.Payout.Signing.{has_id, asset_of, update_one}
use stablecoin_gateway.Payout.Review.{
  ReviewRequest, ReviewEnvironment, normalize_review_request, validate_review_request,
  is_screening_allowed, reviewed_row, is_pending_review, is_open_job, close_job, audit_row,
  has_audit, record_audit, mark_reviewed, write_review, review_pending, review_in_transaction,
  review,
}

module _ (env : ReviewEnvironment) (now : ℕ) where
  -- A payout that waits for its review, with its asset, its one open screening job, which was last
  -- updated not later than now, a screening that allows it now, and no audit yet.
  pub record IsApprovable (r : ReviewRequest) (p : Payout) (a : Asset) (db : Database)
      : Type 0 where
    pub valid : validate_review_request r ≡ some true
    pub found : find (has_id r.payout_id) db.payouts ≡ some p
    pub asset : asset_of db p ≡ some a
    pub waiting : has_status pending_review p ≡ true
    pub allowed : is_screening_allowed now r.payout_id db ≡ true
    pub one_row : count_where (is_pending_review r.payout_id) db.payouts ≡ 1
    pub in_time :
        any (λ j. is_open_job r.payout_id j && ltb now j.updated_at) db.screening_jobs ≡ false
    pub one_job : count_where (is_open_job r.payout_id) db.screening_jobs ≡ 1
    pub no_audit : has_audit r.payout_id db.audits ≡ false

  abbrev pub approved_row : ReviewRequest → Payout → Payout
  approved_row r p = record p {
    status = approved;
    reviewed_by = some r.reviewer;
    review_reason = some r.reason;
    reviewed_at = some now;
    unfreeze_transaction_id = none;
    updated_at = now;
  }

  abbrev pub job_without_work : ScreeningJob → ScreeningJob
  job_without_work j = record j { status = job_closed; lease = none; updated_at = now }

  abbrev pub approval_audit : ReviewRequest → ReviewAudit
  approval_audit r = record {
    payout_id = r.payout_id;
    decision = r.decision;
    resulting_status = approved;
    reviewer = r.reviewer;
    reason = r.reason;
    created_at = now;
  }

  abbrev pub approved_database : ReviewRequest → Database → Database
  approved_database r db = record db {
    payouts = update_where (is_pending_review r.payout_id) (approved_row r) db.payouts;
    screening_jobs = update_where (is_open_job r.payout_id) job_without_work db.screening_jobs;
    audits = approval_audit r ∷ db.audits;
  }

  module _ (r : ReviewRequest) (p : Payout) (a : Asset) (db : Database)
      (ready : IsApprovable r p a db) where
    open ready use {one_row, in_time, one_job, no_audit}

    abbrev with_row : Database
    with_row = record db {
      payouts = update_where (is_pending_review r.payout_id) (approved_row r) db.payouts;
    }

    abbrev with_job : Database
    with_job = record with_row {
      screening_jobs = update_where (is_open_job r.payout_id) job_without_work db.screening_jobs;
    }

    row_set :
        update_one
          (is_pending_review r.payout_id)
          (reviewed_row true r "" now)
          payout_state_conflict
          db
        ≡ (ok tt, with_row)
    unfolding update_one
    row_set = ground arith

    job_closed_so : close_job now r.payout_id with_row ≡ (ok tt, with_job)
    unfolding close_job
    job_closed_so = ground arith

    audit_added : record_audit (audit_row true r now) with_job ≡ (ok tt, approved_database r db)
    unfolding record_audit
    audit_added = ground arith

    marked : mark_reviewed env now true r "" db ≡ (ok tt, approved_database r db)
    unfolding mark_reviewed
    marked = ground (arith, row_set, job_closed_so, audit_added)

  -- A review that approves succeeds where the payout waits for it and its conditions are met: it
  -- answers with the new state, makes the payout approved with the reviewer, the reason and the time,
  -- closes the screening job, adds the audit and changes nothing else. One of the conditions is that
  -- the clock is not behind the job's last update, which the trigger of its table refuses.
  pub review_approves :
      (request : ReviewRequest) (p : Payout) (a : Asset) (db : Database)
      → IsApprovable (normalize_review_request request) p a db
      → review env now request db ≡ (
        ok (record {
          payout_id = (normalize_review_request request).payout_id;
          status = approved;
          reviewer = (normalize_review_request request).reviewer;
          reason = (normalize_review_request request).reason;
          reviewed_at = now;
          unfreeze_transaction_id = "";
          changed = true;
        }),
        approved_database (normalize_review_request request) db,
      )
  unfolding review review_in_transaction review_pending write_review
  review_approves request p a db ready =
      let marks = marked (normalize_review_request request) p a db ready in
      ground (arith, marks, ready.valid, ready.found, ready.asset, ready.waiting, ready.allowed)
