-- ===== src/Payout/Reviews.antt =====
-- What a review has done, to the payout, its screening job, the audits, the ledger and the outbox.
mod Writes
pub use Writes.*
use mathlib.Core.Path.{subst}
use Prim.Native.String.{◌++◌ as text_append}
use stablecoin_gateway.Prelude.{
  ℕ, String, ◌≡◌, refl, sym, ap, ◌∙◌, Bool, true, false, none, some, ◌∷◌, leb, arith, ◌⊎◌, Result,
  ok, err, Outcome-cases, Option-cases, Bool-cases, inl, inr, count_where, update_where, find, any,
  text_eq, if◌then◌else◌, ◌==◌,
}
use stablecoin_gateway.Ledger.Booking.{Books, post_in_transaction-Books}
use stablecoin_gateway.Ledger.Repository.{Account, Journal, PostResult, post_in_transaction}
use stablecoin_gateway.Outbox.Enqueue.{PendingEvent, enqueue_in_transaction}
use stablecoin_gateway.Tron.Address.{normalize_address_base58}
use stablecoin_gateway.Payout.State.{
  pending_review, approved, rejected, job_closed, ScreeningJob, Payout, Asset, Database, Error,
  invalid_review, has_status,
}
use stablecoin_gateway.Payout.Signing.{has_id, asset_of, update_one}
use stablecoin_gateway.Payout.Accounts.{
  account_balance, frozen_account, available_account, parse_amount,
}
use stablecoin_gateway.Payout.Posting.{post_to_ledger, enqueue}
use stablecoin_gateway.Payout.Review.{
  ReviewRequest, ReviewResult, normalize_review_request, validate_review_request,
  is_screening_allowed, is_repeated, reviewed_row, is_pending_review, is_open_job, is_later_job,
  audit_row, close_job, record_audit, unfreeze_transaction, ReviewEnvironment,
  enqueue_payout_rejected, unfreeze_rejected_payout, mark_reviewed, has_audit, rejected_payload,
  write_review, review_pending, review_in_transaction, review,
}

module _ (env : ReviewEnvironment) (now : ℕ) where
  -- What `Review` has read of the payout before it writes.
  abbrev IsWaiting : Bool → ReviewRequest → Database → Payout → Type 0
  IsWaiting approves r db p =
      (find (has_id r.payout_id) db.payouts ≡ some p) × (has_status pending_review p ≡ true)

  approval-Reviews :
      (r : ReviewRequest) (p : Payout) (a : Asset) (db db' : Database) (result : ReviewResult)
      → IsWaiting true r db p
      → is_screening_allowed now r.payout_id db ≡ true
      → write_review env now true r p a db ≡ (ok result, db')
      → Reviews env now true r db db' result
  unfolding write_review
  approval-Reviews r p a db db' result waits allowed h =
      elim (Outcome-cases (mark_reviewed env now true r "" db)) [
        | inr (x, d, refused) ↦ absurd (ground arith)
        | inl (u, d, marked) ↦
            let marks = mark_reviewed-Records env now true r "" db d marked in
            let same : d ≡ db' = ground arith in
            let id : result.unfreeze_transaction_id ≡ "" = ground arith in
            record {
              row = p;
              found = waits.0;
              waiting = waits.1;
              records = rw (sym same, id) marks.0;
              decided = rw (sym same, id) (Decided.approval allowed marks.1 marks.2 refl);
              changed = ground arith;
            }
      ]

  carried :
      (r : ReviewRequest) (id : String) (db d m e : Database)
      → d ≡ record db { journal = d.journal }
      → Records env now false r d m id
      → Announces env now r m e
      → Records env now false r db e id
  carried r id db d m e paid marks told =
      let rows : d.payouts ≡ db.payouts = ap (λ x. x.payouts) paid in
      let jobs : d.screening_jobs ≡ db.screening_jobs = ap (λ x. x.screening_jobs) paid in
      let audits : d.audits ≡ db.audits = ap (λ x. x.audits) paid in
      record {
        one_row = sym (ap (count_where (is_pending_review r.payout_id)) rows) ∙ marks.one_row;
        updated =
            ap (λ x. x.payouts) told.sent
            ∙ marks.updated
            ∙ ap (update_where (is_pending_review r.payout_id) (decided_row env now false r id))
                rows;
        one_job = sym (ap (count_where (is_open_job r.payout_id)) jobs) ∙ marks.one_job;
        closed =
            ap (λ x. x.screening_jobs) told.sent
            ∙ marks.closed
            ∙ ap (update_where (is_open_job r.payout_id) (closed_row env now)) jobs;
        audited =
            ap (λ x. x.audits) told.sent ∙ marks.audited ∙ ap (◌∷◌ (audit_row false r now)) audits;
        results_kept =
            ap (λ x. x.screening_results) told.sent
            ∙ marks.results_kept
            ∙ ap (λ x. x.screening_results) paid;
      }

  decided_so :
      (r : ReviewRequest) (p : Payout) (id : String) (db d m e : Database)
      → Unfreezes env now r p db.journal d.journal id × (d ≡ record db { journal = d.journal })
      → Records env now false r d m id × (m.journal ≡ d.journal) × (m.outbox ≡ d.outbox)
      → Announces env now r m e
      → Decided env now r p db e id false
  decided_so r p id db d m e paid marks told =
      Decided.rejection told.event (rw (ap (λ x. x.journal) told.sent ∙ marks.1) paid.0)
        (ap (λ x. x.outbox) told.sent ∙ ap (◌∷◌ told.event) (marks.2 ∙ ap (λ x. x.outbox) paid.1))
        told.topic told.aggregate

  rejection-Reviews :
      (r : ReviewRequest) (p : Payout) (a : Asset) (db db' : Database) (result : ReviewResult)
      → IsWaiting false r db p
      → write_review env now false r p a db ≡ (ok result, db')
      → Reviews env now false r db db' result
  unfolding write_review
  rejection-Reviews r p a db db' result waits h =
      elim (Outcome-cases (unfreeze_rejected_payout env now r p db)) [
        | inr (x, d, refused) ↦ absurd (ground arith)
        | inl (id, d, released) ↦ elim (Outcome-cases (mark_reviewed env now false r id d)) [
          | inr (x, m, refused) ↦ absurd (ground arith)
          | inl (u, m, marked) ↦
              elim (Outcome-cases
                (enqueue_payout_rejected env now (rejected_payload env now r p a id) m)) [
                  | inr (x, e, refused) ↦ absurd (ground arith)
                  | inl (v, e, sent) ↦
                      let paid = unfreeze_rejected_payout-Unfreezes env now r p db d id released in
                      let marks = mark_reviewed-Records env now false r id d m marked in
                      let told = enqueue_payout_rejected-Announces env now r p a id m e sent in
                      let same : e ≡ db' = ground arith in
                      let named : result.unfreeze_transaction_id ≡ id = ground arith in
                      record {
                        row = p;
                        found = waits.0;
                        waiting = waits.1;
                        records = rw (sym same, named) (carried r id db d m e paid.1 marks.0 told);
                        decided = rw (sym same, named) (decided_so r p id db d m e paid marks told);
                        changed = ground arith;
                      }
                ]
        ]
      ]

  review_pending-Reviews :
      (approves : Bool) (r : ReviewRequest) (p : Payout) (a : Asset) (db db' : Database)
      (result : ReviewResult)
      → IsWaiting approves r db p
      → review_pending env now db approves r p a db ≡ (ok result, db')
      → Reviews env now approves r db db' result
  unfolding review_pending
  review_pending-Reviews true r p a db db' result waits h =
      elim (Bool-cases (is_screening_allowed now r.payout_id db)) [
        | inl allowed ↦ approval-Reviews r p a db db' result waits allowed (ground arith)
        | inr denied ↦ absurd (ground arith)
      ]
  review_pending-Reviews false r p a db db' result waits h =
      rejection-Reviews r p a db db' result waits (ground arith)

  -- A review that was made before, with the same decision, reviewer and reason.
  pub record Repeats (approves : Bool) (r : ReviewRequest) (db db' : Database)
      (result : ReviewResult) : Type 0 where
    pub row : Payout
    pub found : find (has_id r.payout_id) db.payouts ≡ some row
    pub made : is_repeated approves r row ≡ true
    pub untouched : db' ≡ db
    pub unchanged : result.changed ≡ false

  -- The ends of a review that passes its checks, one line each: refused, repeated and made.
  pub data ReviewEnd (r : ReviewRequest) (db : Database)
      : Result Error ReviewResult × Database → Type 0 where
    malformed : validate_review_request r ≡ none → ReviewEnd r db (err invalid_review, db)
    refused : (x : Error) → ReviewEnd r db (err x, db)
    repeated :
        (approves : Bool) (result : ReviewResult) (db' : Database)
        → validate_review_request r ≡ some approves
        → Repeats approves r db db' result
        → ReviewEnd r db (ok result, db')
    made :
        (approves : Bool) (result : ReviewResult) (db' : Database)
        → validate_review_request r ≡ some approves
        → Reviews env now approves r db db' result
        → ReviewEnd r db (ok result, db')

  in_transaction-Reviews :
      (approves : Bool) (r : ReviewRequest) (db db' : Database) (result : ReviewResult)
      → review_in_transaction env now approves r db ≡ (ok result, db')
      → Repeats approves r db db' result ⊎ Reviews env now approves r db db' result
  unfolding review_in_transaction
  in_transaction-Reviews approves r db db' result h =
      elim (Option-cases (find (has_id r.payout_id) db.payouts)) [
        | inl e ↦ absurd (ground arith)
        | inr (p, found) ↦ elim (Option-cases (asset_of db p)) [
          | inl e ↦ absurd (ground arith)
          | inr (a, asset_found) ↦ elim (Bool-cases (has_status pending_review p)) [
            | inl waiting ↦ inr (
                review_pending-Reviews approves r p a db db' result (found, waiting) (ground arith))
            | inr decided ↦ elim (Bool-cases (is_repeated approves r p)) [
              | inr differs ↦ absurd (ground arith)
              | inl made_before ↦ elim (Option-cases p.reviewed_at) [
                | inl e ↦ absurd (ground arith)
                | inr (reviewed_at, reviewed) ↦ inl (record {
                  row = p;
                  found = found;
                  made = made_before;
                  untouched = ground arith;
                  unchanged = ground arith;
                })
              ]
            ]
          ]
        ]
      ]

  -- `Review` either leaves the database as it was, with an error or as the answer to the same review
  -- made before, or it has decided the payout. It then has found the payout waiting for its review,
  -- and for an approval a completed screening that allows the payout and is still valid; it has made
  -- the payout's one row approved or rejected, with the reviewer, the reason and the time, closed its
  -- one screening job, and added one audit. For a rejection the frozen balance covers the amount, the
  -- journal has gained a debit of it on the frozen account and a credit on the available one (or is
  -- left as an earlier posting of the same request, under the same key or reference, has made it),
  -- and one event is added; an approval has left ledger and outbox alone.
  pub review_ends :
      (request : ReviewRequest) (db : Database)
      → ReviewEnd (normalize_review_request request) db (review env now request db)
  unfolding review
  review_ends request db =
      let r = normalize_review_request request in
      elim (Option-cases (validate_review_request r)) [
        | inl e ↦
            let ends : review env now request db ≡ (err invalid_review, db) = ground arith in
            subst (ReviewEnd r db) (sym ends) (malformed e)
        | inr (approves, valid) ↦
            elim (Outcome-cases (review_in_transaction env now approves r db)) [
              | inr (x, d, refusal) ↦
                  let ends : review env now request db ≡ (err x, db) = ground arith in
                  subst (ReviewEnd r db) (sym ends) (refused x)
              | inl (result, d, done) ↦
                  let ends : review env now request db ≡ (ok result, d) = ground arith in
                  subst (ReviewEnd r db) (sym ends)
                    (elim (in_transaction-Reviews approves r db d result done) [
                      | inl again ↦ repeated approves result d valid again
                      | inr new ↦ made approves result d valid new
                    ])
            ]
      ]
