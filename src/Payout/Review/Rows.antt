-- ===== src/Payout/Review/Rows.antt =====
-- internal/payout/review.go: the request of a review, its checks, and the rows that it writes.
use Prim.Native.String.{◌++◌ as text_append}
use stablecoin_gateway.Prelude.{
  ℕ, String, len, Bool, true, false, not, ◌&&◌, ◌||◌, Option, none, some, List, [], ◌∷◌, ltb, ◌==◌,
  if◌then◌else◌, pos, is_some, text_eq, trim_space, find, any, count_where, update_where, ok, err,
}
use stablecoin_gateway.Ledger.Transaction
use stablecoin_gateway.Ledger.Transaction.{Side}
use stablecoin_gateway.Payout.State.{
  Status, pending_review, approved, rejected, Payout, JobStatus, job_completed, job_closed,
  ScreeningJob, ScreeningResult, ReviewAudit, Database, constraint_violated, payout_state_conflict,
  Tx, has_status, valid_uuid,
}
use stablecoin_gateway.Payout.Signing.{has_id}
use stablecoin_gateway.Payout.Execution.{or_empty}

-- `decision` is the text of the request.
pub record ReviewRequest : Type 0 where
  pub payout_id : String
  pub decision : String
  pub reviewer : String
  pub reason : String

pub record ReviewResult : Type 0 where
  pub payout_id : String
  pub status : Status
  pub reviewer : String
  pub reason : String
  pub reviewed_at : ℕ
  pub unfreeze_transaction_id : String
  pub changed : Bool

pub record RejectedPayload : Type 0 where
  pub payout_id : String
  pub merchant_id : String
  pub merchant_reference : String
  pub asset_id : String
  pub network : String
  pub destination_address : String
  pub amount : ℕ
  pub status : Status
  pub ledger_transaction_id : String
  pub reason_code : String
  pub reviewed_at : ℕ

-- `normalizeReviewRequest`
abbrev pub normalize_review_request : ReviewRequest → ReviewRequest
normalize_review_request r = record {
  payout_id = trim_space r.payout_id;
  decision = trim_space r.decision;
  reviewer = trim_space r.reviewer;
  reason = trim_space r.reason;
}

-- `validateReviewRequest`, the target status as the Boolean that the decision approves.
unfoldable pub validate_review_request : ReviewRequest → Option Bool
validate_review_request r =
    if not (valid_uuid r.payout_id)
      || text_eq r.reviewer ""
      || ltb 128 (len r.reviewer)
      || text_eq r.reason ""
      || ltb 512 (len r.reason)
    then none
    else if text_eq r.decision "approve"
    then some true
    else if text_eq r.decision "reject"
    then some false
    else none

abbrev pub target_status : Bool → Status
target_status true = approved
target_status false = rejected

abbrev pub is_job_of : String → ScreeningJob → Bool
is_job_of id j = text_eq j.payout_id id

abbrev pub is_completed : JobStatus → Bool
is_completed job_completed = true
is_completed _ = false

abbrev pub is_current_result : ScreeningJob → ScreeningResult → Bool
is_current_result j r = elim j.current_result_id [ none ↦ false | some id ↦ text_eq r.id id ]

-- The two left joins and the condition of the query, where a `NULL` counts as false.
unfoldable pub is_screening_allowed : ℕ → String → Database → Bool
is_screening_allowed now id db = elim (find (is_job_of id) db.screening_jobs) [
  | none ↦ false
  | some j ↦ is_completed j.status && elim (find (is_current_result j) db.screening_results) [
    | none ↦ false
    | some r ↦ text_eq r.decision "allow" && ltb now r.valid_until
  ]
]

-- The comparison of a review that was made with the request.
unfoldable pub is_repeated : Bool → ReviewRequest → Payout → Bool
is_repeated approves r p =
    has_status (target_status approves) p
    && is_some p.reviewed_by
    && is_some p.review_reason
    && is_some p.reviewed_at
    && text_eq (or_empty p.reviewed_by) r.reviewer
    && text_eq (or_empty p.review_reason) r.reason

-- The ledger transaction of a rejection.
abbrev pub unfreeze_transaction :
    String → ReviewRequest → Payout → ℕ → String → String → Transaction.Transaction
unfreeze_transaction journal_id r p amount frozen_id available_id = record {
  id = journal_id;
  requester_type = "operator";
  requester_id = r.reviewer;
  idempotency_key = text_append "payout-unfreeze:" r.payout_id;
  reference_type = "payout_unfreeze";
  reference_id = r.payout_id;
  entries =
      record {
        account_id = frozen_id;
        asset_id = p.asset_id;
        side = Side.debit;
        amount = pos amount;
      }
      ∷ record {
        account_id = available_id;
        asset_id = p.asset_id;
        side = Side.credit;
        amount = pos amount;
      }
      ∷ [];
}

-- `NULLIF($5, '')`
abbrev pub null_if_empty : String → Option String
null_if_empty s = if text_eq s "" then none else some s

abbrev pub reviewed_row : Bool → ReviewRequest → String → ℕ → Payout → Payout
reviewed_row approves r unfreeze_id now p = record p {
  status = target_status approves;
  reviewed_by = some r.reviewer;
  review_reason = some r.reason;
  reviewed_at = some now;
  unfreeze_transaction_id = null_if_empty unfreeze_id;
  updated_at = now;
}

abbrev pub is_pending_review : String → Payout → Bool
is_pending_review id p = has_id id p && has_status pending_review p

abbrev is_not_closed : JobStatus → Bool
is_not_closed job_closed = false
is_not_closed _ = true

abbrev pub is_open_job : String → ScreeningJob → Bool
is_open_job id j = is_job_of id j && is_not_closed j.status

abbrev pub closed_job : ℕ → ScreeningJob → ScreeningJob
closed_job now j = record j { status = job_closed; lease = none; updated_at = now }

-- The rows that the trigger `payout_screening_jobs_guard` refuses to close at this time.
abbrev pub is_later_job : ℕ → String → ScreeningJob → Bool
is_later_job now id j = is_open_job id j && ltb now j.updated_at

-- The update of the screening job, which has to meet exactly one row.
unfoldable pub close_job : ℕ → String → Tx (Unit {0})
close_job now id db =
    if any (is_later_job now id) db.screening_jobs
    then (err constraint_violated, db)
    else if count_where (is_open_job id) db.screening_jobs == 1
    then (
      ok tt,
      record db {
        screening_jobs = update_where (is_open_job id) (closed_job now) db.screening_jobs;
      },
    )
    else (err payout_state_conflict, db)

abbrev pub audit_row : Bool → ReviewRequest → ℕ → ReviewAudit
audit_row approves r now = record {
  payout_id = r.payout_id;
  decision = r.decision;
  resulting_status = target_status approves;
  reviewer = r.reviewer;
  reason = r.reason;
  created_at = now;
}

-- The primary key of `payout_review_audits`.
abbrev pub has_audit : String → List ReviewAudit → Bool
has_audit id audits = is_some (find (λ a. text_eq a.payout_id id) audits)

-- `recordPayoutReviewAudit`
unfoldable pub record_audit : ReviewAudit → Tx (Unit {0})
record_audit a db =
    if has_audit a.payout_id db.audits
    then (err constraint_violated, db)
    else (ok tt, record db { audits = a ∷ db.audits })
