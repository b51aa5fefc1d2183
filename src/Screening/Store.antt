-- ===== src/Screening/Store.antt =====
-- internal/screening/store.go: the queue of the payouts whose destination is to be screened, over
-- the tables of the payouts. Times are milliseconds.
use Prim.Native.String.{◌++◌ as text_append}
use stablecoin_gateway.Prelude.{
  ℕ, ◌+◌, String, len, Bool, true, false, not, ◌&&◌, ◌||◌, Option, none, some, List, [], ◌∷◌, ltb,
  leb, ◌==◌, if◌then◌else◌, ℤ, is_some, text_eq, trim_space, find, any, count_where, update_where,
  length, ok, err, pure, gets, or_raise, transaction, ◌>>=◌, ◌>>◌, raise_if, modify,
}
use stablecoin_gateway.Lease.{is_free, owned_by, is_live, milliseconds}
use stablecoin_gateway.Payout.State.{
  pending_review, Payout, Asset, JobStatus, job_pending, job_processing, job_completed,
  ScreeningJob, ScreeningResult, Database, constraint_violated, no_screening_job,
  invalid_screening_claim, screening_lease_lost, invalid_result, Tx, has_status, text_ltb,
  is_failure_code, lower_hex, valid_claim,
}
use stablecoin_gateway.Payout.Signing.{has_id, asset_of, lease_of}
use stablecoin_gateway.Payout.Review.{is_job_of, is_current_result}

-- screening.go: the fields of a request that a payout fills.
pub record Request : Type 0 where
  pub request_id : String
  pub direction : String
  pub payout_id : String
  pub network : String
  pub asset_id : String
  pub contract_address : String
  pub destination_address : String
  pub amount : ℕ

-- `none` is the zero time of `CheckedAt`, and the nil slice of `ReasonCodes`.
pub record Result : Type 0 where
  pub provider : String
  pub decision : String
  pub reason_codes : Option (List String)
  pub provider_reference : String
  pub response_hash : String
  pub checked_at : Option ℕ
  pub valid_until : ℕ

pub record Claim : Type 0 where
  pub payout_id : String
  pub worker_id : String
  pub lease_epoch : ℕ
  pub request : Request

abbrev pub current_result : Database → ScreeningJob → Option ScreeningResult
current_result db j = find (is_current_result j) db.screening_results

abbrev is_outdated : ℕ → Option ScreeningResult → Bool
is_outdated now none = false
is_outdated now (some r) = leb r.valid_until now

-- The statuses that a job can be claimed in; a job in processing has a lease.
unfoldable pub is_due : ℕ → Database → ScreeningJob → Bool
is_due now db j = elim j.status [
  | job_pending ↦ true
  | job_processing ↦ is_some j.lease && is_free now j.lease
  | job_completed ↦ is_outdated now (current_result db j)
  | _ ↦ false
]

-- The two joins of the candidate: the payout, which waits for its review, and its asset.
unfoldable pub payout_of : Database → ScreeningJob → Option (Payout × Asset)
payout_of db j = elim (find (has_id j.payout_id) db.payouts) [
  | none ↦ none
  | some p ↦
      if has_status pending_review p
      then elim (asset_of db p) [ none ↦ none | some a ↦ some (p, a) ]
      else none
]

-- `locked` are the identities that `SKIP LOCKED` passes over.
abbrev pub is_candidate : (String → Bool) → ℕ → Database → ScreeningJob → Bool
is_candidate locked now db j =
    is_some (payout_of db j) && is_due now db j && not (locked j.payout_id)

-- `ORDER BY job.updated_at, job.payout_id … LIMIT 1`
abbrev precedes : ScreeningJob → ScreeningJob → Bool
precedes j k =
    ltb j.updated_at k.updated_at
    || (j.updated_at == k.updated_at && text_ltb j.payout_id k.payout_id)

unfoldable pub first_job : (ScreeningJob → Bool) → List ScreeningJob → Option ScreeningJob
first_job eligible [] = none
first_job eligible (j ∷ js) = elim (first_job eligible js) [
  | none ↦ if eligible j then some j else none
  | some k ↦ if eligible j && precedes j k then some j else some k
]

abbrev pub claimed_job : String → ℕ → ℤ → ScreeningJob → ScreeningJob
claimed_job worker now duration j = record j {
  status = job_processing;
  lease = lease_of worker now duration;
  lease_epoch = j.lease_epoch + 1;
  attempts = j.attempts + 1;
  last_error = none;
  updated_at = now;
}

abbrev pub update_jobs : (ScreeningJob → Bool) → (ScreeningJob → ScreeningJob) → Database → Database
update_jobs p f db = record db { screening_jobs = update_where p f db.screening_jobs }

-- An update that has to meet exactly one row.
unfoldable pub update_one_job :
    (ScreeningJob → Bool) → (ScreeningJob → ScreeningJob) → Tx (Unit {0})
update_one_job p f db =
    if count_where p db.screening_jobs == 1
    then (ok tt, update_jobs p f db)
    else (err screening_lease_lost, db)

-- `decimal` is the `%d` of `fmt.Sprintf`.
abbrev pub claim_of : (ℕ → String) → String → ScreeningJob → Payout → Asset → Claim
claim_of decimal worker j p a = record {
  payout_id = j.payout_id;
  worker_id = worker;
  lease_epoch = j.lease_epoch + 1;
  request = record {
    request_id = text_append (text_append j.payout_id ":") (decimal (j.lease_epoch + 1));
    direction = "outbound";
    payout_id = j.payout_id;
    network = j.network;
    asset_id = a.id;
    contract_address = a.contract_address;
    destination_address = j.address;
    amount = p.amount;
  };
}

-- `Claim`
unfoldable pub claim : (ℕ → String) → (String → Bool) → ℕ → String → ℤ → Tx Claim
claim decimal locked now worker_id duration = do
  let worker = trim_space worker_id
  raise_if (text_eq worker "" || ltb 128 (len worker) || not (ltb 0 (milliseconds duration)))
      invalid_screening_claim
  db ← gets (λ db. db)
  j ← or_raise (first_job (is_candidate locked now db) db.screening_jobs) no_screening_job
  (p, a) ← or_raise (payout_of db j) no_screening_job
  modify (update_jobs (is_job_of j.payout_id) (claimed_job worker now duration))
  pure (claim_of decimal worker j p a)

-- `normalizeResult`
abbrev pub normalize_result : Result → Result
normalize_result r = record r {
  provider = trim_space r.provider;
  decision = trim_space r.decision;
  provider_reference = trim_space r.provider_reference;
  response_hash = trim_space r.response_hash;
}

-- The loop over the reason codes; `seen` are those before.
unfoldable pub valid_codes : List String → List String → Bool
valid_codes seen [] = true
valid_codes seen (x ∷ xs) =
    is_failure_code x && not (any (λ y. text_eq y x) seen) && valid_codes (x ∷ seen) xs

abbrev is_decision : String → Bool
is_decision s = text_eq s "allow" || text_eq s "deny" || text_eq s "review"

-- 30 seconds and 30 days, in milliseconds.
abbrev pub maximum_future_skew : ℕ
maximum_future_skew = 30000

abbrev pub maximum_validity : ℕ
maximum_validity = 2592000000

-- The conditions on the two times.
abbrev pub are_valid_times : ℕ → ℕ → ℕ → Bool
are_valid_times now checked_at valid_until =
    leb checked_at (now + maximum_future_skew)
    && ltb now valid_until
    && ltb checked_at valid_until
    && leb valid_until (checked_at + maximum_validity)

-- `validateResult`, where `now` is the clock of the process.
unfoldable pub valid_result : ℕ → Result → Bool
valid_result now r =
    not (text_eq r.provider "")
    && leb (len r.provider) 128
    && is_decision r.decision
    && not (text_eq r.provider_reference "")
    && leb (len r.provider_reference) 256
    && len r.response_hash == 64
    && lower_hex r.response_hash
    && elim r.checked_at [ none ↦ false | some t ↦ are_valid_times now t r.valid_until ]
    && elim r.reason_codes [
      | none ↦ false
      | some codes ↦ leb (length codes) 32 && valid_codes [] codes
    ]

abbrev is_processing : JobStatus → Bool
is_processing job_processing = true
is_processing _ = false

-- The fence of a claim, and the fence with a lease that has not run out.
abbrev pub is_fenced : Claim → ScreeningJob → Bool
is_fenced f j =
    is_job_of f.payout_id j
    && is_processing j.status
    && owned_by f.worker_id j.lease
    && j.lease_epoch == f.lease_epoch

abbrev pub is_held : ℕ → Claim → ScreeningJob → Bool
is_held now f j = is_fenced f j && is_live now j.lease

abbrev pub or_nothing : Option (List String) → List String
or_nothing none = []
or_nothing (some codes) = codes

abbrev pub or_zero : Option ℕ → ℕ
or_zero none = 0
or_zero (some n) = n

abbrev pub result_row : String → Claim → Result → ScreeningResult
result_row id f r = record {
  id = id;
  payout_id = f.payout_id;
  attempt = f.lease_epoch;
  provider = r.provider;
  decision = r.decision;
  reason_codes = or_nothing r.reason_codes;
  provider_reference = r.provider_reference;
  response_hash = r.response_hash;
  checked_at = or_zero r.checked_at;
  valid_until = r.valid_until;
}

-- The primary key of `payout_screening_results`, and the key of a payout's attempts.
abbrev pub same_attempt : ScreeningResult → ScreeningResult → Bool
same_attempt r s = text_eq s.id r.id || (text_eq s.payout_id r.payout_id && s.attempt == r.attempt)

unfoldable pub insert_result : ScreeningResult → Tx (Unit {0})
insert_result r db =
    if any (same_attempt r) db.screening_results
    then (err constraint_violated, db)
    else (ok tt, record db { screening_results = r ∷ db.screening_results })

abbrev pub completed_job : String → ℕ → ScreeningJob → ScreeningJob
completed_job result_id now j = record j {
  status = job_completed;
  current_result_id = some result_id;
  lease = none;
  last_error = none;
  updated_at = now;
}

-- The database transaction of `Complete`.
unfoldable pub complete_in_transaction : String → ℕ → Claim → Result → Tx (Unit {0})
complete_in_transaction result_id now f r = do
  db ← gets (λ db. db)
  raise_if (not (any (is_held now f) db.screening_jobs)) screening_lease_lost
  insert_result (result_row result_id f r)
  update_one_job (is_fenced f) (completed_job result_id now)

-- `Complete`; `clock` is the process's, `now` the database's, and `result_id` what
-- `identity.NewUUID` returned.
unfoldable pub complete : String → ℕ → ℕ → Claim → Result → Tx (Unit {0})
complete result_id clock now f result = do
  raise_if (not (valid_claim f.payout_id f.worker_id f.lease_epoch)) invalid_screening_claim
  let r = normalize_result result
  raise_if (not (valid_result clock r)) invalid_result
  transaction (complete_in_transaction result_id now f r)

abbrev pub released_job : String → ℕ → ScreeningJob → ScreeningJob
released_job failure_code now j = record j {
  status = job_pending;
  lease = none;
  last_error = some failure_code;
  updated_at = now;
}

-- `Release`
unfoldable pub release : ℕ → Claim → String → Tx (Unit {0})
release now f failure_code = do
  raise_if (not (valid_claim f.payout_id f.worker_id f.lease_epoch)) invalid_screening_claim
  raise_if (not (is_failure_code (trim_space failure_code))) invalid_screening_claim
  update_one_job (is_fenced f) (released_job (trim_space failure_code) now)
