-- ===== src/Screening/Gate.antt =====
-- The gate before an approval: what the screening has to have said of a payout that is approved.
use mathlib.Core.Path.{subst}
use stablecoin_gateway.Prelude.{
  ℕ, String, ◌≡◌, refl, sym, ap, ◌∙◌, Bool, true, false, not, ◌&&◌, ◌||◌, none, some, List, [], ◌∷◌,
  arith, ℤ, text_eq, is_some, All, find, find_passes, update_where-All, All-map, All-find, find-any,
  any, update_where, ok, Outcome-cases, Option-cases, Bool-cases, inl, inr, trim_space,
  Result as Outcome,
}
use stablecoin_gateway.Payout.State.{
  approved, Payout, ScreeningJob, ScreeningResult, Database, Error, has_status,
}
use stablecoin_gateway.Payout.Review.{
  ReviewRequest, ReviewResult, ReviewEnvironment, normalize_review_request, is_job_of,
  is_current_result, is_screening_allowed, review, is_pending_review, is_open_job,
}
use stablecoin_gateway.Payout.Reviews.{decided_row, closed_row, Decided, ReviewEnd, review_ends}
use stablecoin_gateway.Payout.Create.{Request as PayoutRequest, CreateResult, Hashes, create}
use stablecoin_gateway.Payout.Replays.{CreateEnd, create_ends}
use stablecoin_gateway.Screening.Store.{
  Result, Claim, claim, complete, release, claimed_job, update_one_job, complete_in_transaction,
  insert_result, result_row, same_attempt, is_fenced, completed_job, first_job, is_candidate,
  normalize_result, released_job,
}

-- The provider has allowed the payout.
abbrev pub is_allowing : String → ScreeningResult → Bool
is_allowing id r = text_eq r.payout_id id && text_eq r.decision "allow"

-- A payout that is approved has been allowed.
abbrev pub is_gated : List ScreeningResult → Payout → Bool
is_gated rs p = not (has_status approved p) || any (is_allowing p.id) rs

-- The foreign key (current_result_id, payout_id) of `payout_screening_jobs`.
abbrev pub is_linked : List ScreeningResult → ScreeningJob → Bool
is_linked rs j = not (is_some j.current_result_id) || elim (find (is_current_result j) rs) [
  | none ↦ false
  | some r ↦ text_eq r.payout_id j.payout_id
]

abbrev pub AreGated : List ScreeningResult → List Payout → Type 0
AreGated rs ps = All (λ p. is_gated rs p ≡ true) ps

abbrev pub AreLinked : List ScreeningResult → List ScreeningJob → Type 0
AreLinked rs js = All (λ j. is_linked rs j ≡ true) js

pub record IsScreened (db : Database) : Type 0 where
  pub gated : AreGated db.screening_results db.payouts
  pub linked : AreLinked db.screening_results db.screening_jobs

-- The same, where the equations on the tables are at hand.
IsScreened-of :
    (rs : List ScreeningResult) (ps : List Payout) (js : List ScreeningJob) (db : Database)
    → db.screening_results ≡ rs
    → db.payouts ≡ ps
    → db.screening_jobs ≡ js
    → AreGated rs ps
    → AreLinked rs js
    → IsScreened db
IsScreened-of rs ps js db er ep ej gated linked = record {
  gated = subst (λ x. AreGated x db.payouts) (sym er) (subst (AreGated rs) (sym ep) gated);
  linked =
      subst (λ x. AreLinked x db.screening_jobs) (sym er) (subst (AreLinked rs) (sym ej) linked);
}

-- A claim, a release and a closure leave the link of a job to its result alone.
relinked :
    (rs : List ScreeningResult) (p : ScreeningJob → Bool) (f : ScreeningJob → ScreeningJob)
    (js : List ScreeningJob)
    → ((j : ScreeningJob) → is_linked rs j ≡ true → is_linked rs (f j) ≡ true)
    → All (λ j. is_linked rs j ≡ true) js
    → All (λ j. is_linked rs j ≡ true) (update_where p f js)
relinked rs p f js step a =
    update_where-All (λ j. is_linked rs j ≡ true) p f js (λ j hit l. step j l) a

-- A result with a fresh identity is no job's current one, and breaks no link.
fresh_absent :
    (r : ScreeningResult) (j : ScreeningJob) (rs : List ScreeningResult)
    → any (same_attempt r) rs ≡ false
    → is_current_result j r ≡ true
    → find (is_current_result j) rs ≡ none
fresh_absent r j [] fresh e = refl
fresh_absent r j (s ∷ rs) fresh e = ground (arith, fresh_absent r j rs)

linked_grows :
    (r : ScreeningResult) (rs : List ScreeningResult) (j : ScreeningJob)
    → any (same_attempt r) rs ≡ false
    → is_linked rs j ≡ true
    → is_linked (r ∷ rs) j ≡ true
linked_grows r rs j fresh l = elim (Bool-cases (is_current_result j r)) [
  | inl hit ↦ let absent = fresh_absent r j rs fresh hit in ground (arith, absent)
  | inr miss ↦ ground arith
]

gated_grows :
    (r : ScreeningResult) (rs : List ScreeningResult) (p : Payout)
    → is_gated rs p ≡ true
    → is_gated (r ∷ rs) p ≡ true
gated_grows r rs p g = ground arith

claim-IsScreened :
    (decimal : ℕ → String) (locked : String → Bool) (now : ℕ) (worker_id : String) (duration : ℤ)
    (db : Database)
    → IsScreened db
    → IsScreened (claim decimal locked now worker_id duration db).1
unfolding claim
claim-IsScreened decimal locked now worker_id duration db screened =
    elim (Outcome-cases (claim decimal locked now worker_id duration db)) [
      | inr (x, d, refused) ↦
          let same : (claim decimal locked now worker_id duration db).1 ≡ db = ground arith in
          rw same screened
      | inl (f, d, claimed) ↦
          elim (Option-cases (first_job (is_candidate locked now db) db.screening_jobs)) [
            | inl e ↦ absurd (ground arith)
            | inr (j, found) ↦
                let jobs : (claim decimal locked now worker_id duration db).1 ≡ record db {
                  screening_jobs =
                      update_where (is_job_of j.payout_id)
                        (claimed_job (trim_space worker_id) now duration) db.screening_jobs;
                } =
                  ground arith in
                rw jobs (record {
                  gated = screened.gated;
                  linked =
                      relinked db.screening_results (is_job_of j.payout_id)
                        (claimed_job (trim_space worker_id) now duration) db.screening_jobs
                        (λ k l. l) screened.linked;
                })
          ]
    ]

release-IsScreened :
    (now : ℕ) (f : Claim) (failure_code : String) (db : Database)
    → IsScreened db
    → IsScreened (release now f failure_code db).1
unfolding release update_one_job
release-IsScreened now f failure_code db screened =
    elim (Outcome-cases (release now f failure_code db)) [
      | inr (x, d, refused) ↦
          let same : (release now f failure_code db).1 ≡ db = ground arith in rw same screened
      | inl (u, d, done) ↦
          let jobs : (release now f failure_code db).1 ≡ record db {
            screening_jobs =
                update_where (is_fenced f) (released_job (trim_space failure_code) now)
                  db.screening_jobs;
          } =
            ground arith in
          rw jobs (record {
            gated = screened.gated;
            linked =
                relinked db.screening_results (is_fenced f)
                  (released_job (trim_space failure_code) now) db.screening_jobs (λ k l. l)
                  screened.linked;
          })
    ]

completed_linked :
    (id : String) (now : ℕ) (f : Claim) (r : Result) (rs : List ScreeningResult) (j : ScreeningJob)
    → is_fenced f j ≡ true
    → is_linked (result_row id f r ∷ rs) (completed_job id now j) ≡ true
completed_linked id now f r rs j fenced = ground arith

complete_in_transaction-IsScreened :
    (id : String) (now : ℕ) (f : Claim) (r : Result) (db d : Database)
    → complete_in_transaction id now f r db ≡ (ok tt, d)
    → IsScreened db
    → IsScreened d
unfolding complete_in_transaction insert_result update_one_job
complete_in_transaction-IsScreened id now f r db d h screened =
    let row = result_row id f r in
    let rows = row ∷ db.screening_results in
    elim (Bool-cases (any (same_attempt row) db.screening_results)) [
      | inl there ↦ absurd (ground arith)
      | inr fresh ↦
          let jobs : d ≡ record db {
            screening_results = rows;
            screening_jobs = update_where (is_fenced f) (completed_job id now) db.screening_jobs;
          } =
            ground arith in
          let grown =
            All-map (λ j. is_linked db.screening_results j ≡ true) (λ j. is_linked rows j ≡ true)
              db.screening_jobs (λ j l. linked_grows row db.screening_results j fresh l)
              screened.linked in
          rw jobs (record {
            gated =
                All-map (λ p. is_gated db.screening_results p ≡ true) (λ p. is_gated rows p ≡ true)
                  db.payouts (gated_grows row db.screening_results) screened.gated;
            linked =
                update_where-All (λ j. is_linked rows j ≡ true) (is_fenced f) (completed_job id now)
                  db.screening_jobs
                  (λ j fenced l. completed_linked id now f r db.screening_results j fenced) grown;
          })
    ]

complete-IsScreened :
    (id : String) (clock now : ℕ) (f : Claim) (result : Result) (db : Database)
    → IsScreened db
    → IsScreened (complete id clock now f result db).1
unfolding complete
complete-IsScreened id clock now f result db screened =
    elim (Outcome-cases (complete id clock now f result db)) [
      | inr (x, d, refused) ↦
          let same : (complete id clock now f result db).1 ≡ db = ground arith in rw same screened
      | inl (u, d, done) ↦
          let stored : complete_in_transaction id now f (normalize_result result) db
              ≡ (ok tt, (complete id clock now f result db).1) =
            ground arith in
          complete_in_transaction-IsScreened id now f (normalize_result result) db _ stored screened
    ]

end-create :
    (hashes : Hashes) (journal_id : String) (now : ℕ) (request : PayoutRequest) (db : Database)
    (o : Outcome Error CreateResult × Database)
    → CreateEnd hashes journal_id now request db o
    → IsScreened db
    → IsScreened o.1
end-create hashes journal_id now request db _ (CreateEnd.malformed e) screened = screened
end-create hashes journal_id now request db _ (CreateEnd.refused x) screened = screened
end-create hashes journal_id now request db _ (CreateEnd.repeated r amount details e again)
      screened =
    screened
end-create hashes journal_id now request db _ (CreateEnd.made r amount details db' e new) screened =
    IsScreened-of db.screening_results _ _ db' new.writes.results_kept new.writes.added
      new.writes.queued (refl, screened.gated) (refl, screened.linked)

-- A screening that allows the payout now has a result that allows it.
allowed_any :
    (id : String) (now : ℕ) (db : Database)
    → IsScreened db
    → is_screening_allowed now id db ≡ true
    → any (is_allowing id) db.screening_results ≡ true
unfolding is_screening_allowed
allowed_any id now db screened allowed =
    elim (Option-cases (find (is_job_of id) db.screening_jobs)) [
      | inl e ↦ absurd (ground arith)
      | inr (j, found) ↦
          let l =
            All-find (λ k. is_linked db.screening_results k ≡ true) (is_job_of id) db.screening_jobs
              j screened.linked found in
          elim (Option-cases (find (is_current_result j) db.screening_results)) [
            | inl e ↦ absurd (ground arith)
            | inr (r, current) ↦
                let of_job = find_passes (is_job_of id) db.screening_jobs j found in
                let current_of = find_passes (is_current_result j) db.screening_results r current in
                let allows : is_allowing id r ≡ true = ground arith in
                find-any (is_current_result j) (is_allowing id) db.screening_results r current
                  allows
          ]
    ]

reviewed_gated :
    (env : ReviewEnvironment) (now : ℕ) (r : ReviewRequest) (p : Payout) (db db' : Database)
    (id : String) (approves : Bool)
    → Decided env now r p db db' id approves
    → IsScreened db
    → AreGated db.screening_results (
        update_where (is_pending_review r.payout_id) (decided_row env now approves r id) db.payouts)
reviewed_gated env now r p db db' id _ (Decided.approval allowed j o i) screened =
    let known = allowed_any r.payout_id now db screened allowed in
    update_where-All (λ x. is_gated db.screening_results x ≡ true) (is_pending_review r.payout_id)
      (decided_row env now true r id) db.payouts
      (λ x hit g.
        let same : x.id ≡ r.payout_id = ground arith in
        ap (λ y. any (is_allowing y) db.screening_results) same ∙ known)
      screened.gated
reviewed_gated env now r p db db' id _ (Decided.rejection event u o t a) screened =
    update_where-All (λ x. is_gated db.screening_results x ≡ true) (is_pending_review r.payout_id)
      (decided_row env now false r id) db.payouts (λ x hit g. refl) screened.gated

end-review :
    (env : ReviewEnvironment) (now : ℕ) (r : ReviewRequest) (db : Database)
    (o : Outcome Error ReviewResult × Database)
    → ReviewEnd env now r db o
    → IsScreened db
    → IsScreened o.1
end-review env now r db _ (ReviewEnd.malformed e) screened = screened
end-review env now r db _ (ReviewEnd.refused x) screened = screened
end-review env now r db _ (ReviewEnd.repeated approves result db' e again) screened =
    rw again.untouched screened
end-review env now r db _ (ReviewEnd.made approves result db' e new) screened =
    IsScreened-of db.screening_results _ _ db' new.records.results_kept new.records.updated
      new.records.closed
      (reviewed_gated env now r new.row db db' result.unfreeze_transaction_id approves new.decided
        screened)
      (relinked db.screening_results (is_open_job r.payout_id) (closed_row env now)
        db.screening_jobs (λ j l. l) screened.linked)

-- The operations of the desk: creations, reviews, and the screening between them.
pub data Operation : Type 0 where
  creates : Hashes → String → ℕ → PayoutRequest → Operation
  reviews : ReviewEnvironment → ℕ → ReviewRequest → Operation
  claims : (ℕ → String) → (String → Bool) → ℕ → String → ℤ → Operation
  completes : String → ℕ → ℕ → Claim → Result → Operation
  releases : ℕ → Claim → String → Operation

unfoldable pub perform : Operation → Database → Database
perform (creates hashes journal_id now request) db = (create hashes journal_id now request db).1
perform (reviews env now request) db = (review env now request db).1
perform (claims decimal locked now worker_id duration) db =
    (claim decimal locked now worker_id duration db).1
perform (completes id clock now f result) db = (complete id clock now f result db).1
perform (releases now f failure_code) db = (release now f failure_code db).1

unfoldable pub run : List Operation → Database → Database
run [] db = db
run (o ∷ os) db = run os (perform o db)

perform-IsScreened : (o : Operation) (db : Database) → IsScreened db → IsScreened (perform o db)
unfolding perform
perform-IsScreened (creates hashes journal_id now request) db =
    end-create hashes journal_id now request db _ (create_ends hashes journal_id now request db)
perform-IsScreened (reviews env now request) db =
    end-review env now (normalize_review_request request) db _ (review_ends env now request db)
perform-IsScreened (claims decimal locked now worker_id duration) db =
    claim-IsScreened decimal locked now worker_id duration db
perform-IsScreened (completes id clock now f result) db =
    complete-IsScreened id clock now f result db
perform-IsScreened (releases now f failure_code) db = release-IsScreened now f failure_code db

-- Whatever creations, reviews and operations of the screening queue run, in any order and whether
-- they succeed or fail: if every approved payout has a stored screening result that allows that
-- payout, and every job's current result is of the job's payout, then both still hold. So no payout
-- is approved that the provider has not allowed.
pub run-IsScreened : (os : List Operation) (db : Database) → IsScreened db → IsScreened (run os db)
unfolding run
run-IsScreened [] db screened = screened
run-IsScreened (o ∷ os) db screened =
    run-IsScreened os (perform o db) (perform-IsScreened o db screened)
