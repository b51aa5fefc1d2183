-- ===== src/Screening/Rounds.antt =====
-- What one round of the screening worker stores.
use mathlib.Core.Path.{subst}
use stablecoin_gateway.Prelude.{
  ℕ, String, ◌≡◌, refl, sym, Bool, true, false, Option, none, some, [], ◌∷◌, text_eq, trim_space,
  ◌||◌, ◌&&◌, ◌==◌, arith, ℤ, any, ok, err, Result as Outcome, Outcome-cases, Option-cases,
  Bool-cases, inl, inr, ◌⊎◌,
}
use stablecoin_gateway.Payout.State.{Database, Error, no_screening_job, ScreeningResult}
use stablecoin_gateway.Screening.Store.{
  Request, Result, Claim, claim, complete, release, update_one_job, complete_in_transaction,
  insert_result, result_row, is_held, same_attempt, normalize_result, valid_result, first_job,
  is_candidate, payout_of,
}
use stablecoin_gateway.Screening.Worker.{
  WorkerError, Round, queue, provider_failed, joined, finish, start, run_once,
}

claim_results :
    (decimal : ℕ → String) (locked : String → Bool) (now : ℕ) (worker_id : String) (duration : ℤ)
    (db : Database)
    → (claim decimal locked now worker_id duration db).1.screening_results ≡ db.screening_results
unfolding claim
claim_results decimal locked now worker_id duration db =
    elim (Option-cases (first_job (is_candidate locked now db) db.screening_jobs)) [
      | inl e ↦ ground arith
      | inr (j, found) ↦ elim (Option-cases (payout_of db j)) [
        | inl e ↦ ground arith
        | inr ((p, a), joins) ↦ ground arith
      ]
    ]

release_results :
    (now : ℕ) (f : Claim) (code : String) (db : Database)
    → (release now f code db).1.screening_results ≡ db.screening_results
unfolding release update_one_job
release_results now f code db = ground arith

module _ (result_id : String) (clock now : ℕ) (f : Claim) (r : Result) (db : Database) where
  -- The answer of the provider under the claim's payout and epoch, its texts without outer spaces.
  abbrev pub answer_row : ScreeningResult
  answer_row = record {
    id = result_id;
    payout_id = f.payout_id;
    attempt = f.lease_epoch;
    provider = trim_space r.provider;
    decision = trim_space r.decision;
    reason_codes = elim r.reason_codes [ none ↦ [] | some codes ↦ codes ];
    provider_reference = trim_space r.provider_reference;
    response_hash = trim_space r.response_hash;
    checked_at = elim r.checked_at [ none ↦ 0 | some time ↦ time ];
    valid_until = r.valid_until;
  }

  answer_row_is : result_row result_id f (normalize_result r) ≡ answer_row
  answer_row_is = elim (Option-cases r.reason_codes) [
    | inl no_codes ↦ elim (Option-cases r.checked_at) [
      | inl no_time ↦ ground arith
      | inr (time, checked) ↦ ground arith
    ]
    | inr (codes, coded) ↦ elim (Option-cases r.checked_at) [
      | inl no_time ↦ ground arith
      | inr (time, checked) ↦ ground arith
    ]
  ]

  -- A completed claim was held by its worker, its answer was sound, and the answer is stored.
  pub record Stores (db' : Database) : Type 0 where
    pub valid : valid_result clock (normalize_result r) ≡ true
    pub held : any (is_held now f) db.screening_jobs ≡ true
    pub fresh :
        any
          (λ s.
            text_eq s.id result_id || text_eq s.payout_id f.payout_id && s.attempt == f.lease_epoch)
          db.screening_results
        ≡ false
    pub stored : db'.screening_results ≡ answer_row ∷ db.screening_results

  complete_in_transaction-Stores :
      (d : Database)
      → valid_result clock (normalize_result r) ≡ true
      → complete_in_transaction result_id now f (normalize_result r) db ≡ (ok tt, d)
      → Stores d
  unfolding complete_in_transaction insert_result update_one_job
  complete_in_transaction-Stores d valid h =
      elim (Bool-cases (any (is_held now f) db.screening_jobs)) [
        | inr lost ↦ absurd (ground arith)
        | inl held ↦
            elim (Bool-cases (
              any (same_attempt (result_row result_id f (normalize_result r)))
                db.screening_results)) [
                  | inl there ↦ absurd (ground arith)
                  | inr fresh ↦ record {
                    valid = valid;
                    held = held;
                    fresh = fresh;
                    stored = ground (arith, answer_row_is);
                  }
                ]
      ]

  -- `Complete` fails and changes nothing, or has stored the answer.
  pub complete_ends :
      ((x : Error) × (complete result_id clock now f r db ≡ (err x, db)))
      ⊎ ((d : Database) × (complete result_id clock now f r db ≡ (ok tt, d)) × Stores d)
  unfolding complete
  complete_ends = elim (Outcome-cases (complete result_id clock now f r db)) [
    | inr (x, d, refused) ↦ inl (x, ground arith)
    | inl (u, d, done) ↦ elim (Bool-cases (valid_result clock (normalize_result r))) [
      | inr unsound ↦ absurd (ground arith)
      | inl valid ↦ inr (d, done, complete_in_transaction-Stores d valid (ground arith))
    ]
  ]

module _ (screen : Request → Option Result) (result_id : String) (clock now later : ℕ)
    (decimal : ℕ → String) (locked : String → Bool) (worker_id : String) (duration : ℤ)
    (db : Database) where
  -- The ends of a round: nothing is stored, or the answer of the provider is.
  pub data RoundEnd : Round → Type 0 where
    stored_nothing :
        (worked : Bool) (e : Option WorkerError) (db' : Database)
        → db'.screening_results ≡ db.screening_results
        → RoundEnd (worked, e, db')
    stored_answer :
        (f : Claim) (r : Result) (claimed db' : Database)
        → claim decimal locked now worker_id duration db ≡ (ok f, claimed)
        → screen f.request ≡ some r
        → claimed.screening_results ≡ db.screening_results
        → Stores result_id clock later f r claimed db'
        → RoundEnd (true, none, db')

  finished :
      (f : Claim) (claimed : Database)
      → claim decimal locked now worker_id duration db ≡ (ok f, claimed)
      → claimed.screening_results ≡ db.screening_results
      → RoundEnd (finish screen result_id clock now later f (screen f.request) claimed)
  unfolding finish
  finished f claimed got same = elim (Option-cases (screen f.request)) [
    | inl silent ↦
        let kept = release_results later f "provider_error" claimed in
        elim (Outcome-cases (release later f "provider_error" claimed)) [
          | inl (u, d, done) ↦
              let round : finish screen result_id clock now later f (screen f.request) claimed
                  ≡ (true, some provider_failed, d) =
                ground (arith, silent, done) in
              let results : d.screening_results ≡ db.screening_results =
                ground (arith, kept, done, same) in
              subst RoundEnd (sym round) (stored_nothing true (some provider_failed) d results)
          | inr (x, d, lost) ↦
              let round : finish screen result_id clock now later f (screen f.request) claimed
                  ≡ (true, some (joined provider_failed (queue x)), d) =
                ground (arith, silent, lost) in
              let results : d.screening_results ≡ db.screening_results =
                ground (arith, kept, lost, same) in
              subst RoundEnd (sym round)
                (stored_nothing true (some (joined provider_failed (queue x))) d results)
        ]
    | inr (r, answer) ↦ elim (complete_ends result_id clock later f r claimed) [
      | inl (x, refused) ↦
          let round : finish screen result_id clock now later f (screen f.request) claimed
              ≡ (true, some (queue x), claimed) =
            ground (arith, answer, refused) in
          subst RoundEnd (sym round) (stored_nothing true (some (queue x)) claimed same)
      | inr (d, done, stores) ↦
          let round : finish screen result_id clock now later f (screen f.request) claimed
              ≡ (true, none, d) =
            ground (arith, answer, done) in
          subst RoundEnd (sym round) (stored_answer f r claimed d got answer same stores)
    ]
  ]

  started :
      (o : Outcome Error Claim × Database)
      → claim decimal locked now worker_id duration db ≡ o
      → o.1.screening_results ≡ db.screening_results
      → RoundEnd (start screen result_id clock now later o)
  started (ok f, d) got same = finished f d got same
  started (err no_screening_job, d) got same = stored_nothing false none d same
  started (err x, d) got same = stored_nothing false _ d same

  -- A round of the screening worker stores no result, or it stores exactly one: the provider's own
  -- answer to the request of the claim that the round has made, normalized and found sound, while
  -- the worker still held the claimed job; the round then ends without an error. A provider that
  -- fails, an answer that is not sound and a lease that has run out store nothing.
  pub run_once_ends :
      RoundEnd (run_once screen result_id clock now later decimal locked worker_id duration db)
  unfolding run_once
  run_once_ends =
      started (claim decimal locked now worker_id duration db) refl
        (claim_results decimal locked now worker_id duration db)
