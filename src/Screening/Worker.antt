-- ===== src/Screening/Worker.antt =====
-- internal/screening/worker.go: one round of the worker that screens payouts.
use stablecoin_gateway.Prelude.{
  ℕ, String, Bool, true, false, Option, none, some, ℤ, Result as Outcome, ok, err,
}
use stablecoin_gateway.Background.Runner.{Decision, stop, retry}
use stablecoin_gateway.Payout.State.{
  Database, Error, no_screening_job, invalid_screening_claim, invalid_result,
}
use stablecoin_gateway.Screening.Store.{Request, Result, Claim, claim, complete, release}

-- `provider_failed` is the wrapped error of the provider, and `joined` is `errors.Join`.
pub data WorkerError : Type 0 where
  queue : Error → WorkerError
  provider_failed : WorkerError
  joined : WorkerError → WorkerError → WorkerError

-- `errors.Is`
unfoldable pub is_fatal : WorkerError → Bool
is_fatal (queue invalid_screening_claim) = true
is_fatal (queue invalid_result) = true
is_fatal (queue e) = false
is_fatal provider_failed = false
is_fatal (joined e f) = elim (is_fatal e) [ true ↦ true | false ↦ is_fatal f ]

-- The function that `NewWorker` gives to the runner.
unfoldable pub classify : WorkerError → Decision
classify e = elim (is_fatal e) [ true ↦ stop | false ↦ retry ]

-- Whether the round did work, and its error.
abbrev pub Round : Type 0
Round = Bool × Option WorkerError × Database

abbrev pub completed : Outcome Error (Unit {0}) × Database → Round
completed (ok u, db) = (true, none, db)
completed (err e, db) = (true, some (queue e), db)

abbrev pub given_back : Outcome Error (Unit {0}) × Database → Round
given_back (ok u, db) = (true, some provider_failed, db)
given_back (err e, db) = (true, some (joined provider_failed (queue e)), db)

-- `screen` is the provider's `Screen`; `none` is an error of the call.
module _ (screen : Request → Option Result) (result_id : String) (clock now later : ℕ) where
  unfoldable pub finish : Claim → Option Result → Database → Round
  finish f none db = given_back (release later f "provider_error" db)
  finish f (some r) db = completed (complete result_id clock later f r db)

  abbrev pub start : Outcome Error Claim × Database → Round
  start (ok f, db) = finish f (screen f.request) db
  start (err no_screening_job, db) = (false, none, db)
  start (err e, db) = (false, some (queue e), db)

  -- `RunOnce`; the claim is made at `now` and ended at `later`.
  unfoldable pub run_once : (ℕ → String) → (String → Bool) → String → ℤ → Database → Round
  run_once decimal locked worker_id duration db =
      start (claim decimal locked now worker_id duration db)
