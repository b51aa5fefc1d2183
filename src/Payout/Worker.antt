-- ===== src/Payout/Worker.antt =====
-- internal/payout/execution_worker.go: one round of the worker that broadcasts signed payouts and
-- waits for their final state.
use stablecoin_gateway.Prelude.{
  ℕ, String, Bool, true, false, Option, none, some, List, ◌∷◌, leb, if◌then◌else◌, ℤ, Result, ok,
  err,
}
use stablecoin_gateway.Tron.Types.{Header, TransactionStatus, TransactionState, SignedTransaction}
use stablecoin_gateway.Payout.State.{Database, Error, no_broadcast_job, no_confirmation_job}
use stablecoin_gateway.Payout.Execution.{
  BroadcastClaim, ConfirmationClaim, claim_broadcast, begin_confirmation, claim_confirmation,
  release_confirmation,
}
use stablecoin_gateway.Payout.Finalization.{
  Environment, complete_confirmation_success, complete_confirmation_failure,
}

-- What `Broadcaster.Broadcast` returned: nil, `ErrInvalidSignedTransaction`, or another error.
pub data BroadcastResult : Type 0 where
  accepted invalid lost : BroadcastResult

-- The answers of the node in one round; `none` is an error of the call.
pub record Node : Type 0 where
  pub broadcast : SignedTransaction → BroadcastResult
  pub transaction : String → Option TransactionState
  pub solidified_head : Option Header

-- The database, and the transactions that were handed to the node, the last one first.
pub record World : Type 0 where
  pub database : Database
  pub sent : List SignedTransaction

pub data WorkerError : Type 0 where
  queue : Error → WorkerError
  node_error invalid_signed_transaction : WorkerError
  join : WorkerError → WorkerError → WorkerError

-- `none` is the nil error.
abbrev pub Round : Type 0
Round = Option WorkerError × World

-- A call of the queue, and the error that it returns.
abbrev pub queued : {A : Type 0} → Result Error A × Database → World → Round
queued (ok a, db) w = (none, record w { database = db })
queued (err e, db) w = (some (queue e), record w { database = db })

-- `errors.Join(first, …)` where the first error is not nil.
abbrev pub joined : WorkerError → Round → Round
joined e (none, w) = (some e, w)
joined e (some x, w) = (some (join e x), w)

-- `errors.Join(err, …)` that is returned only if the call of the queue failed.
abbrev pub unless_done : BroadcastResult → Round → Round
unless_done accepted r = r
unless_done _ (none, w) = (none, w)
unless_done _ (some x, w) = (some (join node_error x), w)

abbrev pub send : SignedTransaction → World → World
send t w = record w { sent = t ∷ w.sent }

module _ (env : Environment) (node : Node) (now : ℕ) (interval : ℤ) where
  -- The end of `broadcast`, by what the node returned.
  unfoldable pub record_broadcast : BroadcastClaim → BroadcastResult → World → Round
  record_broadcast b invalid w = (some invalid_signed_transaction, w)
  record_broadcast b accepted w = queued (begin_confirmation now b "accepted" "" w.database) w
  record_broadcast b lost w =
      unless_done lost (queued (begin_confirmation now b "unknown" "broadcast_error" w.database) w)

  -- `broadcast`
  unfoldable pub broadcast : BroadcastClaim → World → Round
  broadcast b w = record_broadcast b (node.broadcast b.transaction) (send b.transaction w)

  abbrev release : ConfirmationClaim → String → World → Round
  release f failure_code w = queued (release_confirmation now f interval failure_code w.database) w

  abbrev fail : ConfirmationClaim → String → World → Round
  fail f reason w = queued (complete_confirmation_failure env now f reason w.database) w

  abbrev rebroadcast_code : BroadcastResult → String
  rebroadcast_code accepted = ""
  rebroadcast_code _ = "rebroadcast_error"

  unfoldable pub rebroadcast : ConfirmationClaim → World → Round
  rebroadcast f w =
      let result = node.broadcast f.transaction in
      unless_done result (release f (rebroadcast_code result) (send f.transaction w))

  -- `!head.Timestamp.Before(claim.ExpiresAt)`; the zero time is before every other.
  abbrev pub is_past : Header → ℕ → Bool
  is_past head expires_at = elim head.timestamp [ none ↦ false | some at ↦ leb expires_at at ]

  -- The branch of a transaction that the node does not know.
  unfoldable pub confirm_missing : ConfirmationClaim → World → Round
  confirm_missing f w = elim node.solidified_head [
    | none ↦ joined node_error (release f "node_error" w)
    | some head ↦
        if is_past head f.expires_at then fail f "expired_not_found" w else rebroadcast f w
  ]

  unfoldable pub confirm_state : ConfirmationClaim → TransactionStatus → Bool → World → Round
  confirm_state f TransactionStatus.succeeded true w =
      queued (complete_confirmation_success env now f w.database) w
  confirm_state f TransactionStatus.failed true w = fail f "execution_failed" w
  confirm_state f TransactionStatus.not_found solidified w = confirm_missing f w
  confirm_state f status solidified w = release f "" w

  -- `confirm`
  unfoldable pub confirm : ConfirmationClaim → World → Round
  confirm f w = elim (node.transaction f.transaction.id) [
    | none ↦ joined node_error (release f "node_error" w)
    | some s ↦ confirm_state f s.status s.solidified w
  ]

  -- The fields of `executionOperation` that a round reads; `prefer_confirmation` is the one that
  -- it writes. `locked` are the rows that `SKIP LOCKED` passes over.
  module _ (locked : String → Bool) (worker_id : String) (lease_duration : ℤ) where
    abbrev pub Step : Type 0
    Step = Bool × Bool × Round

    -- The end of `RunOnce`, after the claim of a confirmation.
    unfoldable pub confirm_claimed : Bool → Result Error ConfirmationClaim → World → Step
    unfolding confirm
    confirm_claimed prefer (ok f) w = (false, true, confirm f w)
    confirm_claimed prefer (err no_confirmation_job) w = (prefer, false, (none, w))
    confirm_claimed prefer (err e) w = (prefer, false, (some (queue e), w))

    abbrev pub claimed :
        {A : Type 0} → (Result Error A → World → Step) → Result Error A × Database → World → Step
    claimed f (r, db) w = f r (record w { database = db })

    -- The middle of `RunOnce`, after the claim of a broadcast.
    unfoldable pub broadcast_claimed : Bool → Result Error BroadcastClaim → World → Step
    unfolding broadcast confirm_claimed
    broadcast_claimed prefer (ok b) w = (true, true, broadcast b w)
    broadcast_claimed prefer (err no_broadcast_job) w =
        claimed (confirm_claimed prefer)
          (claim_confirmation locked now worker_id lease_duration w.database) w
    broadcast_claimed prefer (err e) w = (prefer, false, (some (queue e), w))

    unfoldable pub broadcast_or_confirm : Bool → World → Step
    unfolding broadcast_claimed
    broadcast_or_confirm prefer w =
        claimed (broadcast_claimed prefer)
          (claim_broadcast locked now worker_id lease_duration w.database) w

    -- The beginning of `RunOnce`, after the claim of a confirmation that is preferred.
    unfoldable pub preferred_claimed : Result Error ConfirmationClaim → World → Step
    unfolding confirm broadcast_or_confirm
    preferred_claimed (ok f) w = (false, true, confirm f w)
    preferred_claimed (err no_confirmation_job) w = broadcast_or_confirm true w
    preferred_claimed (err e) w = (true, false, (some (queue e), w))

    -- `RunOnce`: the new `prefer_confirmation`, whether it worked, and its error.
    unfoldable pub run_once : Bool → World → Step
    unfolding preferred_claimed
    run_once false w = broadcast_or_confirm false w
    run_once true w =
        claimed preferred_claimed
          (claim_confirmation locked now worker_id lease_duration w.database) w
