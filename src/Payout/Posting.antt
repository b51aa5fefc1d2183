-- ===== src/Payout/Posting.antt =====
-- The ledger transaction and the event that a payout's operation adds in its own database
-- transaction.
use stablecoin_gateway.Prelude.{String, Bool, ok, err}
use stablecoin_gateway.Ledger.Transaction
use stablecoin_gateway.Ledger.Repository.{Payload, PostResult, post_in_transaction}
use stablecoin_gateway.Outbox.Enqueue.{
  PendingEvent, invalid_pending_event, event_exists, enqueue_in_transaction,
}
use stablecoin_gateway.Payout.State.{constraint_violated, invalid_event, ledger, Tx}

-- A ledger transaction posted in the transaction of the caller.
unfoldable pub post_to_ledger : (Payload → String) → Transaction.Transaction → Tx PostResult
post_to_ledger digest t db =
    let (r, j) = post_in_transaction digest t db.journal in
    elim r [
      | ok a ↦ (ok a, record db { journal = j })
      | err e ↦ (err (ledger e), record db { journal = j })
    ]

unfoldable pub enqueue : (String → Bool) → PendingEvent → Tx (Unit {0})
enqueue json_valid e db = elim (enqueue_in_transaction json_valid e db.outbox) [
  | ok events ↦ (ok tt, record db { outbox = events })
  | err invalid_pending_event ↦ (err invalid_event, db)
  | err event_exists ↦ (err constraint_violated, db)
]
