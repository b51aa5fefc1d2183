-- ===== src/Indexer/Worker.antt =====
-- internal/chain/tron/indexer/worker.go: what the worker does with an error of a step.
use stablecoin_gateway.Prelude.{Bool, true, false, ◌||◌, if◌then◌else◌}
use stablecoin_gateway.Background.Runner.{Decision, retry, idle, stop}
use stablecoin_gateway.Indexer.Cursor.{
  IndexerError, invalid_cursor, anchor_conflict, contract_conflict, contract_unbound,
  lease_unavailable, lease_lost, invalid_block, cursor_missing, invalid_event, event_conflict,
  node_error, joined,
}

-- The tests by `errors.Is`, which looks into joined errors.
unfoldable pub is_fatal : IndexerError → Bool
is_fatal (joined e f) = is_fatal e || is_fatal f
is_fatal invalid_cursor = true
is_fatal anchor_conflict = true
is_fatal contract_conflict = true
is_fatal contract_unbound = true
is_fatal invalid_block = true
is_fatal invalid_event = true
is_fatal event_conflict = true
is_fatal lease_unavailable = false
is_fatal lease_lost = false
is_fatal cursor_missing = false
is_fatal node_error = false

unfoldable pub is_waiting : IndexerError → Bool
is_waiting (joined e f) = is_waiting e || is_waiting f
is_waiting lease_unavailable = true
is_waiting _ = false

-- `classifyWorkerError`
unfoldable pub classify_worker_error : IndexerError → Decision
unfolding is_fatal is_waiting
classify_worker_error e = if is_fatal e then stop else if is_waiting e then idle else retry
