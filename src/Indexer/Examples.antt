-- ===== src/Indexer/Examples.antt =====
-- A chain with one transfer of the tracked contract, a node that knows it, and a cursor at its block.
use stablecoin_gateway.Prelude.{
  ℕ, ◌+◌, ◌≡◌, refl, true, none, some, List, [], ◌∷◌, pos, ◌==◌, if◌then◌else◌, ok, arith, is_blank,
  text_dec, trim_space, trim_left, trim_right, is_space,
}
use stablecoin_gateway.Tron.Types.{Header, Transfer, ExecutionOutcome, Block}
use stablecoin_gateway.Tron.Simulator.Blocks.{positive_integer, all_digits, decimal_value}
use stablecoin_gateway.Indexer.Cursor.{Cursor, Tables}
use stablecoin_gateway.Indexer.Scanner.{
  FinalizedReader, Scanner, valid_transfers, valid_receipts, collect_transfers, insert_events,
  insert_event, is_next_block, step,
}
use stablecoin_gateway.Indexer.Mirror.{scanned, IsMirror}
use stablecoin_gateway.Indexer.Refinement.{Round, run_steps, run_steps-IsMirror}
use stablecoin_gateway.Indexer.Insertion.{of_contract}
use stablecoin_gateway.Indexer.Progress.{stored_rows, IsReady, step_advances}

abbrev head : Header
head = record { height = 5; hash = "b5"; parent_hash = "b4"; timestamp = some 1 }

abbrev paid : Transfer
paid = record {
  id = record { network = "nile"; contract = "usdt"; transaction_id = "t"; log_index = 0 };
  from = "a";
  to = "b";
  amount = "25";
}

abbrev block : Block
block = record {
  header = head;
  receipts = record { transaction_id = "t"; outcome = ExecutionOutcome.succeeded } ∷ [];
  transfers = paid ∷ [];
}

abbrev chain : ℕ → Block
chain h = if h == 5 then block else record {
  header = record { height = h; hash = "x"; parent_hash = "b5"; timestamp = some 2 };
  receipts = [];
  transfers = [];
}

abbrev node : FinalizedReader
node = record { solidified_head = some head; solidified_block = λ h. some (chain h) }

abbrev scanner : Scanner
scanner = record {
  network = "nile";
  contract = "usdt";
  worker_id = "w";
  lease_duration = pos 1000000000;
}

abbrev cursor : Cursor
cursor = record {
  network = "nile";
  start_height = 5;
  anchor_hash = "b4";
  next_height = 5;
  previous_hash = "b4";
  tracked_contract = some "usdt";
  lease = none;
  lease_epoch = 0;
  updated_at = 0;
}

abbrev at_start : Tables
at_start = record { cursors = cursor ∷ []; events = [] }

at_start-IsReady : IsReady node scanner 10 20 cursor head block (paid ∷ []) at_start
unfolding is_blank trim_space trim_left trim_right is_space text_dec is_next_block valid_transfers
    valid_receipts collect_transfers insert_events insert_event positive_integer all_digits
    decimal_value
at_start-IsReady = record {
  network = refl;
  contract = refl;
  worker = refl;
  names = (refl, refl);
  duration = omega arith;
  positive = omega arith;
  cursors = refl;
  on_network = refl;
  bound = refl;
  free = refl;
  solidified = refl;
  reached = omega arith;
  block = refl;
  height = (omega arith, omega arith);
  previous = refl;
  next_block = refl;
  transfers = refl;
  unseen = (refl, tt);
}

step_advances_example :
    (d : Tables) × (moved : Cursor) × (step node scanner 10 20 at_start
      ≡ (ok (record { processed = true; height = 5; event_count = 1 }), d))
    × (d.cursors ≡ moved ∷ [])
    × (moved.next_height ≡ 5 + 1)
    × (moved.previous_hash ≡ "b5")
    × (moved.lease ≡ none)
    × (d.events ≡ stored_rows block.header (of_contract "usdt" block.transfers) [])
step_advances_example =
    step_advances node scanner 10 20 cursor head block (paid ∷ []) at_start at_start-IsReady

abbrev rounds : List Round
rounds =
    record { worker_id = "w"; lease_duration = pos 1000000000; now = 10; later = 20; reader = node }
    ∷ record {
      worker_id = "v";
      lease_duration = pos 1000000000;
      now = 15;
      later = 30;
      reader = node;
    }
    ∷ []

at_start-IsMirror : IsMirror chain "nile" "usdt" 5 at_start
unfolding scanned text_dec
at_start-IsMirror = record {
  cursor = cursor;
  count = 0;
  found = refl;
  one_cursor = omega arith;
  position = refl;
  mirrored = refl;
  lower = tt;
}

run_steps-IsMirror_example :
    IsMirror chain "nile" "usdt" 5 (run_steps "nile" "usdt" rounds at_start)
run_steps-IsMirror_example =
    run_steps-IsMirror chain "nile" "usdt" 5 rounds at_start (λ h b e. cc, (λ h b e. cc, tt))
      at_start-IsMirror
