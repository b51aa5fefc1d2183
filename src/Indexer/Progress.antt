-- ===== src/Indexer/Progress.antt =====
-- A step whose conditions are met does store the next block.
use stablecoin_gateway.Prelude.{
  ℕ, ◌+◌, ◌<◌, ◌≤◌, ◌≡◌, refl, true, false, none, some, List, [], ◌∷◌, arith, text_eq, is_blank,
  length, max_int64, ok, ap, ◌∙◌,
}
use stablecoin_gateway.Lease.{is_free, milliseconds}
use stablecoin_gateway.Tron.Types.{Header, Transfer, Block}
use stablecoin_gateway.Indexer.Cursor.{
  Cursor, ChainEvent, Tables, ScanClaim, bind_contract, claimed_row, claim, continues, advanced_row,
  update_one, advance,
}
use stablecoin_gateway.Indexer.Insertion.{
  push_rows, of_contract, IsCollected, AreUnseen, collect_transfers-IsCollected, insert_events_done,
}
use stablecoin_gateway.Indexer.Scanner.{
  FinalizedReader, StepResult, Scanner, valid_transfers, event_row, is_next_block, store_block,
  scan_finalized, scan_block, finish_step, step,
}

abbrev pub claim_of : Scanner → Cursor → ScanClaim
claim_of scanner c = record {
  network = scanner.network;
  worker_id = scanner.worker_id;
  next_height = c.next_height;
  previous_hash = c.previous_hash;
  lease_epoch = c.lease_epoch + 1;
}

-- What a step needs to store the block at a cursor: names and a lease that are accepted, a contract
-- bound to the cursor, a lease that is free at the start and long enough for the step, a node that
-- has the block, a block that continues the chain with sound transfers, and no stored event
-- with the identity of one of them.
pub record IsReady (reader : FinalizedReader) (scanner : Scanner) (now later : ℕ) (c : Cursor)
    (head : Header) (b : Block) (ts : List Transfer) (db : Tables) : Type 0 where
  pub network : is_blank scanner.network ≡ false
  pub contract : is_blank scanner.contract ≡ false
  pub worker : is_blank scanner.worker_id ≡ false
  pub names : (text_eq scanner.network "" ≡ false) × (text_eq scanner.worker_id "" ≡ false)
  pub duration : later < now + milliseconds scanner.lease_duration
  pub positive : 0 < milliseconds scanner.lease_duration
  pub cursors : db.cursors ≡ c ∷ []
  pub on_network : c.network ≡ scanner.network
  pub bound : c.tracked_contract ≡ some scanner.contract
  pub free : is_free now c.lease ≡ true
  pub solidified : reader.solidified_head ≡ some head
  pub reached : c.next_height ≤ head.height
  pub block : reader.solidified_block c.next_height ≡ some b
  pub height : (0 < c.next_height) × (c.next_height < max_int64)
  pub previous : text_eq c.previous_hash "" ≡ false
  pub next_block : is_next_block (claim_of scanner c) head b.header ≡ true
  pub transfers : valid_transfers scanner.network scanner.contract b ≡ some ts
  pub unseen : AreUnseen ts db.events

module _ (reader : FinalizedReader) (scanner : Scanner) (now later : ℕ) (c : Cursor) (head : Header)
    (b : Block) (ts : List Transfer) (db : Tables)
    (ready : IsReady reader scanner now later c head b ts db) where
  open ready use {
    network, contract, worker, names, duration, positive, cursors, on_network, bound, free,
    solidified, reached, block, height, previous, next_block, transfers, unseen,
  }

  bound_already : bind_contract now scanner.network scanner.contract db ≡ (ok tt, db)
  unfolding bind_contract
  bound_already = ground arith

  abbrev claimed : Tables
  claimed = record db { cursors = claimed_row now scanner.worker_id scanner.lease_duration c ∷ [] }

  claimed_first :
      claim now scanner.network scanner.worker_id scanner.lease_duration db
      ≡ (ok (claim_of scanner c), claimed)
  unfolding claim
  claimed_first = ground arith

  continued : continues (claim_of scanner c) b.header ≡ true
  unfolding continues is_next_block
  continued = ground arith

  abbrev moved_cursor : Cursor
  moved_cursor =
      advanced_row later b.header.hash (claimed_row now scanner.worker_id scanner.lease_duration c)

  advance_succeeds :
      (d : Tables)
      → d.cursors ≡ claimed.cursors
      → advance later (claim_of scanner c) b.header d
        ≡ (ok tt, record d { cursors = moved_cursor ∷ [] })
  unfolding advance update_one
  advance_succeeds d same = ground (arith, continued)

  low : b.header.height ≤ max_int64
  unfolding is_next_block
  low = ground arith

  collected : IsCollected scanner.network scanner.contract [] b.transfers ts
  unfolding valid_transfers
  collected =
      collect_transfers-IsCollected scanner.network scanner.contract b.receipts [] b.transfers ts
        (ground arith)

  abbrev with_events : Tables
  with_events = record claimed { events = push_rows b.header ts db.events }

  stored :
      (d : Tables) × (store_block reader scanner now later (claim_of scanner c) b.header ts claimed
        ≡ (ok tt, d))
      × (d.cursors ≡ moved_cursor ∷ [])
      × (d.events ≡ push_rows b.header ts db.events)
  unfolding store_block
  stored =
      let inserted = insert_events_done b.header ts claimed low collected.fresh unseen in
      let moved = advance_succeeds with_events refl in
      (
        record with_events { cursors = moved_cursor ∷ [] },
        ground (arith, inserted, moved),
        refl,
        refl,
      )

  abbrev result : StepResult
  result = record { processed = true; height = b.header.height; event_count = length ts }

  scanned_once :
      (d : Tables) × (scan_block reader scanner now later (claim_of scanner c) claimed
        ≡ (ok result, d))
      × (d.cursors ≡ moved_cursor ∷ [])
      × (d.events ≡ push_rows b.header ts db.events)
  unfolding scan_block scan_finalized
  scanned_once = let (d, done, moved, rows) = stored in (d, ground (arith, done), moved, rows)

-- The rows that the transfers of a block are stored as, on top of a table.
abbrev pub stored_rows : Header → List Transfer → List ChainEvent → List ChainEvent
stored_rows h [] es = es
stored_rows h (t ∷ ts) es = stored_rows h ts (
    record {
      network = t.id.network;
      contract = t.id.contract;
      transaction_id = t.id.transaction_id;
      log_index = t.id.log_index;
      block_height = h.height;
      block_hash = h.hash;
      block_time = h.timestamp;
      from_address = t.from;
      to_address = t.to;
      amount = t.amount;
    }
    ∷ es)

stored_rows_are :
    (h : Header) (ts : List Transfer) (es : List ChainEvent)
    → push_rows h ts es ≡ stored_rows h ts es
stored_rows_are h [] es = refl
stored_rows_are h (t ∷ ts) es = stored_rows_are h ts (event_row h t ∷ es)

-- A step whose conditions are met succeeds and has processed the next block: it reports the
-- cursor's height and the number of the contract's transfers, has added the row of each of these
-- transfers to the table of events, in their order, and leaves the cursor one block further, at the
-- hash of that block and without a lease. One of the conditions is that no stored event has the
-- identity of one of the transfers.
pub step_advances :
    (reader : FinalizedReader) (scanner : Scanner) (now later : ℕ) (c : Cursor) (head : Header)
    (b : Block) (ts : List Transfer) (db : Tables)
    → IsReady reader scanner now later c head b ts db
    → (d : Tables) × (moved : Cursor) × (step reader scanner now later db
        ≡ (ok (record { processed = true; height = c.next_height; event_count = length ts }), d))
      × (d.cursors ≡ moved ∷ [])
      × (moved.next_height ≡ c.next_height + 1)
      × (moved.previous_hash ≡ b.header.hash)
      × (moved.lease ≡ none)
      × (d.events ≡ stored_rows b.header (of_contract scanner.contract b.transfers) db.events)
unfolding step finish_step is_next_block
step_advances reader scanner now later c head b ts db ready =
    let (d, once, moved, rows) = scanned_once reader scanner now later c head b ts db ready in
    let height : b.header.height ≡ c.next_height = ground (arith, ready.next_block) in
    let bound = bound_already reader scanner now later c head b ts db ready in
    let first = claimed_first reader scanner now later c head b ts db ready in
    let all = (collected reader scanner now later c head b ts db ready).all in
    let stored_so : d.events
        ≡ stored_rows b.header (of_contract scanner.contract b.transfers) db.events =
      rows
      ∙ stored_rows_are b.header ts db.events
      ∙ ap (λ us. stored_rows b.header us db.events) all in
    (d, _, ground (arith, once, height, bound, first), moved, refl, refl, refl, stored_so)
