-- ===== src/Indexer/Scanner.antt =====
-- internal/chain/tron/indexer/scanner.go: one step of the scan, which stores the events of the next
-- finalized block and moves the cursor in one database transaction.
use stablecoin_gateway.Prelude.{
  ℕ, String, Bool, true, false, not, ◌&&◌, ◌||◌, Option, none, some, List, [], ◌∷◌, ltb, ◌==◌,
  if◌then◌else◌, ℤ, is_some, max_int64, text_eq, find, any, length, ok, err, Result, pure, raise,
  or_raise, ◌>>=◌, ◌>>◌, raise_if, transaction,
}
use stablecoin_gateway.Tron.Types.{Header, EventId, Transfer, Receipt, Block}
use stablecoin_gateway.Tron.Simulator.Blocks.{
  is_known, has_receipt, has_succeeded, positive_integer,
}
use stablecoin_gateway.Indexer.Cursor.{
  ChainEvent, IndexerError, invalid_block, invalid_event, event_conflict, node_error, joined,
  ScanClaim, Tx, bind_contract, claim, advance, release,
}

-- `tron.FinalizedReader`; `none` is an error of the call.
pub record FinalizedReader : Type 0 where
  pub solidified_head : Option Header
  pub solidified_block : ℕ → Option Block

pub record StepResult : Type 0 where
  pub processed : Bool
  pub height : ℕ
  pub event_count : ℕ

abbrev pub no_step : StepResult
no_step = record { processed = false; height = 0; event_count = 0 }

-- `validAmount`, which is written as the simulator's `positiveInteger` is.
abbrev pub valid_amount : String → Bool
valid_amount = positive_integer

-- The first loop of `validTransfers`; `seen` are the receipts before.
unfoldable pub valid_receipts : List Receipt → List Receipt → Bool
valid_receipts seen [] = true
valid_receipts seen (r ∷ rs) =
    not (text_eq r.transaction_id "")
    && is_known r.outcome
    && not (has_receipt r.transaction_id seen)
    && valid_receipts (r ∷ seen) rs

abbrev pub same_event : EventId → EventId → Bool
same_event x y =
    text_eq x.network y.network
    && text_eq x.contract y.contract
    && text_eq x.transaction_id y.transaction_id
    && x.log_index == y.log_index

abbrev pub valid_transfer : String → List Receipt → Transfer → Bool
valid_transfer network receipts t =
    text_eq t.id.network network
    && not (text_eq t.id.transaction_id "")
    && not (text_eq t.from "")
    && not (text_eq t.to "")
    && has_succeeded t.id.transaction_id receipts
    && valid_amount t.amount

-- The second loop of `validTransfers`: the transfers of the contract, in their order; `seen` are
-- those before.
unfoldable pub collect_transfers :
    String → String → List Receipt → List Transfer → List Transfer → Option (List Transfer)
collect_transfers network contract receipts seen [] = some []
collect_transfers network contract receipts seen (t ∷ ts) =
    let skipped = collect_transfers network contract receipts seen ts in
    let taken = collect_transfers network contract receipts (t ∷ seen) ts in
    if not (text_eq t.id.contract contract)
    then skipped
    else if not (valid_transfer network receipts t) || any (λ u. same_event u.id t.id) seen
    then none
    else elim taken [ none ↦ none | some rest ↦ some (t ∷ rest) ]

-- `validTransfers`
unfoldable pub valid_transfers : String → String → Block → Option (List Transfer)
unfolding valid_receipts collect_transfers
valid_transfers network contract b =
    if valid_receipts [] b.receipts
    then collect_transfers network contract b.receipts [] b.transfers
    else none

abbrev pub event_row : Header → Transfer → ChainEvent
event_row h t = record {
  network = t.id.network;
  contract = t.id.contract;
  transaction_id = t.id.transaction_id;
  log_index = t.id.log_index;
  block_height = h.height;
  block_hash = h.hash;
  block_time = h.timestamp;
  from_address = t.from;
  to_address = t.to;
  amount = t.amount;
}

-- The primary key of `chain_events`.
abbrev pub is_event : EventId → ChainEvent → Bool
is_event id e =
    text_eq e.network id.network
    && text_eq e.contract id.contract
    && text_eq e.transaction_id id.transaction_id
    && e.log_index == id.log_index

abbrev same_time : Option ℕ → Option ℕ → Bool
same_time none none = true
same_time (some t) (some u) = t == u
same_time _ _ = false

-- The facts that a stored event is compared by.
abbrev pub same_facts : ChainEvent → ChainEvent → Bool
same_facts e f =
    e.block_height == f.block_height
    && text_eq e.block_hash f.block_hash
    && same_time e.block_time f.block_time
    && text_eq e.from_address f.from_address
    && text_eq e.to_address f.to_address
    && text_eq e.amount f.amount

-- `insertEvent`, an `INSERT … ON CONFLICT DO NOTHING` and the comparison where a row was there.
unfoldable pub insert_event : Header → Transfer → Tx (Unit {0})
insert_event h t db =
    if ltb max_int64 h.height
    then (err invalid_block, db)
    else elim (find (is_event t.id) db.events) [
      | none ↦ (ok tt, record db { events = event_row h t ∷ db.events })
      | some e ↦ if same_facts e (event_row h t) then (ok tt, db) else (err event_conflict, db)
    ]

unfoldable pub insert_events : Header → List Transfer → Tx (Unit {0})
insert_events h [] = pure tt
insert_events h (t ∷ ts) = insert_event h t >> insert_events h ts

-- The conditions of `Step` on the block that the node returned.
unfoldable pub is_next_block : ScanClaim → Header → Header → Bool
is_next_block s head h =
    h.height == s.next_height
    && not (text_eq h.hash "")
    && is_some h.timestamp
    && not (text_eq h.hash s.previous_hash)
    && text_eq h.parent_hash s.previous_hash
    && not (h.height == head.height && not (text_eq h.hash head.hash))

-- `Scanner`; the durations of its lease are nanoseconds.
pub record Scanner : Type 0 where
  pub network : String
  pub contract : String
  pub worker_id : String
  pub lease_duration : ℤ

-- `now` is the time of the claim, `later` that of the end of the step.
module _ (reader : FinalizedReader) (scanner : Scanner) (now later : ℕ) where
  -- The database transaction of `Step`.
  unfoldable pub store_block : ScanClaim → Header → List Transfer → Tx (Unit {0})
  store_block s h ts = transaction (insert_events h ts >> advance later s h)

  abbrev done : Header → List Transfer → StepResult
  done h ts = record { processed = true; height = h.height; event_count = length ts }

  -- The rest of `Step` where the block of the cursor is finalized.
  unfoldable pub scan_finalized : ScanClaim → Header → Tx StepResult
  scan_finalized s head = do
    b ← or_raise (reader.solidified_block s.next_height) node_error
    raise_if (not (is_next_block s head b.header)) invalid_block
    ts ← or_raise (valid_transfers scanner.network scanner.contract b) invalid_event
    store_block s b.header ts
    pure (done b.header ts)

  abbrev pub scan_below : ScanClaim → Option Header → Tx StepResult
  scan_below s none = raise node_error
  scan_below s (some head) =
      if ltb head.height s.next_height then pure no_step else scan_finalized s head

  -- `Step` after the claim, up to its deferred release; it has committed if it has `processed`.
  unfoldable pub scan_block : ScanClaim → Tx StepResult
  scan_block s = scan_below s reader.solidified_head

  -- The deferred function: it releases the lease unless the step has committed.
  unfoldable pub finish_step : ScanClaim → Result IndexerError StepResult → Tx StepResult
  finish_step s r db = elim r [
    | ok step ↦
        if step.processed
        then (ok step, db)
        else (let (released, db') = release later s db in
            elim released [ ok u ↦ (ok step, db') | err e ↦ (err e, db') ])
    | err e ↦
        let (released, db') = release later s db in
        elim released [ ok u ↦ (err e, db') | err f ↦ (err (joined e f), db') ]
  ]

  -- `Step`
  unfoldable pub step : Tx StepResult
  step = do
    bind_contract now scanner.network scanner.contract
    s ← claim now scanner.network scanner.worker_id scanner.lease_duration
    λ db. (let (r, db') = scan_block s db in finish_step s r db')
