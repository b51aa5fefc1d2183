-- ===== src/Indexer/Refinement.antt =====
-- Every step of a scanner refines the copy of the finalized chain.
use stablecoin_gateway.Prelude.{
  ℕ, suc, ◌+◌, ◌≡◌, refl, sym, ap, ◌∙◌, ◌⊎◌, inl, inr, String, some, List, [], ◌∷◌, arith, ltb,
  max_int64, ℤ, find, All, Result, ok, err, Outcome-cases, Option-cases, Bool-cases, ◌>>◌,
}
use stablecoin_gateway.Tron.Types.{Header, Transfer, Block}
use stablecoin_gateway.Indexer.Cursor.{
  ChainEvent, Tables, IndexerError, ScanClaim, bind_contract, is_claimable, claim, advanced_row,
  advance, release,
}
use stablecoin_gateway.Indexer.Scanner.{
  FinalizedReader, StepResult, Scanner, valid_transfers, insert_event, insert_events, event_row,
  is_event, same_facts, is_next_block, store_block, scan_finalized, scan_block, finish_step, step,
}
use stablecoin_gateway.Indexer.Insertion.{
  push_rows, of_contract, IsCollected, AreLower, collect_transfers-IsCollected,
  insert_events-push_rows,
}
use stablecoin_gateway.Indexer.Mirror.{
  scanned, IsMirror, Quiet-IsMirror, bind_contract-Quiet, claim-Quiet, release-Quiet,
  of_network-push_rows, AreLower-push_rows, AreLower-next, advance-moves,
}

insert_event-cursors :
    (h : Header) (t : Transfer) (db : Tables) → (insert_event h t db).1.cursors ≡ db.cursors
unfolding insert_event
insert_event-cursors h t db = elim (Bool-cases (ltb max_int64 h.height)) [
  | inl high ↦ rw (high, insert_event) refl
  | inr fine ↦ elim (Option-cases (find (is_event t.id) db.events)) [
    | inl new ↦ rw (fine, new, insert_event) refl
    | inr (e, old) ↦ elim (Bool-cases (same_facts e (event_row h t))) [
      | inl same ↦ rw (fine, old, same, insert_event) refl
      | inr other ↦ rw (fine, old, other, insert_event) refl
    ]
  ]
]

pub insert_events-cursors :
    (h : Header) (ts : List Transfer) (db : Tables) → (insert_events h ts db).1.cursors ≡ db.cursors
unfolding insert_events
insert_events-cursors h [] db = refl
insert_events-cursors h (t ∷ ts) db =
    let first = insert_event-cursors h t db in
    elim (Outcome-cases (insert_event h t db)) [
      | inl (u, d, one) ↦ ground (arith, insert_events-cursors h ts d)
      | inr (x, d, failed) ↦ ground arith
    ]

-- What the node says of a finalized block is what the chain has there.
abbrev pub IsNodeOf : (ℕ → Block) → FinalizedReader → Type 0
IsNodeOf chain reader =
    (height : ℕ) (b : Block) → reader.solidified_block height ≡ some b → b ≡ chain height

module _ (chain : ℕ → Block) (start : ℕ) (reader : FinalizedReader) (scanner : Scanner)
    (now later : ℕ) where
  abbrev Mirrors : Tables → Type 0
  Mirrors = IsMirror chain scanner.network scanner.contract start

  next_rows :
      (s : ScanClaim) (b : Block) (ts : List Transfer) (count : ℕ) {es : List ChainEvent}
      → es ≡ scanned chain scanner.network scanner.contract start count
      → b ≡ chain b.header.height
      → start + count ≡ b.header.height
      → ts ≡ of_contract scanner.contract b.transfers
      → push_rows b.header ts es ≡ scanned chain scanner.network scanner.contract start (suc count)
  unfolding scanned
  next_rows s b ts count e at height all =
      let here : chain (start + count) ≡ b = ap chain height ∙ sym at in rw (here, all, e) refl

  store_block-IsMirror :
      (s : ScanClaim) (b : Block) (ts : List Transfer) (db db' : Tables)
      → s.network ≡ scanner.network
      → b ≡ chain b.header.height
      → IsCollected scanner.network scanner.contract [] b.transfers ts
      → store_block reader scanner now later s b.header ts db ≡ (ok tt, db')
      → Mirrors db
      → Mirrors db'
  unfolding store_block
  store_block-IsMirror s b ts db db' on at collected e m =
      elim (Outcome-cases (insert_events b.header ts db)) [
        | inr (x, d, failed) ↦ absurd (ground arith)
        | inl (u, d, inserted) ↦
            let moved : advance later s b.header d ≡ (ok tt, db') = ground arith in
            let kept : d.cursors ≡ db.cursors =
              ground (arith, insert_events-cursors b.header ts db) in
            let (position, found, one, same_events) =
              advance-moves chain scanner.network scanner.contract start later s b.header d db'
                m.cursor on (rw kept m.one_cursor) (rw kept m.found) moved in
            let low : AreLower scanner.network b.header.height db.events =
              rw (sym position) m.lower in
            let rows =
              insert_events-push_rows scanner.network b.header ts db d collected.fresh
                collected.on_network low inserted in
            let events : db'.events ≡ push_rows b.header ts db.events =
              same_events ∙ ap (λ (t : Tables). t.events) rows in
            let height : start + m.count ≡ b.header.height = sym m.position ∙ position in
            record {
              cursor = advanced_row later b.header.hash m.cursor;
              count = suc m.count;
              found = found;
              one_cursor = one;
              position = omega (arith, m.position);
              mirrored = rw events (
                  of_network-push_rows chain scanner.network scanner.contract start b.header ts
                    db.events collected.on_network
                  ∙ next_rows s b ts m.count m.mirrored at height collected.all);
              lower =
                  rw (events, position)
                    (AreLower-push_rows chain scanner.network scanner.contract start b.header ts
                      db.events
                      (AreLower-next chain scanner.network scanner.contract start b.header.height
                        db.events low));
            }
      ]

  store_block-back :
      (s : ScanClaim) (h : Header) (ts : List Transfer) (db d : Tables) (x : IndexerError)
      → store_block reader scanner now later s h ts db ≡ (err x, d)
      → d ≡ db
  unfolding store_block
  store_block-back s h ts db d x failed =
      elim (Outcome-cases ((insert_events h ts >> advance later s h) db)) [
        | inl (u, e, done) ↦ absurd (ground arith)
        | inr (y, e, stop) ↦ ground arith
      ]

  scan_finalized-IsMirror :
      IsNodeOf chain reader
      → (s : ScanClaim) (head : Header) (db : Tables) → s.network ≡ scanner.network
      → Mirrors db
      → Mirrors (scan_finalized reader scanner now later s head db).1
  unfolding scan_finalized valid_transfers is_next_block
  scan_finalized-IsMirror node s head db on m =
      elim (Option-cases (reader.solidified_block s.next_height)) [
        | inl silent ↦ rw (silent, scan_finalized) m
        | inr (b, got) ↦ elim (Bool-cases (is_next_block s head b.header)) [
          | inr wrong ↦ rw (got, wrong, scan_finalized) m
          | inl right ↦ elim (Option-cases (valid_transfers scanner.network scanner.contract b)) [
            | inl bad ↦ rw (got, right, bad, scan_finalized) m
            | inr (ts, valid) ↦
                elim (Outcome-cases (store_block reader scanner now later s b.header ts db)) [
                  | inr (x, d, failed) ↦
                      let back = store_block-back s b.header ts db d x failed in
                      let done : (scan_finalized reader scanner now later s head db).1 ≡ db =
                        ground arith in
                      rw done m
                  | inl (u, d, stored) ↦
                      let height : b.header.height ≡ s.next_height = ground arith in
                      let at : b ≡ chain b.header.height =
                        node s.next_height b got ∙ ap chain (sym height) in
                      let collected =
                        collect_transfers-IsCollected scanner.network scanner.contract b.receipts []
                          b.transfers ts (ground arith) in
                      let next = store_block-IsMirror s b ts db d on at collected stored m in
                      let done : (scan_finalized reader scanner now later s head db).1 ≡ d =
                        ground arith in
                      rw done next
                ]
          ]
        ]
      ]

  scan_block-IsMirror :
      IsNodeOf chain reader
      → (s : ScanClaim) (db : Tables) → s.network ≡ scanner.network
      → Mirrors db
      → Mirrors (scan_block reader scanner now later s db).1
  unfolding scan_block
  scan_block-IsMirror node s db on m = elim (Option-cases reader.solidified_head) [
    | inl silent ↦ rw (silent, scan_block) m
    | inr (head, got) ↦ elim (Bool-cases (ltb head.height s.next_height)) [
      | inl ahead ↦ rw (got, ahead, scan_block) m
      | inr behind ↦
          let rest : scan_block reader scanner now later s db
              ≡ scan_finalized reader scanner now later s head db =
            ground arith in
          rw rest (scan_finalized-IsMirror node s head db on m)
    ]
  ]

  finish_step-state :
      (s : ScanClaim) (r : Result IndexerError StepResult) (db : Tables)
      → ((finish_step reader scanner now later s r db).1 ≡ db)
        ⊎ ((finish_step reader scanner now later s r db).1 ≡ (release later s db).1)
  unfolding finish_step
  finish_step-state s (ok result) db = elim (Bool-cases result.processed) [
    | inl committed ↦ inl (rw (committed, finish_step) refl)
    | inr idle ↦ elim (Outcome-cases (release later s db)) [
      | inl (u, d, e) ↦ inr (ground arith)
      | inr (x, d, e) ↦ inr (ground arith)
    ]
  ]
  finish_step-state s (err f) db = elim (Outcome-cases (release later s db)) [
    | inl (u, d, e) ↦ inr (ground arith)
    | inr (x, d, e) ↦ inr (ground arith)
  ]

  finish_step-IsMirror :
      (s : ScanClaim) (r : Result IndexerError StepResult) (db : Tables)
      → Mirrors db
      → Mirrors (finish_step reader scanner now later s r db).1
  finish_step-IsMirror s r db m = elim (finish_step-state s r db) [
    | inl same ↦ rw same m
    | inr released ↦ rw released (
        Quiet-IsMirror chain scanner.network scanner.contract start db (release later s db).1
          (release-Quiet chain scanner.network scanner.contract start later s db) m)
  ]

  claim-network :
      (worker : String) (duration : ℤ) (db d : Tables) (s : ScanClaim)
      → claim now scanner.network worker duration db ≡ (ok s, d)
      → s.network ≡ scanner.network
  unfolding claim
  claim-network worker duration db d s e =
      elim (Option-cases (find (is_claimable now scanner.network) db.cursors)) [
        | inl none_free ↦ absurd (ground arith)
        | inr (c, found) ↦ ground arith
      ]

  step-IsMirror :
      IsNodeOf chain reader
      → (db : Tables) → Mirrors db
      → Mirrors (step reader scanner now later db).1
  unfolding step
  step-IsMirror node db m =
      let bound =
        Quiet-IsMirror chain scanner.network scanner.contract start db
          (bind_contract now scanner.network scanner.contract db).1
          (bind_contract-Quiet chain scanner.network scanner.contract start now scanner.network
            scanner.contract db)
          m in
      elim (Outcome-cases (bind_contract now scanner.network scanner.contract db)) [
        | inr (x, d, e) ↦
            let done : (step reader scanner now later db).1 ≡ d = ground arith in
            let md : Mirrors d = rw e at bound in rw done md
        | inl (u, d, e) ↦
            let md : Mirrors d = rw e at bound in
            let claimed =
              Quiet-IsMirror chain scanner.network scanner.contract start d
                (claim now scanner.network scanner.worker_id scanner.lease_duration d).1
                (claim-Quiet chain scanner.network scanner.contract start now scanner.network
                  scanner.worker_id scanner.lease_duration d)
                md in
            elim (Outcome-cases
              (claim now scanner.network scanner.worker_id scanner.lease_duration d)) [
                | inr (x, d', e') ↦
                    let done : (step reader scanner now later db).1 ≡ d' = ground arith in
                    let md' : Mirrors d' = rw e' at claimed in rw done md'
                | inl (s, d', e') ↦
                    let md' : Mirrors d' = rw e' at claimed in
                    let on = claim-network scanner.worker_id scanner.lease_duration d d' s e' in
                    let scanned_m = scan_block-IsMirror node s d' on md' in
                    let finished =
                      finish_step-IsMirror s (scan_block reader scanner now later s d').0
                        (scan_block reader scanner now later s d').1 scanned_m in
                    let done : (step reader scanner now later db).1
                        ≡ (finish_step reader scanner now later s
                            (scan_block reader scanner now later s d').0
                            (scan_block reader scanner now later s d').1).1 =
                      ground arith in
                    rw done finished
              ]
      ]

-- One step: the worker and its lease, the times, and what the node said.
pub record Round : Type 0 where
  pub worker_id : String
  pub lease_duration : ℤ
  pub now : ℕ
  pub later : ℕ
  pub reader : FinalizedReader

unfoldable pub run_steps : String → String → List Round → Tables → Tables
run_steps network contract [] db = db
run_steps network contract (r ∷ rs) db =
    run_steps network contract rs
      (step r.reader
        (record {
          network = network;
          contract = contract;
          worker_id = r.worker_id;
          lease_duration = r.lease_duration;
        })
        r.now r.later db).1

-- If the table of events of a network is the exact copy of the contract's transfers in the blocks
-- of the finalized chain from the start up to the cursor, then it still is after any number of
-- steps, by any workers and at any times, that succeed or fail: every transfer of the blocks
-- passed is there, once, in the order of the chain, and no other. Condition: what the node returns
-- as a finalized block is the chain's.
pub run_steps-IsMirror :
    (chain : ℕ → Block) (network contract : String) (start : ℕ) (rounds : List Round) (db : Tables)
    → All (λ r. IsNodeOf chain r.reader) rounds
    → IsMirror chain network contract start db
    → IsMirror chain network contract start (run_steps network contract rounds db)
unfolding run_steps
run_steps-IsMirror chain network contract start [] db nodes m = m
run_steps-IsMirror chain network contract start (r ∷ rs) db nodes m =
    run_steps-IsMirror chain network contract start rs _ nodes.1 (
      step-IsMirror chain start r.reader
        (record {
          network = network;
          contract = contract;
          worker_id = r.worker_id;
          lease_duration = r.lease_duration;
        })
        r.now r.later nodes.0 db m)
