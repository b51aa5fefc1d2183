-- ===== src/Indexer/Insertion.antt =====
-- What the transaction of a step adds to the table of events.
use stablecoin_gateway.Prelude.{
  ℕ, ◌<◌, ◌≤◌, none, max_int64, ◌≡◌, refl, sym, inl, inr, String, false, some, List, [], ◌∷◌, arith,
  if◌then◌else◌, text_eq, find, find_passes, find-All, any, All, ok, Outcome-cases, Option-cases,
  Bool-cases,
}
use stablecoin_gateway.Tron.Types.{Header, Transfer, Receipt}
use stablecoin_gateway.Indexer.Cursor.{ChainEvent, Tables}
use stablecoin_gateway.Indexer.Scanner.{
  same_event, collect_transfers, event_row, is_event, same_facts, insert_event, insert_events,
}

-- The rows of transfers on top of a table, in the order in which they are inserted.
abbrev pub push_rows : Header → List Transfer → List ChainEvent → List ChainEvent
push_rows h [] es = es
push_rows h (t ∷ ts) es = push_rows h ts (event_row h t ∷ es)

-- The transfers of a contract, in their order.
abbrev pub of_contract : String → List Transfer → List Transfer
of_contract contract [] = []
of_contract contract (t ∷ ts) =
    let rest = of_contract contract ts in if text_eq t.id.contract contract then t ∷ rest else rest

-- No two of the transfers, and none of those seen, are one event.
abbrev pub IsFresh : List Transfer → List Transfer → Type 0
IsFresh seen [] = Unit
IsFresh seen (t ∷ ts) = (any (λ u. same_event u.id t.id) seen ≡ false) × IsFresh (t ∷ seen) ts

-- What `validTransfers` returns: all transfers of the contract, each sound and each once.
pub record IsCollected (network contract : String) (seen ts us : List Transfer) : Type 0 where
  pub all : us ≡ of_contract contract ts
  pub fresh : IsFresh seen us
  pub on_network : All (λ t. t.id.network ≡ network) us

pub collect_transfers-IsCollected :
    (network contract : String) (receipts : List Receipt) (seen ts us : List Transfer)
    → collect_transfers network contract receipts seen ts ≡ some us
    → IsCollected network contract seen ts us
unfolding collect_transfers
collect_transfers-IsCollected network contract receipts seen [] us h =
    let e : us ≡ [] = cc in rw e (record { all = refl; fresh = tt; on_network = tt })
collect_transfers-IsCollected network contract receipts seen (t ∷ ts) us h =
    elim (Bool-cases (text_eq t.id.contract contract)) [
      | inr other ↦
          let rest : collect_transfers network contract receipts seen ts ≡ some us = ground arith in
          let c = collect_transfers-IsCollected network contract receipts seen ts us rest in
          record { all = rw other c.all; fresh = c.fresh; on_network = c.on_network }
      | inl ours ↦ elim (Option-cases (collect_transfers network contract receipts (t ∷ seen) ts)) [
        | inl failed ↦ absurd (ground arith)
        | inr (vs, rest) ↦
            let c = collect_transfers-IsCollected network contract receipts (t ∷ seen) ts vs rest in
            let e : us ≡ t ∷ vs = ground arith in
            let unseen : any (λ u. same_event u.id t.id) seen ≡ false = ground arith in
            let network_of : t.id.network ≡ network = ground arith in
            rw e (record {
              all = rw (ours, c.all) refl;
              fresh = (unseen, c.fresh);
              on_network = (network_of, c.on_network);
            })
      ]
    ]

-- The rows of the transfers that a block has added so far, the last one first.
abbrev added_rows : Header → List Transfer → List ChainEvent → List ChainEvent
added_rows h [] old = old
added_rows h (t ∷ seen) old = event_row h t ∷ added_rows h seen old

-- The rows of a network are of lower blocks.
abbrev pub AreLower : String → ℕ → List ChainEvent → Type 0
AreLower network height es = All (λ e. e.network ≡ network → e.block_height < height) es

-- A row of the same identity, if there is one, is of a lower block.
find_fresh :
    (h : Header) (t : Transfer) (seen : List Transfer) (old : List ChainEvent) (e : ChainEvent)
    → any (λ u. same_event u.id t.id) seen ≡ false
    → AreLower t.id.network h.height old
    → find (is_event t.id) (added_rows h seen old) ≡ some e
    → same_facts e (event_row h t) ≡ false
find_fresh h t [] old e unseen low found =
    let passes = find_passes (is_event t.id) old e found in
    let lower =
      find-All (λ e. e.network ≡ t.id.network → e.block_height < h.height) (is_event t.id) old e low
        found in
    let less : e.block_height < h.height = lower (ground arith) in ground (arith, less)
find_fresh h t (u ∷ seen) old e unseen low found =
    ground (arith, find_fresh h t seen old e (ground arith) low)

insert_event_row :
    (h : Header) (t : Transfer) (seen : List Transfer) (old : List ChainEvent) (db db' : Tables)
    → any (λ u. same_event u.id t.id) seen ≡ false
    → AreLower t.id.network h.height old
    → db.events ≡ added_rows h seen old
    → insert_event h t db ≡ (ok tt, db')
    → db' ≡ record db { events = event_row h t ∷ db.events }
unfolding insert_event
insert_event_row h t seen old db db' unseen low same e =
    elim (Option-cases (find (is_event t.id) db.events)) [
      | inl new ↦ ground arith
      | inr (row, found) ↦
          let differs = find_fresh h t seen old row unseen low (rw (sym same) found) in
          absurd (ground (arith, differs))
    ]

insert_events_rows :
    (network : String) (h : Header) (ts seen : List Transfer) (old : List ChainEvent)
    (db db' : Tables)
    → IsFresh seen ts
    → All (λ t. t.id.network ≡ network) ts
    → AreLower network h.height old
    → db.events ≡ added_rows h seen old
    → insert_events h ts db ≡ (ok tt, db')
    → db' ≡ record db { events = push_rows h ts db.events }
unfolding insert_events
insert_events_rows network h [] seen old db db' fresh on low same e = ground arith
insert_events_rows network h (t ∷ ts) seen old db db' fresh on low same e =
    elim (Outcome-cases (insert_event h t db)) [
      | inl (u, d, one) ↦
          let row = insert_event_row h t seen old db d fresh.0 (rw on.0 low) same one in
          let rest =
            insert_events_rows network h ts (t ∷ seen) old d db' fresh.1 on.1 low
              (rw (row, same) refl) (ground arith) in
          rw (rest, row) refl
      | inr (x, d, failed) ↦ absurd (ground arith)
    ]

-- The insertion of a block's transfers, above the rows of lower blocks, adds a row for each.
pub insert_events-push_rows :
    (network : String) (h : Header) (ts : List Transfer) (db db' : Tables)
    → IsFresh [] ts
    → All (λ t. t.id.network ≡ network) ts
    → AreLower network h.height db.events
    → insert_events h ts db ≡ (ok tt, db')
    → db' ≡ record db { events = push_rows h ts db.events }
insert_events-push_rows network h ts db db' fresh on low e =
    insert_events_rows network h ts [] db.events db db' fresh on low refl e

-- No row of the table has the identity of one of the transfers.
abbrev pub AreUnseen : List Transfer → List ChainEvent → Type 0
AreUnseen ts es = All (λ t. any (is_event t.id) es ≡ false) ts

find_unseen :
    (h : Header) (t : Transfer) (seen : List Transfer) (old : List ChainEvent)
    → any (λ u. same_event u.id t.id) seen ≡ false
    → any (is_event t.id) old ≡ false
    → find (is_event t.id) (added_rows h seen old) ≡ none
find_unseen h t [] [] unseen new = refl
find_unseen h t [] (e ∷ es) unseen new = ground (arith, find_unseen h t [] es refl)
find_unseen h t (u ∷ seen) old unseen new =
    ground (arith, find_unseen h t seen old (ground arith) new)

inserted_first :
    (h : Header) (t : Transfer) (seen : List Transfer) (old : List ChainEvent) (db : Tables)
    → h.height ≤ max_int64
    → any (λ u. same_event u.id t.id) seen ≡ false
    → any (is_event t.id) old ≡ false
    → db.events ≡ added_rows h seen old
    → insert_event h t db ≡ (ok tt, record db { events = event_row h t ∷ db.events })
unfolding insert_event
inserted_first h t seen old db low unseen new same =
    let missing : find (is_event t.id) db.events ≡ none =
      rw same (find_unseen h t seen old unseen new) in
    ground (arith, missing)

insert_events_succeed :
    (h : Header) (ts seen : List Transfer) (old : List ChainEvent) (db : Tables)
    → h.height ≤ max_int64
    → IsFresh seen ts
    → AreUnseen ts old
    → db.events ≡ added_rows h seen old
    → insert_events h ts db ≡ (ok tt, record db { events = push_rows h ts db.events })
unfolding insert_events
insert_events_succeed h [] seen old db low fresh new same = refl
insert_events_succeed h (t ∷ ts) seen old db low fresh new same =
    let one = inserted_first h t seen old db low fresh.0 new.0 same in
    let rest =
      insert_events_succeed h ts (t ∷ seen) old (record db { events = event_row h t ∷ db.events })
        low fresh.1 new.1 (rw same refl) in
    ground (arith, one, rest)

-- The insertion of transfers that the table does not hold succeeds and adds a row for each.
pub insert_events_done :
    (h : Header) (ts : List Transfer) (db : Tables)
    → h.height ≤ max_int64
    → IsFresh [] ts
    → AreUnseen ts db.events
    → insert_events h ts db ≡ (ok tt, record db { events = push_rows h ts db.events })
insert_events_done h ts db low fresh new =
    insert_events_succeed h ts [] db.events db low fresh new refl
