-- ===== src/Deposit/Recording.antt =====
-- The row that a match adds for its event, and what a match that moves no money leaves as it was.
use stablecoin_gateway.Prelude.{
  ℕ, String, ◌≡◌, sym, ap, ◌∙◌, Bool, true, false, Option, none, some, List, ◌∷◌, arith, ok, ◌==◌,
  Bool-cases, inl, inr, count_where, update_where, any,
}
use stablecoin_gateway.Indexer.Cursor.{ChainEvent}
use stablecoin_gateway.Deposit.Tables.{Intent, EventMatch, Database, Error, IntentStatus}
use stablecoin_gateway.Deposit.Posting.{
  MatchResult, match_row, same_event, insert_match, record_review, record_match, update_one,
}

-- The row that a matched payment adds for its event, and the row that a payment under review adds.
abbrev pub matched_event : ChainEvent → String → String → ℕ → EventMatch
matched_event e address_id intent_id amount = record {
  network = e.network;
  contract = e.contract;
  transaction_id = e.transaction_id;
  log_index = e.log_index;
  address_id = address_id;
  intent_id = some intent_id;
  is_matched = true;
  reason = none;
  amount = amount;
}

abbrev pub reviewed_event : ChainEvent → String → Option String → String → ℕ → EventMatch
reviewed_event e address_id intent_id reason amount = record {
  network = e.network;
  contract = e.contract;
  transaction_id = e.transaction_id;
  log_index = e.log_index;
  address_id = address_id;
  intent_id = intent_id;
  is_matched = false;
  reason = some reason;
  amount = amount;
}

-- One row was added for the event.
pub data Recorded (e : ChainEvent) (address_id : String) (amount : ℕ)
    (before after : List EventMatch) : Type 0 where
  matched :
      (intent_id : String)
      → after ≡ matched_event e address_id intent_id amount ∷ before
      → Recorded e address_id amount before after
  reviewed :
      (intent_id : Option String) (reason : String)
      → after ≡ reviewed_event e address_id intent_id reason amount ∷ before
      → Recorded e address_id amount before after

-- A match that is recorded and moves no money.
abbrev pub Quiet : ChainEvent → String → ℕ → MatchResult → Database → Database → Type 0
Quiet e address_id amount r db d =
    (r.credited ≡ false)
    × (d.journal ≡ db.journal)
    × (d.outbox ≡ db.outbox)
    × Recorded e address_id amount db.matches d.matches

pub record_review-Quiet :
    (e : ChainEvent) (address_id : String) (intent_id : Option String) (amount : ℕ)
    (reason : String) (db d : Database) (r : MatchResult)
    → record_review e address_id intent_id amount reason db ≡ (ok r, d)
    → Quiet e address_id amount r db d
unfolding record_review insert_match
record_review-Quiet e address_id intent_id amount reason db d r h =
    elim (Bool-cases
      (any (same_event (match_row e address_id intent_id false (some reason) amount)) db.matches)) [
        | inl there ↦ absurd (ground arith)
        | inr new ↦ (
          ground arith,
          ground arith,
          ground arith,
          Recorded.reviewed intent_id reason (ground arith),
        )
      ]

pub record_match-Matched :
    (e : ChainEvent) (address_id intent_id : String) (amount : ℕ) (status : IntentStatus)
    (received : ℕ) (db d : Database) (r : MatchResult)
    → record_match e address_id intent_id amount status received db ≡ (ok r, d)
    → (d ≡ record db { matches = matched_event e address_id intent_id amount ∷ db.matches })
      × (r.credited ≡ false)
unfolding record_match insert_match
record_match-Matched e address_id intent_id amount status received db d r h =
    elim (Bool-cases
      (any (same_event (match_row e address_id (some intent_id) true none amount)) db.matches)) [
        | inl there ↦ absurd (ground arith)
        | inr new ↦ (ground arith, ground arith)
      ]

-- The same, where the first database and the last are known by equations.
pub carried-Quiet :
    (e : ChainEvent) (address_id : String) (amount : ℕ) (q r : MatchResult) (db m n d : Database)
    → m.journal ≡ db.journal
    → m.outbox ≡ db.outbox
    → m.matches ≡ db.matches
    → n ≡ d
    → r.credited ≡ q.credited
    → Quiet e address_id amount q m n
    → Quiet e address_id amount r db d
carried-Quiet e address_id amount q r db m n d journal outbox matches end same quiet = (
  same ∙ quiet.0,
  ap (λ x. x.journal) (sym end) ∙ quiet.1 ∙ journal,
  ap (λ x. x.outbox) (sym end) ∙ quiet.2 ∙ outbox,
  rw (sym end, sym matches) quiet.3,
)

pub update_one_kept :
    (p : Intent → Bool) (f : Intent → Intent) (lost : Error) (db d : Database)
    → update_one p f lost db ≡ (ok tt, d)
    → (count_where p db.intents ≡ 1) × (d ≡ record db { intents = update_where p f db.intents })
unfolding update_one
update_one_kept p f lost db d h = elim (Bool-cases (count_where p db.intents == 1)) [
  | inl one ↦ (ground arith, ground arith)
  | inr other ↦ absurd (ground arith)
]
