-- ===== src/Deposit/Matcher.antt =====
-- internal/deposit/matcher.go: the next event of the chain that pays a platform's address, and the
-- expiry of intents.
use stablecoin_gateway.Prelude.{
  any, ℕ, zero, suc, ◌+◌, String, Bool, true, false, not, ◌&&◌, ◌||◌, Option, none, some, List, [],
  ◌∷◌, ltb, ◌==◌, if◌then◌else◌, ℤ, pos_part, is_positive, text_eq, find, count_where, update_where,
  ok, err, pure, gets, transaction, ◌>>=◌, ◌>>◌,
}
use stablecoin_gateway.Tron.Simulator.Blocks.{decimal_value}
use stablecoin_gateway.Indexer.Cursor.{ChainEvent}
use stablecoin_gateway.Payout.State.{
  Asset, Merchant, job_completed, job_closed, JobStatus, text_ltb,
}
use stablecoin_gateway.Deposit.Tables.{
  constraint_violated, IntentStatus, pending, partially_paid, expired, underpaid, Intent, Address,
  Job, ScreeningAnswer, EventMatch, Database, job_changed, invalid_decision, invalid_limit, Tx,
}
use stablecoin_gateway.Deposit.Posting.{
  MatchResult, Environment, has_id, record_review, apply_matched_payment,
}

-- A row of the query of `MatchNext`.
pub record Candidate : Type 0 where
  pub event : ChainEvent
  pub asset : Asset
  pub address : Address
  pub merchant : Merchant
  pub job : Job
  pub answer : ScreeningAnswer

abbrev is_asset_of : ChainEvent → Asset → Bool
is_asset_of e a = text_eq a.network e.network && text_eq a.contract_address e.contract

abbrev is_address_of : ChainEvent → Asset → Address → Bool
is_address_of e a x = text_eq x.asset_id a.id && text_eq x.address e.to_address

abbrev is_job_of : ChainEvent → Job → Bool
is_job_of e j =
    text_eq j.network e.network
    && text_eq j.contract e.contract
    && text_eq j.transaction_id e.transaction_id
    && j.log_index == e.log_index

abbrev is_current : Job → ScreeningAnswer → Bool
is_current j r = elim j.current_result_id [ none ↦ false | some id ↦ text_eq r.id id ]

abbrev is_match_of : ChainEvent → EventMatch → Bool
is_match_of e m =
    text_eq m.network e.network
    && text_eq m.contract e.contract
    && text_eq m.transaction_id e.transaction_id
    && m.log_index == e.log_index

abbrev is_completed : JobStatus → Bool
is_completed job_completed = true
is_completed _ = false

-- The joins and the condition of the query; each join meets at most one row, by a unique key.
unfoldable pub candidate_of : ℕ → Database → ChainEvent → Option Candidate
candidate_of now db e = elim (find (is_asset_of e) db.assets) [
  | none ↦ none
  | some a ↦ elim (find (is_address_of e a) db.addresses) [
    | none ↦ none
    | some x ↦ elim (find (λ m. text_eq m.id x.merchant_id) db.merchants) [
      | none ↦ none
      | some m ↦ elim (find (is_job_of e) db.jobs) [
        | none ↦ none
        | some j ↦ elim (find (is_current j) db.answers) [
          | none ↦ none
          | some r ↦ elim (find (is_match_of e) db.matches) [
            | some matched ↦ none
            | none ↦
                if is_completed j.status && ltb now r.valid_until
                then some (record {
                  event = e;
                  asset = a;
                  address = x;
                  merchant = m;
                  job = j;
                  answer = r;
                })
                else none
          ]
        ]
      ]
    ]
  ]
]

-- `ORDER BY event.block_height, event.transaction_id, event.log_index`
abbrev precedes : ChainEvent → ChainEvent → Bool
precedes e f =
    ltb e.block_height f.block_height
    || (e.block_height == f.block_height
        && (text_ltb e.transaction_id f.transaction_id
            || (text_eq e.transaction_id f.transaction_id && ltb e.log_index f.log_index)))

-- `locked` are the events that `SKIP LOCKED` passes over.
unfoldable pub first_candidate :
    (ChainEvent → Bool) → ℕ → Database → List ChainEvent → Option Candidate
first_candidate locked now db [] = none
first_candidate locked now db (e ∷ es) =
    let rest = first_candidate locked now db es in
    if locked e then rest else elim (candidate_of now db e) [
      | none ↦ rest
      | some x ↦ elim rest [
        | none ↦ some x
        | some y ↦ if precedes x.event y.event then some x else some y
      ]
    ]

abbrev pub is_open_job : String → Job → Bool
is_open_job id j = text_eq j.id id && is_completed j.status

abbrev pub closed_job : ℕ → Job → Job
closed_job now j = record j { status = job_closed; lease = none; updated_at = now }

-- The rows that the trigger `deposit_screening_jobs_guard` refuses to close at this time.
abbrev pub is_later_job : ℕ → String → Job → Bool
is_later_job now id j = is_open_job id j && ltb now j.updated_at

-- `closeScreeningJob`
unfoldable pub close_screening_job : ℕ → String → Tx (Unit {0})
close_screening_job now id db =
    if any (is_later_job now id) db.jobs
    then (err constraint_violated, db)
    else if count_where (is_open_job id) db.jobs == 1
    then (ok tt, record db { jobs = update_where (is_open_job id) (closed_job now) db.jobs })
    else (err job_changed, db)

abbrev pub intent_of : Database → Candidate → Option Intent
intent_of db x = find (λ i. text_eq i.address_id x.address.id) db.intents

abbrev pub event_amount : ChainEvent → ℕ
event_amount e = decimal_value 0 e.amount

abbrev pub id_of : Option Intent → Option String
id_of none = none
id_of (some i) = some i.id

abbrev pub risk_reason : String → String
risk_reason decision = if text_eq decision "review" then "screening_review" else "screening_denied"

module _ (env : Environment) (now : ℕ) where
  abbrev pub review_because : Candidate → Intent → String → Tx MatchResult
  review_because x i reason =
      record_review x.event x.address.id (some i.id) (event_amount x.event) reason

  -- The end of the chain of conditions of `MatchNext`, on the time of the block.
  unfoldable pub match_in_time : Candidate → Intent → Option ℕ → Tx MatchResult
  match_in_time x i none db = review_because x i "missing_block_time" db
  match_in_time x i (some at) db =
      if ltb at i.created_at
      then review_because x i "before_intent" db
      else if ltb i.expires_at at
      then review_because x i "after_expiry" db
      else apply_matched_payment env now x.event x.address.id i (event_amount x.event) db

  -- The chain of conditions on the intent that was found, or not.
  unfoldable pub match_intent : Candidate → Option Intent → Tx MatchResult
  match_intent x none db =
      record_review x.event x.address.id none (event_amount x.event) "no_intent" db
  match_intent x (some i) db =
      if not x.asset.is_active
      then review_because x i "asset_disabled" db
      else if not x.merchant.is_active
      then review_because x i "merchant_inactive" db
      else if not x.address.is_active
      then review_because x i "address_retired" db
      else match_in_time x i x.event.block_time db

  unfoldable pub match_allowed : Candidate → Tx MatchResult
  match_allowed x = do
    db ← gets (λ db. db)
    result ← match_intent x (intent_of db x)
    close_screening_job now x.job.id
    pure result

  -- The branch of a payment that the screening has not allowed.
  unfoldable pub isolate : Candidate → Tx MatchResult
  isolate x = do
    db ← gets (λ db. db)
    result ←
        record_review x.event x.address.id (id_of (intent_of db x)) (event_amount x.event)
          (risk_reason x.answer.decision)
    close_screening_job now x.job.id
    pure result

  abbrev pub no_match : MatchResult
  no_match = record {
    processed = false;
    transaction_id = "";
    log_index = 0;
    intent_id = "";
    is_matched = false;
    intent_status = none;
    received_amount = 0;
    reason = "";
    credited = false;
    ledger_transaction_id = "";
  }

  unfoldable pub match_candidate : Option Candidate → Tx MatchResult
  match_candidate none db = pure no_match db
  match_candidate (some x) db =
      if text_eq x.answer.decision "deny" || text_eq x.answer.decision "review"
      then isolate x db
      else if not (text_eq x.answer.decision "allow")
      then (err invalid_decision, db)
      else match_allowed x db

  -- `MatchNext`
  unfoldable pub match_next : (ChainEvent → Bool) → Tx MatchResult
  match_next locked =
      transaction (λ db. match_candidate (first_candidate locked now db db.events) db)

-- `ExpireDue`: the due intents in the order of their expiry, `limit` of them at most.
abbrev is_payable : IntentStatus → Bool
is_payable pending = true
is_payable partially_paid = true
is_payable _ = false

abbrev pub is_due : (String → Bool) → ℕ → Intent → Bool
is_due locked now i = ltb i.expires_at now && is_payable i.status && not (locked i.id)

abbrev expires_before : Intent → Intent → Bool
expires_before i j =
    ltb i.expires_at j.expires_at || (i.expires_at == j.expires_at && text_ltb i.id j.id)

unfoldable pub first_due : (Intent → Bool) → List Intent → Option Intent
first_due due [] = none
first_due due (i ∷ is) = elim (first_due due is) [
  | none ↦ if due i then some i else none
  | some j ↦ if due i && expires_before i j then some i else some j
]

abbrev pub expired_row : ℕ → Intent → Intent
expired_row now i = record i {
  status = if i.received_amount == 0 then expired else underpaid;
  updated_at = now;
}

unfoldable pub expire_first : (String → Bool) → ℕ → ℕ → List Intent → ℕ × List Intent
expire_first locked now zero intents = (0, intents)
expire_first locked now (suc limit) intents = elim (first_due (is_due locked now) intents) [
  | none ↦ (0, intents)
  | some i ↦
      let (count, rest) =
        expire_first locked now limit (update_where (has_id i.id) (expired_row now) intents) in
      (count + 1, rest)
]

unfoldable pub expire_due : (String → Bool) → ℕ → ℤ → Tx ℕ
expire_due locked now limit db =
    if not (is_positive limit) || ltb 1000 (pos_part limit)
    then (err invalid_limit, db)
    else (let (count, intents) = expire_first locked now (pos_part limit) db.intents in
        (ok count, record db { intents = intents }))
