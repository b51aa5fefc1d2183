-- ===== src/Deposit/Posting.antt =====
-- internal/deposit/posting.go: what a matched payment does to its intent, to the ledger and to the
-- outbox.
use Prim.Native.Nat.{compare, Ordering}
use Prim.Native.String.{◌++◌ as text_append}
use stablecoin_gateway.Prelude.{
  ℕ, ◌+◌, String, Bool, true, false, not, ◌&&◌, ◌||◌, Option, none, some, [], ◌∷◌, ltb, leb, ◌==◌,
  if◌then◌else◌, max_int64, pos, text_eq, find, any, count_where, update_where, ok, err, pure,
  ◌>>=◌, ◌>>◌,
}
use stablecoin_gateway.Ledger.Transaction
use stablecoin_gateway.Ledger.Transaction.{Side}
use stablecoin_gateway.Ledger.Repository.{
  d, c, platform, merchant, AccountStatus, active, Account, Journal, Payload, PostResult,
  post_in_transaction,
}
use stablecoin_gateway.Outbox.Enqueue.{enqueue_in_transaction}
use stablecoin_gateway.Indexer.Cursor.{ChainEvent}
use stablecoin_gateway.Payout.Accounts.{is_account}
use stablecoin_gateway.Deposit.Tables.{
  IntentStatus, partially_paid, paid, overpaid, Intent, EventMatch, Error, invalid_amount,
  intent_changed, already_credited, invalid_event, constraint_violated, ledger, Tx,
}

pub record MatchResult : Type 0 where
  pub processed : Bool
  pub transaction_id : String
  pub log_index : ℕ
  pub intent_id : String
  pub is_matched : Bool
  pub intent_status : Option IntentStatus
  pub received_amount : ℕ
  pub reason : String
  pub credited : Bool
  pub ledger_transaction_id : String

pub record ConfirmedPayload : Type 0 where
  pub deposit_intent_id : String
  pub merchant_id : String
  pub merchant_reference : String
  pub asset_id : String
  pub amount : ℕ
  pub ledger_transaction_id : String

-- The unique key of `deposit_event_matches`.
abbrev pub same_event : EventMatch → EventMatch → Bool
same_event m n =
    text_eq n.network m.network
    && text_eq n.contract m.contract
    && text_eq n.transaction_id m.transaction_id
    && n.log_index == m.log_index

unfoldable pub insert_match : EventMatch → Tx (Unit {0})
insert_match m db =
    if any (same_event m) db.matches
    then (err constraint_violated, db)
    else (ok tt, record db { matches = m ∷ db.matches })

abbrev pub match_row : ChainEvent → String → Option String → Bool → Option String → ℕ → EventMatch
match_row e address_id intent_id is_matched reason amount = record {
  network = e.network;
  contract = e.contract;
  transaction_id = e.transaction_id;
  log_index = e.log_index;
  address_id = address_id;
  intent_id = intent_id;
  is_matched = is_matched;
  reason = reason;
  amount = amount;
}

-- `recordReview`
abbrev pub or_no_text : Option String → String
or_no_text none = ""
or_no_text (some s) = s

unfoldable pub record_review : ChainEvent → String → Option String → ℕ → String → Tx MatchResult
record_review e address_id intent_id amount reason = do
  insert_match (match_row e address_id intent_id false (some reason) amount)
  pure (record {
    processed = true;
    transaction_id = e.transaction_id;
    log_index = e.log_index;
    intent_id = or_no_text intent_id;
    is_matched = false;
    intent_status = none;
    received_amount = 0;
    reason = reason;
    credited = false;
    ledger_transaction_id = "";
  })

-- `recordMatch`
unfoldable pub record_match : ChainEvent → String → String → ℕ → IntentStatus → ℕ → Tx MatchResult
record_match e address_id intent_id amount status received = do
  insert_match (match_row e address_id (some intent_id) true none amount)
  pure (record {
    processed = true;
    transaction_id = e.transaction_id;
    log_index = e.log_index;
    intent_id = intent_id;
    is_matched = true;
    intent_status = some status;
    received_amount = received;
    reason = "";
    credited = false;
    ledger_transaction_id = "";
  })

abbrev pub has_id : String → Intent → Bool
has_id id i = text_eq i.id id

-- An update that has to meet exactly one intent.
unfoldable pub update_one : (Intent → Bool) → (Intent → Intent) → Error → Tx (Unit {0})
update_one p f lost db =
    if count_where p db.intents == 1
    then (ok tt, record db { intents = update_where p f db.intents })
    else (err lost, db)

abbrev pub received_row : ℕ → ℕ → IntentStatus → Intent → Intent
received_row now received status i = record i {
  received_amount = received;
  status = status;
  updated_at = now;
}

-- `updateIntentAmount`
unfoldable pub update_intent_amount : ℕ → String → ℕ → IntentStatus → Tx (Unit {0})
update_intent_amount now id received status =
    update_one (has_id id) (received_row now received status) intent_changed

abbrev pub is_uncredited : String → Intent → Bool
is_uncredited id i = has_id id i && elim i.ledger_transaction_id [ none ↦ true | some t ↦ false ]

abbrev pub credited_row : ℕ → ℕ → String → Intent → Intent
credited_row now received journal_id i = record i {
  received_amount = received;
  status = paid;
  ledger_transaction_id = some journal_id;
  credited_amount = some received;
  credited_at = some now;
  updated_at = now;
}

-- `markIntentCredited`
unfoldable pub mark_intent_credited : ℕ → String → ℕ → String → Tx (Unit {0})
mark_intent_credited now id received journal_id =
    update_one (is_uncredited id) (credited_row now received journal_id) already_credited

abbrev is_active : AccountStatus → Bool
is_active active = true
is_active _ = false

-- `findPostingAccounts`
abbrev pub custody_account : Intent → Journal → Option Account
custody_account i j =
    find (λ a. is_account platform "gateway" i.asset_id "custody" d a && is_active a.status)
      j.accounts

abbrev pub available_account : Intent → Journal → Option Account
available_account i j =
    find (λ a. is_account merchant i.merchant_id i.asset_id "available" c a && is_active a.status)
      j.accounts

unfoldable pub find_posting_accounts : Intent → Journal → Option (Account × Account)
find_posting_accounts i j = elim (custody_account i j) [
  | none ↦ none
  | some custody ↦ elim (available_account i j) [
    | none ↦ none
    | some available ↦ some (custody, available)
  ]
]

abbrev pub credit_transaction : String → Intent → ℕ → String → String → Transaction.Transaction
credit_transaction journal_id i amount custody_id available_id = record {
  id = journal_id;
  requester_type = "system";
  requester_id = "deposit";
  idempotency_key = text_append "credit:" i.id;
  reference_type = "deposit";
  reference_id = i.id;
  entries =
      record {
        account_id = custody_id;
        asset_id = i.asset_id;
        side = Side.debit;
        amount = pos amount;
      }
      ∷ record {
        account_id = available_id;
        asset_id = i.asset_id;
        side = Side.credit;
        amount = pos amount;
      }
      ∷ [];
}

-- SHA-256 and JSON, and the random identities of one call.
pub record Environment : Type 0 where
  pub digest : Payload → String
  pub encode : ConfirmedPayload → String
  pub json_valid : String → Bool
  pub journal_id : String
  pub event_id : String

module _ (env : Environment) (now : ℕ) where
  unfoldable pub post_credit : Transaction.Transaction → Tx PostResult
  post_credit t db =
      let (r, j) = post_in_transaction env.digest t db.journal in
      elim r [
        | ok a ↦ (ok a, record db { journal = j })
        | err e ↦ (err (ledger e), record db { journal = j })
      ]

  -- `enqueueDepositConfirmed`
  unfoldable pub enqueue_deposit_confirmed : Intent → ℕ → String → Tx (Unit {0})
  enqueue_deposit_confirmed i amount journal_id db =
      elim (enqueue_in_transaction env.json_valid
        (record {
          id = env.event_id;
          topic = "deposit.confirmed";
          aggregate_type = "deposit";
          aggregate_id = i.id;
          payload = env.encode (record {
            deposit_intent_id = i.id;
            merchant_id = i.merchant_id;
            merchant_reference = i.merchant_reference;
            asset_id = i.asset_id;
            amount = amount;
            ledger_transaction_id = journal_id;
          });
        })
        db.outbox) [
          | ok events ↦ (ok tt, record db { outbox = events })
          | err x ↦ (err invalid_event, db)
        ]

  -- The writes of `creditExactPayment`.
  unfoldable pub write_credit :
      ChainEvent → String → Intent → ℕ → ℕ → Account × Account → Tx MatchResult
  write_credit e address_id i amount received (custody, available) = do
    posted ← post_credit (credit_transaction env.journal_id i received custody.id available.id)
    mark_intent_credited now i.id received posted.transaction_id
    result ← record_match e address_id i.id amount paid received
    enqueue_deposit_confirmed i received posted.transaction_id
    pure (record result { credited = true; ledger_transaction_id = posted.transaction_id })

  abbrev pub kept_amount : Intent → MatchResult → MatchResult
  kept_amount i r = record r { received_amount = i.received_amount }

  abbrev pub review_kept : ChainEvent → String → Intent → ℕ → String → Tx MatchResult
  review_kept e address_id i amount reason = do
    result ← record_review e address_id (some i.id) amount reason
    pure (kept_amount i result)

  abbrev pub credit_or_review :
      ChainEvent → String → Intent → ℕ → ℕ → Option (Account × Account) → Tx MatchResult
  credit_or_review e address_id i amount received none =
      review_kept e address_id i amount "ledger_account_unavailable"
  credit_or_review e address_id i amount received (some accounts) =
      write_credit e address_id i amount received accounts

  -- `creditExactPayment`, where the amount has to be a positive `int64`.
  unfoldable pub credit_exact_payment : ChainEvent → String → Intent → ℕ → ℕ → Tx MatchResult
  credit_exact_payment e address_id i amount received db =
      if not (ltb 0 received && leb received max_int64)
      then review_kept e address_id i amount "amount_out_of_range" db
      else credit_or_review e address_id i amount received (find_posting_accounts i db.journal) db

  abbrev pub overpay : ChainEvent → String → Intent → ℕ → ℕ → Tx MatchResult
  overpay e address_id i amount received = do
    update_intent_amount now i.id received overpaid
    result ← record_review e address_id (some i.id) amount "overpaid"
    pure (record result { intent_status = some overpaid; received_amount = received })

  abbrev pub underpay : ChainEvent → String → Intent → ℕ → ℕ → Tx MatchResult
  underpay e address_id i amount received = do
    update_intent_amount now i.id received partially_paid
    record_match e address_id i.id amount partially_paid received

  -- `applyMatchedPayment`, with the checks of `accumulatedAmount`.
  unfoldable pub apply_matched_payment : ChainEvent → String → Intent → ℕ → Tx MatchResult
  apply_matched_payment e address_id i amount db =
      let received = i.received_amount + amount in
      if amount == 0 || i.expected_amount == 0
      then (err invalid_amount, db)
      else elim (compare received i.expected_amount) [
        | Ordering.gt ↦ overpay e address_id i amount received db
        | Ordering.lt ↦ underpay e address_id i amount received db
        | Ordering.eq ↦ credit_exact_payment e address_id i amount received db
      ]
