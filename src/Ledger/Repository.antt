-- ===== src/Ledger/Repository.antt =====
-- internal/ledger/repository.go: posting a transaction, over the tables of the ledger.
-- A new row is put in front of its table; no query of this file depends on the order.
use stablecoin_gateway.Prelude.{
  ℕ, suc, String, Bool, true, false, not, ◌&&◌, ◌||◌, Option, none, some, List, [], ◌∷◌, ◌==◌,
  if◌then◌else◌, pos_part, text_eq, ok, err, Action, pure, raise, gets, or_raise, transaction,
  ◌>>=◌, ◌>>◌, raise_if, find, any, update_where, count_where,
}
use stablecoin_gateway.Ledger.Transaction.{
  Error, idempotency_conflict, entry_rejected, status_changed, row_missing, Side, Entry,
  Transaction, validate_transaction,
}

-- 'D' and 'C'.
pub data DatabaseSide : Type 0 where
  d c : DatabaseSide

pub data OwnerType : Type 0 where
  platform merchant : OwnerType

pub data AccountStatus : Type 0 where
  active locked closed : AccountStatus

pub record Account : Type 0 where
  pub id : String
  pub owner_type : OwnerType
  pub owner_id : String
  pub asset_id : String
  pub code : String
  pub normal_side : DatabaseSide
  pub status : AccountStatus

pub data JournalStatus : Type 0 where
  draft posted reversed : JournalStatus

pub record JournalTransaction : Type 0 where
  pub id : String
  pub requester_type : String
  pub requester_id : String
  pub idempotency_key : String
  pub reference_type : String
  pub reference_id : String
  pub request_hash : String
  pub status : JournalStatus

-- `amount` is positive, as `ValidateTransaction` has checked, so it is a natural number here.
pub record JournalEntry : Type 0 where
  pub transaction_id : String
  pub line_no : ℕ
  pub account_id : String
  pub asset_id : String
  pub side : DatabaseSide
  pub amount : ℕ

pub record Journal : Type 0 where
  pub accounts : List Account
  pub transactions : List JournalTransaction
  pub entries : List JournalEntry

pub record PostResult : Type 0 where
  pub transaction_id : String
  pub created : Bool

-- What `requestFingerprint` hashes: the identity and the key of the transaction are left out.
pub record Payload : Type 0 where
  pub requester_type : String
  pub requester_id : String
  pub reference_type : String
  pub reference_id : String
  pub entries : List Entry

abbrev pub is_draft : JournalStatus → Bool
is_draft draft = true
is_draft _ = false

unfoldable pub database_side : Side → DatabaseSide
database_side Side.debit = d
database_side _ = c

abbrev pub same_requester : Transaction → JournalTransaction → Bool
same_requester t r =
    text_eq r.requester_type t.requester_type && text_eq r.requester_id t.requester_id

abbrev pub same_key : Transaction → JournalTransaction → Bool
same_key t r = same_requester t r && text_eq r.idempotency_key t.idempotency_key

abbrev pub same_reference : Transaction → JournalTransaction → Bool
same_reference t r =
    same_requester t r
    && text_eq r.reference_type t.reference_type
    && text_eq r.reference_id t.reference_id

-- The primary key and the two unique constraints of `journal_transactions`.
abbrev pub conflicts : Transaction → JournalTransaction → Bool
conflicts t r = text_eq r.id t.id || same_key t r || same_reference t r

unfoldable pub find_by_idempotency_key : Transaction → Journal → Option JournalTransaction
find_by_idempotency_key t j = find (same_key t) j.transactions

unfoldable pub find_by_reference : Transaction → Journal → Option JournalTransaction
find_by_reference t j = find (same_reference t) j.transactions

-- The foreign key (account_id, asset_id) of `journal_entries`.
abbrev pub is_account_of : Entry → Account → Bool
is_account_of e a = text_eq a.id e.account_id && text_eq a.asset_id e.asset_id

unfoldable pub entry_row : String → ℕ → Entry → JournalEntry
unfolding database_side
entry_row id line e = record {
  transaction_id = id;
  line_no = line;
  account_id = e.account_id;
  asset_id = e.asset_id;
  side = database_side e.side;
  amount = pos_part e.amount;
}

unfoldable pub insert_entry : String → ℕ → Entry → Action Journal Error (Unit {0})
unfolding entry_row
insert_entry id line e j =
    if any (is_account_of e) j.accounts
    then (ok tt, record j { entries = entry_row id line e ∷ j.entries })
    else (err entry_rejected, j)

unfoldable pub insert_entries : String → ℕ → List Entry → Action Journal Error (Unit {0})
unfolding insert_entry
insert_entries id line [] = pure tt
insert_entries id line (e ∷ es) = insert_entry id line e >> insert_entries id (suc line) es

abbrev pub is_draft_of : String → JournalTransaction → Bool
is_draft_of id r = text_eq r.id id && is_draft r.status

abbrev pub mark_posted : JournalTransaction → JournalTransaction
mark_posted r = record r { status = posted }

-- `UPDATE … SET status = 'posted' … WHERE id = $1 AND status = 'draft'`, with its affected rows.
unfoldable pub set_posted : String → Action Journal Error (Unit {0})
set_posted id j =
    if count_where (is_draft_of id) j.transactions == 1
    then (
      ok tt,
      record j { transactions = update_where (is_draft_of id) mark_posted j.transactions },
    )
    else (err status_changed, j)

-- `digest` is the hex SHA-256 of the payload's JSON.
module _ (digest : Payload → String) where
  unfoldable pub request_fingerprint : Transaction → String
  request_fingerprint t = digest (record {
    requester_type = t.requester_type;
    requester_id = t.requester_id;
    reference_type = t.reference_type;
    reference_id = t.reference_id;
    entries = t.entries;
  })

  unfoldable pub draft_row : Transaction → JournalTransaction
  unfolding request_fingerprint
  draft_row t = record {
    id = t.id;
    requester_type = t.requester_type;
    requester_id = t.requester_id;
    idempotency_key = t.idempotency_key;
    reference_type = t.reference_type;
    reference_id = t.reference_id;
    request_hash = request_fingerprint t;
    status = draft;
  }

  -- `INSERT … ON CONFLICT DO NOTHING RETURNING id`: whether a row was inserted.
  unfoldable pub insert_transaction : Transaction → Action Journal Error Bool
  unfolding draft_row
  insert_transaction t j =
      if any (conflicts t) j.transactions
      then (ok false, j)
      else (ok true, record j { transactions = draft_row t ∷ j.transactions })

  abbrev pub existing_row : Transaction → Journal → Option JournalTransaction
  existing_row t j = elim (find_by_idempotency_key t j) [
    | some r ↦ some r
    | none ↦ find_by_reference t j
  ]

  unfoldable pub existing_post_result : Transaction → Action Journal Error PostResult
  unfolding find_by_idempotency_key find_by_reference request_fingerprint
  existing_post_result t = do
    row ← gets (existing_row t)
    r ← or_raise row row_missing
    raise_if (not (text_eq r.request_hash (request_fingerprint t))) idempotency_conflict
    pure (record { transaction_id = r.id; created = false })

  unfoldable pub create_post_result : Transaction → Action Journal Error PostResult
  unfolding insert_entries set_posted
  create_post_result t = do
    insert_entries t.id 1 t.entries
    set_posted t.id
    pure (record { transaction_id = t.id; created = true })

  abbrev pub validated : Option Error → Action Journal Error (Unit {0})
  validated none = pure tt
  validated (some e) = raise e

  -- `PostInTransaction`
  unfoldable pub post_in_transaction : Transaction → Action Journal Error PostResult
  unfolding insert_transaction existing_post_result create_post_result
  post_in_transaction t = do
    validated (validate_transaction t)
    inserted ← insert_transaction t
    if inserted then create_post_result t else existing_post_result t

  -- `PostgreSQLRepository.Post`
  unfoldable pub post : Transaction → Action Journal Error PostResult
  unfolding post_in_transaction
  post t = transaction (post_in_transaction t)
