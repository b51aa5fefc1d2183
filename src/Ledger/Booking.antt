-- ===== src/Ledger/Booking.antt =====
-- What the journal holds after a transaction that moves an amount between two accounts was posted.
use mathlib.Core.Path.{subst}
use stablecoin_gateway.Prelude.{
  ℕ, String, ◌≡◌, refl, ◌⊎◌, suc, Outcome-cases, ◌&&◌, inl, inr, Bool, true, false, List, [], ◌∷◌,
  arith, Bool-cases, Option-cases, some, find, any, text_eq, ok, pos,
}
use stablecoin_gateway.Ledger.Transaction.{Transaction, Side, Entry, validate_transaction}
use stablecoin_gateway.Ledger.Repository.{
  d, c, posted, Payload, JournalTransaction, Journal, PostResult, conflicts, same_key,
  same_reference, insert_entries, entry_row, database_side, is_account_of, draft_row,
  insert_transaction, existing_row, find_by_idempotency_key, find_by_reference,
  existing_post_result, create_post_result, post_in_transaction, request_fingerprint,
}
use stablecoin_gateway.Ledger.Posting.{posted_row, set_posted_new}

-- An amount of an asset that leaves one account by a debit and reaches another by a credit.
pub record Movement : Type 0 where
  pub id : String
  pub requester_type : String
  pub requester_id : String
  pub idempotency_key : String
  pub reference_type : String
  pub reference_id : String
  pub debited : String
  pub credited : String
  pub asset_id : String
  pub amount : ℕ

abbrev pub transaction_of : Movement → Transaction
transaction_of m = record {
  id = m.id;
  requester_type = m.requester_type;
  requester_id = m.requester_id;
  idempotency_key = m.idempotency_key;
  reference_type = m.reference_type;
  reference_id = m.reference_id;
  entries =
      record {
        account_id = m.debited;
        asset_id = m.asset_id;
        side = Side.debit;
        amount = pos m.amount;
      }
      ∷ record {
        account_id = m.credited;
        asset_id = m.asset_id;
        side = Side.credit;
        amount = pos m.amount;
      }
      ∷ [];
}

abbrev pub has_requester : Movement → JournalTransaction → Bool
has_requester m r =
    text_eq r.requester_type m.requester_type && text_eq r.requester_id m.requester_id

-- The requester's own rows with the movement's key, and those with its reference.
abbrev pub has_key : Movement → JournalTransaction → Bool
has_key m r = has_requester m r && text_eq r.idempotency_key m.idempotency_key

abbrev pub has_reference : Movement → JournalTransaction → Bool
has_reference m r =
    has_requester m r
    && text_eq r.reference_type m.reference_type
    && text_eq r.reference_id m.reference_id

-- What the ledger keeps of a request in its row.
abbrev pub fingerprint_of : (Payload → String) → Movement → String
fingerprint_of digest m = digest (record {
  requester_type = m.requester_type;
  requester_id = m.requester_id;
  reference_type = m.reference_type;
  reference_id = m.reference_id;
  entries = (transaction_of m).entries;
})

-- The journal before and after: a posted row under the movement's own identity with one debit and
-- one credit of the amount, or a journal that an earlier posting of an equal request of the requester,
-- under the same key or the same reference, has left as it is.
pub data Books (digest : Payload → String) (m : Movement) (j k : Journal) (result : PostResult)
    : Type 0 where
  booked :
      k.accounts ≡ j.accounts
      → k.transactions
        ≡ record {
          id = m.id;
          requester_type = m.requester_type;
          requester_id = m.requester_id;
          idempotency_key = m.idempotency_key;
          reference_type = m.reference_type;
          reference_id = m.reference_id;
          request_hash = fingerprint_of digest m;
          status = posted;
        }
          ∷ j.transactions
      → k.entries
        ≡ record {
          transaction_id = m.id;
          line_no = 2;
          account_id = m.credited;
          asset_id = m.asset_id;
          side = c;
          amount = m.amount;
        }
          ∷ record {
            transaction_id = m.id;
            line_no = 1;
            account_id = m.debited;
            asset_id = m.asset_id;
            side = d;
            amount = m.amount;
          }
          ∷ j.entries
      → result ≡ record { transaction_id = m.id; created = true }
      → Books digest m j k result
  replayed :
      (row : JournalTransaction)
      → (find (has_key m) j.transactions ≡ some row)
        ⊎ (find (has_reference m) j.transactions ≡ some row)
      → row.request_hash ≡ fingerprint_of digest m
      → k ≡ j
      → result ≡ record { transaction_id = row.id; created = false }
      → Books digest m j k result

-- One entry, and the two of a movement, as the rows that they become.
insert_entries-rows :
    (id : String) (line : ℕ) (e : Entry) (es : List Entry) (j k : Journal)
    → insert_entries id line (e ∷ es) j ≡ (ok tt, k)
    → insert_entries id (suc line) es (record j { entries = entry_row id line e ∷ j.entries })
      ≡ (ok tt, k)
unfolding insert_entries
insert_entries-rows id line e es j k h = elim (Bool-cases (any (is_account_of e) j.accounts)) [
  | inl known ↦ ground arith
  | inr missing ↦ absurd (ground arith)
]

insert_two :
    (id : String) (x y : Entry) (j k : Journal)
    → insert_entries id 1 (x ∷ y ∷ []) j ≡ (ok tt, k)
    → (k.accounts ≡ j.accounts)
      × (k.transactions ≡ j.transactions)
      × (k.entries ≡ entry_row id 2 y ∷ entry_row id 1 x ∷ j.entries)
unfolding insert_entries
insert_two id x y j k h =
    let first = insert_entries-rows id 1 x (y ∷ []) j k h in
    let second =
      insert_entries-rows id 2 y [] (record j { entries = entry_row id 1 x ∷ j.entries }) k first in
    ground (arith, second)

insert_both :
    (id : String) (x y : Entry) (es : List Entry) (j k : Journal)
    → es ≡ x ∷ y ∷ []
    → insert_entries id 1 es j ≡ (ok tt, k)
    → (k.accounts ≡ j.accounts)
      × (k.transactions ≡ j.transactions)
      × (k.entries ≡ entry_row id 2 y ∷ entry_row id 1 x ∷ j.entries)
insert_both id x y es j k two h =
    insert_two id x y j k (subst (λ l. insert_entries id 1 l j ≡ (ok tt, k)) two h)

module _ (digest : Payload → String) where
  -- A posting of two entries, whole: the row and its entries, or the row that was there.
  abbrev Posts : Transaction → Entry → Entry → Journal → PostResult → Journal → Type 0
  Posts t x y j r k =
      ((k.accounts ≡ j.accounts)
        × (k.transactions ≡ posted_row digest t ∷ j.transactions)
        × (k.entries ≡ entry_row t.id 2 y ∷ entry_row t.id 1 x ∷ j.entries)
        × (r ≡ record { transaction_id = t.id; created = true }))
      ⊎ (row : JournalTransaction) × ((find (same_key t) j.transactions ≡ some row)
          ⊎ (find (same_reference t) j.transactions ≡ some row))
        × (row.request_hash ≡ request_fingerprint digest t)
        × (k ≡ j)
        × (r ≡ record { transaction_id = row.id; created = false })

  module _ (t : Transaction) (x y : Entry) (j k : Journal) (r : PostResult)
      (two : t.entries ≡ x ∷ y ∷ []) where
    created-Posts :
        any (conflicts t) j.transactions ≡ false
        → create_post_result digest t
            (record j { transactions = draft_row digest t ∷ j.transactions })
          ≡ (ok r, k)
        → Posts t x y j r k
    unfolding create_post_result
    created-Posts fresh h =
        let j' : Journal = record j { transactions = draft_row digest t ∷ j.transactions } in
        elim (Outcome-cases (insert_entries t.id 1 t.entries j')) [
          | inl (u, i, inserted) ↦
              let rows = insert_both t.id x y t.entries j' i two inserted in
              let marked = set_posted_new digest t j fresh i rows.1 in
              inl (
                ground (arith, marked, rows),
                ground (arith, marked),
                ground (arith, marked, rows),
                ground (arith, marked),
              )
          | inr (e, i, failed) ↦ absurd (ground arith)
        ]

    found_by :
        (row : JournalTransaction)
        → existing_row digest t j ≡ some row
        → (find (same_key t) j.transactions ≡ some row)
          ⊎ (find (same_reference t) j.transactions ≡ some row)
    unfolding find_by_idempotency_key find_by_reference
    found_by row found = elim (Option-cases (find (same_key t) j.transactions)) [
      | inl other ↦ inr (ground arith)
      | inr (s, keyed) ↦ inl (ground arith)
    ]

    existing-Posts : existing_post_result digest t j ≡ (ok r, k) → Posts t x y j r k
    unfolding existing_post_result
    existing-Posts h = elim (Option-cases (existing_row digest t j)) [
      | inl missing ↦ absurd (ground arith)
      | inr (row, found) ↦ inr (row, found_by row found, ground arith, ground arith, ground arith)
    ]

    post_in_transaction-Posts : post_in_transaction digest t j ≡ (ok r, k) → Posts t x y j r k
    unfolding post_in_transaction insert_transaction
    post_in_transaction-Posts h = elim (Option-cases (validate_transaction t)) [
      | inr (e, refused) ↦ absurd (ground arith)
      | inl valid ↦ elim (Bool-cases (any (conflicts t) j.transactions)) [
        | inl old ↦ existing-Posts (ground arith)
        | inr fresh ↦ created-Posts fresh (ground arith)
      ]
    ]

  -- Posting a movement either books it, whole and once, or finds the row of an earlier posting.
  pub post_in_transaction-Books :
      (m : Movement) (j k : Journal) (result : PostResult)
      → post_in_transaction digest (transaction_of m) j ≡ (ok result, k)
      → Books digest m j k result
  unfolding entry_row database_side draft_row request_fingerprint
  post_in_transaction-Books m j k result h =
      elim (post_in_transaction-Posts (transaction_of m) _ _ j k result refl h) [
        | inl (accounts, row, rows, is_new) ↦ booked accounts row rows is_new
        | inr (row, found, same, kept, old) ↦ replayed row found same kept old
      ]
