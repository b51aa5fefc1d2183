-- ===== src/Ledger/Idempotency.antt =====
-- How a call of `Post` ends, and what a repeated call does.
use stablecoin_gateway.Prelude.{
  ◌+◌, String, ◌≡◌, ◌≢◌, refl, ◌⊎◌, inl, inr, Bool, true, false, none, some, List, [], ◌∷◌, arith,
  Bool-cases, Option-cases, if◌then◌else◌, text_eq, ok, err, Result-cases, Outcome-cases, All, any,
  find,
}
use stablecoin_gateway.Ledger.Transaction.{
  Error, idempotency_conflict, Transaction, validate_transaction,
}
use stablecoin_gateway.Ledger.Balance.{debits, credits, IsEntry, FitsInt64}
use stablecoin_gateway.Ledger.Validation.{IsWellFormed, validate_transaction_iff}
use stablecoin_gateway.Ledger.Repository.{
  d, c, Payload, JournalTransaction, Journal, PostResult, conflicts, same_key, same_reference,
  insert_entries, request_fingerprint, draft_row, insert_transaction, existing_row,
  find_by_idempotency_key, find_by_reference, existing_post_result, create_post_result,
  post_in_transaction, post,
}
use stablecoin_gateway.Ledger.Posting.{
  journal_total, insert_entries-total, posted_row, set_posted_new,
}

find-any :
    (p q : JournalTransaction → Bool)
    → ((r : JournalTransaction) → p r ≡ true → q r ≡ true)
    → (rs : List JournalTransaction) (r : JournalTransaction) → find p rs ≡ some r
    → any q rs ≡ true
find-any p q pq [] r h = cc
find-any p q pq (s ∷ rs) r h = ground (arith, pq s, find-any p q pq rs r)

module _ (digest : Payload → String) where
  posted_row-hash :
      (t : Transaction)
      → ((posted_row digest t).request_hash ≡ request_fingerprint digest t)
        × ((posted_row digest t).id ≡ t.id)
  unfolding draft_row
  posted_row-hash t = (refl, refl)

  -- A post that created its transaction: a fresh row, already posted, and its entries.
  pub record Creates (t : Transaction) (j k : Journal) : Type 0 where
    pub valid : validate_transaction t ≡ none
    pub fresh : any (conflicts t) j.transactions ≡ false
    pub row : k.transactions ≡ posted_row digest t ∷ j.transactions
    pub debit :
        (a : String)
        → journal_total d a k.entries ≡ journal_total d a j.entries + debits a t.entries
    pub credit :
        (a : String)
        → journal_total c a k.entries ≡ journal_total c a j.entries + credits a t.entries

  create_post_result-Creates :
      (t : Transaction) (j k : Journal) (r : PostResult)
      → validate_transaction t ≡ none
      → All IsEntry t.entries
      → any (conflicts t) j.transactions ≡ false
      → create_post_result digest t
          (record j { transactions = draft_row digest t ∷ j.transactions })
        ≡ (ok r, k)
      → Creates t j k × (r ≡ record { transaction_id = t.id; created = true })
  unfolding create_post_result
  create_post_result-Creates t j k r v s fresh h =
      elim (Outcome-cases (insert_entries t.id 1 t.entries j')) [
        | inl (u, i, inserted) ↦
            let sums = λ (a : String). insert_entries-total t.id 1 t.entries j' i a s inserted in
            let marked = set_posted_new digest t j fresh i (sums "").2 in
            (
              record {
                valid = v;
                fresh = fresh;
                row = ground (arith, marked);
                debit = λ a. ground (arith, marked, sums a);
                credit = λ a. ground (arith, marked, sums a);
              },
              ground (arith, marked),
            )
        | inr (x, i, failed) ↦ absurd (ground arith)
      ]
    where
      j' : Journal
      j' = record j { transactions = draft_row digest t ∷ j.transactions }

  -- A call that ends well created its transaction, or found the one of an equal request and
  -- changed nothing.
  abbrev pub Outcome : Transaction → Journal → PostResult → Journal → Type 0
  Outcome t j r k =
      Creates t j k × (r ≡ record { transaction_id = t.id; created = true })
      ⊎ (row : JournalTransaction) × (validate_transaction t ≡ none)
        × (existing_row digest t j ≡ some row)
        × (row.request_hash ≡ request_fingerprint digest t)
        × (r ≡ record { transaction_id = row.id; created = false })
        × (k ≡ j)

  existing-Outcome :
      (t : Transaction) (j : Journal) (r : PostResult) (k : Journal)
      → validate_transaction t ≡ none
      → existing_post_result digest t j ≡ (ok r, k)
      → Outcome t j r k
  unfolding existing_post_result
  existing-Outcome t j r k v h = elim (Option-cases (existing_row digest t j)) [
    | inl missing ↦ absurd (ground arith)
    | inr (row, found) ↦ inr (row, v, found, ground arith, ground arith, ground arith)
  ]

  pub post_in_transaction-Outcome :
      (t : Transaction) (j : Journal) (r : PostResult) (k : Journal)
      → All FitsInt64 t.entries
      → post_in_transaction digest t j ≡ (ok r, k)
      → Outcome t j r k
  unfolding post_in_transaction insert_transaction
  post_in_transaction-Outcome t j r k f h = elim (Option-cases (validate_transaction t)) [
    | inl v ↦ elim (Bool-cases (any (conflicts t) j.transactions)) [
      | inl old ↦ existing-Outcome t j r k v (ground arith)
      | inr fresh ↦
          let w : IsWellFormed t = (validate_transaction_iff t f).0 v in
          inl (create_post_result-Creates t j k r v w.balanced.sound fresh (ground arith))
    ]
    | inr (x, refused) ↦ absurd (ground arith)
  ]

  pub post-Outcome :
      (t : Transaction) (j : Journal)
      → All FitsInt64 t.entries
      → ((x : Error) → (post digest t j).0 ≡ err x → (post digest t j).1 ≡ j)
        × ((r : PostResult) → (post digest t j).0 ≡ ok r → Outcome t j r (post digest t j).1)
  unfolding post
  post-Outcome t j f =
      (λ x h. ground arith, λ r h. post_in_transaction-Outcome t j r _ f (ground arith))

  -- A call of `Post` with `int64` amounts that fails leaves the journal as it was. One that succeeds
  -- either inserted the transaction as a posted row that clashes with no other, with its entries
  -- added to the totals of both sides, or found the row of an equal request and changed nothing.
  pub post_ends :
      (t : Transaction) (j : Journal)
      → All FitsInt64 t.entries
      → ((x : Error) × (post digest t j ≡ (err x, j)))
        ⊎ ((r : PostResult) × ((post digest t j).0 ≡ ok r) × Outcome t j r (post digest t j).1)
  post_ends t j f = elim (Result-cases (post digest t j).0) [
    | inl (r, done) ↦ inr (r, done, (post-Outcome t j f).1 r done)
    | inr (x, failed) ↦ inl (x, λ i. (failed i, (post-Outcome t j f).0 x failed i))
  ]

  existing_row-any :
      (t : Transaction) (j : Journal) (row : JournalTransaction)
      → existing_row digest t j ≡ some row
      → any (conflicts t) j.transactions ≡ true
  unfolding find_by_idempotency_key find_by_reference
  existing_row-any t j row h = elim (Option-cases (find (same_key t) j.transactions)) [
    | inl missing ↦
        find-any (same_reference t) (conflicts t) (λ r e. ground arith) j.transactions row
          (ground arith)
    | inr (r, found) ↦
        find-any (same_key t) (conflicts t) (λ r' e. ground arith) j.transactions r found
  ]

  pub post_existing :
      (t : Transaction) (j : Journal) (row : JournalTransaction)
      → validate_transaction t ≡ none
      → existing_row digest t j ≡ some row
      → post digest t j ≡ (
          if text_eq row.request_hash (request_fingerprint digest t)
          then (ok (record { transaction_id = row.id; created = false }), j)
          else (err idempotency_conflict, j))
  unfolding post post_in_transaction insert_transaction existing_post_result
  post_existing t j row v found = ground (arith, existing_row-any t j row found)

  existing_row-Creates :
      (t : Transaction) (j k : Journal)
      → Creates t j k
      → existing_row digest t k ≡ some (posted_row digest t)
  unfolding find_by_idempotency_key draft_row
  existing_row-Creates t j k made = ground (arith, made.row)

  -- If `Post` succeeds, the same call on the journal that it left succeeds with the same
  -- transaction, says that it created nothing, and changes nothing.
  pub post_replay :
      (t : Transaction) (j : Journal) (r : PostResult)
      → All FitsInt64 t.entries
      → (post digest t j).0 ≡ ok r
      → post digest t (post digest t j).1
        ≡ (ok (record { transaction_id = r.transaction_id; created = false }), (post digest t j).1)
  post_replay t j r f h = replay ((post-Outcome t j f).1 r h)
    where
      replay :
          Outcome t j r (post digest t j).1
          → post digest t (post digest t j).1 ≡ (
            ok (record { transaction_id = r.transaction_id; created = false }),
            (post digest t j).1,
          )
      replay (inl (made, e)) =
          let again =
            post_existing t (post digest t j).1 (posted_row digest t) made.valid
              (existing_row-Creates t j (post digest t j).1 made) in
          ground (arith, again, posted_row-hash t)
      replay (inr (row, v, found, same, e, kept)) =
          rw (kept, e) (rw (post_existing t j row v found) (ground arith))

  -- A valid transaction whose idempotency key the requester has used for a request with another
  -- fingerprint is refused, and the journal stays as it was.
  pub post_conflict :
      (t : Transaction) (j : Journal) (row : JournalTransaction)
      → validate_transaction t ≡ none
      → find (same_key t) j.transactions ≡ some row
      → row.request_hash ≢ request_fingerprint digest t
      → post digest t j ≡ (err idempotency_conflict, j)
  unfolding find_by_idempotency_key
  post_conflict t j row v found other = rw (post_existing t j row v (ground arith)) (ground arith)
