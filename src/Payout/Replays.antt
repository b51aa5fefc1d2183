-- ===== src/Payout/Replays.antt =====
-- The ends of a creation, and a creation that is sent again.
use mathlib.Core.Path.{subst}
use stablecoin_gateway.Prelude.{
  ℕ, String, ◌≡◌, sym, true, false, none, some, arith, Result, ok, err, Outcome-cases, Result-cases,
  Option-cases, Bool-cases, inl, inr, ◌⊎◌, find, text_eq,
}
use stablecoin_gateway.Payout.State.{Payout, Merchant, Database, Error, invalid_request}
use stablecoin_gateway.Payout.Create.{
  Request, Details, CreateResult, query_details, existing_id, find_existing, Hashes,
  request_fingerprint, prepare, create_in_transaction, create,
}
use stablecoin_gateway.Payout.Creations.{Creates, create_new-Creates}

module _ (hashes : Hashes) where
  -- A payout that was created before for the same request.
  pub record Repeats (r : Request) (db : Database) (details : Details) : Type 0 where
    pub id : String
    pub owner : Merchant
    pub merchant_is : find (λ m. text_eq m.id r.merchant_id) db.merchants ≡ some owner
    pub existing : existing_id r (request_fingerprint hashes r) "" db.payouts ≡ ok id
    pub named : text_eq id "" ≡ false
    pub details_is : query_details r.merchant_id id db ≡ some details

  -- The ends of `Create`: malformed, refused, repeated and made.
  pub data CreateEnd (journal_id : String) (now : ℕ) (request : Request) (db : Database)
      : Result Error CreateResult × Database → Type 0 where
    malformed :
        prepare hashes request ≡ none
        → CreateEnd journal_id now request db (err invalid_request, db)
    refused : (x : Error) → CreateEnd journal_id now request db (err x, db)
    repeated :
        (r : Request) (amount : ℕ) (details : Details)
        → prepare hashes request ≡ some (r, amount)
        → Repeats r db details
        → CreateEnd journal_id now request db
            (ok (record { payout = details; created = false }), db)
    made :
        (r : Request) (amount : ℕ) (details : Details) (db' : Database)
        → prepare hashes request ≡ some (r, amount)
        → Creates hashes journal_id now r amount db db' details
        → CreateEnd journal_id now request db
            (ok (record { payout = details; created = true }), db')

  in_transaction-Creates :
      (journal_id : String) (now : ℕ) (r : Request) (amount : ℕ) (db db' : Database)
      (result : CreateResult)
      → create_in_transaction hashes journal_id now r amount db ≡ (ok result, db')
      → (Repeats r db result.payout × (result.created ≡ false) × (db' ≡ db))
        ⊎ Creates hashes journal_id now r amount db db' result.payout × (result.created ≡ true)
  unfolding create_in_transaction find_existing
  in_transaction-Creates journal_id now r amount db db' result h =
      elim (Option-cases (find (λ m. text_eq m.id r.merchant_id) db.merchants)) [
        | inl e ↦ absurd (ground arith)
        | inr (owner, merchant_is) ↦
            elim (Result-cases (existing_id r (request_fingerprint hashes r) "" db.payouts)) [
              | inr (x, conflict) ↦ absurd (ground arith)
              | inl (id, existing) ↦ elim (Bool-cases (text_eq id "")) [
                | inl unnamed ↦ inr (
                    create_new-Creates hashes journal_id now r amount owner db db' result
                      (ground arith) merchant_is (ground arith))
                | inr named ↦ elim (Option-cases (query_details r.merchant_id id db)) [
                  | inl missing ↦ absurd (ground arith)
                  | inr (details, details_is) ↦ inl (
                    record {
                      id = id;
                      owner = owner;
                      merchant_is = merchant_is;
                      existing = existing;
                      named = named;
                      details_is = ground arith;
                    },
                    ground arith,
                    ground arith,
                  )
                ]
              ]
            ]
      ]

  -- `Create` either leaves the database as it was, with an error or with the details of the payout
  -- that an earlier request of the same fingerprint has created, or it has created the payout: it
  -- has found an active merchant, an active asset of a Tron network and active accounts, with an
  -- available balance that covers the amount; the journal has gained a debit of it on the available
  -- account and a credit on the frozen one, or is left as an earlier posting of the same request,
  -- under the same key or reference, has made it; one row that waits for its review and one pending
  -- screening job are added, and no event.
  pub create_ends :
      (journal_id : String) (now : ℕ) (request : Request) (db : Database)
      → CreateEnd journal_id now request db (create hashes journal_id now request db)
  unfolding create
  create_ends journal_id now request db = elim (Option-cases (prepare hashes request)) [
    | inl e ↦
        let ends : create hashes journal_id now request db ≡ (err invalid_request, db) =
          ground arith in
        subst (CreateEnd journal_id now request db) (sym ends) (malformed e)
    | inr ((r, amount), valid) ↦
        elim (Outcome-cases (create_in_transaction hashes journal_id now r amount db)) [
          | inr (x, d, refusal) ↦
              let ends : create hashes journal_id now request db ≡ (err x, db) = ground arith in
              subst (CreateEnd journal_id now request db) (sym ends) (refused x)
          | inl (result, d, done) ↦
              elim (in_transaction-Creates journal_id now r amount db d result done) [
                | inl (again, old, same) ↦
                    let ends : create hashes journal_id now request db
                        ≡ (ok (record { payout = result.payout; created = false }), db) =
                      ground arith in
                    subst (CreateEnd journal_id now request db) (sym ends)
                      (repeated r amount result.payout valid again)
                | inr (new, fresh) ↦
                    let ends : create hashes journal_id now request db
                        ≡ (ok (record { payout = result.payout; created = true }), d) =
                      ground arith in
                    subst (CreateEnd journal_id now request db) (sym ends)
                      (made r amount result.payout d valid new)
              ]
        ]
  ]
