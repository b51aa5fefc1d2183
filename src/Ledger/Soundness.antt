-- ===== src/Ledger/Soundness.antt =====
-- The invariant of the journal, kept by every call of `Post`.
use stablecoin_gateway.Prelude.{
  String, ◌≡◌, refl, inl, inr, false, List, [], ◌∷◌, arith, Result-cases, All, any,
}
use stablecoin_gateway.Ledger.Transaction.{Transaction}
use stablecoin_gateway.Ledger.Balance.{IsBalanced, FitsInt64}
use stablecoin_gateway.Ledger.Validation.{validate_transaction_iff}
use stablecoin_gateway.Ledger.Repository.{
  draft, Payload, JournalTransaction, Journal, conflicts, draft_row, post,
}
use stablecoin_gateway.Ledger.Posting.{clashes, IsSound, posted_row}
use stablecoin_gateway.Ledger.Idempotency.{Creates, post-Outcome}

clashes_posted :
    (digest : Payload → String) (t : Transaction) (rs : List JournalTransaction)
    → any (conflicts t) rs ≡ false
    → any (clashes (posted_row digest t)) rs ≡ false
unfolding draft_row
clashes_posted digest t [] h = refl
clashes_posted digest t (r ∷ rs) h = ground (arith, clashes_posted digest t rs)

module _ (digest : Payload → String) (t : Transaction) where
  posted_row_settled : (posted_row digest t).status ≡ draft → ⊥
  posted_row_settled h = cc

  Creates-IsSound :
      (j k : Journal) → Creates digest t j k → IsBalanced t.entries → IsSound j → IsSound k
  Creates-IsSound j k made b s = record {
    unique = rw made.row (clashes_posted digest t j.transactions made.fresh, s.unique);
    settled = rw made.row (posted_row_settled, s.settled);
    balanced = λ a. omega (arith, made.debit a, made.credit a, b.equal a, s.balanced a);
  }

  -- Whatever a call of `Post` with `int64` amounts returns, it keeps the journal sound: no two
  -- transactions share an identity, an idempotency key of a requester or a reference of a
  -- requester, none is left as a draft, and over each asset (by its trimmed name) the debits equal
  -- the credits.
  pub post-IsSound :
      (j : Journal) → All FitsInt64 t.entries → IsSound j → IsSound (post digest t j).1
  post-IsSound j f s = elim (Result-cases (post digest t j).0) [
    | inl (r, done) ↦ elim ((post-Outcome digest t j f).1 r done) [
      | inl (made, e) ↦
          Creates-IsSound j (post digest t j).1 made
            ((validate_transaction_iff t f).0 made.valid).balanced s
      | inr (row, v, found, same, e, kept) ↦ rw kept s
    ]
    | inr (x, failed) ↦ rw ((post-Outcome digest t j f).0 x failed) s
  ]
