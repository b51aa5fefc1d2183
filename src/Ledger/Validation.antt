-- ===== src/Ledger/Validation.antt =====
-- `ValidateTransaction` decides its specification.
use stablecoin_gateway.Prelude.{
  ◌≤◌, ◌≡◌, ◌↔◌, inl, inr, false, none, List, [], arith, is_blank, Result-cases, All, length,
}
use stablecoin_gateway.Ledger.Transaction.{
  Entry, Transaction, get, add_entries, check_balanced, validate_entries, validate_transaction,
}
use stablecoin_gateway.Ledger.Balance.{IsBalanced, FitsInt64}
use stablecoin_gateway.Ledger.Loop.{
  Accumulates, add_entries-Accumulates, add_entries-fits, add_entries_total, add_entries-IsDistinct,
  check_balanced-equal, equal-check_balanced,
}

-- A transaction that names itself, its requester and its reference, with balanced entries.
pub record IsWellFormed (t : Transaction) : Type 0 where
  pub id : is_blank t.id ≡ false
  pub idempotency_key : is_blank t.idempotency_key ≡ false
  pub requester_type : is_blank t.requester_type ≡ false
  pub requester_id : is_blank t.requester_id ≡ false
  pub reference_type : is_blank t.reference_type ≡ false
  pub reference_id : is_blank t.reference_id ≡ false
  pub two_entries : 2 ≤ length t.entries
  pub balanced : IsBalanced t.entries

pub validate_entries-IsBalanced :
    (es : List Entry) → All FitsInt64 es → validate_entries es ≡ none → IsBalanced es
unfolding validate_entries get
validate_entries-IsBalanced es f h = elim (Result-cases (add_entries 1 es [])) [
  | inl (n, added) ↦
      let sums : Accumulates es [] n = add_entries-Accumulates 1 es [] n added in
      let fits = add_entries-fits 1 es [] n f (λ a. omega arith) added in
      let checked : check_balanced n ≡ none = rw (added, validate_entries) at h in
      let equal = check_balanced-equal n checked in
      record {
        sound = sums.sound;
        equal = λ a. omega (arith, sums.debit a, sums.credit a, equal a);
        fits_debit = λ a. omega (arith, sums.debit a, (fits a).0);
        fits_credit = λ a. omega (arith, sums.credit a, (fits a).1);
      }
  | inr (x, failed) ↦ absurd (ground arith)
]

pub IsBalanced-validate_entries : (es : List Entry) → IsBalanced es → validate_entries es ≡ none
unfolding validate_entries get
IsBalanced-validate_entries es b =
    let (n, added) =
      add_entries_total 1 es [] b.sound (λ a. omega (arith, b.fits_debit a))
        (λ a. omega (arith, b.fits_credit a)) in
    let sums : Accumulates es [] n = add_entries-Accumulates 1 es [] n added in
    let distinct = add_entries-IsDistinct 1 es [] n tt added in
    rw (added, validate_entries)
      (equal-check_balanced n distinct (λ a. omega (arith, sums.debit a, sums.credit a, b.equal a)))

-- For entries whose amounts are `int64` values, `ValidateTransaction` returns nil exactly on the
-- well-formed transactions: no blank identity field, two entries or more, each with an account, an
-- asset, a positive amount and a known side, and for each asset equal debits and credits that fit
-- an `int64`.
pub validate_transaction_iff :
    (t : Transaction) → All FitsInt64 t.entries → (validate_transaction t ≡ none) ↔ IsWellFormed t
unfolding validate_transaction
validate_transaction_iff t f = (
  λ h. record {
    id = ground arith;
    idempotency_key = ground arith;
    requester_type = ground arith;
    requester_id = ground arith;
    reference_type = ground arith;
    reference_id = ground arith;
    two_entries = ground arith;
    balanced = validate_entries-IsBalanced t.entries f (ground arith);
  },
  λ w. ground (arith, IsBalanced-validate_entries t.entries w.balanced),
)
