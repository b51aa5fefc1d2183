-- ===== src/Ledger/Balance.antt =====
-- What `ValidateTransaction` accepts, stated without the loop, the map or the early returns.
use stablecoin_gateway.Prelude.{
  ℕ, ◌+◌, ◌≤◌, String, ◌≡◌, true, false, List, [], ◌∷◌, if◌then◌else◌, pos_part, is_positive,
  max_int64, text_eq, trim_space, is_blank, All,
}
use stablecoin_gateway.Ledger.Transaction.{Side, Entry}

-- The amount that an entry adds to the debits, or to the credits, of an asset.
abbrev pub on_debit : Side → ℕ → ℕ
on_debit Side.debit n = n
on_debit _ n = 0

abbrev pub on_credit : Side → ℕ → ℕ
on_credit Side.credit n = n
on_credit _ n = 0

abbrev pub IsKnown : Side → Type 0
IsKnown (Side.unknown n) = ⊥
IsKnown _ = Unit

abbrev pub debits : String → List Entry → ℕ
debits a [] = 0
debits a (e ∷ es) =
    (if text_eq (trim_space e.asset_id) a then on_debit e.side (pos_part e.amount) else 0)
    + debits a es

abbrev pub credits : String → List Entry → ℕ
credits a [] = 0
credits a (e ∷ es) =
    (if text_eq (trim_space e.asset_id) a then on_credit e.side (pos_part e.amount) else 0)
    + credits a es

pub record IsEntry (e : Entry) : Type 0 where
  pub account : is_blank e.account_id ≡ false
  pub asset : is_blank e.asset_id ≡ false
  pub positive : is_positive e.amount ≡ true
  pub known : IsKnown e.side

-- All entries are sound, and each asset's debits equal its credits and fit an `int64`.
pub record IsBalanced (es : List Entry) : Type 0 where
  pub sound : All IsEntry es
  pub equal : (a : String) → debits a es ≡ credits a es
  pub fits_debit : (a : String) → debits a es ≤ max_int64
  pub fits_credit : (a : String) → credits a es ≤ max_int64

-- The values of an `int64`.
abbrev pub FitsInt64 : Entry → Type 0
FitsInt64 e = pos_part e.amount ≤ max_int64
