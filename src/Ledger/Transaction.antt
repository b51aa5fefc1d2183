-- ===== src/Ledger/Transaction.antt =====
-- internal/ledger/transaction.go: the data of a transaction and `ValidateTransaction`.
use stablecoin_gateway.Prelude.{
  ℕ, suc, ◌+◌, ◌-◌, String, not, ◌||◌, Option, none, some, List, [], ◌∷◌, ltb, ◌==◌, if◌then◌else◌,
  ℤ, pos_part, is_positive, max_int64, text_eq, trim_space, is_blank, Result, ok, err, length,
}

pub data Error : Type 0 where
  transaction_id_required idempotency_required requester_required reference_required : Error
  entries_required : Error
  account_id_required asset_id_required invalid_amount invalid_side : ℕ → Error
  amount_overflow : String → Error
  unbalanced_transaction : String → ℕ → ℕ → Error
  idempotency_conflict entry_rejected status_changed row_missing : Error

-- `Side` is a `uint8`; `unknown` is any value but the two constants.
pub data Side : Type 0 where
  debit credit : Side
  unknown : ℕ → Side

pub record Entry : Type 0 where
  pub account_id : String
  pub asset_id : String
  pub side : Side
  pub amount : ℤ

pub record Transaction : Type 0 where
  pub id : String
  pub requester_type : String
  pub requester_id : String
  pub idempotency_key : String
  pub reference_type : String
  pub reference_id : String
  pub entries : List Entry

pub record Totals : Type 0 where
  pub debit : ℕ
  pub credit : ℕ

-- `map[string]totals`: a missing key reads as zero totals.
abbrev pub AssetTotals : Type 0
AssetTotals = List (String × Totals)

abbrev pub zero_totals : Totals
zero_totals = record { debit = 0; credit = 0 }

unfoldable pub get : String → AssetTotals → Totals
get asset [] = zero_totals
get asset ((k, t) ∷ m) = if text_eq k asset then t else get asset m

unfoldable pub put : String → Totals → AssetTotals → AssetTotals
put asset t [] = (asset, t) ∷ []
put asset t ((k, u) ∷ m) = if text_eq k asset then (asset, t) ∷ m else (k, u) ∷ put asset t m

-- The `switch entry.Side`, at an amount that is positive; `line` is `index + 1`.
unfoldable pub add_amount : ℕ → String → ℕ → Side → Totals → Result Error Totals
add_amount line asset amount Side.debit t =
    if ltb (max_int64 - amount) t.debit
    then err (amount_overflow asset)
    else ok (record t { debit = t.debit + amount })
add_amount line asset amount Side.credit t =
    if ltb (max_int64 - amount) t.credit
    then err (amount_overflow asset)
    else ok (record t { credit = t.credit + amount })
add_amount line asset amount (Side.unknown n) t = err (invalid_side line)

-- One round of the loop over the entries.
unfoldable pub add_entry : ℕ → Entry → AssetTotals → Result Error AssetTotals
unfolding add_amount
add_entry line e m =
    if is_blank e.account_id
    then err (account_id_required line)
    else if is_blank e.asset_id
    then err (asset_id_required line)
    else if not (is_positive e.amount)
    then err (invalid_amount line)
    else elim (add_amount line (trim_space e.asset_id) (pos_part e.amount) e.side
        (get (trim_space e.asset_id) m)) [
          | ok t ↦ ok (put (trim_space e.asset_id) t m)
          | err x ↦ err x
        ]

unfoldable pub add_entries : ℕ → List Entry → AssetTotals → Result Error AssetTotals
unfolding add_entry
add_entries line [] m = ok m
add_entries line (e ∷ es) m = elim (add_entry line e m) [
  | ok m' ↦ add_entries (suc line) es m'
  | err x ↦ err x
]

-- The loop over the map, in the order in which its keys were first put; Go's order is not fixed.
unfoldable pub check_balanced : AssetTotals → Option Error
check_balanced [] = none
check_balanced ((k, t) ∷ m) =
    if t.debit == t.credit
    then check_balanced m
    else some (unbalanced_transaction k t.debit t.credit)

unfoldable pub validate_entries : List Entry → Option Error
unfolding add_entries check_balanced
validate_entries es = elim (add_entries 1 es []) [ ok m ↦ check_balanced m | err x ↦ some x ]

-- `ValidateTransaction`; `none` is the nil error.
unfoldable pub validate_transaction : Transaction → Option Error
validate_transaction t =
    if is_blank t.id
    then some transaction_id_required
    else if is_blank t.idempotency_key
    then some idempotency_required
    else if is_blank t.requester_type || is_blank t.requester_id
    then some requester_required
    else if is_blank t.reference_type || is_blank t.reference_id
    then some reference_required
    else if ltb (length t.entries) 2
    then some entries_required
    else validate_entries t.entries
