-- ===== src/Payout/Create/Requests.antt =====
-- internal/payout/store.go: the request for a payout and its checks.
use Prim.Native.Char.{code}
use stablecoin_gateway.Prelude.{
  ℕ, ◌+◌, String, len, Bool, true, false, not, ◌&&◌, ◌||◌, Option, none, some, List, [], ◌∷◌, ltb,
  leb, ◌==◌, if◌then◌else◌, max_int64, text_eq, trim_space,
}
use stablecoin_gateway.Tron.Simulator.Blocks.{all_digits, decimal_value}
use stablecoin_gateway.Payout.State.{Status, valid_uuid}

pub record Request : Type 0 where
  pub id : String
  pub merchant_id : String
  pub asset_id : String
  pub idempotency_key : String
  pub merchant_reference : String
  pub destination_address : String
  pub amount : String

pub record Details : Type 0 where
  pub id : String
  pub merchant_reference : String
  pub asset_id : String
  pub network : String
  pub contract_address : String
  pub symbol : String
  pub decimals : ℕ
  pub destination_address : String
  pub amount : ℕ
  pub status : Status
  pub transaction_id : String
  pub freeze_transaction_id : String
  pub created_at : ℕ
  pub updated_at : ℕ

pub record CreateResult : Type 0 where
  pub payout : Details
  pub created : Bool

-- What `requestFingerprint` hashes.
pub record Fingerprint : Type 0 where
  pub merchant_id : String
  pub asset_id : String
  pub merchant_reference : String
  pub destination_address : String
  pub amount : String

-- `normalizeRequest`
abbrev pub normalize_request : Request → Request
normalize_request r = record {
  id = trim_space r.id;
  merchant_id = trim_space r.merchant_id;
  asset_id = trim_space r.asset_id;
  idempotency_key = trim_space r.idempotency_key;
  merchant_reference = trim_space r.merchant_reference;
  destination_address = trim_space r.destination_address;
  amount = trim_space r.amount;
}

-- `strconv.ParseInt(s, 10, 64)` and the test that the value is positive: a sign, and digits.
abbrev parse_digits : String → Option ℕ
parse_digits s =
    if not (text_eq s "")
      && all_digits s
      && ltb 0 (decimal_value 0 s)
      && leb (decimal_value 0 s) max_int64
    then some (decimal_value 0 s)
    else none

unfoldable pub parse_positive : String → Option ℕ
parse_positive String.[] = none
parse_positive (String.◌∷◌ ch s) =
    if code ch == b'+' then parse_digits s else parse_digits (String.◌∷◌ ch s)

abbrev starts_with_zero : String → Bool
starts_with_zero String.[] = false
starts_with_zero (String.◌∷◌ ch s) = code ch == b'0'

abbrev is_short_text : String → Bool
is_short_text s = not (text_eq s "") && leb (len s) 128

-- `validateRequest`
unfoldable pub validate_request : Request → Option ℕ
validate_request r =
    if valid_uuid r.id
      && valid_uuid r.merchant_id
      && not (text_eq r.asset_id "")
      && is_short_text r.idempotency_key
      && is_short_text r.merchant_reference
      && is_short_text r.destination_address
      && not (text_eq r.amount "")
      && leb (len r.amount) 19
      && not (starts_with_zero r.amount)
    then parse_positive r.amount
    else none

-- `strings.HasPrefix(strings.ToLower(network), "tron")`
abbrev is_letter : ℕ → ℕ → Bool
is_letter lower ch = ch == lower || ch + 32 == lower

unfoldable pub has_prefix : List ℕ → String → Bool
has_prefix [] s = true
has_prefix (x ∷ xs) String.[] = false
has_prefix (x ∷ xs) (String.◌∷◌ ch s) = is_letter x (code ch) && has_prefix xs s

unfoldable pub is_tron : String → Bool
is_tron = has_prefix (b't' ∷ b'r' ∷ b'o' ∷ b'n' ∷ [])
