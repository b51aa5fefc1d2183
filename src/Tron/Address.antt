-- ===== src/Tron/Address.antt =====
-- internal/chain/tron/address.go: Base58Check and hexadecimal addresses. A byte is a number below
-- 256, and an address that is refused is `none`. `sha256` is Go's `sha256.Sum256`.
use Prim.Native.Char.{Char, code}
use stablecoin_gateway.Prelude.{
  ℕ, zero, suc, ◌+◌, ◌-◌, ◌*◌, ◌/◌, ◌%◌, String, len, Bool, true, false, not, ◌&&◌, Option, none,
  some, List, [], ◌∷◌, ◌++◌, leb, ◌==◌, if◌then◌else◌, trim_space, length, take,
}

abbrev pub alphabet : String
alphabet = "123456789ABCDEFGHJKLMNPQRSTUVWXYZabcdefghijkmnopqrstuvwxyz"

-- `strings.IndexRune`
unfoldable pub index_of : ℕ → ℕ → String → Option ℕ
index_of c i String.[] = none
index_of c i (String.◌∷◌ a s) = if code a == c then some i else index_of c (suc i) s

-- The text of one character at a position of a table.
unfoldable pub prepend_nth : ℕ → String → String → String
prepend_nth n String.[] s = s
prepend_nth zero (String.◌∷◌ a t) s = String.◌∷◌ a s
prepend_nth (suc n) (String.◌∷◌ a t) s = prepend_nth n t s

-- The value of a Base58 text, from `acc` on.
unfoldable pub base58_value : ℕ → String → Option ℕ
unfolding index_of
base58_value acc String.[] = some acc
base58_value acc (String.◌∷◌ c s) = elim (index_of (code c) 0 alphabet) [
  | none ↦ none
  | some i ↦ base58_value (acc * 58 + i) s
]

-- `big.Int.Bytes`: big-endian, with no leading zero. The fuel is the number of digits at most.
unfoldable pub big_endian : ℕ → ℕ → List ℕ → List ℕ
big_endian zero n acc = acc
big_endian (suc fuel) n acc =
    let rest = big_endian fuel (n / 256) ((n % 256) ∷ acc) in if n == 0 then acc else rest

unfoldable pub from_bytes : ℕ → List ℕ → ℕ
from_bytes acc [] = acc
from_bytes acc (b ∷ bs) = from_bytes (acc * 256 + b) bs

-- One zero byte for each leading '1'.
unfoldable pub leading_ones : String → List ℕ
leading_ones String.[] = []
leading_ones (String.◌∷◌ c s) = if code c == b'1' then 0 ∷ leading_ones s else []

-- A text of n digits has a value below 58 ^ n, so n bytes are enough.
unfoldable pub decode_base58 : String → Option (List ℕ)
unfolding base58_value big_endian leading_ones
decode_base58 s = elim (base58_value 0 s) [
  | none ↦ none
  | some n ↦ some (leading_ones s ++ big_endian (len s) n [])
]

unfoldable pub same_bytes : List ℕ → List ℕ → Bool
same_bytes [] [] = true
same_bytes (a ∷ as') (b ∷ bs) = a == b && same_bytes as' bs
same_bytes _ _ = false

unfoldable pub drop : ℕ → List ℕ → List ℕ
drop zero bs = bs
drop (suc n) [] = []
drop (suc n) (b ∷ bs) = drop n bs

abbrev starts_with_0x41 : List ℕ → Bool
starts_with_0x41 [] = false
starts_with_0x41 (b ∷ bs) = b == 0x41

-- The Base58 digits of a number, put in front of a text; twice as many as bytes are enough.
unfoldable pub base58_digits : ℕ → ℕ → String → String
unfolding prepend_nth
base58_digits zero n s = s
base58_digits (suc fuel) n s =
    let rest = base58_digits fuel (n / 58) (prepend_nth (n % 58) alphabet s) in
    if n == 0 then s else rest

unfoldable pub leading_zeros : List ℕ → String → String
leading_zeros [] s = s
leading_zeros (b ∷ bs) s = if b == 0 then String.◌∷◌ (Char.char b'1' tt) (leading_zeros bs s) else s

abbrev pub hex_alphabet : String
hex_alphabet = "0123456789abcdef"

-- `hex.EncodeToString`
unfoldable pub encode_hex : List ℕ → String
unfolding prepend_nth
encode_hex [] = ""
encode_hex (b ∷ bs) =
    prepend_nth (b / 16) hex_alphabet (prepend_nth (b % 16) hex_alphabet (encode_hex bs))

-- The value of a hexadecimal digit of either case.
unfoldable pub hex_digit : ℕ → Option ℕ
hex_digit c =
    if leb b'0' c && leb c b'9'
    then some (c - b'0')
    else if leb b'a' c && leb c b'f'
    then some (c - b'a' + 10)
    else if leb b'A' c && leb c b'F'
    then some (c - b'A' + 10)
    else none

-- `hex.DecodeString`
unfoldable pub decode_hex : String → Option (List ℕ)
unfolding hex_digit
decode_hex String.[] = some []
decode_hex (String.◌∷◌ a String.[]) = none
decode_hex (String.◌∷◌ a (String.◌∷◌ b s)) = elim (hex_digit (code a)) [
  | none ↦ none
  | some x ↦ elim (hex_digit (code b)) [
    | none ↦ none
    | some y ↦ elim (decode_hex s) [ none ↦ none | some bs ↦ some ((x * 16 + y) ∷ bs) ]
  ]
]

module _ (sha256 : List ℕ → List ℕ) where
  -- The checksum of a payload.
  abbrev checksum : List ℕ → List ℕ
  checksum payload = take 4 (sha256 (sha256 payload))

  abbrev valid_payload : List ℕ → Bool
  valid_payload bs =
      length bs == 25 && starts_with_0x41 bs && same_bytes (drop 21 bs) (checksum (take 21 bs))

  unfoldable pub normalize_address : String → Option String
  unfolding decode_base58 same_bytes drop trim_space
  normalize_address value =
      if not (len (trim_space value) == 34) then none else elim (decode_base58 (trim_space value)) [
        | none ↦ none
        | some bs ↦ if valid_payload bs then some (trim_space value) else none
      ]

  unfoldable pub encode_base58_check : List ℕ → String
  unfolding from_bytes base58_digits leading_zeros
  encode_base58_check payload =
      let checked = payload ++ checksum payload in
      leading_zeros checked (base58_digits (2 * length checked) (from_bytes 0 checked) "")

  -- A text of 42 bytes is in hexadecimal form if it begins with "41" and decodes to 21 bytes; the
  -- lower-case form that the source returns is the encoding of those bytes.
  unfoldable pub hex_form : String → Option (List ℕ)
  unfolding decode_hex
  hex_form value = if not (len value == 42) then none else elim (decode_hex value) [
    | none ↦ none
    | some bs ↦ if length bs == 21 && starts_with_0x41 bs then some bs else none
  ]

  unfoldable pub normalize_address_hex : String → Option String
  unfolding normalize_address decode_base58 hex_form encode_hex trim_space
  normalize_address_hex value =
      if len (trim_space value) == 34
      then elim (normalize_address (trim_space value)) [
        | none ↦ none
        | some v ↦ elim (decode_base58 (trim_space value)) [
          | none ↦ none
          | some bs ↦ if length bs == 25 then some (encode_hex (take 21 bs)) else none
        ]
      ]
      else elim (hex_form (trim_space value)) [ none ↦ none | some bs ↦ some (encode_hex bs) ]

  unfoldable pub normalize_address_base58 : String → Option String
  unfolding normalize_address normalize_address_hex decode_hex encode_base58_check trim_space
  normalize_address_base58 value =
      if len (trim_space value) == 34
      then normalize_address (trim_space value)
      else elim (normalize_address_hex (trim_space value)) [
        | none ↦ none
        | some h ↦ elim (decode_hex h) [
          | none ↦ none
          | some payload ↦ some (encode_base58_check payload)
        ]
      ]
