-- ===== src/Tron/Forms.antt =====
-- The hexadecimal form of an address: it decodes to the bytes that it encodes.
use Prim.Native.Char.{Char, code}
use stablecoin_gateway.Prelude.{
  ℕ, zero, suc, ◌+◌, ◌*◌, ◌/◌, ◌%◌, ◌<◌, ◌≤◌, length, sym, String, ◌≡◌, refl, ap, ◌∙◌, Bool, true,
  false, ◌&&◌, ◌==◌, none, some, List, [], ◌∷◌, arith, All,
}
use stablecoin_gateway.Tron.Address.{
  encode_hex, decode_hex, hex_digit, prepend_nth, hex_alphabet, alphabet, base58_digits, from_bytes,
}

-- The characters of a table are the digits from a value on.
unfoldable are_digits : ℕ → String → Bool
are_digits i String.[] = i == 16
are_digits i (String.◌∷◌ a t) =
    elim (hex_digit (code a)) [ none ↦ false | some v ↦ v == i ] && are_digits (suc i) t

record Nibble (k v : ℕ) (t s : String) : Type 0 where
  front : Char
  written : prepend_nth k t s ≡ String.◌∷◌ front s
  value : hex_digit (code front) ≡ some v

digit_at : (k i v : ℕ) (t s : String) → are_digits i t ≡ true → i + k ≡ v → v < 16 → Nibble k v t s
unfolding are_digits prepend_nth
digit_at k i v String.[] s digits sum small = absurd (ground arith)
digit_at zero i v (String.◌∷◌ a t) s digits sum small = record {
  front = a;
  written = refl;
  value = ground arith;
}
digit_at (suc k) i v (String.◌∷◌ a t) s digits sum small =
    let further = digit_at k (suc i) v t s (ground arith) (omega (arith, sum)) small in
    record { front = further.front; written = further.written; value = further.value }

hex_digit_at : (k : ℕ) (s : String) → k < 16 → Nibble k k hex_alphabet s
unfolding are_digits hex_digit
hex_digit_at k s small = digit_at k 0 k hex_alphabet s refl (omega arith) small

decode_front :
    (hi lo : Char) (x y : ℕ) (s : String) (bs : List ℕ)
    → hex_digit (code hi) ≡ some x
    → hex_digit (code lo) ≡ some y
    → decode_hex s ≡ some bs
    → decode_hex (String.◌∷◌ hi (String.◌∷◌ lo s)) ≡ some ((x * 16 + y) ∷ bs)
unfolding decode_hex
decode_front hi lo x y s bs high low rest = ground (arith, high, low, rest)

-- The hexadecimal form of a list of bytes, numbers below 256, decodes to the same bytes.
pub decode_hex-encode_hex :
    (bs : List ℕ) → All (λ b. b < 256) bs → decode_hex (encode_hex bs) ≡ some bs
unfolding encode_hex decode_hex
decode_hex-encode_hex [] small = refl
decode_hex-encode_hex (b ∷ bs) small =
    let low = hex_digit_at (b % 16) (encode_hex bs) (omega arith) in
    let high =
      hex_digit_at (b / 16) (prepend_nth (b % 16) hex_alphabet (encode_hex bs))
        (omega (arith, small.0)) in
    ap decode_hex (high.written ∙ ap (String.◌∷◌ high.front) low.written)
    ∙ decode_front high.front low.front (b / 16) (b % 16) (encode_hex bs) bs high.value low.value
        (decode_hex-encode_hex bs small.1)
    ∙ ap (λ v. some (v ∷ bs)) (omega arith)

-- The numbers that a count of Base58 digits can hold.
unfoldable capacity : ℕ → ℕ
capacity zero = 1
capacity (suc k) = 58 * capacity k

fuel_enough :
    (fuel more n : ℕ) (s : String)
    → n < capacity fuel
    → fuel ≤ more
    → base58_digits more n s ≡ base58_digits fuel n s
unfolding base58_digits capacity
fuel_enough zero zero n s small le = refl
fuel_enough zero (suc more) n s small le = ground arith
fuel_enough (suc fuel) zero n s small le = absurd (omega (arith, le))
fuel_enough (suc fuel) (suc more) n s small le =
    let rest =
      fuel_enough fuel more (n / 58) (prepend_nth (n % 58) alphabet s) (omega (arith, small))
        (omega (arith, le)) in
    rw rest refl

from_bytes_bound :
    (bs : List ℕ) (acc k m : ℕ)
    → All (λ b. b < 256) bs
    → acc < capacity k
    → k + 2 * length bs ≡ m
    → from_bytes acc bs < capacity m
unfolding from_bytes capacity
from_bytes_bound [] acc k m small low sum =
    let same : k ≡ m = omega (arith, sum) in rw (sym same) low
from_bytes_bound (b ∷ bs) acc k m small low sum =
    from_bytes_bound bs (acc * 256 + b) (suc (suc k)) m small.1 (omega (arith, small.0, low))
      (omega (arith, sum))

-- The loop that writes the Base58 digits of bytes has ended within two rounds for each byte: with
-- any larger number of rounds the text is the same.
pub base58_digits_terminates :
    (bs : List ℕ) (more : ℕ) (s : String)
    → All (λ b. b < 256) bs
    → 2 * length bs ≤ more
    → base58_digits more (from_bytes 0 bs) s ≡ base58_digits (2 * length bs) (from_bytes 0 bs) s
unfolding capacity
base58_digits_terminates bs more s small le =
    fuel_enough (2 * length bs) more (from_bytes 0 bs) s
      (from_bytes_bound bs 0 0 (2 * length bs) small (omega arith) (omega arith)) le
