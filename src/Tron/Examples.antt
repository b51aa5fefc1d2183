-- ===== src/Tron/Examples.antt =====
-- Three bytes of an address.
use stablecoin_gateway.Prelude.{ℕ, ◌<◌, ◌*◌, ◌≡◌, List, [], ◌∷◌, All, length, arith}
use stablecoin_gateway.Tron.Address.{base58_digits, from_bytes}
use stablecoin_gateway.Tron.Forms.{base58_digits_terminates}

abbrev bytes : List ℕ
bytes = 65 ∷ 255 ∷ 9 ∷ []

bytes_small : All (λ b. b < 256) bytes
bytes_small = (omega arith, (omega arith, (omega arith, tt)))

base58_digits_terminates_example :
    base58_digits 40 (from_bytes 0 bytes) ""
    ≡ base58_digits (2 * length bytes) (from_bytes 0 bytes) ""
base58_digits_terminates_example = base58_digits_terminates bytes 40 "" bytes_small (omega arith)
