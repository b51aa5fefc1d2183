-- ===== src/Payout/State.antt =====
-- The conditions on rows, and the checks of a caller's texts, that the payout operations share.
use Prim.Native.Char.{code}
use Prim.Native.String.{compare as text_compare}
use Prim.Native.Nat.{Ordering}
use stablecoin_gateway.Prelude.{
  ℕ, suc, ◌/◌, String, len, Bool, true, false, not, ◌&&◌, ◌||◌, Option, none, some, List, [], ◌∷◌,
  ltb, leb, ◌==◌, if◌then◌else◌, ℤ, pos, negsuc, text_eq, trim_space, is_blank, Action,
}
pub use stablecoin_gateway.Lease.{Lease, is_free, owned_by, is_live, milliseconds}
mod Tables
pub use Tables.*

abbrev pub Tx : Type 0 → Type 0
Tx = Action Database Error

abbrev pub has_status : Status → Payout → Bool
has_status approved p = elim p.status [ approved ↦ true | _ ↦ false ]
has_status ready_for_broadcast p = elim p.status [ ready_for_broadcast ↦ true | _ ↦ false ]
has_status confirming p = elim p.status [ confirming ↦ true | _ ↦ false ]
has_status pending_review p = elim p.status [ pending_review ↦ true | _ ↦ false ]
has_status succeeded p = elim p.status [ succeeded ↦ true | _ ↦ false ]
has_status failed p = elim p.status [ failed ↦ true | _ ↦ false ]
has_status rejected p = elim p.status [ rejected ↦ true | _ ↦ false ]

-- `ORDER BY key, id`
abbrev pub text_ltb : String → String → Bool
text_ltb s t = elim (text_compare s t) [ Ordering.lt ↦ true | _ ↦ false ]

-- `FOR UPDATE SKIP LOCKED LIMIT 1`: the first of the eligible rows in the order of a key and the
-- identity, where `locked` are the rows that other transactions hold.
module _ (key : Payout → ℕ) where
  abbrev precedes : Payout → Payout → Bool
  precedes p q = ltb (key p) (key q) || (key p == key q && text_ltb p.id q.id)

  unfoldable pub first_by : (Payout → Bool) → List Payout → Option Payout
  first_by eligible [] = none
  first_by eligible (p ∷ ps) = elim (first_by eligible ps) [
    | none ↦ if eligible p then some p else none
    | some q ↦ if eligible p && precedes p q then some p else some q
  ]

-- `identity.ValidUUID`: 36 bytes, dashes at four places, hexadecimal digits elsewhere.
abbrev is_dash_place : ℕ → Bool
is_dash_place i = i == 8 || i == 13 || i == 18 || i == 23

abbrev is_hex : ℕ → Bool
is_hex c = (leb b'0' c && leb c b'9') || (leb b'a' c && leb c b'f') || (leb b'A' c && leb c b'F')

unfoldable pub uuid_from : ℕ → String → Bool
uuid_from i String.[] = i == 36
uuid_from i (String.◌∷◌ c s) =
    (if is_dash_place i then code c == b'-' else is_hex (code c)) && uuid_from (suc i) s

unfoldable pub valid_uuid : String → Bool
unfolding uuid_from
valid_uuid s = uuid_from 0 s

-- `^[a-z0-9][a-z0-9_.-]{0,127}$`
abbrev is_lower_or_digit : ℕ → Bool
is_lower_or_digit c = (leb b'a' c && leb c b'z') || (leb b'0' c && leb c b'9')

unfoldable pub code_tail : String → Bool
code_tail String.[] = true
code_tail (String.◌∷◌ c s) =
    (is_lower_or_digit (code c) || code c == b'_' || code c == b'.' || code c == b'-')
    && code_tail s

unfoldable pub is_failure_code : String → Bool
unfolding code_tail
is_failure_code String.[] = false
is_failure_code (String.◌∷◌ c s) = is_lower_or_digit (code c) && code_tail s && leb (len s) 127

-- `^[0-9a-f]{64}$`
unfoldable pub lower_hex : String → Bool
lower_hex String.[] = true
lower_hex (String.◌∷◌ c s) =
    ((leb b'0' (code c) && leb (code c) b'9') || (leb b'a' (code c) && leb (code c) b'f'))
    && lower_hex s

unfoldable pub is_transaction_id : String → Bool
unfolding lower_hex
is_transaction_id s = len s == 64 && lower_hex s

-- `validateSigningClaim` and `validateExecutionClaim` have the same conditions.
unfoldable pub valid_claim : String → String → ℕ → Bool
unfolding valid_uuid is_blank trim_space
valid_claim payout_id worker_id lease_epoch =
    valid_uuid (trim_space payout_id)
    && not (is_blank worker_id)
    && leb (len worker_id) 128
    && ltb 0 lease_epoch

-- The guard of the three claims: a worker's name of 1 to 128 bytes and a positive duration.
unfoldable pub valid_worker : String → ℤ → Bool
unfolding is_blank trim_space
valid_worker worker_id duration =
    not (is_blank worker_id)
    && leb (len (trim_space worker_id)) 128
    && ltb 0 (milliseconds duration)
