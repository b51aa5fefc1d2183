-- ===== src/Prelude/Text.antt =====
-- Texts: Go strings that hold valid UTF-8, compared by a decision, and `strings.TrimSpace`.
use Prim.Native.Nat.{ℕ}
use Prim.Native.String.{String}
use Prim.Native.Char.{code}
use mathlib.Core.Path.{◌≡◌, refl}
use mathlib.Core.Bool.{Bool, true, false, ◌&&◌, ◌||◌}
use text.Mathlib.Text.{◌==◌ as str_eq}
use text.Mathlib.TextEquality.{eq_iff}
use stablecoin_gateway.Prelude.Tests.{leb, ◌==◌, if◌then◌else◌, is_yes}

dec_of : (s t : String) (b : Bool) → str_eq s t ≡ b → Dec (s ≡ t)
dec_of s t true e = yes ((eq_iff s t).0 e)
dec_of s t false e = no (λ p. cc ((eq_iff s t).1 p))

unfoldable pub text_dec : Discrete String
unfolding dec_of
text_dec s t = dec_of s t (str_eq s t) refl

-- `s == t` on strings.
abbrev pub text_eq : String → String → Bool
text_eq s t = is_yes (text_dec s t)

-- `unicode.IsSpace`
unfoldable pub is_space : ℕ → Bool
is_space c =
    (leb 9 c && leb c 13)
    || c == 32
    || c == 0x85
    || c == 0xA0
    || c == 0x1680
    || (leb 0x2000 c && leb c 0x200A)
    || c == 0x2028
    || c == 0x2029
    || c == 0x202F
    || c == 0x205F
    || c == 0x3000

unfoldable pub trim_left : String → String
unfolding is_space
trim_left String.[] = ""
trim_left (String.◌∷◌ c s) = if is_space (code c) then trim_left s else String.◌∷◌ c s

unfoldable pub trim_right : String → String
unfolding is_space text_dec
trim_right String.[] = ""
trim_right (String.◌∷◌ c s) =
    let rest = trim_right s in
    if is_space (code c) && text_eq rest "" then "" else String.◌∷◌ c rest

unfoldable pub trim_space : String → String
unfolding trim_left trim_right
trim_space s = trim_right (trim_left s)

-- `strings.TrimSpace(s) == ""`
unfoldable pub is_blank : String → Bool
unfolding trim_space text_dec
is_blank s = text_eq (trim_space s) ""
