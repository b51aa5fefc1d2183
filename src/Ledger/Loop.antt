-- ===== src/Ledger/Loop.antt =====
-- The loops over the entries and over the map of totals.
use stablecoin_gateway.Prelude.{
  ℕ, suc, ◌+◌, ◌≤◌, String, ◌≡◌, refl, inl, inr, Bool, true, false, none, List, [], ◌∷◌, arith,
  if◌then◌else◌, max_int64, text_eq, trim_space, ok, Result-cases, All,
}
use stablecoin_gateway.Ledger.Transaction.{
  Entry, Totals, AssetTotals, get, put, add_entry, add_entries, check_balanced,
}
use stablecoin_gateway.Ledger.Balance.{debits, credits, IsEntry, FitsInt64}
use stablecoin_gateway.Ledger.Rounds.{
  add_entry-ok, add_entry_total, add_entry-debit, add_entry-credit, add_entry-fits,
}

-- What the loop over the entries has checked and added when it succeeds.
pub record Accumulates (es : List Entry) (m n : AssetTotals) : Type 0 where
  pub sound : All IsEntry es
  pub debit : (a : String) → (get a n).debit ≡ (get a m).debit + debits a es
  pub credit : (a : String) → (get a n).credit ≡ (get a m).credit + credits a es

pub add_entries-Accumulates :
    (line : ℕ) (es : List Entry) (m n : AssetTotals)
    → add_entries line es m ≡ ok n
    → Accumulates es m n
unfolding add_entries
add_entries-Accumulates line [] m n h = record {
  sound = tt;
  debit = λ a. ground arith;
  credit = λ a. ground arith;
}
add_entries-Accumulates line (e ∷ es) m n h = elim (Result-cases (add_entry line e m)) [
  | inl (m', first) ↦
      let rest : Accumulates es m' n =
        add_entries-Accumulates (suc line) es m' n (rw (first, add_entries) at h) in
      record {
        sound = ((add_entry-ok line e m m' first).3, rest.sound);
        debit = λ a. omega (arith, rest.debit a, add_entry-debit line e m a m' first);
        credit = λ a. omega (arith, rest.credit a, add_entry-credit line e m a m' first);
      }
  | inr (x, failed) ↦ absurd (ground arith)
]

pub add_entries-fits :
    (line : ℕ) (es : List Entry) (m n : AssetTotals)
    → All FitsInt64 es
    → ((a : String) → ((get a m).debit ≤ max_int64) × ((get a m).credit ≤ max_int64))
    → add_entries line es m ≡ ok n
    → (a : String) → ((get a n).debit ≤ max_int64) × ((get a n).credit ≤ max_int64)
unfolding add_entries
add_entries-fits line [] m n f before h a = ground (arith, before a)
add_entries-fits line (e ∷ es) m n f before h a = elim (Result-cases (add_entry line e m)) [
  | inl (m', first) ↦
      add_entries-fits (suc line) es m' n f.1 (add_entry-fits line e m f.0 before m' first)
        (rw (first, add_entries) at h) a
  | inr (x, failed) ↦ absurd (ground arith)
]

-- Sound entries whose sums have room are all added.
pub add_entries_total :
    (line : ℕ) (es : List Entry) (m : AssetTotals)
    → All IsEntry es
    → ((a : String) → (get a m).debit + debits a es ≤ max_int64)
    → ((a : String) → (get a m).credit + credits a es ≤ max_int64)
    → (n : AssetTotals) × (add_entries line es m ≡ ok n)
unfolding add_entries
add_entries_total line [] m s d c = (m, refl)
add_entries_total line (e ∷ es) m s d c =
    let a : String = trim_space e.asset_id in
    let (m', first) = add_entry_total line e m s.0 (ground (arith, d a)) (ground (arith, c a)) in
    let (n, rest) =
      add_entries_total (suc line) es m' s.1
        (λ b. omega (arith, d b, add_entry-debit line e m b m' first))
        (λ b. omega (arith, c b, add_entry-credit line e m b m' first)) in
    (n, rw (first, add_entries) rest)

-- The keys of the map are distinct: `put` keeps them so.
abbrev pub contains : String → AssetTotals → Bool
contains a [] = false
contains a ((k, t) ∷ m) = if text_eq k a then true else contains a m

abbrev pub IsDistinct : AssetTotals → Type 0
IsDistinct [] = Unit
IsDistinct ((k, t) ∷ m) = (contains k m ≡ false) × IsDistinct m

pub contains-put :
    (a b : String) (t : Totals) (m : AssetTotals)
    → contains b (put a t m) ≡ (if text_eq a b then true else contains b m)
unfolding put
contains-put a b t [] = refl
contains-put a b t ((k, u) ∷ m) = ground (arith, contains-put a b t m)

pub put-IsDistinct :
    (a : String) (t : Totals) (m : AssetTotals) → IsDistinct m → IsDistinct (put a t m)
unfolding put
put-IsDistinct a t [] d = (refl, tt)
put-IsDistinct a t ((k, u) ∷ m) d = ground (arith, contains-put a k t m, put-IsDistinct a t m d.1)

pub add_entries-IsDistinct :
    (line : ℕ) (es : List Entry) (m n : AssetTotals)
    → IsDistinct m
    → add_entries line es m ≡ ok n
    → IsDistinct n
unfolding add_entries
add_entries-IsDistinct line [] m n d h = ground arith
add_entries-IsDistinct line (e ∷ es) m n d h = elim (Result-cases (add_entry line e m)) [
  | inl (m', first) ↦
      let (t, _, stored, _) = add_entry-ok line e m m' first in
      add_entries-IsDistinct (suc line) es m' n
        (rw stored (put-IsDistinct (trim_space e.asset_id) t m d)) (rw (first, add_entries) at h)
  | inr (x, failed) ↦ absurd (ground arith)
]

pub get-absent :
    (a : String) (m : AssetTotals) → contains a m ≡ false → (get a m).debit ≡ (get a m).credit
unfolding get
get-absent a [] h = refl
get-absent a ((k, t) ∷ m) h = ground (arith, get-absent a m)

pub check_balanced-equal :
    (m : AssetTotals) → check_balanced m ≡ none → (a : String) → (get a m).debit ≡ (get a m).credit
unfolding check_balanced get
check_balanced-equal [] h a = refl
check_balanced-equal ((k, t) ∷ m) h a = ground (arith, check_balanced-equal m (ground arith) a)

pub equal-check_balanced :
    (m : AssetTotals)
    → IsDistinct m
    → ((a : String) → (get a m).debit ≡ (get a m).credit)
    → check_balanced m ≡ none
unfolding check_balanced get
equal-check_balanced [] d h = refl
equal-check_balanced ((k, t) ∷ m) d h =
    let rest = equal-check_balanced m d.1 (λ a. ground (arith, h a, get-absent a m)) in
    ground (arith, h k, rest)
