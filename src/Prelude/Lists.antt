-- ===== src/Prelude/Lists.antt =====
-- Lists as tables: rows that pass a test, an update of those rows, and how many it meets.
use Prim.Native.Nat.{ℕ, zero, suc, ◌≤◌}
use mathlib.Core.Path.{◌≡◌, refl, sym}
use mathlib.Core.Bool.{Bool, true, false, ◌||◌}
use mathlib.Core.Option.{Option, none, some}
use mathlib.Core.List.{List, [], ◌∷◌, ◌++◌}
use native.Mathlib.Omega.{arith}
use mathlib.Core.Logic.{inl, inr}
use stablecoin_gateway.Prelude.Tests.{if◌then◌else◌, Bool-cases}

abbrev pub All {ℓ κ} : {A : Type ℓ} → (A → Type κ) → List A → Type κ
All P [] = Unit
All P (x ∷ xs) = P x × All P xs

-- Two lists of one length, related row by row.
pub data All₂ {ℓ κ} {A : Type ℓ} (R : A → A → Type κ) : List A → List A → Type (ℓ ⊔ κ) where
  nil : All₂ R [] []
  cons : {x y : A} {xs ys : List A} → R x y → All₂ R xs ys → All₂ R (x ∷ xs) (y ∷ ys)

module _ {ℓ} {A : Type ℓ} where
  abbrev pub length : List A → ℕ
  length [] = 0
  length (x ∷ xs) = suc (length xs)

  abbrev pub get_elem? : List A → ℕ → Option A
  get_elem? [] i = none
  get_elem? (x ∷ xs) zero = some x
  get_elem? (x ∷ xs) (suc i) = get_elem? xs i

  abbrev pub take : ℕ → List A → List A
  take zero xs = []
  take (suc n) [] = []
  take (suc n) (x ∷ xs) = x ∷ take n xs

  -- The first row that passes the test.
  abbrev pub find : (A → Bool) → List A → Option A
  find p [] = none
  find p (x ∷ xs) = if p x then some x else find p xs

  abbrev pub any : (A → Bool) → List A → Bool
  any p [] = false
  any p (x ∷ xs) = p x || any p xs

  -- `UPDATE … SET f WHERE p`
  abbrev pub update_where : (A → Bool) → (A → A) → List A → List A
  update_where p f [] = []
  update_where p f (x ∷ xs) = (if p x then f x else x) ∷ update_where p f xs

  -- `RowsAffected()`
  abbrev pub count_where : (A → Bool) → List A → ℕ
  count_where p [] = 0
  count_where p (x ∷ xs) = let rest = count_where p xs in if p x then suc rest else rest

  pub All₂-refl {κ} : (R : A → A → Type κ) → ((x : A) → R x x) → (xs : List A) → All₂ R xs xs
  All₂-refl R r [] = All₂.nil
  All₂-refl R r (x ∷ xs) = All₂.cons (r x) (All₂-refl R r xs)

  -- Every row is kept, or passes the test and is updated.
  pub update_where-All₂ {κ} :
      (R : A → A → Type κ) (p : A → Bool) (f : A → A)
      → ((x : A) → R x x)
      → ((x : A) → p x ≡ true → R x (f x))
      → (xs : List A) → All₂ R xs (update_where p f xs)
  update_where-All₂ R p f keep step [] = All₂.nil
  update_where-All₂ R p f keep step (x ∷ xs) =
      All₂.cons (row (p x) refl) (update_where-All₂ R p f keep step xs)
    where
      row : (b : Bool) → p x ≡ b → R x (if b then f x else x)
      row true e = step x e
      row false e = keep x

  pub update_where_none :
      (p : A → Bool) (f : A → A) (xs : List A) → count_where p xs ≡ 0 → update_where p f xs ≡ xs
  update_where_none p f [] h = refl
  update_where_none p f (x ∷ xs) h = ground (arith, update_where_none p f xs)

  pub find_passes : (p : A → Bool) (xs : List A) (x : A) → find p xs ≡ some x → p x ≡ true
  find_passes p [] x h = cc
  find_passes p (y ∷ xs) x h = ground (arith, find_passes p xs x)

  pub All-append {κ} : (P : A → Type κ) (xs ys : List A) → All P xs → All P ys → All P (xs ++ ys)
  All-append P [] ys hx hy = hy
  All-append P (x ∷ xs) ys hx hy = (hx.0, All-append P xs ys hx.1 hy)

  pub find-All {κ} :
      (P : A → Type κ) (p : A → Bool) (xs : List A) (x : A) → All P xs → find p xs ≡ some x → P x
  find-All P p [] x a h = cc
  find-All P p (y ∷ xs) x a h = ground (arith, find-All P p xs x a.1)

  pub find-none : (p : A → Bool) (xs : List A) → count_where p xs ≡ 0 → find p xs ≡ none
  find-none p [] h = refl
  find-none p (x ∷ xs) h = ground (arith, find-none p xs)

  -- The same, where the step is known of the rows of the table alone.
  pub update_where-All₂_of {κ} :
      (R : A → A → Type κ) (p : A → Bool) (f : A → A)
      → ((x : A) → R x x)
      → (xs : List A) → All (λ x. p x ≡ true → R x (f x)) xs
      → All₂ R xs (update_where p f xs)
  update_where-All₂_of R p f keep [] a = All₂.nil
  update_where-All₂_of R p f keep (x ∷ xs) a =
      All₂.cons (row (p x) refl) (update_where-All₂_of R p f keep xs a.1)
    where
      row : (b : Bool) → p x ≡ b → R x (if b then f x else x)
      row true e = a.0 e
      row false e = keep x

  -- What an update makes of each row.
  pub update_where_rows :
      (q : A → Bool) (f : A → A) (xs : List A)
      → All₂ (λ x y. y ≡ (if q x then f x else x)) xs (update_where q f xs)
  update_where_rows q f [] = All₂.nil
  update_where_rows q f (x ∷ xs) = All₂.cons refl (update_where_rows q f xs)

  -- A test that related rows pass alike finds related rows, and as many.
  pub All₂-find {κ} :
      (R : A → A → Type κ) (p : A → Bool)
      → ((x y : A) → R x y → p y ≡ p x)
      → (xs ys : List A) (x : A) → All₂ R xs ys
      → find p xs ≡ some x
      → (y : A) × (find p ys ≡ some y) × R x y
  All₂-find R p same _ _ x All₂.nil h = cc
  All₂-find R p same (a ∷ as') (b ∷ bs) x (All₂.cons r rs) h = elim (Bool-cases (p a)) [
    | inl e ↦
        let here : x ≡ a = ground (arith, h, e) in
        let found : find p (b ∷ bs) ≡ some b = ground (arith, same a b r, e) in
        (b, found, rw here r)
    | inr e ↦
        let (y, found, ry) = All₂-find R p same as' bs x rs (ground (arith, h, e)) in
        let here : find p (b ∷ bs) ≡ some y = ground (arith, same a b r, e, found) in (y, here, ry)
  ]

  pub All₂-count_where {κ} :
      (R : A → A → Type κ) (p : A → Bool)
      → ((x y : A) → R x y → p y ≡ p x)
      → (xs ys : List A) → All₂ R xs ys
      → count_where p ys ≡ count_where p xs
  All₂-count_where R p same _ _ All₂.nil = refl
  All₂-count_where R p same (a ∷ as') (b ∷ bs) (All₂.cons r rs) =
      ground (arith, same a b r, All₂-count_where R p same as' bs rs)

  pub count_where-none :
      (p q : A → Bool)
      → ((x : A) → q x ≡ true → p x ≡ true)
      → (xs : List A) → count_where p xs ≡ 0
      → count_where q xs ≡ 0
  count_where-none p q stronger [] h = refl
  count_where-none p q stronger (x ∷ xs) h =
      ground (arith, stronger x, count_where-none p q stronger xs)

  -- Where one row passes a test, and one passes a stronger test, it is the row that is found.
  pub count_where-find :
      (p q : A → Bool)
      → ((x : A) → q x ≡ true → p x ≡ true)
      → (xs : List A) (x : A) → count_where p xs ≤ 1
      → 1 ≤ count_where q xs
      → find p xs ≡ some x
      → q x ≡ true
  count_where-find p q stronger [] x one some_row h = cc
  count_where-find p q stronger (y ∷ ys) x one some_row h =
      ground
        (arith, stronger y, count_where-none p q stronger ys, count_where-find p q stronger ys x)

  -- Where at most one row passes a test, the row found by a stronger test is found by it.
  pub find_unique :
      (p q : A → Bool)
      → ((x : A) → q x ≡ true → p x ≡ true)
      → (xs : List A) (x : A) → count_where p xs ≤ 1
      → find q xs ≡ some x
      → find p xs ≡ some x
  find_unique p q stronger [] x one found = cc
  find_unique p q stronger (y ∷ ys) x one found = ground (
    arith,
    stronger y,
    count_where-none p q stronger ys,
    find-none q ys,
    find_unique p q stronger ys x,
  )

pub update_where-All :
    {A : Type 0} (P : A → Type 0) (p : A → Bool) (f : A → A) (xs : List A)
    → ((x : A) → p x ≡ true → P x → P (f x))
    → All P xs
    → All P (update_where p f xs)
update_where-All P p f [] step a = tt
update_where-All P p f (x ∷ xs) step (a, as') = elim (Bool-cases (p x)) [
  | inl hit ↦ rw hit (step x hit a, update_where-All P p f xs step as')
  | inr miss ↦ rw miss (a, update_where-All P p f xs step as')
]

pub All-map :
    {A : Type 0} (P Q : A → Type 0) (xs : List A) → ((x : A) → P x → Q x) → All P xs → All Q xs
All-map P Q [] step a = tt
All-map P Q (x ∷ xs) step (a, as') = (step x a, All-map P Q xs step as')

pub All-find :
    {A : Type 0} (P : A → Type 0) (p : A → Bool) (xs : List A) (x : A)
    → All P xs
    → find p xs ≡ some x
    → P x
All-find P p [] x a found = absurd (ground arith)
All-find P p (y ∷ ys) x (a, as') found = elim (Bool-cases (p y)) [
  | inl hit ↦ let same : y ≡ x = ground arith in rw (sym same) a
  | inr miss ↦ All-find P p ys x as' (ground arith)
]

pub find-any :
    {A : Type 0} (p q : A → Bool) (xs : List A) (x : A)
    → find p xs ≡ some x
    → q x ≡ true
    → any q xs ≡ true
find-any p q [] x found e = cc
find-any p q (y ∷ ys) x found e = ground (arith, find-any p q ys x)
