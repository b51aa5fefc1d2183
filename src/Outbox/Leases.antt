-- ===== src/Outbox/Leases.antt =====
-- Which rows of `outbox_events` a claim takes, and how many.
use mathlib.Core.Path.{subst}
use stablecoin_gateway.Prelude.{
  ℕ, zero, suc, ◌+◌, ◌≤◌, String, ◌≡◌, refl, Bool, true, false, some, List, [], ◌∷◌, arith, ℤ, pos,
  negsuc, text_eq, text_dec, is_yes_holds, any, All, All₂, All₂-refl, update_where-All₂_of, ◌⊎◌,
  inl, inr, take, count_where, Bool-cases,
}
use stablecoin_gateway.Lease.{milliseconds}
use stablecoin_gateway.Outbox.Queue.{
  processing, EventRow, Events, goes_first, insert_row, sort_rows, keep, is_available, is_candidate,
  candidates, is_chosen, claim,
}

-- One row, before and after a claim.
abbrev pub Leased : (String → Bool) → ℕ → String → List String → ℤ → EventRow → EventRow → Type 0
Leased locked now worker topics duration x y =
    (y ≡ x)
    ⊎ (is_available now x ≡ true)
      × (any (text_eq x.topic) topics ≡ true)
      × (locked x.id ≡ false)
      × (y ≡ record x {
        status = processing;
        attempts = x.attempts + 1;
        lease_owner = some worker;
        lease_until = some (now + milliseconds duration);
        updated_at = now;
      })

data IsRow (x : EventRow) : Events → Type 0 where
  here : {xs : Events} → IsRow x (x ∷ xs)
  there : {y : EventRow} {xs : Events} → IsRow x xs → IsRow x (y ∷ xs)

-- The primary key of the table.
abbrev pub AreKeyed : Events → Type 0
AreKeyed xs = (id : String) → count_where (λ x. text_eq x.id id) xs ≤ 1

row_counts :
    (id : String) {x : EventRow} {xs : Events}
    → IsRow x xs
    → text_eq x.id id ≡ true
    → 1 ≤ count_where (λ x. text_eq x.id id) xs
row_counts id IsRow.here e = ground arith
row_counts id (IsRow.there h) e = ground (arith, row_counts id h e)

same_row :
    (id : String) {x y : EventRow} {xs : Events}
    → IsRow x xs
    → IsRow y xs
    → text_eq x.id id ≡ true
    → text_eq y.id id ≡ true
    → count_where (λ x. text_eq x.id id) xs ≤ 1
    → x ≡ y
same_row id IsRow.here IsRow.here e f one = refl
same_row id IsRow.here (IsRow.there k) e f one = absurd (ground (arith, row_counts id k f))
same_row id (IsRow.there h) IsRow.here e f one = absurd (ground (arith, row_counts id h e))
same_row id (IsRow.there h) (IsRow.there k) e f one = same_row id h k e f (ground arith)

All-IsRow : (P : EventRow → Type 0) (xs : Events) → ((x : EventRow) → IsRow x xs → P x) → All P xs
All-IsRow P [] h = tt
All-IsRow P (x ∷ xs) h = (h x IsRow.here, All-IsRow P xs (λ y r. h y (IsRow.there r)))

-- What holds of all rows holds of those kept, sorted and taken.
keep-All :
    (P : EventRow → Type 0) (p : EventRow → Bool) (xs : Events)
    → All (λ x. p x ≡ true → P x) xs
    → All P (keep p xs)
keep-All P p [] a = tt
keep-All P p (x ∷ xs) a = elim (Bool-cases (p x)) [
  | inl hit ↦ rw hit (a.0 hit, keep-All P p xs a.1)
  | inr miss ↦ rw miss (keep-All P p xs a.1)
]

insert_row-All :
    (P : EventRow → Type 0) (x : EventRow) (xs : Events) → P x → All P xs → All P (insert_row x xs)
unfolding insert_row
insert_row-All P x [] h a = (h, tt)
insert_row-All P x (y ∷ ys) h a = elim (Bool-cases (goes_first x y)) [
  | inl first ↦ rw (first, insert_row) (h, a)
  | inr later ↦ rw (later, insert_row) (a.0, insert_row-All P x ys h a.1)
]

sort_rows-All : (P : EventRow → Type 0) (xs : Events) → All P xs → All P (sort_rows xs)
unfolding sort_rows
sort_rows-All P [] a = tt
sort_rows-All P (x ∷ xs) a = insert_row-All P x (sort_rows xs) a.0 (sort_rows-All P xs a.1)

take-All : (P : EventRow → Type 0) (n : ℕ) (xs : Events) → All P xs → All P (take n xs)
take-All P zero xs a = tt
take-All P (suc n) [] a = tt
take-All P (suc n) (x ∷ xs) a = (a.0, take-All P n xs a.1)

chosen_of :
    (x : EventRow) (P : EventRow → Type 0) (chosen : Events)
    → All P chosen
    → is_chosen chosen x ≡ true
    → (c : EventRow) × P c × (text_eq x.id c.id ≡ true)
chosen_of x P [] a h = absurd (ground arith)
chosen_of x P (c ∷ cs) a h = elim (Bool-cases (text_eq x.id c.id)) [
  | inl same ↦ (c, a.0, same)
  | inr other ↦ chosen_of x P cs a.1 (ground arith)
]

module _ (locked : String → Bool) (now : ℕ) (topics : List String) (limit : ℕ) (xs : Events)
    (keyed : AreKeyed xs) where
  abbrev IsCandidateRow : EventRow → Type 0
  IsCandidateRow c = IsRow c xs × (is_candidate locked now topics c ≡ true)

  candidates-IsCandidateRow : All IsCandidateRow (candidates locked now topics limit xs)
  unfolding candidates
  candidates-IsCandidateRow = take-All IsCandidateRow limit _ (
      sort_rows-All IsCandidateRow _ (
        keep-All IsCandidateRow (is_candidate locked now topics) xs
          (All-IsRow _ xs (λ x r h. (r, h)))))

  -- On a keyed table the join meets the candidates themselves.
  chosen-is_candidate :
      (x : EventRow)
      → IsRow x xs
      → is_chosen (candidates locked now topics limit xs) x ≡ true
      → is_candidate locked now topics x ≡ true
  chosen-is_candidate x r h =
      let (c, (row, candidate), same) = chosen_of x IsCandidateRow _ candidates-IsCandidateRow h in
      let equal : c ≡ x =
        same_row c.id row r
          (subst (λ s. text_eq s c.id ≡ true) (is_yes_holds (text_dec x.id c.id) same) same) same
          (keyed c.id) in
      subst (λ z. is_candidate locked now topics z ≡ true) equal candidate

-- A claim changes no row of the table but by leasing one that was available to it: pending with
-- its time reached, or processing under a lease that had ended, of one of its topics and not locked
-- by another transaction. The row is then processing under the worker's own lease, and its attempts
-- are one more. Condition: no two rows share an identity.
pub claim-Leased :
    (locked : String → Bool) (now : ℕ) (worker : String) (topics : List String) (limit duration : ℤ)
    (xs : Events)
    → AreKeyed xs
    → All₂
        (Leased locked now worker topics duration)
        xs
        (claim locked now worker topics limit duration xs).1
unfolding claim
claim-Leased locked now worker topics (negsuc n) duration xs keyed =
    All₂-refl (Leased locked now worker topics duration) (λ x. inl refl) xs
claim-Leased locked now worker topics (pos limit) duration xs keyed =
    update_where-All₂_of (Leased locked now worker topics duration) _ _ (λ x. inl refl) xs
      (All-IsRow _ xs (λ x r h.
        let c = chosen-is_candidate locked now topics limit xs keyed x r h in
        inr (ground arith, ground arith, ground arith, refl)))
