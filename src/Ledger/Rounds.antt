-- ===== src/Ledger/Rounds.antt =====
-- One round of the loop over the entries: what it checks and what it adds.
use stablecoin_gateway.Prelude.{
  ℕ, ◌+◌, ◌≤◌, String, ◌≡◌, refl, inl, inr, [], ◌∷◌, arith, if◌then◌else◌, pos_part, max_int64,
  text_eq, trim_space, ok, Result-cases,
}
use stablecoin_gateway.Ledger.Transaction.{
  Side, Entry, Totals, AssetTotals, get, put, add_amount, add_entry,
}
use stablecoin_gateway.Ledger.Balance.{
  on_debit, on_credit, IsKnown, debits, credits, IsEntry, FitsInt64,
}

pub get-put :
    (a b : String) (t : Totals) (m : AssetTotals)
    → get b (put a t m) ≡ (if text_eq a b then t else get b m)
unfolding get put
get-put a b t [] = refl
get-put a b t ((k, u) ∷ m) = ground (arith, get-put a b t m)

pub get-put_self : (a : String) (t : Totals) (m : AssetTotals) → get a (put a t m) ≡ t
get-put_self a t m = ground (arith, get-put a a t m)

module _ (line : ℕ) (asset : String) (n : ℕ) (side : Side) (t : Totals) where
  pub add_amount-ok :
      (u : Totals)
      → add_amount line asset n side t ≡ ok u
      → IsKnown side
        × (u.debit ≡ t.debit + on_debit side n)
        × (u.credit ≡ t.credit + on_credit side n)
  unfolding add_amount
  add_amount-ok u h = ground arith

  pub add_amount-fits :
      (u : Totals)
      → n ≤ max_int64
      → add_amount line asset n side t ≡ ok u
      → t.debit ≤ max_int64
      → t.credit ≤ max_int64
      → (u.debit ≤ max_int64) × (u.credit ≤ max_int64)
  unfolding add_amount
  add_amount-fits u f h d c = ground arith

  pub add_amount_total :
      IsKnown side
      → t.debit + on_debit side n ≤ max_int64
      → t.credit + on_credit side n ≤ max_int64
      → (u : Totals) × (add_amount line asset n side t ≡ ok u)
  unfolding add_amount
  add_amount_total k d c = (
    record { debit = t.debit + on_debit side n; credit = t.credit + on_credit side n },
    ground arith,
  )

module _ (line : ℕ) (e : Entry) (m : AssetTotals) where
  abbrev pub asset : String
  asset = trim_space e.asset_id

  -- What a round that succeeds has checked, and the totals that it stores.
  pub add_entry-ok :
      (n : AssetTotals)
      → add_entry line e m ≡ ok n
      → (t : Totals) × (add_amount line asset (pos_part e.amount) e.side (get asset m) ≡ ok t)
        × (n ≡ put asset t m)
        × IsEntry e
  unfolding add_entry
  add_entry-ok n h =
      elim (Result-cases (add_amount line asset (pos_part e.amount) e.side (get asset m))) [
        | inl (t, added) ↦ (t, added, ground arith, added_entry t added)
        | inr (x, failed) ↦ absurd (ground arith)
      ]
    where
      added_entry :
          (t : Totals)
          → add_amount line asset (pos_part e.amount) e.side (get asset m) ≡ ok t
          → IsEntry e
      added_entry t added = record {
        account = ground arith;
        asset = ground arith;
        positive = ground arith;
        known = (add_amount-ok line asset (pos_part e.amount) e.side (get asset m) t added).0;
      }

  -- A sound entry is added if its asset's totals have room for it.
  pub add_entry_total :
      IsEntry e
      → (get asset m).debit + on_debit e.side (pos_part e.amount) ≤ max_int64
      → (get asset m).credit + on_credit e.side (pos_part e.amount) ≤ max_int64
      → (n : AssetTotals) × (add_entry line e m ≡ ok n)
  unfolding add_entry
  add_entry_total s d c =
      let (t, added) =
        add_amount_total line asset (pos_part e.amount) e.side (get asset m) s.known d c in
      (put asset t m, ground arith)

  pub add_entry-debit :
      (a : String) (n : AssetTotals)
      → add_entry line e m ≡ ok n
      → (get a n).debit ≡ (get a m).debit + debits a (e ∷ [])
  add_entry-debit a n h =
      let (t, added, stored, _) = add_entry-ok n h in
      let sums = add_amount-ok line asset (pos_part e.amount) e.side (get asset m) t added in
      rw (stored, get-put) (ground arith)

  pub add_entry-credit :
      (a : String) (n : AssetTotals)
      → add_entry line e m ≡ ok n
      → (get a n).credit ≡ (get a m).credit + credits a (e ∷ [])
  add_entry-credit a n h =
      let (t, added, stored, _) = add_entry-ok n h in
      let sums = add_amount-ok line asset (pos_part e.amount) e.side (get asset m) t added in
      rw (stored, get-put) (ground arith)

  pub add_entry-fits :
      FitsInt64 e
      → ((a : String) → ((get a m).debit ≤ max_int64) × ((get a m).credit ≤ max_int64))
      → (n : AssetTotals) → add_entry line e m ≡ ok n
      → (a : String) → ((get a n).debit ≤ max_int64) × ((get a n).credit ≤ max_int64)
  add_entry-fits f before n h a =
      let (t, added, stored, _) = add_entry-ok n h in
      let sums =
        add_amount-fits line asset (pos_part e.amount) e.side (get asset m) t f added
          (before asset).0 (before asset).1 in
      rw (stored, get-put) (ground (arith, before a))
