-- ===== src/Payout/Leases.antt =====
-- What a claim of a payout does, in each of the three queues.
use stablecoin_gateway.Prelude.{
  ℕ, ◌+◌, String, ◌≡◌, refl, Bool, true, some, List, [], ◌∷◌, arith, ℤ, trim_space, ok,
  Option-cases, inl, inr, All,
}
use stablecoin_gateway.Payout.State.{
  Status, approved, ready_for_broadcast, confirming, Payout, Database, is_free, first_by,
}
use stablecoin_gateway.Payout.Signing.{
  SigningClaim, has_id, lease_of, update_payouts, updated_at_key, is_signing_candidate,
  claim_signing_row, claim_signing,
}
use stablecoin_gateway.Payout.Execution.{
  BroadcastClaim, ConfirmationClaim, claim_broadcast, claim_confirmation, is_broadcast_candidate,
  is_confirmation_candidate, claim_broadcast_row, claim_confirmation_row, next_confirmation_key,
}

All-trivial : (ps : List Payout) → All (λ q. Unit {0}) ps
All-trivial [] = tt
All-trivial (p ∷ ps) = (tt, All-trivial ps)

module _ (key : Payout → ℕ) (eligible : Payout → Bool) where
  -- The row that is taken is eligible, and so is a row of the table with any property of all rows.
  pub first_by-All :
      (P : Payout → Type 0) (ps : List Payout) (p : Payout)
      → All P ps
      → first_by key eligible ps ≡ some p
      → (eligible p ≡ true) × P p
  unfolding first_by
  first_by-All P [] p a h = cc
  first_by-All P (q ∷ ps) p a h = elim (Option-cases (first_by key eligible ps)) [
    | inl none_left ↦ ground (arith, a.0)
    | inr (r, found) ↦ ground (arith, a.0, first_by-All P ps r a.1 found)
  ]

-- What a successful claim has done: it took the first row, in the order of a key, of those that are
-- eligible, and updated the rows of its identity.
pub record IsClaimed (now : ℕ) (worker : String) (duration : ℤ) (status : Status) (id : String)
    (epoch : ℕ) (db db' : Database) : Type 0 where
  pub key : Payout → ℕ
  pub eligible : Payout → Bool
  pub update : Payout → Payout
  pub row : Payout
  pub chosen : first_by key eligible db.payouts ≡ some row
  pub was_free : is_free now row.lease ≡ true
  pub had_status : row.status ≡ status
  pub identity : row.id ≡ id
  pub next_epoch : epoch ≡ row.lease_epoch + 1
  pub same_id : (p : Payout) → (update p).id ≡ p.id
  pub leased : (p : Payout) → (update p).lease ≡ lease_of worker now duration
  pub updated : db' ≡ update_payouts (has_id id) update db

module _ (locked : String → Bool) (now : ℕ) (worker : String) (duration : ℤ)
    (db db' : Database) where
  pub claim_signing-IsClaimed :
      (s : SigningClaim)
      → claim_signing locked now worker duration db ≡ (ok s, db')
      → IsClaimed now (trim_space worker) duration approved s.payout_id s.lease_epoch db db'
  unfolding claim_signing
  claim_signing-IsClaimed s h =
      elim (Option-cases
        (first_by updated_at_key (is_signing_candidate locked now db) db.payouts)) [
          | inl nothing ↦ absurd (ground arith)
          | inr (p, found) ↦
              let (eligible, _) =
                first_by-All updated_at_key (is_signing_candidate locked now db) (λ q. Unit {0})
                  db.payouts p (All-trivial db.payouts) found in
              record {
                key = updated_at_key;
                eligible = is_signing_candidate locked now db;
                update = claim_signing_row (trim_space worker) now duration;
                row = p;
                chosen = found;
                was_free = ground arith;
                had_status = ground arith;
                identity = ground arith;
                next_epoch = ground arith;
                same_id = λ q. refl;
                leased = λ q. refl;
                updated = ground arith;
              }
        ]

  pub claim_broadcast-IsClaimed :
      (b : BroadcastClaim)
      → claim_broadcast locked now worker duration db ≡ (ok b, db')
      → IsClaimed now
          (trim_space worker)
          duration
          ready_for_broadcast
          b.payout_id
          b.lease_epoch
          db
          db'
  unfolding claim_broadcast
  claim_broadcast-IsClaimed b h =
      elim (Option-cases (first_by updated_at_key (is_broadcast_candidate locked now) db.payouts)) [
        | inl nothing ↦ absurd (ground arith)
        | inr (p, found) ↦
            let (eligible, _) =
              first_by-All updated_at_key (is_broadcast_candidate locked now) (λ q. Unit {0})
                db.payouts p (All-trivial db.payouts) found in
            record {
              key = updated_at_key;
              eligible = is_broadcast_candidate locked now;
              update = claim_broadcast_row (trim_space worker) now duration;
              row = p;
              chosen = found;
              was_free = ground arith;
              had_status = ground arith;
              identity = ground arith;
              next_epoch = ground arith;
              same_id = λ q. refl;
              leased = λ q. refl;
              updated = ground arith;
            }
      ]

  pub claim_confirmation-IsClaimed :
      (f : ConfirmationClaim)
      → claim_confirmation locked now worker duration db ≡ (ok f, db')
      → IsClaimed now (trim_space worker) duration confirming f.payout_id f.lease_epoch db db'
  unfolding claim_confirmation
  claim_confirmation-IsClaimed f h =
      elim (Option-cases
        (first_by next_confirmation_key (is_confirmation_candidate locked now) db.payouts)) [
          | inl nothing ↦ absurd (ground arith)
          | inr (p, found) ↦
              let (eligible, _) =
                first_by-All next_confirmation_key (is_confirmation_candidate locked now)
                  (λ q. Unit {0}) db.payouts p (All-trivial db.payouts) found in
              record {
                key = next_confirmation_key;
                eligible = is_confirmation_candidate locked now;
                update = claim_confirmation_row (trim_space worker) now duration;
                row = p;
                chosen = found;
                was_free = ground arith;
                had_status = ground arith;
                identity = ground arith;
                next_epoch = ground arith;
                same_id = λ q. refl;
                leased = λ q. refl;
                updated = ground arith;
              }
        ]
