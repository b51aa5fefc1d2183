-- ===== src/Payout/Lifecycle.antt =====
-- The life of a payout: which states follow which, and what never changes.
use stablecoin_gateway.Prelude.{
  ℕ, ◌+◌, ◌≤◌, String, ◌≡◌, ◌≢◌, refl, Bool, true, arith, ◌==◌, ◌⊎◌, ℤ, trim_space, Outcome-cases,
  Option-cases, Bool-cases, inl, inr, All₂, All₂-refl, update_where-All₂, count_where,
}
use stablecoin_gateway.Payout.State.{
  Status, approved, ready_for_broadcast, confirming, succeeded, failed, rejected, Payout, Database,
  Error, first_by,
}
use stablecoin_gateway.Payout.Signing.{
  has_id, update_payouts, updated_at_key, is_signing_candidate, claim_signing_row, update_one,
  claim_signing,
}
use stablecoin_gateway.Payout.Execution.{
  is_broadcast_candidate, is_confirmation_candidate, next_confirmation_key, claim_broadcast_row,
  claim_confirmation_row, claim_broadcast, claim_confirmation,
}

infix 40 ◌⟶◌
pub data ◌⟶◌ : Status → Status → Type 0 where
  stay : {s : Status} → s ⟶ s
  sign : approved ⟶ ready_for_broadcast
  broadcast : ready_for_broadcast ⟶ confirming
  settle : confirming ⟶ succeeded
  give_up : confirming ⟶ failed

abbrev pub IsTerminal : Status → Type 0
IsTerminal succeeded = Unit
IsTerminal failed = Unit
IsTerminal rejected = Unit
IsTerminal _ = ⊥

-- What one operation may do to a row.
pub record Follows (p q : Payout) : Type 0 where
  pub move : p.status ⟶ q.status
  pub id : q.id ≡ p.id
  pub merchant : q.merchant_id ≡ p.merchant_id
  pub asset : q.asset_id ≡ p.asset_id
  pub destination : q.destination_address ≡ p.destination_address
  pub amount : q.amount ≡ p.amount
  pub epoch : p.lease_epoch ≤ q.lease_epoch
  pub signed : p.status ≢ approved → q.signed_transaction ≡ p.signed_transaction
  pub settled : IsTerminal p.status → q.settlement_transaction_id ≡ p.settlement_transaction_id
  pub released : IsTerminal p.status → q.unfreeze_transaction_id ≡ p.unfreeze_transaction_id

pub Follows-refl : (p : Payout) → Follows p p
Follows-refl p = record {
  move = stay;
  id = refl;
  merchant = refl;
  asset = refl;
  destination = refl;
  amount = refl;
  epoch = omega arith;
  signed = λ h. refl;
  settled = λ h. refl;
  released = λ h. refl;
}

abbrev pub Kept : Database → Database → Type 0
Kept db db' = All₂ Follows db.payouts db'.payouts

pub Kept-refl : (db : Database) → Kept db db
Kept-refl db = All₂-refl Follows Follows-refl db.payouts

pub update_payouts-Kept :
    (p : Payout → Bool) (f : Payout → Payout) (db : Database)
    → ((x : Payout) → p x ≡ true → Follows x (f x))
    → Kept db (update_payouts p f db)
update_payouts-Kept p f db step = update_where-All₂ Follows p f Follows-refl step db.payouts

pub update_one-Kept :
    (p : Payout → Bool) (f : Payout → Payout) (lost : Error) (db : Database)
    → ((x : Payout) → p x ≡ true → Follows x (f x))
    → Kept db (update_one p f lost db).1
unfolding update_one
update_one-Kept p f lost db step = elim (Bool-cases (count_where p db.payouts == 1)) [
  | inl one ↦ rw (one, update_one) (update_payouts-Kept p f db step)
  | inr other ↦ rw (other, update_one) (Kept-refl db)
]

-- Each claim leaves the database alone, or updates the rows of one identity.
module _ (locked : String → Bool) (now : ℕ) (worker : String) (duration : ℤ) (db : Database) where
  abbrev pub Writes : (Payout → Payout) → Database → Type 0
  Writes f db' = (db' ≡ db) ⊎ (p : Payout) × (db' ≡ update_payouts (has_id p.id) f db)

  pub Writes-Kept :
      (f : Payout → Payout) (db' : Database)
      → ((x : Payout) → Follows x (f x))
      → Writes f db'
      → Kept db db'
  Writes-Kept f db' step (inl e) = rw e (Kept-refl db)
  Writes-Kept f db' step (inr (p, e)) =
      rw e (update_payouts-Kept (has_id p.id) f db (λ x h. step x))

  claim_signing-Writes :
      Writes
        (claim_signing_row (trim_space worker) now duration)
        (claim_signing locked now worker duration db).1
  unfolding claim_signing
  claim_signing-Writes =
      elim (Option-cases
        (first_by updated_at_key (is_signing_candidate locked now db) db.payouts)) [
          | inl nothing ↦ inl (ground arith)
          | inr (p, found) ↦ elim (Outcome-cases (claim_signing locked now worker duration db)) [
            | inl (s, db', h) ↦ inr (p, ground arith)
            | inr (x, db', h) ↦ inl (ground arith)
          ]
        ]

  claim_broadcast-Writes :
      Writes
        (claim_broadcast_row (trim_space worker) now duration)
        (claim_broadcast locked now worker duration db).1
  unfolding claim_broadcast
  claim_broadcast-Writes =
      elim (Option-cases (first_by updated_at_key (is_broadcast_candidate locked now) db.payouts)) [
        | inl nothing ↦ inl (ground arith)
        | inr (p, found) ↦ elim (Outcome-cases (claim_broadcast locked now worker duration db)) [
          | inl (s, db', h) ↦ inr (p, ground arith)
          | inr (x, db', h) ↦ inl (ground arith)
        ]
      ]

  claim_confirmation-Writes :
      Writes
        (claim_confirmation_row (trim_space worker) now duration)
        (claim_confirmation locked now worker duration db).1
  unfolding claim_confirmation
  claim_confirmation-Writes =
      elim (Option-cases
        (first_by next_confirmation_key (is_confirmation_candidate locked now) db.payouts)) [
          | inl nothing ↦ inl (ground arith)
          | inr (p, found) ↦
              elim (Outcome-cases (claim_confirmation locked now worker duration db)) [
                | inl (s, db', h) ↦ inr (p, ground arith)
                | inr (x, db', h) ↦ inl (ground arith)
              ]
        ]

  claimed_Follows :
      (f : Payout → Payout)
      → ((x : Payout)
          → f x ≡ record x {
            lease = (f x).lease;
            lease_epoch = x.lease_epoch + 1;
            signing_attempts = (f x).signing_attempts;
            broadcast_attempts = (f x).broadcast_attempts;
            confirmation_attempts = (f x).confirmation_attempts;
            last_execution_error = (f x).last_execution_error;
            updated_at = (f x).updated_at;
          })
      → (x : Payout) → Follows x (f x)
  claimed_Follows f shape x = rw (shape x) (record {
    move = stay;
    id = refl;
    merchant = refl;
    asset = refl;
    destination = refl;
    amount = refl;
    epoch = omega arith;
    signed = λ h. refl;
    settled = λ h. refl;
    released = λ h. refl;
  })

  pub claim_signing-Kept : Kept db (claim_signing locked now worker duration db).1
  claim_signing-Kept = Writes-Kept _ _ (claimed_Follows _ (λ x. refl)) claim_signing-Writes

  pub claim_broadcast-Kept : Kept db (claim_broadcast locked now worker duration db).1
  claim_broadcast-Kept = Writes-Kept _ _ (claimed_Follows _ (λ x. refl)) claim_broadcast-Writes

  pub claim_confirmation-Kept : Kept db (claim_confirmation locked now worker duration db).1
  claim_confirmation-Kept =
      Writes-Kept _ _ (claimed_Follows _ (λ x. refl)) claim_confirmation-Writes
