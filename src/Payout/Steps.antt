-- ===== src/Payout/Steps.antt =====
-- Each operation that ends a claim moves its row along the life of a payout.
use stablecoin_gateway.Prelude.{
  ℕ, String, ◌≡◌, refl, Bool, true, Option, arith, if◌then◌else◌, ◌⊎◌, ℤ, text_eq, trim_space,
  Outcome-cases, Option-cases, inl, inr,
}
use stablecoin_gateway.Tron.Types.{SignedTransaction}
use stablecoin_gateway.Payout.State.{
  Status, approved, has_status, ready_for_broadcast, confirming, Payout, Database,
}
use stablecoin_gateway.Payout.Signing.{
  SigningClaim, holds, holds_live, update_payouts, signed_row, released_row, complete_signing,
  release_signing,
}
use stablecoin_gateway.Payout.Execution.{
  BroadcastClaim, ConfirmationClaim, broadcasted_row, delayed_row, begin_confirmation,
  release_confirmation,
}
use stablecoin_gateway.Payout.Lifecycle.{
  stay, sign, broadcast, Follows, Kept, Kept-refl, update_payouts-Kept,
}

-- An operation that ends with an update has changed nothing, or has made the update.
abbrev Updates : (Payout → Bool) → (Payout → Payout) → Database → Database → Type 0
Updates p f db db' = (db' ≡ db) ⊎ (db' ≡ update_payouts p f db)

Updates-Kept :
    (p : Payout → Bool) (f : Payout → Payout) (db db' : Database)
    → ((x : Payout) → p x ≡ true → Follows x (f x))
    → Updates p f db db'
    → Kept db db'
Updates-Kept p f db db' step (inl e) = rw e (Kept-refl db)
Updates-Kept p f db db' step (inr e) = rw e (update_payouts-Kept p f db step)

holds-status :
    (status : Status) (id worker : String) (epoch : ℕ) (x : Payout)
    → holds status id worker epoch x ≡ true
    → has_status status x ≡ true
holds-status status id worker epoch x h = ground arith

has_status-approved : (x : Payout) → has_status approved x ≡ true → x.status ≡ approved
has_status-approved x h = ground arith

has_status-ready :
    (x : Payout) → has_status ready_for_broadcast x ≡ true → x.status ≡ ready_for_broadcast
has_status-ready x h = ground arith

pub has_status-confirming : (x : Payout) → has_status confirming x ≡ true → x.status ≡ confirming
has_status-confirming x h = ground arith

module _ (now : ℕ) (db : Database) where
  complete_signing-Updates :
      (parse_expiry : SignedTransaction → Option ℕ) (s : SigningClaim) (t : SignedTransaction)
      → (expires_at : ℕ) × Updates
          (holds_live now approved s.payout_id s.worker_id s.lease_epoch)
          (signed_row t expires_at now)
          db
          (complete_signing parse_expiry now s t db).1
  unfolding complete_signing
  complete_signing-Updates parse_expiry s t = elim (Option-cases (parse_expiry t)) [
    | inl missing ↦ (0, inl (ground arith))
    | inr (e, parsed) ↦ elim (Outcome-cases (complete_signing parse_expiry now s t db)) [
      | inl (u, db', h) ↦ (e, inr (ground arith))
      | inr (x, db', h) ↦ (e, inl (ground arith))
    ]
  ]

  release_signing-Updates :
      (s : SigningClaim) (code : String)
      → Updates
          (holds approved s.payout_id s.worker_id s.lease_epoch)
          (released_row (trim_space code) now)
          db
          (release_signing now s code db).1
  unfolding release_signing
  release_signing-Updates s code = elim (Outcome-cases (release_signing now s code db)) [
    | inl (u, db', h) ↦ inr (ground arith)
    | inr (x, db', h) ↦ inl (ground arith)
  ]

  begin_confirmation-Updates :
      (b : BroadcastClaim) (result code : String)
      → Updates
          (holds_live now ready_for_broadcast b.payout_id b.worker_id b.lease_epoch)
          (broadcasted_row result (if text_eq result "accepted" then "" else trim_space code) now)
          db
          (begin_confirmation now b result code db).1
  unfolding begin_confirmation
  begin_confirmation-Updates b result code =
      elim (Outcome-cases (begin_confirmation now b result code db)) [
        | inl (u, db', h) ↦ inr (ground arith)
        | inr (x, db', h) ↦ inl (ground arith)
      ]

  release_confirmation-Updates :
      (f : ConfirmationClaim) (delay : ℤ) (code : String)
      → Updates
          (holds confirming f.payout_id f.worker_id f.lease_epoch)
          (delayed_row now delay (trim_space code))
          db
          (release_confirmation now f delay code db).1
  unfolding release_confirmation
  release_confirmation-Updates f delay code =
      elim (Outcome-cases (release_confirmation now f delay code db)) [
        | inl (u, db', h) ↦ inr (ground arith)
        | inr (x, db', h) ↦ inl (ground arith)
      ]

  pub complete_signing-Kept :
      (parse_expiry : SignedTransaction → Option ℕ) (s : SigningClaim) (t : SignedTransaction)
      → Kept db (complete_signing parse_expiry now s t db).1
  complete_signing-Kept parse_expiry s t =
      let (e, done) = complete_signing-Updates parse_expiry s t in
      Updates-Kept _ _ db _
        (λ x h. record {
          move = rw (has_status-approved x (ground arith)) sign;
          id = refl;
          merchant = refl;
          asset = refl;
          destination = refl;
          amount = refl;
          epoch = omega arith;
          signed = λ n. absurd (n (has_status-approved x (ground arith)));
          settled = λ n. refl;
          released = λ n. refl;
        })
        done

  pub release_signing-Kept :
      (s : SigningClaim) (code : String) → Kept db (release_signing now s code db).1
  release_signing-Kept s code =
      Updates-Kept _ _ db _
        (λ x h. record {
          move = stay;
          id = refl;
          merchant = refl;
          asset = refl;
          destination = refl;
          amount = refl;
          epoch = omega arith;
          signed = λ n. refl;
          settled = λ n. refl;
          released = λ n. refl;
        })
        (release_signing-Updates s code)

  pub begin_confirmation-Kept :
      (b : BroadcastClaim) (result code : String)
      → Kept db (begin_confirmation now b result code db).1
  begin_confirmation-Kept b result code =
      Updates-Kept _ _ db _
        (λ x h. record {
          move = rw (has_status-ready x (ground arith)) broadcast;
          id = refl;
          merchant = refl;
          asset = refl;
          destination = refl;
          amount = refl;
          epoch = omega arith;
          signed = λ n. refl;
          settled = λ n. refl;
          released = λ n. refl;
        })
        (begin_confirmation-Updates b result code)

  pub release_confirmation-Kept :
      (f : ConfirmationClaim) (delay : ℤ) (code : String)
      → Kept db (release_confirmation now f delay code db).1
  release_confirmation-Kept f delay code =
      Updates-Kept _ _ db _
        (λ x h. record {
          move = stay;
          id = refl;
          merchant = refl;
          asset = refl;
          destination = refl;
          amount = refl;
          epoch = omega arith;
          signed = λ n. refl;
          settled = λ n. refl;
          released = λ n. refl;
        })
        (release_confirmation-Updates f delay code)
