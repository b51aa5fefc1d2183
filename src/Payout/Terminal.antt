-- ===== src/Payout/Terminal.antt =====
-- The end of a confirmation, as a step in the life of the payout.
use stablecoin_gateway.Prelude.{
  ℕ, ◌<◌, ◌≤◌, String, ◌≡◌, refl, Bool, true, false, some, List, [], ◌∷◌, arith, Result-cases,
  Bool-cases, inl, inr, All, update_where-All₂_of, count_where, find,
}
use stablecoin_gateway.Payout.State.{confirming, Payout, Database}
use stablecoin_gateway.Payout.Signing.{has_id, holds_live}
use stablecoin_gateway.Payout.Execution.{ConfirmationClaim}
use stablecoin_gateway.Payout.Finalization.{
  Environment, is_fenced, final_row, finalize_confirmation,
}
use stablecoin_gateway.Payout.Lifecycle.{settle, give_up, Follows, Follows-refl, Kept, Kept-refl}
use stablecoin_gateway.Payout.Steps.{has_status-confirming}
use stablecoin_gateway.Payout.Settlement.{Finalizes, settled_is, finalize_confirmation-Finalizes}

-- The primary key of `payouts`.
abbrev pub IsUniqueId : List Payout → Type 0
IsUniqueId ps = (id : String) → count_where (has_id id) ps ≤ 1

none_with_id :
    (id : String) (ps : List Payout)
    → count_where (has_id id) ps ≡ 0
    → All (λ x. has_id id x ≡ true → x.status ≡ confirming) ps
none_with_id id [] h = tt
none_with_id id (p ∷ ps) h = (λ e. absurd (ground arith), none_with_id id ps (ground arith))

pub find_counts :
    (id worker : String) (epoch now : ℕ) (ps : List Payout) (r : Payout)
    → find (holds_live now confirming id worker epoch) ps ≡ some r
    → 0 < count_where (has_id id) ps
find_counts id worker epoch now [] r h = cc
find_counts id worker epoch now (p ∷ ps) r h = ground (arith, find_counts id worker epoch now ps r)

-- In a table with one row for each identity, the row that was found is the only one of its identity.
only_row :
    (id worker : String) (epoch now : ℕ) (ps : List Payout) (r : Payout)
    → count_where (has_id id) ps ≤ 1
    → find (holds_live now confirming id worker epoch) ps ≡ some r
    → All (λ x. has_id id x ≡ true → x.status ≡ confirming) ps
only_row id worker epoch now [] r u h = tt
only_row id worker epoch now (p ∷ ps) r u h =
    elim (Bool-cases (holds_live now confirming id worker epoch p)) [
      | inl here ↦ (λ e. has_status-confirming p (ground arith), none_with_id id ps (ground arith))
      | inr further ↦
          let rest : find (holds_live now confirming id worker epoch) ps ≡ some r = ground arith in
          let some_left = find_counts id worker epoch now ps r rest in
          (λ e. absurd (ground arith), only_row id worker epoch now ps r (ground arith) rest)
    ]

final_row-Follows :
    (success : Bool) (journal_id reason : String) (now : ℕ) (x : Payout)
    → x.status ≡ confirming
    → Follows x (final_row success journal_id reason now x)
final_row-Follows true journal_id reason now x e = record {
  move = rw e settle;
  id = refl;
  merchant = refl;
  asset = refl;
  destination = refl;
  amount = refl;
  epoch = omega arith;
  signed = λ h. refl;
  settled = λ h. absurd (rw e at h);
  released = λ h. refl;
}
final_row-Follows false journal_id reason now x e = record {
  move = rw e give_up;
  id = refl;
  merchant = refl;
  asset = refl;
  destination = refl;
  amount = refl;
  epoch = omega arith;
  signed = λ h. refl;
  settled = λ h. refl;
  released = λ h. absurd (rw e at h);
}

fenced_All :
    (id worker : String) (epoch : ℕ) (f : Payout → Payout) (ps : List Payout)
    → ((x : Payout) → x.status ≡ confirming → Follows x (f x))
    → All (λ x. has_id id x ≡ true → x.status ≡ confirming) ps
    → All (λ x. is_fenced id worker epoch x ≡ true → Follows x (f x)) ps
fenced_All id worker epoch f [] step a = tt
fenced_All id worker epoch f (p ∷ ps) step a =
    (λ e. step p (a.0 (ground arith)), fenced_All id worker epoch f ps step a.1)

pub finalize_confirmation-Kept :
    (env : Environment) (now : ℕ) (f : ConfirmationClaim) (success : Bool) (reason : String)
    (db : Database)
    → IsUniqueId db.payouts
    → Kept db (finalize_confirmation env now f success reason db).1
finalize_confirmation-Kept env now f success reason db unique =
    let spec = finalize_confirmation-Finalizes env now f success reason db in
    elim (Result-cases (finalize_confirmation env now f success reason db).0) [
      | inl (u, done) ↦
          let r : Finalizes env now f success reason db
              (finalize_confirmation env now f success reason db).1 =
            spec.1 done in
          let only =
            only_row f.payout_id f.worker_id f.lease_epoch now db.payouts r.row (unique f.payout_id)
              r.found in
          let step =
            fenced_All f.payout_id f.worker_id f.lease_epoch
              (final_row success r.writes.result.transaction_id reason now) db.payouts
              (final_row-Follows success r.writes.result.transaction_id reason now) only in
          rw (r.writes.updated, settled_is env now f success reason r.writes.result.transaction_id)
            (update_where-All₂_of Follows (is_fenced f.payout_id f.worker_id f.lease_epoch)
              (final_row success r.writes.result.transaction_id reason now) Follows-refl db.payouts
              step)
      | inr (x, refused) ↦ rw (spec.0 x refused) (Kept-refl db)
    ]
