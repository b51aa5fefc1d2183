-- ===== src/Payout/Once.antt =====
-- A payout reaches its terminal state once.
use stablecoin_gateway.Prelude.{
  ℕ, ◌≤◌, String, ◌≡◌, refl, Bool, true, false, some, List, [], ◌∷◌, arith, ok, err, Bool-cases,
  inl, inr, count_where, update_where, find, find-none,
}
use stablecoin_gateway.Payout.State.{confirming, Payout, Database, execution_lease_lost}
use stablecoin_gateway.Payout.Signing.{has_id, holds_live}
use stablecoin_gateway.Payout.Execution.{ConfirmationClaim}
use stablecoin_gateway.Payout.Finalization.{
  Environment, is_fenced, final_row, finalize_in_transaction, finalize_confirmation,
}
use stablecoin_gateway.Payout.Fencing.{IsRefused}
use stablecoin_gateway.Payout.Settlement.{settled_is, finalize_confirmation-Finalizes}
use stablecoin_gateway.Payout.Terminal.{IsUniqueId, find_counts}

module _ (id worker worker' journal_id reason : String) (epoch epoch' now now' : ℕ)
    (success : Bool) where
  abbrev finish : List Payout → List Payout
  finish ps = update_where (is_fenced id worker epoch) (final_row success journal_id reason now) ps

  abbrev left : List Payout → ℕ
  left ps = count_where (holds_live now' confirming id worker' epoch') (finish ps)

  absent-left : (ps : List Payout) → count_where (has_id id) ps ≡ 0 → left ps ≡ 0
  absent-left [] h = refl
  absent-left (p ∷ ps) h = ground (arith, absent-left ps)

  final_row-not_held :
      (p : Payout)
      → holds_live now' confirming id worker' epoch' (final_row success journal_id reason now p)
        ≡ false
  final_row-not_held p = elim (Bool-cases success) [
    | inl e ↦ rw e (ground arith)
    | inr e ↦ rw e (ground arith)
  ]

  finish-left :
      (ps : List Payout) (r : Payout)
      → count_where (has_id id) ps ≤ 1
      → find (holds_live now confirming id worker epoch) ps ≡ some r
      → left ps ≡ 0
  finish-left [] r u h = refl
  finish-left (p ∷ ps) r u h = elim (Bool-cases (holds_live now confirming id worker epoch p)) [
    | inl here ↦
        let rest : left ps ≡ 0 = absent-left ps (ground arith) in
        let done = final_row-not_held p in
        let fenced : is_fenced id worker epoch p ≡ true = ground arith in
        ground (arith, fenced, done, rest)
    | inr further ↦
        let found : find (holds_live now confirming id worker epoch) ps ≡ some r = ground arith in
        let more = find_counts id worker epoch now ps r found in
        let rest = finish-left ps r (ground arith) found in
        let apart : has_id id p ≡ false = ground (arith, more) in ground (arith, apart, rest)
  ]

finalize_in_transaction_lost :
    (env : Environment) (now : ℕ) (f : ConfirmationClaim) (success : Bool) (reason : String)
    (db : Database)
    → count_where (holds_live now confirming f.payout_id f.worker_id f.lease_epoch) db.payouts ≡ 0
    → finalize_in_transaction env now f success reason db ≡ (err execution_lease_lost, db)
unfolding finalize_in_transaction
finalize_in_transaction_lost env now f success reason db h =
    rw (find-none (holds_live now confirming f.payout_id f.worker_id f.lease_epoch) db.payouts h)
      refl

finalize_confirmation_lost :
    (env : Environment) (now : ℕ) (f : ConfirmationClaim) (success : Bool) (reason : String)
    (db : Database)
    → count_where (holds_live now confirming f.payout_id f.worker_id f.lease_epoch) db.payouts ≡ 0
    → IsRefused (finalize_confirmation env now f success reason db) db
unfolding finalize_confirmation
finalize_confirmation_lost env now f success reason db h =
    ground (arith, finalize_in_transaction_lost env now f success reason db h)

-- After a call of `finalizeConfirmation` that ended well, every further one for the same payout is
-- refused and changes nothing: by any worker, at any epoch and time, to either state. Condition:
-- no two rows share an identity.
pub finalize_confirmation_once :
    (env env' : Environment) (now now' : ℕ) (f f' : ConfirmationClaim) (success success' : Bool)
    (reason reason' : String) (db : Database)
    → IsUniqueId db.payouts
    → (finalize_confirmation env now f success reason db).0 ≡ ok tt
    → f'.payout_id ≡ f.payout_id
    → IsRefused
        (finalize_confirmation env' now' f' success' reason'
          (finalize_confirmation env now f success reason db).1)
        (finalize_confirmation env now f success reason db).1
finalize_confirmation_once env env' now now' f f' success success' reason reason' db u done same =
    let r = (finalize_confirmation-Finalizes env now f success reason db).1 done in
    let none_left =
      finish-left f.payout_id f.worker_id f'.worker_id r.writes.result.transaction_id reason
        f.lease_epoch f'.lease_epoch now now' success db.payouts r.row (u f.payout_id) r.found in
    finalize_confirmation_lost env' now' f' success' reason'
      (finalize_confirmation env now f success reason db).1
      (rw
        (same, r.writes.updated, settled_is env now f success reason r.writes.result.transaction_id)
        none_left)
