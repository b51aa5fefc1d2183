-- ===== src/Payout/Fencing.antt =====
-- Leases: who may take a payout, and what a claim that has been overtaken can still do.
use stablecoin_gateway.Prelude.{
  ℕ, String, ◌≡◌, ◌≢◌, refl, Bool, true, Option, none, List, [], ◌∷◌, arith, ℤ, Result, ok, err,
  All, count_where, find, find-none,
}
use stablecoin_gateway.Tron.Types.{SignedTransaction}
use stablecoin_gateway.Payout.State.{
  Status, approved, ready_for_broadcast, confirming, Payout, Database, Error, execution_lease_lost,
}
use stablecoin_gateway.Payout.Signing.{
  SigningClaim, has_id, holds, holds_live, update_one, complete_signing, release_signing,
}
use stablecoin_gateway.Payout.Execution.{
  BroadcastClaim, ConfirmationClaim, begin_confirmation, release_confirmation,
}
use stablecoin_gateway.Payout.Finalization.{
  Environment, finalize_in_transaction, finalize_confirmation,
}

-- No row of the identity is at the epoch of the claim: another worker has claimed it since.
abbrev pub IsOvertaken : String → ℕ → List Payout → Type 0
IsOvertaken id epoch ps = All (λ p. has_id id p ≡ true → p.lease_epoch ≢ epoch) ps

module _ (status : Status) (id worker : String) (epoch : ℕ) where
  holds-none :
      (ps : List Payout)
      → IsOvertaken id epoch ps
      → count_where (holds status id worker epoch) ps ≡ 0
  holds-none [] o = refl
  holds-none (p ∷ ps) o = ground (arith, holds-none ps o.1, o.0)

  holds_live-none :
      (now : ℕ) (ps : List Payout)
      → IsOvertaken id epoch ps
      → count_where (holds_live now status id worker epoch) ps ≡ 0
  holds_live-none now [] o = refl
  holds_live-none now (p ∷ ps) o = ground (arith, holds_live-none now ps o.1, o.0)

  find-holds_live :
      (now : ℕ) (ps : List Payout)
      → IsOvertaken id epoch ps
      → find (holds_live now status id worker epoch) ps ≡ none
  find-holds_live now ps o =
      find-none (holds_live now status id worker epoch) ps (holds_live-none now ps o)

-- An action that fails and changes nothing.
abbrev pub IsRefused : {A : Type 0} → Result Error A × Database → Database → Type 0
IsRefused (ok a, db') db = ⊥
IsRefused (err e, db') db = db' ≡ db

update_one_refused :
    (p : Payout → Bool) (f : Payout → Payout) (lost : Error) (db : Database)
    → count_where p db.payouts ≡ 0
    → update_one p f lost db ≡ (err lost, db)
unfolding update_one
update_one_refused p f lost db h = ground arith

-- A worker whose claim has been overtaken by a later claim of the same payout cannot sign it.
complete_signing_overtaken :
    (parse_expiry : SignedTransaction → Option ℕ) (now : ℕ) (s : SigningClaim)
    (t : SignedTransaction) (db : Database)
    → IsOvertaken s.payout_id s.lease_epoch db.payouts
    → IsRefused (complete_signing parse_expiry now s t db) db
unfolding complete_signing
complete_signing_overtaken parse_expiry now s t db o =
    ground (arith, holds_live-none approved s.payout_id s.worker_id s.lease_epoch now db.payouts o)

release_signing_overtaken :
    (now : ℕ) (s : SigningClaim) (code : String) (db : Database)
    → IsOvertaken s.payout_id s.lease_epoch db.payouts
    → IsRefused (release_signing now s code db) db
unfolding release_signing
release_signing_overtaken now s code db o =
    ground (arith, holds-none approved s.payout_id s.worker_id s.lease_epoch db.payouts o)

begin_confirmation_overtaken :
    (now : ℕ) (b : BroadcastClaim) (result code : String) (db : Database)
    → IsOvertaken b.payout_id b.lease_epoch db.payouts
    → IsRefused (begin_confirmation now b result code db) db
unfolding begin_confirmation
begin_confirmation_overtaken now b result code db o = ground (
  arith,
  holds_live-none ready_for_broadcast b.payout_id b.worker_id b.lease_epoch now db.payouts o,
)

release_confirmation_overtaken :
    (now : ℕ) (f : ConfirmationClaim) (delay : ℤ) (code : String) (db : Database)
    → IsOvertaken f.payout_id f.lease_epoch db.payouts
    → IsRefused (release_confirmation now f delay code db) db
unfolding release_confirmation
release_confirmation_overtaken now f delay code db o =
    ground (arith, holds-none confirming f.payout_id f.worker_id f.lease_epoch db.payouts o)

finalize_in_transaction_overtaken :
    (env : Environment) (now : ℕ) (f : ConfirmationClaim) (success : Bool) (reason : String)
    (db : Database)
    → IsOvertaken f.payout_id f.lease_epoch db.payouts
    → finalize_in_transaction env now f success reason db ≡ (err execution_lease_lost, db)
unfolding finalize_in_transaction
finalize_in_transaction_overtaken env now f success reason db o =
    rw (find-holds_live confirming f.payout_id f.worker_id f.lease_epoch now db.payouts o) refl

finalize_confirmation_overtaken :
    (env : Environment) (now : ℕ) (f : ConfirmationClaim) (success : Bool) (reason : String)
    (db : Database)
    → IsOvertaken f.payout_id f.lease_epoch db.payouts
    → IsRefused (finalize_confirmation env now f success reason db) db
unfolding finalize_confirmation
finalize_confirmation_overtaken env now f success reason db o =
    ground (arith, finalize_in_transaction_overtaken env now f success reason db o)

-- A call that ends a claim: signing, giving a signing job back, recording a broadcast, postponing a
-- confirmation, or reaching a terminal state.
pub data Ending : Type 0 where
  signs : (SignedTransaction → Option ℕ) → SigningClaim → SignedTransaction → Ending
  gives_back : SigningClaim → String → Ending
  records : BroadcastClaim → String → String → Ending
  postpones : ConfirmationClaim → ℤ → String → Ending
  finalizes : Environment → ConfirmationClaim → Bool → String → Ending

abbrev pub claim_of : Ending → String × ℕ
claim_of (signs parse_expiry s t) = (s.payout_id, s.lease_epoch)
claim_of (gives_back s code) = (s.payout_id, s.lease_epoch)
claim_of (records b result code) = (b.payout_id, b.lease_epoch)
claim_of (postpones f delay code) = (f.payout_id, f.lease_epoch)
claim_of (finalizes env f success reason) = (f.payout_id, f.lease_epoch)

unfoldable pub call : ℕ → Ending → Database → Result Error (Unit {0}) × Database
call now (signs parse_expiry s t) db = complete_signing parse_expiry now s t db
call now (gives_back s code) db = release_signing now s code db
call now (records b result code) db = begin_confirmation now b result code db
call now (postpones f delay code) db = release_confirmation now f delay code db
call now (finalizes env f success reason) db = finalize_confirmation env now f success reason db

-- Once the row of a payout is at another epoch than a claim (another worker has claimed it since),
-- no call that ends a claim accepts it: signing, giving a signing job back, recording a broadcast,
-- postponing a confirmation, settling and failing return an error and change nothing.
pub overtaken-IsRefused :
    (now : ℕ) (ending : Ending) (db : Database)
    → IsOvertaken (claim_of ending).0 (claim_of ending).1 db.payouts
    → IsRefused (call now ending db) db
unfolding call
overtaken-IsRefused now (signs parse_expiry s t) db o =
    complete_signing_overtaken parse_expiry now s t db o
overtaken-IsRefused now (gives_back s code) db o = release_signing_overtaken now s code db o
overtaken-IsRefused now (records b result code) db o =
    begin_confirmation_overtaken now b result code db o
overtaken-IsRefused now (postpones f delay code) db o =
    release_confirmation_overtaken now f delay code db o
overtaken-IsRefused now (finalizes env f success reason) db o =
    finalize_confirmation_overtaken env now f success reason db o
