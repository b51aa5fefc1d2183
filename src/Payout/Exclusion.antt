-- ===== src/Payout/Exclusion.antt =====
-- A payout that is leased is not handed out again while the lease lasts.
use stablecoin_gateway.Prelude.{
  ℕ, ◌∙◌, ◌+◌, ◌<◌, String, ◌≡◌, ◌≢◌, Bool, List, [], ◌∷◌, arith, ℤ, trim_space, ok, All,
  update_where,
}
use stablecoin_gateway.Payout.State.{
  Status, approved, ready_for_broadcast, confirming, Payout, Database, milliseconds,
}
use stablecoin_gateway.Payout.Signing.{SigningClaim, has_id, lease_of, claim_signing}
use stablecoin_gateway.Payout.Execution.{
  BroadcastClaim, ConfirmationClaim, claim_broadcast, claim_confirmation,
}
use stablecoin_gateway.Payout.Leases.{
  IsClaimed, first_by-All, claim_signing-IsClaimed, claim_broadcast-IsClaimed,
  claim_confirmation-IsClaimed,
}

-- A lease of the identity until a time.
abbrev IsLeased : String → String → ℕ → ℤ → Payout → Type 0
IsLeased id worker now duration p = p.id ≡ id → p.lease ≡ lease_of worker now duration

update_where-IsLeased :
    (id worker : String) (now : ℕ) (duration : ℤ) (f : Payout → Payout)
    → ((p : Payout) → (f p).id ≡ p.id)
    → ((p : Payout) → (f p).lease ≡ lease_of worker now duration)
    → (ps : List Payout) → All (IsLeased id worker now duration) (update_where (has_id id) f ps)
update_where-IsLeased id worker now duration f same leased [] = tt
update_where-IsLeased id worker now duration f same leased (p ∷ ps) = (
  ground (arith, same p, leased p),
  update_where-IsLeased id worker now duration f same leased ps,
)

lease_exclusive :
    {now now' : ℕ} {worker worker' : String} {duration duration' : ℤ} {status status' : Status}
    {id id' : String} {epoch epoch' : ℕ} {db db' db'' : Database}
    → IsClaimed now worker duration status id epoch db db'
    → IsClaimed now' worker' duration' status' id' epoch' db' db''
    → now' < now + milliseconds duration
    → id' ≢ id
lease_exclusive {now} {now'} {worker} {duration = duration} {id = id} {db = db} {db' = db'} first
      second early same =
    let all : All (IsLeased id worker now duration) db'.payouts = rw first.updated (
      update_where-IsLeased id worker now duration first.update first.same_id first.leased
        db.payouts) in
    let (_, leased) =
      first_by-All second.key second.eligible (IsLeased id worker now duration) db'.payouts
        second.row all second.chosen in
    let lease = leased (second.identity ∙ same) in
    let free = second.was_free in absurd (ground (arith, lease, free))

-- A claim that succeeded, of one of the three kinds, with the payout that it was given.
pub data Claims (locked : String → Bool) (now : ℕ) (worker : String) (duration : ℤ) (db : Database)
    : String → Database → Type 0 where
  to_sign :
      (s : SigningClaim) (db' : Database)
      → claim_signing locked now worker duration db ≡ (ok s, db')
      → Claims locked now worker duration db s.payout_id db'
  to_broadcast :
      (b : BroadcastClaim) (db' : Database)
      → claim_broadcast locked now worker duration db ≡ (ok b, db')
      → Claims locked now worker duration db b.payout_id db'
  to_confirm :
      (f : ConfirmationClaim) (db' : Database)
      → claim_confirmation locked now worker duration db ≡ (ok f, db')
      → Claims locked now worker duration db f.payout_id db'

module _ (locked : String → Bool) (now : ℕ) (worker : String) (duration : ℤ) (db : Database) where
  -- What the three kinds have in common.
  abbrev IsTaken : String → Database → Type 0
  IsTaken id db' =
      (status : Status) × (epoch : ℕ) × IsClaimed now (trim_space worker) duration status id epoch
        db db'

  Claims-IsTaken :
      {id : String} {db' : Database} → Claims locked now worker duration db id db' → IsTaken id db'
  Claims-IsTaken (Claims.to_sign s db' h) =
      (approved, s.lease_epoch, claim_signing-IsClaimed locked now worker duration db db' s h)
  Claims-IsTaken (Claims.to_broadcast b db' h) = (
    ready_for_broadcast,
    b.lease_epoch,
    claim_broadcast-IsClaimed locked now worker duration db db' b h,
  )
  Claims-IsTaken (Claims.to_confirm f db' h) = (
    confirming,
    f.lease_epoch,
    claim_confirmation-IsClaimed locked now worker duration db db' f h,
  )

-- After a claim of a payout for signing, for broadcasting or for confirming, no claim of any kind,
-- by any worker, that is made on the resulting database before the lease has run out is given the
-- same payout.
pub Claims-exclusive :
    (locked locked' : String → Bool) (now now' : ℕ) (worker worker' : String)
    (duration duration' : ℤ) (id id' : String) (db db' db'' : Database)
    → Claims locked now worker duration db id db'
    → Claims locked' now' worker' duration' db' id' db''
    → now' < now + milliseconds duration
    → id' ≢ id
Claims-exclusive locked locked' now now' worker worker' duration duration' id id' db db' db'' first
      second early =
    let (_, _, one) = Claims-IsTaken locked now worker duration db first in
    let (_, _, other) = Claims-IsTaken locked' now' worker' duration' db' second in
    lease_exclusive one other early
