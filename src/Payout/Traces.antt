-- ===== src/Payout/Traces.antt =====
-- Payouts over any sequence of the operations of the signing, broadcast and confirmation queues.
use stablecoin_gateway.Prelude.{
  ℕ, ◌≤◌, String, ◌≡◌, ◌≢◌, refl, Bool, Option, List, [], ◌∷◌, arith, ℤ, ◌∙◌, All₂, All₂-refl,
  count_where,
}
use stablecoin_gateway.Tron.Types.{SignedTransaction}
use stablecoin_gateway.Payout.State.{Status, approved, Payout, Database}
use stablecoin_gateway.Payout.Signing.{
  SigningClaim, has_id, claim_signing, complete_signing, release_signing,
}
use stablecoin_gateway.Payout.Execution.{
  BroadcastClaim, ConfirmationClaim, claim_broadcast, claim_confirmation, begin_confirmation,
  release_confirmation,
}
use stablecoin_gateway.Payout.Finalization.{Environment, finalize_confirmation}
use stablecoin_gateway.Payout.Lifecycle.{
  ◌⟶◌, stay, sign, broadcast, settle, give_up, IsTerminal, Follows,
}
use stablecoin_gateway.Payout.Lifecycle.{
  claim_signing-Kept, claim_broadcast-Kept, claim_confirmation-Kept,
}
use stablecoin_gateway.Payout.Steps.{
  complete_signing-Kept, release_signing-Kept, begin_confirmation-Kept, release_confirmation-Kept,
}
use stablecoin_gateway.Payout.Terminal.{IsUniqueId, finalize_confirmation-Kept}

-- The operations of the three queues, with what their callers and their environment give them.
pub data Operation : Type 0 where
  claims_signing claims_broadcast claims_confirmation : (String → Bool) → ℕ → String → ℤ → Operation
  completes_signing :
      (SignedTransaction → Option ℕ) → ℕ → SigningClaim → SignedTransaction → Operation
  releases_signing : ℕ → SigningClaim → String → Operation
  begins_confirmation : ℕ → BroadcastClaim → String → String → Operation
  releases_confirmation : ℕ → ConfirmationClaim → ℤ → String → Operation
  finalizes : Environment → ℕ → ConfirmationClaim → Bool → String → Operation

unfoldable pub perform : Operation → Database → Database
perform (claims_signing locked now worker duration) db =
    (claim_signing locked now worker duration db).1
perform (claims_broadcast locked now worker duration) db =
    (claim_broadcast locked now worker duration db).1
perform (claims_confirmation locked now worker duration) db =
    (claim_confirmation locked now worker duration db).1
perform (completes_signing parse_expiry now s t) db = (complete_signing parse_expiry now s t db).1
perform (releases_signing now s code) db = (release_signing now s code db).1
perform (begins_confirmation now b result code) db = (begin_confirmation now b result code db).1
perform (releases_confirmation now f delay code) db = (release_confirmation now f delay code db).1
perform (finalizes env now f success reason) db =
    (finalize_confirmation env now f success reason db).1

unfoldable pub run : List Operation → Database → Database
run [] db = db
run (o ∷ os) db = run os (perform o db)

-- Whatever an operation returns, each row of the table keeps its identity, merchant, asset,
-- destination and amount; its state stays or makes one of the four moves approved to ready for
-- broadcast, that to confirming, and that to succeeded or failed; its epoch does not fall; and its
-- signed transaction does not change once it has left the approved state. Condition: no two rows share an
-- identity.
perform-Follows :
    (o : Operation) (db : Database)
    → IsUniqueId db.payouts
    → All₂ Follows db.payouts (perform o db).payouts
unfolding perform
perform-Follows (claims_signing locked now worker duration) db u =
    claim_signing-Kept locked now worker duration db
perform-Follows (claims_broadcast locked now worker duration) db u =
    claim_broadcast-Kept locked now worker duration db
perform-Follows (claims_confirmation locked now worker duration) db u =
    claim_confirmation-Kept locked now worker duration db
perform-Follows (completes_signing parse_expiry now s t) db u =
    complete_signing-Kept now db parse_expiry s t
perform-Follows (releases_signing now s code) db u = release_signing-Kept now db s code
perform-Follows (begins_confirmation now b result code) db u =
    begin_confirmation-Kept now db b result code
perform-Follows (releases_confirmation now f delay code) db u =
    release_confirmation-Kept now db f delay code
perform-Follows (finalizes env now f success reason) db u =
    finalize_confirmation-Kept env now f success reason db u

infix 40 ◌⟶*◌
pub data ◌⟶*◌ : Status → Status → Type 0 where
  here : {s : Status} → s ⟶* s
  after : {s t u : Status} → s ⟶ t → t ⟶* u → s ⟶* u

-- What any number of operations may do to a row.
pub record Later (p q : Payout) : Type 0 where
  pub path : p.status ⟶* q.status
  pub id : q.id ≡ p.id
  pub merchant : q.merchant_id ≡ p.merchant_id
  pub asset : q.asset_id ≡ p.asset_id
  pub destination : q.destination_address ≡ p.destination_address
  pub amount : q.amount ≡ p.amount
  pub epoch : p.lease_epoch ≤ q.lease_epoch
  pub signed : p.status ≢ approved → q.signed_transaction ≡ p.signed_transaction
  pub terminal : IsTerminal p.status → q.status ≡ p.status
  pub settled : IsTerminal p.status → q.settlement_transaction_id ≡ p.settlement_transaction_id
  pub released : IsTerminal p.status → q.unfreeze_transaction_id ≡ p.unfreeze_transaction_id

-- No move leads out of a terminal state, and none into the approved state.
terminal_stays : {s t : Status} → s ⟶ t → IsTerminal s → t ≡ s
terminal_stays stay h = refl
terminal_stays sign h = absurd h
terminal_stays broadcast h = absurd h
terminal_stays settle h = absurd h
terminal_stays give_up h = absurd h

not_approved_again : {s t : Status} → s ⟶ t → s ≢ approved → t ≢ approved
not_approved_again stay h = h
not_approved_again sign h = λ e. cc
not_approved_again broadcast h = λ e. cc
not_approved_again settle h = λ e. cc
not_approved_again give_up h = λ e. cc

Later-refl : (p : Payout) → Later p p
Later-refl p = record {
  path = here;
  id = refl;
  merchant = refl;
  asset = refl;
  destination = refl;
  amount = refl;
  epoch = omega arith;
  signed = λ h. refl;
  terminal = λ h. refl;
  settled = λ h. refl;
  released = λ h. refl;
}

Follows-Later : {p q r : Payout} → Follows p q → Later q r → Later p r
Follows-Later {p} {q} {r} f l = record {
  path = after f.move l.path;
  id = l.id ∙ f.id;
  merchant = l.merchant ∙ f.merchant;
  asset = l.asset ∙ f.asset;
  destination = l.destination ∙ f.destination;
  amount = l.amount ∙ f.amount;
  epoch = omega arith;
  signed = λ h. l.signed (not_approved_again f.move h) ∙ f.signed h;
  terminal = λ h. l.terminal (stays h) ∙ terminal_stays f.move h;
  settled = λ h. l.settled (stays h) ∙ f.settled h;
  released = λ h. l.released (stays h) ∙ f.released h;
}
  where
    stays : IsTerminal p.status → IsTerminal q.status
    stays h = rw (terminal_stays f.move h) h

Kept-Later : {ps qs rs : List Payout} → All₂ Follows ps qs → All₂ Later qs rs → All₂ Later ps rs
Kept-Later All₂.nil l = l
Kept-Later (All₂.cons f fs) (All₂.cons l ls) = All₂.cons (Follows-Later f l) (Kept-Later fs ls)

Kept-count :
    (id : String) {ps qs : List Payout}
    → All₂ Follows ps qs
    → count_where (has_id id) qs ≡ count_where (has_id id) ps
Kept-count id All₂.nil = refl
Kept-count id (All₂.cons f fs) = ground (arith, Kept-count id fs, f.id)

-- Over any sequence of operations, by any workers and at any times, each payout keeps its identity,
-- merchant, asset, destination and amount, follows the life approved, ready for broadcast,
-- confirming, succeeded or failed without going back, keeps its signed transaction once it is
-- past signing, and once it is succeeded, failed or rejected keeps that state and the identities of
-- its settlement and release transactions. Condition: at the start no two rows share an identity.
pub run-Later :
    (os : List Operation) (db : Database)
    → IsUniqueId db.payouts
    → All₂ Later db.payouts (run os db).payouts
unfolding run
run-Later [] db u = All₂-refl Later Later-refl db.payouts
run-Later (o ∷ os) db u =
    let first = perform-Follows o db u in
    Kept-Later first (run-Later os (perform o db) (λ id. rw (Kept-count id first) (u id)))
