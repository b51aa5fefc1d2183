-- ===== src/Payout/Signing.antt =====
-- internal/payout/signing.go: the queue of approved payouts that wait for a signature.
use stablecoin_gateway.Prelude.{
  ℕ, ◌+◌, String, len, Bool, false, not, ◌&&◌, Option, none, some, leb, ◌==◌, if◌then◌else◌, ℤ,
  is_some, text_eq, trim_space, find, any, update_where, count_where, ok, err, pure, gets, or_raise,
  ◌>>=◌, ◌>>◌, raise_if, modify,
}
use stablecoin_gateway.Tron.Types.{SignedTransaction}
use stablecoin_gateway.Payout.State.{
  Status, approved, ready_for_broadcast, Lease, Payout, Asset, Database, Error, no_signing_job,
  invalid_signing_claim, signing_lease_lost, invalid_signed_transaction,
  signed_transaction_conflict, Tx, has_status, is_free, owned_by, is_live, milliseconds, first_by,
  is_failure_code, is_transaction_id, valid_claim, valid_worker,
}

pub record SigningClaim : Type 0 where
  pub payout_id : String
  pub worker_id : String
  pub lease_epoch : ℕ
  pub network : String
  pub contract_address : String
  pub destination_address : String
  pub amount : ℕ

-- The lease that a claim sets.
abbrev pub lease_of : String → ℕ → ℤ → Option Lease
lease_of worker now duration = some (record { owner = worker; until = now + milliseconds duration })

abbrev pub asset_of : Database → Payout → Option Asset
asset_of db p = find (λ a. text_eq a.id p.asset_id) db.assets

-- The join with `assets`, and the condition of the candidate; `locked` are the identities of the
-- rows that other transactions hold, which `SKIP LOCKED` passes over.
abbrev pub is_signing_candidate : (String → Bool) → ℕ → Database → Payout → Bool
is_signing_candidate locked now db p =
    is_some (asset_of db p) && has_status approved p && is_free now p.lease && not (locked p.id)

abbrev pub has_id : String → Payout → Bool
has_id id p = text_eq p.id id

abbrev pub claim_signing_row : String → ℕ → ℤ → Payout → Payout
claim_signing_row worker now duration p = record p {
  lease = lease_of worker now duration;
  lease_epoch = p.lease_epoch + 1;
  signing_attempts = p.signing_attempts + 1;
  last_execution_error = none;
  updated_at = now;
}

-- `UPDATE payouts SET … WHERE …` over the whole table.
abbrev pub update_payouts : (Payout → Bool) → (Payout → Payout) → Database → Database
update_payouts p f db = record db { payouts = update_where p f db.payouts }

-- An update that has to meet exactly one row; `lost` is the error where it does not.
unfoldable pub update_one : (Payout → Bool) → (Payout → Payout) → Error → Tx (Unit {0})
update_one p f lost db =
    if count_where p db.payouts == 1 then (ok tt, update_payouts p f db) else (err lost, db)

abbrev pub updated_at_key : Payout → ℕ
updated_at_key p = p.updated_at

abbrev pub signing_claim : String → Payout → Asset → SigningClaim
signing_claim worker p a = record {
  payout_id = p.id;
  worker_id = worker;
  lease_epoch = p.lease_epoch + 1;
  network = a.network;
  contract_address = a.contract_address;
  destination_address = p.destination_address;
  amount = p.amount;
}

-- `ClaimSigning`
unfoldable pub claim_signing : (String → Bool) → ℕ → String → ℤ → Tx SigningClaim
claim_signing locked now worker_id duration = do
  let worker = trim_space worker_id
  raise_if (not (valid_worker worker_id duration)) invalid_signing_claim
  db ← gets (λ db. db)
  p ←
      or_raise (first_by updated_at_key (is_signing_candidate locked now db) db.payouts)
        no_signing_job
  a ← or_raise (asset_of db p) no_signing_job
  modify (update_payouts (has_id p.id) (claim_signing_row worker now duration))
  pure (signing_claim worker p a)

-- The fence of a claim: the row's status, the lease's owner and its epoch.
abbrev pub holds : Status → String → String → ℕ → Payout → Bool
holds status id worker epoch p =
    has_id id p && has_status status p && owned_by worker p.lease && p.lease_epoch == epoch

abbrev pub holds_live : ℕ → Status → String → String → ℕ → Payout → Bool
holds_live now status id worker epoch p = holds status id worker epoch p && is_live now p.lease

abbrev pub signed_row : SignedTransaction → ℕ → ℕ → Payout → Payout
signed_row t expires_at now p = record p {
  status = ready_for_broadcast;
  transaction_id = some t.id;
  signed_transaction = some t.payload;
  transaction_expires_at = some expires_at;
  lease = none;
  last_execution_error = none;
  updated_at = now;
}

-- `payouts_transaction_id_unique_idx`: another payout has the transaction.
abbrev pub is_transaction_of_other : String → String → Payout → Bool
is_transaction_of_other id transaction_id p =
    not (text_eq p.id id)
    && elim p.transaction_id [ none ↦ false | some t ↦ text_eq t transaction_id ]

abbrev pub max_signed_transaction_bytes : ℕ
max_signed_transaction_bytes = 1048576

-- `parse_expiry` is the `ExpiresAt` of `tron.ParseSignedTransactionMetadata`, in milliseconds.
module _ (parse_expiry : SignedTransaction → Option ℕ) where
  abbrev pub is_acceptable : SignedTransaction → Bool
  is_acceptable t =
      is_transaction_id t.id
      && not (len t.payload == 0)
      && leb (len t.payload) max_signed_transaction_bytes

  -- `CompleteSigning`
  unfoldable pub complete_signing : ℕ → SigningClaim → SignedTransaction → Tx (Unit {0})
  unfolding update_one
  complete_signing now c t = do
    raise_if (not (valid_claim c.payout_id c.worker_id c.lease_epoch)) invalid_signing_claim
    expires_at ← or_raise (parse_expiry t) invalid_signed_transaction
    raise_if (not (is_acceptable t)) invalid_signed_transaction
    db ← gets (λ db. db)
    raise_if
        (any (holds_live now approved c.payout_id c.worker_id c.lease_epoch) db.payouts
          && any (is_transaction_of_other c.payout_id t.id) db.payouts)
        signed_transaction_conflict
    update_one (holds_live now approved c.payout_id c.worker_id c.lease_epoch)
        (signed_row t expires_at now) signing_lease_lost

abbrev pub released_row : String → ℕ → Payout → Payout
released_row failure_code now p = record p {
  lease = none;
  last_execution_error = some failure_code;
  updated_at = now;
}

-- `ReleaseSigning`
unfoldable pub release_signing : ℕ → SigningClaim → String → Tx (Unit {0})
unfolding update_one
release_signing now c failure_code = do
  raise_if (not (valid_claim c.payout_id c.worker_id c.lease_epoch)) invalid_signing_claim
  raise_if (not (is_failure_code (trim_space failure_code))) invalid_signing_claim
  update_one (holds approved c.payout_id c.worker_id c.lease_epoch)
      (released_row (trim_space failure_code) now) signing_lease_lost
