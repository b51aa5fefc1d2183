-- ===== src/Signer/Store.antt =====
-- internal/signer/postgres.go: the store that keeps one signed transaction for each request.
use stablecoin_gateway.Prelude.{
  ℕ, String, len, Bool, not, ◌&&◌, ◌||◌, none, some, List, ◌∷◌, leb, ◌==◌, if◌then◌else◌, text_eq,
  find, any, ok, err, Action,
}
use stablecoin_gateway.Tron.Types.{SignedTransaction}
use stablecoin_gateway.Payout.State.{valid_uuid, lower_hex}

-- A row of `signer_requests`.
pub record StoredRequest : Type 0 where
  pub request_id : String
  pub request_hash : String
  pub transaction : SignedTransaction

-- The table, and the digests that the key has signed, the last one first.
pub record SignerState : Type 0 where
  pub requests : List StoredRequest
  pub signed : List (List ℕ)

pub data Error : Type 0 where
  invalid_request policy_denied invalid_store idempotency_conflict : Error
  builder_error key_error signature_mismatch constraint_violated : Error

abbrev pub Tx : Type 0 → Type 0
Tx = Action SignerState Error

abbrev pub max_record_bytes : ℕ
max_record_bytes = 2097152

-- `validRequestHash`
unfoldable pub valid_request_hash : String → Bool
valid_request_hash s = len s == 64 && lower_hex s

abbrev pub is_request : String → StoredRequest → Bool
is_request id r = text_eq r.request_id id

-- The constraints of `signer_requests` on a new row: the primary key, the unique transaction, and
-- the form of its identity.
abbrev pub is_refused : String → SignedTransaction → List StoredRequest → Bool
is_refused id t rows =
    any (λ r. is_request id r || text_eq r.transaction.id t.id) rows
    || not (len t.id == 64 && lower_hex t.id)

-- A rollback of the database, which takes no signature back.
abbrev pub rolled_back : SignerState → SignerState → SignerState
rolled_back before after = record after { requests = before.requests }

-- `is_signed_transaction` is `tron.ValidateSignedTransaction`.
module _ (is_signed_transaction : SignedTransaction → Bool) where
  -- `validateStoredTransaction`
  unfoldable pub valid_stored : SignedTransaction → Bool
  valid_stored t = leb (len t.payload) max_record_bytes && is_signed_transaction t

  -- The end of `loadPostgresRecord`, with a row that was found.
  unfoldable pub loaded : String → StoredRequest → Tx SignedTransaction
  loaded hash r w =
      if not (text_eq r.request_hash hash)
      then (err idempotency_conflict, w)
      else if not (valid_stored r.transaction)
      then (err invalid_store, w)
      else (ok r.transaction, w)

  -- The insertion of a new result.
  unfoldable pub stored : String → String → SignerState → SignedTransaction → Tx SignedTransaction
  stored id hash before t w =
      if not (valid_stored t)
      then (err invalid_store, rolled_back before w)
      else if is_refused id t w.requests
      then (err constraint_violated, rolled_back before w)
      else (
        ok t,
        record w {
          requests = record { request_id = id; request_hash = hash; transaction = t } ∷ w.requests;
        },
      )

  -- `create` and what follows it.
  unfoldable pub created : String → String → Tx SignedTransaction → Tx SignedTransaction
  created id hash create w =
      let (r, w') = create w in
      elim r [ ok t ↦ stored id hash w t w' | err e ↦ (err e, rolled_back w w') ]

  -- `Resolve`
  unfoldable pub resolve : String → String → Tx SignedTransaction → Tx SignedTransaction
  resolve id hash create w =
      if not (valid_uuid id && valid_request_hash hash)
      then (err invalid_store, w)
      else elim (find (is_request id) w.requests) [
        | some r ↦ loaded hash r w
        | none ↦ created id hash create w
      ]
