-- ===== src/Signer/Once.antt =====
-- The ends of a call of the signer, and a call that is repeated.
use mathlib.Core.Path.{subst}
use stablecoin_gateway.Prelude.{
  String, ◌≡◌, refl, sym, ap, true, ◌&&◌, none, some, ◌∷◌, arith, Result, ok, err, text_eq, find,
  Outcome-cases, Option-cases, Bool-cases, inl, inr, ◌⊎◌,
}
use stablecoin_gateway.Tron.Types.{SignedTransaction}
use stablecoin_gateway.Payout.State.{valid_uuid}
use stablecoin_gateway.Signer.Store.{
  is_refused, StoredRequest, SignerState, Error, Tx, valid_request_hash, is_request, valid_stored,
  loaded, stored, created, resolve,
}
use stablecoin_gateway.Signer.Service.{
  TransferRequest, Service, Codec, Backend, trimmed, check_request, build_and_sign, sign_transfer,
}
use stablecoin_gateway.Signer.Requests.{
  Permitted, check_request-Permitted, check_request_refused, check_request_anywhere, Made,
  build_and_sign-Made,
}

module _ (codec : Codec) (id hash : String) (create : Tx SignedTransaction)
    (w w' : SignerState) where
  -- A stored result for the request, or a new one.
  pub record Known (t : SignedTransaction) : Type 0 where
    pub row : StoredRequest
    pub found : find (is_request id) w.requests ≡ some row
    pub same_hash : text_eq row.request_hash hash ≡ true
    pub transaction : t ≡ row.transaction
    pub sound : valid_stored codec.is_signed_transaction row.transaction ≡ true
    pub untouched : w' ≡ w

  pub record Stored (t : SignedTransaction) : Type 0 where
    pub after : SignerState
    pub absent : find (is_request id) w.requests ≡ none
    pub created_so : create w ≡ (ok t, after)
    pub sound : valid_stored codec.is_signed_transaction t ≡ true
    pub added : w' ≡ record after {
      requests = record { request_id = id; request_hash = hash; transaction = t } ∷ after.requests;
    }

  pub resolve_ok :
      (t : SignedTransaction)
      → resolve codec.is_signed_transaction id hash create w ≡ (ok t, w')
      → (Known t ⊎ Stored t) × (valid_uuid id && valid_request_hash hash ≡ true)
  unfolding resolve loaded stored created
  resolve_ok t h = elim (Bool-cases (valid_uuid id && valid_request_hash hash)) [
    | inr malformed ↦ absurd (ground arith)
    | inl formed ↦ elim (Option-cases (find (is_request id) w.requests)) [
      | inr (row, found) ↦ elim (Bool-cases (text_eq row.request_hash hash)) [
        | inr other ↦ absurd (ground arith)
        | inl same_hash ↦ (
          inl (record {
            row = row;
            found = found;
            same_hash = same_hash;
            transaction = ground arith;
            sound = ground arith;
            untouched = ground arith;
          }),
          formed,
        )
      ]
      | inl absent ↦ elim (Outcome-cases (create w)) [
        | inr (x, m, failed) ↦ absurd (ground arith)
        | inl (u, m, done) ↦ elim (Bool-cases (valid_stored codec.is_signed_transaction u)) [
          | inr unsound ↦ absurd (ground arith)
          | inl sound ↦ elim (Bool-cases (is_refused id u m.requests)) [
            | inl there ↦ absurd (ground arith)
            | inr new ↦
                let same : u ≡ t = ground arith in
                (
                  inr (record {
                    after = m;
                    absent = absent;
                    created_so = rw (sym same) done;
                    sound = rw (sym same) sound;
                    added = ground arith;
                  }),
                  formed,
                )
          ]
        ]
      ]
    ]
  ]

  pub resolve_err :
      (x : Error)
      → resolve codec.is_signed_transaction id hash create w ≡ (err x, w')
      → w'.requests ≡ w.requests
  unfolding resolve loaded stored created
  resolve_err x h = elim (Option-cases (find (is_request id) w.requests)) [
    | inr (row, found) ↦ ground arith
    | inl absent ↦ elim (Outcome-cases (create w)) [
      | inr (y, m, failed) ↦ ground arith
      | inl (u, m, done) ↦ ground arith
    ]
  ]

module _ (codec : Codec) (service : Service) where
  -- The ends of `SignTransfer`: refused, answered from the store, and signed.
  pub data SignEnd (backend : Backend) (request : TransferRequest) (w : SignerState)
      : Result Error SignedTransaction × SignerState → Type 0 where
    refused :
        (x : Error) (w' : SignerState)
        → w'.requests ≡ w.requests
        → SignEnd backend request w (err x, w')
    answered :
        (q : TransferRequest) (t : SignedTransaction) (w' : SignerState)
        → Permitted codec service (trimmed codec service request) q
        → Known codec q.request_id
            (codec.request_hash q)
            (build_and_sign codec service backend q)
            w
            w'
            t
        → SignEnd backend request w (ok t, w')
    signed :
        (q : TransferRequest) (t : SignedTransaction) (w' : SignerState)
        → Permitted codec service (trimmed codec service request) q
        → (s : Stored codec q.request_id
            (codec.request_hash q)
            (build_and_sign codec service backend q)
            w
            w'
            t)
        → Made codec service backend q w s.after t
        → SignEnd backend request w (ok t, w')

  resolved :
      (backend : Backend) (request : TransferRequest) (w : SignerState) (q : TransferRequest)
      → Permitted codec service (trimmed codec service request) q
      → (o : Result Error SignedTransaction × SignerState)
      → resolve codec.is_signed_transaction q.request_id
          (codec.request_hash q)
          (build_and_sign codec service backend q)
          w
        ≡ o
      → SignEnd backend request w o
  resolved backend request w q permitted (err x, w') e = refused x w' (
      resolve_err codec q.request_id (codec.request_hash q) (build_and_sign codec service backend q)
        w w' x e)
  resolved backend request w q permitted (ok t, w') e =
      elim (resolve_ok codec q.request_id (codec.request_hash q)
        (build_and_sign codec service backend q) w w' t e).0 [
          | inl known ↦ answered q t w' permitted known
          | inr new ↦
              signed q t w' permitted new
                (build_and_sign-Made codec service backend q w new.after t new.created_so)
        ]

  -- `SignTransfer` refuses a request and stores nothing, or answers with the stored transaction of
  -- an equal request, without a signature, or signs: in the last two cases the request is for the
  -- service's network, an allowed contract and an amount within the limit; in the last the key has
  -- signed exactly one digest, that of the builder's transaction, the signature is the owner's, the
  -- transaction passed the check against the request, and it is stored under the request's identity.
  pub sign_transfer_ends :
      (backend : Backend) (request : TransferRequest) (w : SignerState)
      → SignEnd backend request w (sign_transfer codec service backend request w)
  unfolding sign_transfer
  sign_transfer_ends backend request w =
      elim (Outcome-cases (check_request codec service (trimmed codec service request) w)) [
        | inr (x, m, refusal) ↦
            let kept =
              check_request_refused codec service (trimmed codec service request) w m x refusal in
            let ends : sign_transfer codec service backend request w ≡ (err x, m) = ground arith in
            subst (SignEnd backend request w) (sym ends) (refused x m (ap (λ s. s.requests) kept))
        | inl (q, m, passed) ↦
            let (permitted, kept) =
              check_request-Permitted codec service (trimmed codec service request) q w m passed in
            let create = build_and_sign codec service backend q in
            let ends : sign_transfer codec service backend request w
                ≡ resolve codec.is_signed_transaction q.request_id (codec.request_hash q) create w =
              ground (arith, passed, kept) in
            subst (SignEnd backend request w) (sym ends)
              (resolved backend request w q permitted _ refl)
      ]

  known_again :
      (id hash : String) (create create' : Tx SignedTransaction) (w w' : SignerState)
      (t : SignedTransaction)
      → resolve codec.is_signed_transaction id hash create w ≡ (ok t, w')
      → resolve codec.is_signed_transaction id hash create' w' ≡ (ok t, w')
  unfolding resolve loaded
  known_again id hash create create' w w' t h =
      let (ends, formed) = resolve_ok codec id hash create w w' t h in
      elim ends [
        | inl known ↦
            rw (known.untouched, known.transaction)
              (ground (arith, formed, known.found, known.same_hash, known.sound))
        | inr new ↦ rw new.added (ground (arith, formed, new.sound))
      ]

  -- A request that was signed and is sent again, whatever builder and key the service has by then,
  -- is answered with the same transaction and leaves the state as it was: nothing is signed twice.
  pub sign_transfer_once :
      (backend backend' : Backend) (request : TransferRequest) (w w' : SignerState)
      (t : SignedTransaction)
      → sign_transfer codec service backend request w ≡ (ok t, w')
      → sign_transfer codec service backend' request w' ≡ (ok t, w')
  unfolding sign_transfer
  sign_transfer_once backend backend' request w w' t h =
      elim (Outcome-cases (check_request codec service (trimmed codec service request) w)) [
        | inr (x, m, refusal) ↦ absurd (ground arith)
        | inl (q, m, passed) ↦
            let kept =
              (check_request-Permitted codec service (trimmed codec service request) q w m
                passed).1 in
            let first : resolve codec.is_signed_transaction q.request_id (codec.request_hash q)
                  (build_and_sign codec service backend q) w
                ≡ (ok t, w') =
              ground (arith, passed, kept) in
            let again =
              known_again q.request_id (codec.request_hash q)
                (build_and_sign codec service backend q) (build_and_sign codec service backend' q) w
                w' t first in
            let passes =
              check_request_anywhere codec service (trimmed codec service request) q w m w'
                passed in
            ground (arith, passes, again)
      ]
