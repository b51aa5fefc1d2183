-- ===== src/Signer/Requests.antt =====
-- One signature for each request: what a call of the signer has signed and stored.
use stablecoin_gateway.Prelude.{
  pos, ℕ, ◌≡◌, refl, ap, ltb, true, false, not, ◌||◌, some, List, ◌∷◌, arith, ok, err, text_eq, any,
  Option-cases, Bool-cases, inl, inr,
}
use stablecoin_gateway.Tron.Types.{SignedTransaction}
use stablecoin_gateway.Tron.Address.{normalize_address_base58, encode_hex}
use stablecoin_gateway.Payout.State.{valid_uuid}
use stablecoin_gateway.Signer.Store.{SignerState, Error}
use stablecoin_gateway.Signer.Service.{
  TransferRequest, Service, Codec, Backend, Unsigned, parse_amount, expectation, check_request,
  build_and_sign,
}

module _ (codec : Codec) (service : Service) where
  -- What the policy lets through: a request of the service's network, for an allowed contract and an
  -- amount within the limit.
  pub record Permitted (r q : TransferRequest) : Type 0 where
    pub amount : ℕ
    pub is_uuid : valid_uuid q.request_id ≡ true
    pub same_id : q.request_id ≡ r.request_id
    pub on_network : text_eq q.network service.network ≡ true
    pub amount_is : parse_amount codec service q.amount ≡ some amount
    pub within_limit : ltb service.max_amount amount ≡ false
    pub allowed : any (text_eq q.contract_address) service.allowed_contracts ≡ true

  pub check_request-Permitted :
      (r q : TransferRequest) (w w' : SignerState)
      → check_request codec service r w ≡ (ok q, w')
      → Permitted r q × (w' ≡ w)
  unfolding check_request
  check_request-Permitted r q w w' h =
      elim (Bool-cases (not (valid_uuid r.request_id) || not (text_eq r.network service.network))) [
        | inl malformed ↦ absurd (ground arith)
        | inr formed ↦
            elim (Option-cases (normalize_address_base58 codec.sha256 r.contract_address)) [
              | inl e ↦ absurd (ground arith)
              | inr (contract, contract_is) ↦
                  elim (Option-cases
                    (normalize_address_base58 codec.sha256 r.destination_address)) [
                      | inl e ↦ absurd (ground arith)
                      | inr (destination, destination_is) ↦
                          elim (Option-cases (parse_amount codec service r.amount)) [
                            | inl e ↦ absurd (ground arith)
                            | inr (amount, amount_is) ↦
                                elim (Bool-cases
                                  (any (text_eq contract) service.allowed_contracts)) [
                                    | inr foreign ↦ absurd (ground arith)
                                    | inl allowed ↦ (
                                      let same : q ≡ record r {
                                        contract_address = contract;
                                        destination_address = destination;
                                      } =
                                            ground arith in
                                          rw same (record {
                                            amount = amount;
                                            is_uuid = ground arith;
                                            same_id = refl;
                                            on_network = ground arith;
                                            amount_is = amount_is;
                                            within_limit = ground arith;
                                            allowed = allowed;
                                          }),
                                      ground arith,
                                    )
                                  ]
                          ]
                    ]
            ]
      ]

  pub check_request_refused :
      (r : TransferRequest) (w w' : SignerState) (x : Error)
      → check_request codec service r w ≡ (err x, w')
      → w' ≡ w
  unfolding check_request
  check_request_refused r w w' x h =
      elim (Option-cases (normalize_address_base58 codec.sha256 r.contract_address)) [
        | inl e ↦ ground arith
        | inr (contract, contract_is) ↦
            elim (Option-cases (normalize_address_base58 codec.sha256 r.destination_address)) [
              | inl e ↦ ground arith
              | inr (destination, destination_is) ↦
                  elim (Option-cases (parse_amount codec service r.amount)) [
                    | inl e ↦ ground arith
                    | inr (amount, amount_is) ↦ ground arith
                  ]
            ]
      ]

  -- The checks do not look at the state.
  pub check_request_anywhere :
      (r q : TransferRequest) (v v' w : SignerState)
      → check_request codec service r v ≡ (ok q, v')
      → check_request codec service r w ≡ (ok q, w)
  unfolding check_request
  check_request_anywhere r q v v' w h =
      elim (Option-cases (normalize_address_base58 codec.sha256 r.contract_address)) [
        | inl e ↦ ground arith
        | inr (contract, contract_is) ↦
            elim (Option-cases (normalize_address_base58 codec.sha256 r.destination_address)) [
              | inl e ↦ ground arith
              | inr (destination, destination_is) ↦
                  elim (Option-cases (parse_amount codec service r.amount)) [
                    | inl e ↦ ground arith
                    | inr (amount, amount_is) ↦ ground arith
                  ]
            ]
      ]

  module _ (backend : Backend) where
    -- A transaction that was made: the builder's, whose identity is the hash of its data, with one
    -- signature of that hash that is the owner's, and as the request expects it.
    pub record Made (r : TransferRequest) (w w' : SignerState) (t : SignedTransaction)
        : Type 0 where
      pub unsigned : Unsigned
      pub signature : List ℕ
      pub built : backend.build r ≡ some unsigned
      pub named : t.id ≡ unsigned.id
      pub hashed : text_eq (encode_hex (codec.sha256 unsigned.raw_data)) unsigned.id ≡ true
      pub signed : backend.sign (codec.sha256 unsigned.raw_data) ≡ some signature
      pub verified :
          backend.is_signature (codec.sha256 unsigned.raw_data) signature service.owner_address
          ≡ true
      pub once : w' ≡ record w { signed = codec.sha256 unsigned.raw_data ∷ w.signed }
      pub expected :
          backend.is_expected
            (record {
              owner_address = service.owner_address;
              contract_address = r.contract_address;
              destination_address = r.destination_address;
              amount = r.amount;
              now = backend.now;
              max_fee_limit = service.max_fee_limit;
              max_lifetime = service.max_transaction_lifetime;
              min_remaining_lifetime = pos 15000000000;
              max_future_skew = pos 30000000000;
            })
            t
          ≡ true

    pub build_and_sign-Made :
        (r : TransferRequest) (w w' : SignerState) (t : SignedTransaction)
        → build_and_sign codec service backend r w ≡ (ok t, w')
        → Made r w w' t
    unfolding build_and_sign
    build_and_sign-Made r w w' t h = elim (Option-cases (backend.build r)) [
      | inl e ↦ absurd (ground arith)
      | inr (u, built) ↦ elim (Bool-cases (text_eq (encode_hex (codec.sha256 u.raw_data)) u.id)) [
        | inr other ↦ absurd (ground arith)
        | inl hashed ↦ elim (Option-cases (backend.sign (codec.sha256 u.raw_data))) [
          | inl e ↦ absurd (ground arith)
          | inr (signature, signed) ↦
              elim (Bool-cases
                (backend.is_signature (codec.sha256 u.raw_data) signature service.owner_address)) [
                  | inr forged ↦ absurd (ground arith)
                  | inl verified ↦ elim (Option-cases (backend.attach u.payload signature)) [
                    | inl e ↦ absurd (ground arith)
                    | inr (payload, attached) ↦
                        elim (Bool-cases (
                          backend.is_expected (expectation codec service backend r)
                            (record { id = u.id; payload = payload }))) [
                              | inr unexpected ↦ absurd (ground arith)
                              | inl expected ↦
                                  let same : t ≡ record { id = u.id; payload = payload } =
                                    ground arith in
                                  record {
                                    unsigned = u;
                                    signature = signature;
                                    built = built;
                                    named = ap (λ x. x.id) same;
                                    hashed = hashed;
                                    signed = signed;
                                    verified = verified;
                                    once = ground arith;
                                    expected = rw same expected;
                                  }
                            ]
                  ]
                ]
        ]
      ]
    ]
