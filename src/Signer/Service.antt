-- ===== src/Signer/Service.antt =====
-- internal/signer/service.go: the checks of a request, and the making of a signed transaction.
use Prim.Native.Char.{code}
use stablecoin_gateway.Prelude.{
  ℕ, ◌-◌, ℤ, pos, String, Bool, not, ◌&&◌, ◌||◌, Option, none, some, List, ◌∷◌, ltb, leb,
  if◌then◌else◌, text_eq, trim_space, any, ok, err, pure, or_raise, ◌>>=◌, ◌>>◌, raise_if,
}
use stablecoin_gateway.Tron.Types.{SignedTransaction}
use stablecoin_gateway.Tron.Address.{normalize_address_base58, encode_hex, prepend_nth}
use stablecoin_gateway.Tron.Simulator.Blocks.{positive_integer, decimal_value}
use stablecoin_gateway.Payout.State.{valid_uuid}
use stablecoin_gateway.Signer.Store.{
  invalid_request, policy_denied, builder_error, key_error, signature_mismatch, Tx, resolve,
}

-- `tron.TransferSignRequest`
pub record TransferRequest : Type 0 where
  pub request_id : String
  pub network : String
  pub contract_address : String
  pub destination_address : String
  pub amount : String

-- `tron.SweepSignRequest`
pub record SweepRequest : Type 0 where
  pub request_id : String
  pub network : String
  pub contract_address : String
  pub source_address : String
  pub destination_address : String
  pub amount : String

-- The transaction of the builder, before its signature.
pub record Unsigned : Type 0 where
  pub id : String
  pub raw_data : List ℕ
  pub payload : String

-- The fields of `Service` that its checks read.
pub record Service : Type 0 where
  pub network : String
  pub owner_address : String
  pub allowed_contracts : List String
  pub max_amount : ℕ
  pub max_fee_limit : ℤ
  pub max_transaction_lifetime : ℤ

-- `tron.TransferTransactionExpectation`; durations are nanoseconds.
pub record Expectation : Type 0 where
  pub owner_address : String
  pub contract_address : String
  pub destination_address : String
  pub amount : String
  pub now : ℕ
  pub max_fee_limit : ℤ
  pub max_lifetime : ℤ
  pub min_remaining_lifetime : ℤ
  pub max_future_skew : ℤ

-- `strings.ToLower` of an identity: no other letter than A to F has one of a to f as its small one.
abbrev small_letters : String
small_letters = "abcdefghijklmnopqrstuvwxyz"

unfoldable pub to_lower : String → String
to_lower String.[] = ""
to_lower (String.◌∷◌ ch s) =
    let rest = to_lower s in
    if leb b'A' (code ch) && leb (code ch) b'Z'
    then prepend_nth (code ch - b'A') small_letters rest
    else String.◌∷◌ ch rest

-- SHA-256, the hash of a request's JSON, and the validation of signed transactions.
pub record Codec : Type 0 where
  pub sha256 : List ℕ → List ℕ
  pub request_hash : TransferRequest → String
  pub is_signed_transaction : SignedTransaction → Bool

-- What the builder, the key, the clock and the JSON library answer in one call. `is_signature` is
-- `verifyDigestSignature` with its address last, and `is_expected` is
-- `tron.ValidateSignedTransferTransaction`.
pub record Backend : Type 0 where
  pub build : TransferRequest → Option Unsigned
  pub sign : List ℕ → Option (List ℕ)
  pub is_signature : List ℕ → List ℕ → String → Bool
  pub attach : String → List ℕ → Option String
  pub now : ℕ
  pub is_expected : Expectation → SignedTransaction → Bool

module _ (codec : Codec) (service : Service) where
  -- The first three lines of `SignTransfer`.
  abbrev pub trimmed : TransferRequest → TransferRequest
  trimmed r = record r {
    request_id = to_lower (trim_space r.request_id);
    network = trim_space r.network;
    amount = trim_space r.amount;
  }

  -- An amount that is the decimal text of a positive number of at most 256 bits.
  abbrev pub parse_amount : String → Option ℕ
  parse_amount s = if positive_integer s then some (decimal_value 0 s) else none

  -- The checks of `SignTransfer`, and the request with its two addresses normalized.
  abbrev permitted : TransferRequest → String → String → ℕ → Tx TransferRequest
  permitted r contract destination amount w =
      if not (any (text_eq contract) service.allowed_contracts) || ltb service.max_amount amount
      then (err policy_denied, w)
      else (ok (record r { contract_address = contract; destination_address = destination }), w)

  unfoldable pub check_request : TransferRequest → Tx TransferRequest
  check_request r = do
    raise_if (not (valid_uuid r.request_id) || not (text_eq r.network service.network))
        invalid_request
    contract ← or_raise (normalize_address_base58 codec.sha256 r.contract_address) invalid_request
    destination ←
        or_raise (normalize_address_base58 codec.sha256 r.destination_address) invalid_request
    amount ← or_raise (parse_amount r.amount) invalid_request
    permitted r contract destination amount

  module _ (backend : Backend) where
    abbrev pub sign_digest : List ℕ → Tx (List ℕ)
    sign_digest digest w = elim (backend.sign digest) [
      | none ↦ (err key_error, w)
      | some s ↦ (ok s, record w { signed = digest ∷ w.signed })
    ]

    abbrev pub expectation : TransferRequest → Expectation
    expectation r = record {
      owner_address = service.owner_address;
      contract_address = r.contract_address;
      destination_address = r.destination_address;
      amount = r.amount;
      now = backend.now;
      max_fee_limit = service.max_fee_limit;
      max_lifetime = service.max_transaction_lifetime;
      min_remaining_lifetime = pos 15000000000;
      max_future_skew = pos 30000000000;
    }

    -- `buildAndSign`
    unfoldable pub build_and_sign : TransferRequest → Tx SignedTransaction
    build_and_sign r = do
      unsigned ← or_raise (backend.build r) builder_error
      let digest = codec.sha256 unsigned.raw_data
      raise_if (not (text_eq (encode_hex digest) unsigned.id)) invalid_request
      signature ← sign_digest digest
      raise_if (not (backend.is_signature digest signature service.owner_address))
          signature_mismatch
      payload ← or_raise (backend.attach unsigned.payload signature) invalid_request
      let t : SignedTransaction = record { id = unsigned.id; payload = payload }
      raise_if (not (backend.is_expected (expectation r) t)) invalid_request
      pure t

    -- `SignTransfer`
    unfoldable pub sign_transfer : TransferRequest → Tx SignedTransaction
    sign_transfer request = do
      r ← check_request (trimmed request)
      resolve codec.is_signed_transaction r.request_id (codec.request_hash r) (build_and_sign r)

    -- `SignSweep`
    unfoldable pub sign_sweep : SweepRequest → Tx SignedTransaction
    sign_sweep s = do
      source ← or_raise (normalize_address_base58 codec.sha256 s.source_address) policy_denied
      raise_if (not (text_eq source service.owner_address)) policy_denied
      sign_transfer (record {
        request_id = s.request_id;
        network = s.network;
        contract_address = s.contract_address;
        destination_address = s.destination_address;
        amount = s.amount;
      })
