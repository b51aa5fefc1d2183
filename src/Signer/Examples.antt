-- ===== src/Signer/Examples.antt =====
-- A request for a transfer, which is signed.
use stablecoin_gateway.Prelude.{
  pos, ◌≡◌, refl, true, some, [], ◌∷◌, ok, text_dec, trim_space, trim_left, trim_right, is_space,
}
use stablecoin_gateway.Tron.Types.{SignedTransaction}
use stablecoin_gateway.Tron.Address.{
  normalize_address, normalize_address_base58, decode_base58, same_bytes, drop, encode_hex,
  prepend_nth,
}
use stablecoin_gateway.Tron.Simulator.Blocks.{positive_integer, all_digits, decimal_value}
use stablecoin_gateway.Payout.State.{valid_uuid, uuid_from, lower_hex}
use stablecoin_gateway.Signer.Store.{
  SignerState, resolve, created, stored, valid_stored, valid_request_hash,
}
use stablecoin_gateway.Signer.Service.{
  TransferRequest, Service, Codec, Backend, to_lower, check_request, build_and_sign, sign_transfer,
}
use stablecoin_gateway.Signer.Once.{SignEnd, sign_transfer_ends, sign_transfer_once}

abbrev request : TransferRequest
request = record {
  request_id = "0F8FAD5B-d9cb-469f-a165-70867728950e";
  network = "tron-nile";
  contract_address = "T9yD14Nj9j7xAB4dbGeiX9h8unkKKmSyhh";
  destination_address = "T9yD14Nj9j7xAB4dbGeiX9h8unkKKmSyhh";
  amount = "60";
}

abbrev service : Service
service = record {
  network = "tron-nile";
  owner_address = "T9yD14Nj9j7xAB4dbGeiX9h8unkKKmSyhh";
  allowed_contracts = "T9yD14Nj9j7xAB4dbGeiX9h8unkKKmSyhh" ∷ [];
  max_amount = 100;
  max_fee_limit = pos 1000;
  max_transaction_lifetime = pos 60000000000;
}

abbrev codec : Codec
codec = record {
  sha256 = λ bytes.
      0 ∷ 0 ∷ 0 ∷ 0 ∷ 0 ∷ 0 ∷ 0 ∷ 0 ∷ 0 ∷ 0 ∷ 0 ∷ 0 ∷ 0 ∷ 0 ∷ 0 ∷ 0 ∷ 0 ∷ 0 ∷ 0 ∷ 0 ∷ 0 ∷ 0 ∷ 0 ∷ 0
      ∷ 0 ∷ 0 ∷ 0 ∷ 0 ∷ 0 ∷ 0 ∷ 0 ∷ 0 ∷ [];
  request_hash = λ r. "0123456789abcdef0123456789abcdef0123456789abcdef0123456789abcdef";
  is_signed_transaction = λ t. true;
}

abbrev backend : Backend
backend = record {
  build = λ r. some (record {
    id = "0000000000000000000000000000000000000000000000000000000000000000";
    raw_data = 1 ∷ [];
    payload = "{}";
  });
  sign = λ digest. some (7 ∷ []);
  is_signature = λ digest signature owner. true;
  attach = λ payload signature. some "{\"signature\":[\"07\"]}";
  now = 1000;
  is_expected = λ e t. true;
}

abbrev idle : SignerState
idle = record { requests = []; signed = [] }

abbrev busy : SignerState
busy = (sign_transfer codec service backend request idle).1

abbrev transaction : SignedTransaction
transaction = record {
  id = "0000000000000000000000000000000000000000000000000000000000000000";
  payload = "{\"signature\":[\"07\"]}";
}

first_signature : sign_transfer codec service backend request idle ≡ (ok transaction, busy)
unfolding sign_transfer check_request to_lower trim_space trim_left trim_right is_space text_dec
    valid_uuid uuid_from normalize_address_base58 normalize_address decode_base58 same_bytes drop
    positive_integer all_digits decimal_value resolve created stored valid_stored valid_request_hash
    lower_hex build_and_sign encode_hex prepend_nth
first_signature = refl

sign_transfer_once_example :
    sign_transfer codec service backend request busy ≡ (ok transaction, busy)
sign_transfer_once_example =
    sign_transfer_once codec service backend backend request idle busy transaction first_signature

sign_transfer_ends_example :
    SignEnd codec service backend request idle (sign_transfer codec service backend request idle)
sign_transfer_ends_example = sign_transfer_ends codec service backend request idle
