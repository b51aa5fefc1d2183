-- ===== src/Payout/Fixtures.antt =====
-- A merchant with a deposit of 100 and a request for a payout of 60.
use stablecoin_gateway.Prelude.{String, true, [], ◌∷◌}
use stablecoin_gateway.Ledger.Repository.{
  DatabaseSide, d, c, OwnerType, merchant, platform, active, posted, Account, Journal,
}
use stablecoin_gateway.Payout.State.{Database}
use stablecoin_gateway.Payout.Review.{ReviewEnvironment}
use stablecoin_gateway.Payout.Create.{Request, Hashes}

abbrev pub merchant_uuid : String
merchant_uuid = "7c9e6679-7425-40de-944b-e07fc1f90ae7"

abbrev pub request : Request
request = record {
  id = "0f8fad5b-d9cb-469f-a165-70867728950e";
  merchant_id = merchant_uuid;
  asset_id = "usdt";
  idempotency_key = "k";
  merchant_reference = "r";
  destination_address = "T9yD14Nj9j7xAB4dbGeiX9h8unkKKmSyhh";
  amount = "60";
}

abbrev pub account_of : String → String → OwnerType → String → DatabaseSide → Account
account_of id account_code owner_type owner_id side = record {
  id = id;
  owner_type = owner_type;
  owner_id = owner_id;
  asset_id = "usdt";
  code = account_code;
  normal_side = side;
  status = active;
}

-- The journal after a deposit of 100.
abbrev pub deposited : Journal
deposited = record {
  accounts =
      account_of "a" "available" merchant merchant_uuid c
      ∷ account_of "f" "frozen" merchant merchant_uuid c
      ∷ account_of "c" "custody" platform "gateway" d
      ∷ [];
  transactions =
      record {
        id = "t";
        requester_type = "system";
        requester_id = "s";
        idempotency_key = "k";
        reference_type = "deposit";
        reference_id = "r";
        request_hash = "h";
        status = posted;
      }
      ∷ [];
  entries =
      record {
        transaction_id = "t";
        line_no = 1;
        account_id = "c";
        asset_id = "usdt";
        side = d;
        amount = 100;
      }
      ∷ record {
        transaction_id = "t";
        line_no = 2;
        account_id = "a";
        asset_id = "usdt";
        side = c;
        amount = 100;
      }
      ∷ [];
}

abbrev pub before : Database
before = record {
  payouts = [];
  assets =
      record {
        id = "usdt";
        network = "Tron-nile";
        contract_address = "C";
        symbol = "USDT";
        decimals = 6;
        is_active = true;
      }
      ∷ [];
  merchants = record { id = merchant_uuid; is_active = true } ∷ [];
  screening_jobs = [];
  screening_results = [];
  audits = [];
  journal = deposited;
  outbox = [];
}

abbrev pub hashes : Hashes
hashes = record {
  sha256 = λ bytes. 0 ∷ 0 ∷ 0 ∷ 0 ∷ [];
  digest = λ p. p.reference_id;
  request_digest = λ p. p.merchant_reference;
}

abbrev pub environment : ReviewEnvironment
environment = record {
  sha256 = λ bytes. 0 ∷ 0 ∷ 0 ∷ 0 ∷ [];
  digest = λ p. p.reference_id;
  encode = λ p. "{}";
  json_valid = λ s. true;
  journal_id = "j3";
  event_id = "e";
}
