-- ===== src/Screening/Examples.antt =====
-- A payout that is created, screened and approved.
use stablecoin_gateway.Prelude.{ℕ, String, Bool, false, Option, some, List, [], ◌∷◌, ℤ, pos}
use stablecoin_gateway.Payout.State.{Database}
use stablecoin_gateway.Payout.Fixtures.{request, before, hashes, environment}
use stablecoin_gateway.Screening.Store.{Request, Result, Claim}
use stablecoin_gateway.Screening.Worker.{run_once}
use stablecoin_gateway.Screening.Gate.{Operation, IsScreened, run, run-IsScreened}
use stablecoin_gateway.Screening.Rounds.{RoundEnd, run_once_ends}

abbrev payout_id : String
payout_id = "0f8fad5b-d9cb-469f-a165-70867728950e"

abbrev decimal : ℕ → String
decimal n = "1"

abbrev nothing_locked : String → Bool
nothing_locked id = false

abbrev second : ℤ
second = pos 1000000000

abbrev claimed : Claim
claimed = record {
  payout_id = payout_id;
  worker_id = "w";
  lease_epoch = 1;
  request = record {
    request_id = "0f8fad5b-d9cb-469f-a165-70867728950e:1";
    direction = "outbound";
    payout_id = payout_id;
    network = "tron-nile";
    asset_id = "usdt";
    contract_address = "C";
    destination_address = "410000000000000000000000000000000000000001";
    amount = 60;
  };
}

abbrev allowing : Result
allowing = record {
  provider = "p";
  decision = "allow";
  reason_codes = some [];
  provider_reference = "x";
  response_hash = "0123456789abcdef0123456789abcdef0123456789abcdef0123456789abcdef";
  checked_at = some 30;
  valid_until = 90;
}

abbrev provider : Request → Option Result
provider r = some allowing

abbrev operations : List Operation
operations =
    Operation.creates hashes "j" 10 request
    ∷ Operation.claims decimal nothing_locked 20 "w" second
    ∷ Operation.completes "s" 30 30 claimed allowing
    ∷ Operation.reviews environment 40
        (record { payout_id = payout_id; decision = "approve"; reviewer = "o"; reason = "known" })
    ∷ []

run-IsScreened_example : IsScreened (run operations before)
run-IsScreened_example = run-IsScreened operations before (record { gated = tt; linked = tt })

abbrev waiting : Database
waiting = run (Operation.creates hashes "j" 10 request ∷ []) before

run_once_ends_example :
    RoundEnd provider "s" 30 20 30 decimal nothing_locked "w" second waiting
      (run_once provider "s" 30 20 30 decimal nothing_locked "w" second waiting)
run_once_ends_example =
    run_once_ends provider "s" 30 20 30 decimal nothing_locked "w" second waiting
