-- ===== src/Deposit/Examples.antt =====
-- A payment of 25 for an intent that expects 25.
use stablecoin_gateway.Prelude.{Bool, true, false, none, some, [], ◌∷◌}
use stablecoin_gateway.Ledger.Repository.{d, c, merchant, platform, active, Account}
use stablecoin_gateway.Indexer.Cursor.{ChainEvent}
use stablecoin_gateway.Payout.State.{job_completed}
use stablecoin_gateway.Deposit.Tables.{Database, pending}
use stablecoin_gateway.Deposit.Posting.{Environment}
use stablecoin_gateway.Deposit.Matcher.{match_next}
use stablecoin_gateway.Deposit.Matches.{MatchEnd, match_next_ends}

abbrev custody : Account
custody = record {
  id = "c";
  owner_type = platform;
  owner_id = "gateway";
  asset_id = "usdt";
  code = "custody";
  normal_side = d;
  status = active;
}

abbrev available : Account
available = record {
  id = "a";
  owner_type = merchant;
  owner_id = "m";
  asset_id = "usdt";
  code = "available";
  normal_side = c;
  status = active;
}

abbrev paid_event : ChainEvent
paid_event = record {
  network = "nile";
  contract = "C";
  transaction_id = "t";
  log_index = 0;
  block_height = 5;
  block_hash = "b5";
  block_time = some 20;
  from_address = "x";
  to_address = "y";
  amount = "25";
}

abbrev database : Database
database = record {
  events = paid_event ∷ [];
  assets =
      record {
        id = "usdt";
        network = "nile";
        contract_address = "C";
        symbol = "USDT";
        decimals = 6;
        is_active = true;
      }
      ∷ [];
  addresses =
      record { id = "d"; asset_id = "usdt"; merchant_id = "m"; address = "y"; is_active = true }
      ∷ [];
  merchants = record { id = "m"; is_active = true } ∷ [];
  jobs =
      record {
        id = "j";
        network = "nile";
        contract = "C";
        transaction_id = "t";
        log_index = 0;
        status = job_completed;
        current_result_id = some "s";
        lease = none;
        updated_at = 1;
      }
      ∷ [];
  answers = record { id = "s"; decision = "allow"; valid_until = 90 } ∷ [];
  matches = [];
  intents =
      record {
        id = "i";
        merchant_id = "m";
        asset_id = "usdt";
        merchant_reference = "r";
        address_id = "d";
        created_at = 10;
        expires_at = 60;
        expected_amount = 25;
        received_amount = 0;
        status = pending;
        ledger_transaction_id = none;
        credited_amount = none;
        credited_at = none;
        updated_at = 10;
      }
      ∷ [];
  journal = record { accounts = custody ∷ available ∷ []; transactions = []; entries = [] };
  outbox = [];
}

abbrev environment : Environment
environment = record {
  digest = λ p. p.reference_id;
  encode = λ p. "{}";
  json_valid = λ s. true;
  journal_id = "k";
  event_id = "e";
}

abbrev nothing_locked : ChainEvent → Bool
nothing_locked e = false

match_next_ends_example :
    MatchEnd environment 30 nothing_locked database
      (match_next environment 30 nothing_locked database)
match_next_ends_example = match_next_ends environment 30 nothing_locked database
