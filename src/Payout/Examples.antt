-- ===== src/Payout/Examples.antt =====
-- Two payouts in the queue for signatures, and one that waits for its final state.
use stablecoin_gateway.Prelude.{
  ℕ, ◌≡◌, ◌≢◌, refl, ◌⊎◌, String, Bool, true, false, none, some, List, [], ◌∷◌, pos, ℤ, ok, err,
  All₂, arith, text_dec, trim_space, trim_left, trim_right, is_space, is_blank,
}
use stablecoin_gateway.Tron.Types.{SignedTransaction}
use stablecoin_gateway.Tron.Address.{
  normalize_address_base58, normalize_address_hex, normalize_address, hex_form, encode_base58_check,
  decode_hex, encode_hex, hex_digit, prepend_nth, base58_digits, leading_zeros, from_bytes,
}
use stablecoin_gateway.Ledger.Transaction.{
  validate_transaction, validate_entries, get, put, add_amount, add_entry, add_entries,
  check_balanced,
}
use stablecoin_gateway.Outbox.Enqueue.{enqueue_in_transaction, is_pending_event}
use stablecoin_gateway.Payout.Accounts.{account_balance, account_side}
use stablecoin_gateway.Payout.Signing.{update_one}
use stablecoin_gateway.Payout.Posting.{post_to_ledger, enqueue}
use stablecoin_gateway.Payout.Finalization.{
  finalize_in_transaction, write_terminal, enqueue_terminal,
}
use stablecoin_gateway.Payout.State.{valid_claim, valid_uuid, uuid_from}
use stablecoin_gateway.Ledger.Repository.{
  d, c, merchant, platform, active, posted, Account, Journal, post_in_transaction,
  insert_transaction, create_post_result, insert_entries, insert_entry, set_posted, draft_row,
  entry_row, database_side, request_fingerprint,
}
use stablecoin_gateway.Payout.State.{
  approved, confirming, Payout, Database, Error, first_by, valid_worker,
}
use stablecoin_gateway.Payout.Signing.{SigningClaim, claim_signing}
use stablecoin_gateway.Payout.Execution.{ConfirmationClaim}
use stablecoin_gateway.Payout.Finalization.{Environment, finalize_confirmation}
use stablecoin_gateway.Payout.Worker.{BroadcastResult, Node, confirm}
use stablecoin_gateway.Payout.Exclusion.{Claims, Claims-exclusive}
use stablecoin_gateway.Payout.Fencing.{IsRefused, Ending, call, overtaken-IsRefused}
use stablecoin_gateway.Payout.Once.{finalize_confirmation_once}
use stablecoin_gateway.Payout.Settlement.{Finalizes, finalize_confirmation_ends}
use stablecoin_gateway.Payout.Terminal.{IsUniqueId}
use stablecoin_gateway.Payout.Traces.{
  Operation, claims_confirmation, finalizes, Later, run, run-Later,
}
use stablecoin_gateway.Payout.Decisions.{Decision, confirm_decides}

abbrev payout_of : String → ℕ → Payout
payout_of id updated_at = record {
  id = id;
  merchant_id = "m";
  idempotency_key = "k";
  merchant_reference = "r";
  request_hash = "h";
  asset_id = "usdt";
  destination_address = "T";
  amount = 100;
  status = approved;
  lease = none;
  lease_epoch = 0;
  signing_attempts = 0;
  broadcast_attempts = 0;
  confirmation_attempts = 0;
  transaction_id = none;
  signed_transaction = none;
  transaction_expires_at = none;
  broadcasted_at = none;
  broadcast_result = none;
  next_confirmation_at = none;
  confirmed_at = none;
  failed_at = none;
  failure_reason = none;
  settlement_transaction_id = none;
  unfreeze_transaction_id = none;
  last_execution_error = none;
  freeze_transaction_id = "t";
  reviewed_by = some "o";
  review_reason = some "fine";
  reviewed_at = some 1;
  created_at = 1;
  updated_at = updated_at;
}

abbrev database_of : List Payout → Database
database_of payouts = record {
  payouts = payouts;
  assets =
      record {
        id = "usdt";
        network = "tron-nile";
        contract_address = "C";
        symbol = "USDT";
        decimals = 6;
        is_active = true;
      }
      ∷ [];
  merchants = [];
  screening_jobs = [];
  screening_results = [];
  audits = [];
  journal = record { accounts = []; transactions = []; entries = [] };
  outbox = [];
}

abbrev two_approved : Database
two_approved = database_of (payout_of "p1" 1 ∷ payout_of "p2" 2 ∷ [])

abbrev second : ℤ
second = pos 1000000000

abbrev signing_of : String → String → SigningClaim
signing_of id worker = record {
  payout_id = id;
  worker_id = worker;
  lease_epoch = 1;
  network = "tron-nile";
  contract_address = "C";
  destination_address = "T";
  amount = 100;
}

abbrev nothing_locked : String → Bool
nothing_locked id = false

abbrev claimed_once : Database
claimed_once = (claim_signing nothing_locked 10 "w" second two_approved).1

first_claim :
    claim_signing nothing_locked 10 "w" second two_approved
    ≡ (ok (signing_of "p1" "w"), claimed_once)
unfolding claim_signing first_by valid_worker is_blank trim_space trim_left trim_right is_space
    text_dec
first_claim = refl

second_claim :
    claim_signing nothing_locked 20 "v" second claimed_once
    ≡ (ok (signing_of "p2" "v"), (claim_signing nothing_locked 20 "v" second claimed_once).1)
unfolding claim_signing first_by valid_worker is_blank trim_space trim_left trim_right is_space
    text_dec
second_claim = refl

abbrev some_uuid : String
some_uuid = "0f8fad5b-d9cb-469f-a165-70867728950e"

abbrev unconfirmed : Payout
unconfirmed = record (payout_of some_uuid 1) {
  destination_address = "410000000000000000000000000000000000000001";
  status = confirming;
  lease_epoch = 2;
  lease = some (record { owner = "w"; until = 100 });
}

abbrev frozen : Account
frozen = record {
  id = "f";
  owner_type = merchant;
  owner_id = "m";
  asset_id = "usdt";
  code = "frozen";
  normal_side = c;
  status = active;
}

abbrev custody : Account
custody = record {
  id = "c";
  owner_type = platform;
  owner_id = "gateway";
  asset_id = "usdt";
  code = "custody";
  normal_side = d;
  status = active;
}

-- The journal after a deposit of 100 that was frozen at once.
abbrev frozen_journal : Journal
frozen_journal = record {
  accounts = frozen ∷ custody ∷ [];
  transactions =
      record {
        id = "t";
        requester_type = "system";
        requester_id = "s";
        idempotency_key = "k";
        reference_type = "freeze";
        reference_id = "r";
        request_hash = "h";
        status = posted;
      }
      ∷ [];
  entries =
      record {
        transaction_id = "t";
        line_no = 1;
        account_id = "c";
        asset_id = "usdt";
        side = d;
        amount = 100;
      }
      ∷ record {
        transaction_id = "t";
        line_no = 2;
        account_id = "f";
        asset_id = "usdt";
        side = c;
        amount = 100;
      }
      ∷ [];
}

abbrev one_unconfirmed : Database
one_unconfirmed = record (database_of (unconfirmed ∷ [])) { journal = frozen_journal }

one_unconfirmed-IsUniqueId : IsUniqueId one_unconfirmed.payouts
one_unconfirmed-IsUniqueId id = ground arith

abbrev signed : SignedTransaction
signed = record { id = "t"; payload = "s" }

abbrev claim_at : ℕ → ConfirmationClaim
claim_at epoch = record {
  payout_id = some_uuid;
  worker_id = "w";
  lease_epoch = epoch;
  expires_at = 90;
  transaction = signed;
}

abbrev environment : Environment
environment = record {
  sha256 = λ bytes. [];
  digest = λ p. p.reference_id;
  encode = λ p. "{}";
  json_valid = λ s. true;
  journal_id = "j";
  event_id = "e";
}

abbrev silent : Node
silent = record {
  broadcast = λ t. BroadcastResult.accepted;
  transaction = λ id. none;
  solidified_head = none;
}

abbrev some_operations : List Operation
some_operations =
    claims_confirmation nothing_locked 10 "v" second
    ∷ finalizes environment 50 (claim_at 2) true ""
    ∷ []

-- The payout is settled: the call succeeds, and the row is succeeded.
finalize_confirmation-settles :
    (finalize_confirmation environment 50 (claim_at 2) true "" one_unconfirmed).0 ≡ ok tt
unfolding finalize_confirmation finalize_in_transaction write_terminal post_to_ledger
    enqueue_terminal enqueue update_one account_balance account_side valid_claim valid_uuid
    uuid_from is_blank trim_space trim_left trim_right is_space text_dec normalize_address_base58
    normalize_address_hex normalize_address hex_form encode_base58_check decode_hex encode_hex
    hex_digit prepend_nth base58_digits leading_zeros from_bytes post_in_transaction
    insert_transaction create_post_result insert_entries insert_entry set_posted draft_row entry_row
    database_side request_fingerprint validate_transaction validate_entries get put add_amount
    add_entry add_entries check_balanced enqueue_in_transaction is_pending_event
finalize_confirmation-settles = refl

finalize_confirmation_ends_example :
    ((x : Error) × (finalize_confirmation environment 50 (claim_at 2) true "" one_unconfirmed
        ≡ (err x, one_unconfirmed)))
    ⊎ ((finalize_confirmation environment 50 (claim_at 2) true "" one_unconfirmed).0 ≡ ok tt)
      × Finalizes environment 50
          (claim_at 2)
          true
          ""
          one_unconfirmed
          (finalize_confirmation environment 50 (claim_at 2) true "" one_unconfirmed).1
finalize_confirmation_ends_example =
    finalize_confirmation_ends environment 50 (claim_at 2) true "" one_unconfirmed

run-Later_example : All₂ Later one_unconfirmed.payouts (run some_operations one_unconfirmed).payouts
run-Later_example = run-Later some_operations one_unconfirmed one_unconfirmed-IsUniqueId

Claims-exclusive_example : ◌≢◌ {A = String} "p2" "p1"
Claims-exclusive_example =
    Claims-exclusive nothing_locked nothing_locked 10 20 "w" "v" second second "p1" "p2"
      two_approved claimed_once (claim_signing nothing_locked 20 "v" second claimed_once).1
      (Claims.to_sign (signing_of "p1" "w") _ first_claim)
      (Claims.to_sign (signing_of "p2" "v") _ second_claim) (omega arith)

overtaken-IsRefused_example :
    IsRefused
      (call 50 (Ending.finalizes environment (claim_at 1) true "") one_unconfirmed)
      one_unconfirmed
overtaken-IsRefused_example =
    overtaken-IsRefused 50 (Ending.finalizes environment (claim_at 1) true "") one_unconfirmed
      (λ same. omega arith, tt)

confirm_decides_example :
    Decision environment silent 50 second
      (claim_at 2)
      (record { database = one_unconfirmed; sent = [] })
      (confirm environment silent 50 second
        (claim_at 2)
        (record { database = one_unconfirmed; sent = [] }))
confirm_decides_example =
    confirm_decides environment silent 50 second (claim_at 2)
      (record { database = one_unconfirmed; sent = [] })

finalize_confirmation_once_example :
    IsRefused
      (finalize_confirmation environment 60
        (claim_at 3)
        false
        "execution_failed"
        (finalize_confirmation environment 50 (claim_at 2) true "" one_unconfirmed).1)
      (finalize_confirmation environment 50 (claim_at 2) true "" one_unconfirmed).1
finalize_confirmation_once_example =
    finalize_confirmation_once environment environment 50 60 (claim_at 2) (claim_at 3) true false ""
      "execution_failed" one_unconfirmed one_unconfirmed-IsUniqueId finalize_confirmation-settles
      refl
