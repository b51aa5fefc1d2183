-- ===== src/Payout/RequestExamples.antt =====
-- A payout that is created, created again, rejected, and approved.
use stablecoin_gateway.Prelude.{
  [], ◌∷◌, some, ◌≡◌, refl, true, ok, text_dec, trim_space, trim_left, trim_right, is_space,
  is_blank,
}
use stablecoin_gateway.Tron.Address.{
  normalize_address, normalize_address_hex, decode_base58, encode_hex, prepend_nth, same_bytes,
  drop,
}
use stablecoin_gateway.Tron.Simulator.Blocks.{all_digits, decimal_value}
use stablecoin_gateway.Ledger.Transaction.{
  validate_transaction, validate_entries, get, put, add_amount, add_entry, add_entries,
  check_balanced,
}
use stablecoin_gateway.Ledger.Repository.{
  post_in_transaction, insert_transaction, create_post_result, insert_entries, insert_entry,
  set_posted, draft_row, entry_row, database_side,
}
use stablecoin_gateway.Payout.State.{Payout, Database, valid_uuid, uuid_from}
use stablecoin_gateway.Payout.Accounts.{account_balance, account_side}
use stablecoin_gateway.Payout.Posting.{post_to_ledger}
use stablecoin_gateway.Payout.Review.{ReviewRequest, normalize_review_request, review}
use stablecoin_gateway.Payout.State.{approved, job_completed, Asset}
use stablecoin_gateway.Payout.Review.{validate_review_request, is_screening_allowed}
use stablecoin_gateway.Payout.Approvals.{IsApprovable, approved_database, review_approves}
use stablecoin_gateway.Payout.Create.{payout_row, screening_job}
use stablecoin_gateway.Payout.Reviews.{ReviewEnd, review_ends}
use stablecoin_gateway.Payout.Create.{
  CreateResult, create, prepare, validate_request, parse_positive, create_in_transaction,
  create_new, write_payout, find_existing, existing_id, is_tron, has_prefix, insert_payout,
  insert_job,
}
use stablecoin_gateway.Payout.Fixtures.{request, before, hashes, environment}
use stablecoin_gateway.Payout.Replays.{CreateEnd, create_ends}

create_ends_example : CreateEnd hashes "j" 10 request before (create hashes "j" 10 request before)
create_ends_example = create_ends hashes "j" 10 request before

abbrev after : Database
after = (create hashes "j" 10 request before).1

-- The request of 60 is created.
created :
    (r : CreateResult) × (create hashes "j" 10 request before ≡ (ok r, after)) × (r.created ≡ true)
unfolding create prepare normalize_address normalize_address_hex decode_base58 same_bytes drop
    encode_hex prepend_nth validate_request parse_positive valid_uuid uuid_from all_digits
    decimal_value trim_space trim_left trim_right is_space text_dec create_in_transaction
    find_existing existing_id create_new is_tron has_prefix account_balance account_side
    write_payout insert_payout insert_job post_to_ledger post_in_transaction insert_transaction
    create_post_result insert_entries insert_entry set_posted draft_row entry_row database_side
    validate_transaction validate_entries get put add_amount add_entry add_entries check_balanced
    is_blank
created = (_, refl, refl)

abbrev rejection : ReviewRequest
rejection = record {
  payout_id = "0f8fad5b-d9cb-469f-a165-70867728950e";
  decision = "reject";
  reviewer = "o";
  reason = "unknown destination";
}

review_ends_example :
    ReviewEnd environment 30
      (normalize_review_request rejection)
      after
      (review environment 30 rejection after)
review_ends_example = review_ends environment 30 rejection after

abbrev waiting_row : Payout
waiting_row = payout_row request 60 "h" "t" 10

-- A payout that the screening has allowed.
abbrev screened : Database
screened = record before {
  payouts = waiting_row ∷ [];
  screening_jobs =
      record (screening_job request "tron-nile" 10) {
        status = job_completed;
        current_result_id = some "s";
      }
      ∷ [];
  screening_results =
      record {
        id = "s";
        payout_id = "0f8fad5b-d9cb-469f-a165-70867728950e";
        attempt = 1;
        provider = "p";
        decision = "allow";
        reason_codes = [];
        provider_reference = "x";
        response_hash = "h";
        checked_at = 20;
        valid_until = 90;
      }
      ∷ [];
}

abbrev approval : ReviewRequest
approval = record rejection { decision = " approve "; reason = "known" }

abbrev usdt : Asset
usdt = record {
  id = "usdt";
  network = "Tron-nile";
  contract_address = "C";
  symbol = "USDT";
  decimals = 6;
  is_active = true;
}

screened-IsApprovable :
    IsApprovable environment 30 (normalize_review_request approval) waiting_row usdt screened
unfolding validate_review_request valid_uuid uuid_from is_screening_allowed trim_space trim_left
    trim_right is_space text_dec
screened-IsApprovable = record {
  valid = refl;
  found = refl;
  asset = refl;
  waiting = refl;
  allowed = refl;
  one_row = refl;
  in_time = refl;
  one_job = refl;
  no_audit = refl;
}

review_approves_example : review environment 30 approval screened ≡ (
  ok (record {
    payout_id = (normalize_review_request approval).payout_id;
    status = approved;
    reviewer = (normalize_review_request approval).reviewer;
    reason = (normalize_review_request approval).reason;
    reviewed_at = 30;
    unfreeze_transaction_id = "";
    changed = true;
  }),
  approved_database environment 30 (normalize_review_request approval) screened,
)
review_approves_example =
    review_approves environment 30 approval waiting_row usdt screened screened-IsApprovable
