-- ===== src/Ledger/Examples.antt =====
-- A transfer of 100 units between two accounts, posted, repeated and repeated with another request.
use stablecoin_gateway.Prelude.{
  String, ◌≡◌, ◌≢◌, refl, ◌↔◌, ◌⊎◌, none, some, true, false, text_eq, [], ◌∷◌, pos, ok, err, All,
  arith, text_dec, find, is_blank, trim_space, trim_left, trim_right, is_space,
}
use stablecoin_gateway.Ledger.Transaction
use stablecoin_gateway.Ledger.Transaction.{
  Error, idempotency_conflict, Entry, Transaction, get, put, add_amount, add_entry, add_entries,
  check_balanced, validate_entries, validate_transaction,
}
use stablecoin_gateway.Ledger.Balance.{FitsInt64}
use stablecoin_gateway.Ledger.Validation.{IsWellFormed, validate_transaction_iff}
use stablecoin_gateway.Ledger.Repository.{
  c, merchant, active, posted, Payload, Account, Journal, JournalTransaction, PostResult, same_key,
  request_fingerprint, database_side, entry_row, insert_entry, insert_entries, set_posted,
  draft_row, insert_transaction, create_post_result, post_in_transaction, post,
}
use stablecoin_gateway.Ledger.Posting.{IsSound}
use stablecoin_gateway.Ledger.Idempotency.{Outcome, post_ends, post_replay, post_conflict}
use stablecoin_gateway.Ledger.Soundness.{post-IsSound}

abbrev digest_of : Payload → String
digest_of p = p.reference_id

abbrev available : Account
available = record {
  id = "a";
  owner_type = merchant;
  owner_id = "m";
  asset_id = "usdt";
  code = "available";
  normal_side = c;
  status = active;
}

abbrev frozen : Account
frozen = record {
  id = "f";
  owner_type = merchant;
  owner_id = "m";
  asset_id = "usdt";
  code = "frozen";
  normal_side = c;
  status = active;
}

abbrev empty_journal : Journal
empty_journal = record { accounts = available ∷ frozen ∷ []; transactions = []; entries = [] }

abbrev freeze_of : String → Transaction
freeze_of reference = record {
  id = "t";
  requester_type = "merchant";
  requester_id = "m";
  idempotency_key = "k";
  reference_type = "payout_freeze";
  reference_id = reference;
  entries =
      record {
        account_id = "a";
        asset_id = "usdt";
        side = Transaction.Side.debit;
        amount = pos 100;
      }
      ∷ record {
        account_id = "f";
        asset_id = "usdt";
        side = Transaction.Side.credit;
        amount = pos 100;
      }
      ∷ [];
}

freeze_fits : (reference : String) → All FitsInt64 (freeze_of reference).entries
freeze_fits reference = (omega arith, (omega arith, tt))

abbrev created_result : PostResult
created_result = record { transaction_id = "t"; created = true }

freeze_valid : validate_transaction (freeze_of "p") ≡ none
unfolding validate_transaction validate_entries is_blank trim_space trim_left trim_right is_space
    text_dec get put add_amount add_entry add_entries check_balanced
freeze_valid = refl

freeze_posts : (post digest_of (freeze_of "p") empty_journal).0 ≡ ok created_result
unfolding post post_in_transaction insert_transaction create_post_result insert_entries insert_entry
    set_posted draft_row entry_row database_side request_fingerprint validate_transaction
    validate_entries is_blank trim_space trim_left trim_right is_space text_dec get put add_amount
    add_entry add_entries check_balanced
freeze_posts = refl

empty-IsSound : IsSound empty_journal
empty-IsSound = record { unique = tt; settled = tt; balanced = λ a. refl }

abbrev first_row : JournalTransaction
first_row = record {
  id = "t";
  requester_type = "merchant";
  requester_id = "m";
  idempotency_key = "k";
  reference_type = "payout_freeze";
  reference_id = "p";
  request_hash = "p";
  status = posted;
}

abbrev used_journal : Journal
used_journal = record empty_journal { transactions = first_row ∷ [] }

freeze_found : find (same_key (freeze_of "q")) used_journal.transactions ≡ some first_row
unfolding text_dec
freeze_found = refl

text_apart : (s t : String) → text_eq s t ≡ false → s ≢ t
text_apart s t h same = ground arith

p_differs_q : text_eq "p" "q" ≡ false
unfolding text_dec
p_differs_q = refl

fingerprint_differs : first_row.request_hash ≢ request_fingerprint digest_of (freeze_of "q")
unfolding request_fingerprint
fingerprint_differs = text_apart "p" "q" p_differs_q

other_valid : validate_transaction (freeze_of "q") ≡ none
unfolding validate_transaction validate_entries is_blank trim_space trim_left trim_right is_space
    text_dec get put add_amount add_entry add_entries check_balanced
other_valid = refl

validate_transaction_iff_example :
    (validate_transaction (freeze_of "p") ≡ none) ↔ IsWellFormed (freeze_of "p")
validate_transaction_iff_example = validate_transaction_iff (freeze_of "p") (freeze_fits "p")

post_ends_example :
    ((x : Error) × (post digest_of (freeze_of "p") empty_journal ≡ (err x, empty_journal)))
    ⊎ ((r : PostResult) × ((post digest_of (freeze_of "p") empty_journal).0 ≡ ok r)
        × Outcome digest_of
            (freeze_of "p")
            empty_journal
            r
            (post digest_of (freeze_of "p") empty_journal).1)
post_ends_example = post_ends digest_of (freeze_of "p") empty_journal (freeze_fits "p")

post_replay_example :
    post digest_of (freeze_of "p") (post digest_of (freeze_of "p") empty_journal).1 ≡ (
      ok (record { transaction_id = "t"; created = false }),
      (post digest_of (freeze_of "p") empty_journal).1,
    )
post_replay_example =
    post_replay digest_of (freeze_of "p") empty_journal created_result (freeze_fits "p")
      freeze_posts

post_conflict_example :
    post digest_of (freeze_of "q") used_journal ≡ (err idempotency_conflict, used_journal)
post_conflict_example =
    post_conflict digest_of (freeze_of "q") used_journal first_row other_valid freeze_found
      fingerprint_differs

post-IsSound_example : IsSound (post digest_of (freeze_of "p") empty_journal).1
post-IsSound_example =
    post-IsSound digest_of (freeze_of "p") empty_journal (freeze_fits "p") empty-IsSound
