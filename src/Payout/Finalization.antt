-- ===== src/Payout/Finalization.antt =====
-- internal/payout/execution.go: `finalizeConfirmation`, which settles a payout that succeeded and
-- releases the frozen balance of one that failed or expired.
use Prim.Native.String.{◌++◌ as text_append}
use stablecoin_gateway.Prelude.{
  ℕ, String, Bool, true, false, not, ◌&&◌, Option, none, some, List, [], ◌∷◌, leb, ◌==◌, pos,
  trim_space, find, gets, or_raise, transaction, ◌>>=◌, ◌>>◌, raise_if,
}
use stablecoin_gateway.Tron.Address.{normalize_address_base58}
use stablecoin_gateway.Ledger.Transaction
use stablecoin_gateway.Ledger.Transaction.{Side}
use stablecoin_gateway.Ledger.Repository.{Account, Journal, Payload}
use stablecoin_gateway.Payout.State.{
  Status, confirming, succeeded, failed, Payout, invalid_execution_claim, execution_lease_lost,
  invalid_amount, invalid_destination, ledger_unavailable, insufficient_frozen_balance, Tx,
  is_failure_code, owned_by, valid_claim,
}
use stablecoin_gateway.Payout.Signing.{has_id, update_one, asset_of, holds_live}
use stablecoin_gateway.Payout.Execution.{ConfirmationClaim, or_empty}
use stablecoin_gateway.Payout.Posting.{post_to_ledger, enqueue}
use stablecoin_gateway.Payout.Accounts.{
  account_balance, frozen_account, available_account, custody_account, parse_amount,
}

pub record TerminalPayload : Type 0 where
  pub payout_id : String
  pub merchant_id : String
  pub merchant_reference : String
  pub asset_id : String
  pub network : String
  pub destination_address : String
  pub amount : ℕ
  pub status : Status
  pub transaction_id : String
  pub ledger_transaction_id : String
  pub failure_reason : String

abbrev pub reference_type : Bool → String
reference_type true = "payout_settlement"
reference_type false = "payout_failure_release"

abbrev pub topic : Bool → String
topic true = "payout.succeeded"
topic false = "payout.failed"

abbrev pub final_status : Bool → Status
final_status true = succeeded
final_status false = failed

-- The account that the frozen amount goes to.
abbrev pub credit_account : Bool → Journal → Payout → Option Account
credit_account true j p = custody_account j p
credit_account false j p = available_account j p

-- The ledger transaction of a terminal state.
abbrev pub terminal_transaction :
    Bool → String → String → Payout → ℕ → String → String → Transaction.Transaction
terminal_transaction success journal_id payout_id p amount debit_id credit_id = record {
  id = journal_id;
  requester_type = "system";
  requester_id = "payout-confirmation";
  idempotency_key = text_append (text_append (reference_type success) ":") payout_id;
  reference_type = reference_type success;
  reference_id = payout_id;
  entries =
      record {
        account_id = debit_id;
        asset_id = p.asset_id;
        side = Side.debit;
        amount = pos amount;
      }
      ∷ record {
        account_id = credit_id;
        asset_id = p.asset_id;
        side = Side.credit;
        amount = pos amount;
      }
      ∷ [];
}

-- The two updates of the payout's row.
abbrev pub final_row : Bool → String → String → ℕ → Payout → Payout
final_row true journal_id reason now p = record p {
  status = succeeded;
  settlement_transaction_id = some journal_id;
  confirmed_at = some now;
  lease = none;
  last_execution_error = none;
  updated_at = now;
}
final_row false journal_id reason now p = record p {
  status = failed;
  unfreeze_transaction_id = some journal_id;
  failed_at = some now;
  failure_reason = some reason;
  lease = none;
  last_execution_error = none;
  updated_at = now;
}

-- `WHERE id = $1 AND execution_lease_owner = $2 AND execution_lease_epoch = $3`
abbrev pub is_fenced : String → String → ℕ → Payout → Bool
is_fenced id worker epoch p = has_id id p && owned_by worker p.lease && p.lease_epoch == epoch

-- What `finalizeConfirmation` has read before it writes.
pub record Terminal : Type 0 where
  pub network : String
  pub destination : String
  pub amount : ℕ
  pub debit : Account
  pub credit : Account

-- Go's standard library and the random identities: `sha256`, the JSON of the two payloads,
-- `json.Valid`, and what `identity.NewUUID` returned for the journal and for the event.
pub record Environment : Type 0 where
  pub sha256 : List ℕ → List ℕ
  pub digest : Payload → String
  pub encode : TerminalPayload → String
  pub json_valid : String → Bool
  pub journal_id : String
  pub event_id : String

module _ (env : Environment) where
  -- `enqueuePayoutTerminal`
  unfoldable pub enqueue_terminal : Bool → TerminalPayload → Tx (Unit {0})
  unfolding enqueue
  enqueue_terminal success payload = enqueue env.json_valid (record {
    id = env.event_id;
    topic = topic success;
    aggregate_type = "payout";
    aggregate_id = payload.payout_id;
    payload = env.encode payload;
  })

  abbrev pub has_balance : Journal → Account → ℕ → Bool
  has_balance j a amount = elim (account_balance j a.id) [ none ↦ false | some b ↦ leb amount b ]

  -- The writes of `finalizeConfirmation`: the ledger transaction, the payout's row, the event.
  unfoldable pub write_terminal :
      ℕ → ConfirmationClaim → Bool → String → Payout → Terminal → Tx (Unit {0})
  unfolding update_one
  write_terminal now f success reason p t = do
    result ←
        post_to_ledger env.digest (
          terminal_transaction success env.journal_id f.payout_id p t.amount t.debit.id t.credit.id)
    update_one (is_fenced f.payout_id f.worker_id f.lease_epoch)
        (final_row success result.transaction_id reason now) execution_lease_lost
    enqueue_terminal success (record {
      payout_id = f.payout_id;
      merchant_id = p.merchant_id;
      merchant_reference = p.merchant_reference;
      asset_id = p.asset_id;
      network = t.network;
      destination_address = t.destination;
      amount = p.amount;
      status = final_status success;
      transaction_id = or_empty p.transaction_id;
      ledger_transaction_id = result.transaction_id;
      failure_reason = reason;
    })

  -- The body of the database transaction of `finalizeConfirmation`.
  unfoldable pub finalize_in_transaction : ℕ → ConfirmationClaim → Bool → String → Tx (Unit {0})
  finalize_in_transaction now f success reason = do
    db ← gets (λ db. db)
    p ←
        or_raise (find (holds_live now confirming f.payout_id f.worker_id f.lease_epoch) db.payouts)
          execution_lease_lost
    asset ← or_raise (asset_of db p) execution_lease_lost
    amount ← or_raise (parse_amount p.amount) invalid_amount
    destination ←
        or_raise (normalize_address_base58 env.sha256 p.destination_address) invalid_destination
    debit ← or_raise (frozen_account db.journal p) ledger_unavailable
    credit ← or_raise (credit_account success db.journal p) ledger_unavailable
    raise_if (not (has_balance db.journal debit amount)) insufficient_frozen_balance
    write_terminal now f success reason p (record {
      network = asset.network;
      destination = destination;
      amount = amount;
      debit = debit;
      credit = credit;
    })

  -- `finalizeConfirmation`
  unfoldable pub finalize_confirmation : ℕ → ConfirmationClaim → Bool → String → Tx (Unit {0})
  finalize_confirmation now f success reason = do
    raise_if (not (valid_claim f.payout_id f.worker_id f.lease_epoch)) invalid_execution_claim
    transaction (finalize_in_transaction now f success reason)

  -- `CompleteConfirmationSuccess`
  unfoldable pub complete_confirmation_success : ℕ → ConfirmationClaim → Tx (Unit {0})
  complete_confirmation_success now f = finalize_confirmation now f true ""

  -- `CompleteConfirmationFailure`
  unfoldable pub complete_confirmation_failure : ℕ → ConfirmationClaim → String → Tx (Unit {0})
  complete_confirmation_failure now f reason = do
    raise_if (not (is_failure_code (trim_space reason))) invalid_execution_claim
    finalize_confirmation now f false (trim_space reason)
