-- ===== src/Payout/Accounts.antt =====
-- internal/payout/store.go, `accountBalance`, and the accounts that internal/payout/execution.go
-- moves a payout's amount between.
use stablecoin_gateway.Prelude.{
  ℕ, ◌+◌, ◌-◌, String, Bool, true, false, ◌&&◌, Option, none, some, List, [], ◌∷◌, ltb, leb,
  if◌then◌else◌, max_int64, text_eq, find, any,
}
use stablecoin_gateway.Ledger.Repository.{
  DatabaseSide, d, c, OwnerType, platform, merchant, AccountStatus, closed, Account, JournalStatus,
  posted, JournalTransaction, JournalEntry, Journal,
}
use stablecoin_gateway.Payout.State.{Payout}

abbrev pub same_side : DatabaseSide → DatabaseSide → Bool
same_side d d = true
same_side c c = true
same_side _ _ = false

abbrev pub is_posted : JournalStatus → Bool
is_posted posted = true
is_posted _ = false

-- The `LEFT JOIN` with the posted transactions.
abbrev pub is_posted_entry : List JournalTransaction → JournalEntry → Bool
is_posted_entry ts e = any (λ t. text_eq t.id e.transaction_id && is_posted t.status) ts

-- The sum of an account's posted entries on one side.
unfoldable pub account_side :
    List JournalTransaction → String → DatabaseSide → List JournalEntry → ℕ
account_side ts id s [] = 0
account_side ts id s (e ∷ es) =
    (if text_eq e.account_id id && same_side e.side s && is_posted_entry ts e then e.amount else 0)
    + account_side ts id s es

abbrev pub opposite : DatabaseSide → DatabaseSide
opposite d = c
opposite c = d

-- `accountBalance`; `none` is an account that is not there or a balance below zero.
unfoldable pub account_balance : Journal → String → Option ℕ
unfolding account_side
account_balance j id = elim (find (λ a. text_eq a.id id) j.accounts) [
  | none ↦ none
  | some a ↦
      let plus = account_side j.transactions id a.normal_side j.entries in
      let minus = account_side j.transactions id (opposite a.normal_side) j.entries in
      if ltb plus minus then none else some (plus - minus)
]

abbrev pub same_owner : OwnerType → OwnerType → Bool
same_owner platform platform = true
same_owner merchant merchant = true
same_owner _ _ = false

abbrev pub is_open : AccountStatus → Bool
is_open closed = false
is_open _ = true

-- The conditions on one account of the two queries.
abbrev pub is_account : OwnerType → String → String → String → DatabaseSide → Account → Bool
is_account owner owner_id asset code side a =
    same_owner a.owner_type owner
    && text_eq a.owner_id owner_id
    && text_eq a.asset_id asset
    && text_eq a.code code
    && same_side a.normal_side side
    && is_open a.status

abbrev pub frozen_account : Journal → Payout → Option Account
frozen_account j p = find (is_account merchant p.merchant_id p.asset_id "frozen" c) j.accounts

abbrev pub available_account : Journal → Payout → Option Account
available_account j p = find (is_account merchant p.merchant_id p.asset_id "available" c) j.accounts

abbrev pub custody_account : Journal → Payout → Option Account
custody_account j p = find (is_account platform "gateway" p.asset_id "custody" d) j.accounts

-- `strconv.ParseInt` of the stored amount, and the test that it is positive.
abbrev pub parse_amount : ℕ → Option ℕ
parse_amount n = if ltb 0 n && leb n max_int64 then some n else none
