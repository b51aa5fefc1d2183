-- ===== src/Tron/Simulator/Blocks.antt =====
-- internal/chain/tron/simulator/simulator.go: the blocks of the chain, and the checks of a new one.
-- The list of blocks has the last block first; the index of a block in the source is the number
-- of blocks behind it here.
use Prim.Native.Char.{code}
use stablecoin_gateway.Prelude.{
  ℕ, suc, ◌+◌, ◌-◌, ◌*◌, ◌^◌, String, len, Bool, true, false, not, ◌&&◌, ◌||◌, Option, none, some,
  List, [], ◌∷◌, ltb, leb, ◌==◌, if◌then◌else◌, is_some, text_eq, find, any, length,
}
use stablecoin_gateway.Tron.Types.{
  Header, EventId, Transfer, ExecutionOutcome, Receipt, Block, TransactionStatus, TransactionState,
}

-- `blocks[height]`
unfoldable pub block_at : ℕ → List Block → Option Block
block_at height [] = none
block_at height (b ∷ bs) =
    let rest = block_at height bs in if length bs == height then some b else rest

-- `blocks[:n]`
unfoldable pub first_blocks : ℕ → List Block → List Block
first_blocks n [] = []
first_blocks n (b ∷ bs) =
    let rest = first_blocks n bs in if leb (suc (length bs)) n then b ∷ bs else rest

-- `positiveInteger`: 1 to 78 digits without a leading 0, of a number below 2 ^ 256.
unfoldable pub all_digits : String → Bool
all_digits String.[] = true
all_digits (String.◌∷◌ c s) = leb b'0' (code c) && leb (code c) b'9' && all_digits s

unfoldable pub decimal_value : ℕ → String → ℕ
decimal_value n String.[] = n
decimal_value n (String.◌∷◌ c s) = decimal_value (n * 10 + (code c - b'0')) s

abbrev starts_with_zero : String → Bool
starts_with_zero String.[] = false
starts_with_zero (String.◌∷◌ c s) = code c == b'0'

unfoldable pub positive_integer : String → Bool
unfolding all_digits decimal_value
positive_integer s =
    not (text_eq s "" || ltb 78 (len s) || starts_with_zero s)
    && all_digits s
    && ltb 0 (decimal_value 0 s)
    && ltb (decimal_value 0 s) (2 ^ 256)

abbrev pub is_known : ExecutionOutcome → Bool
is_known ExecutionOutcome.succeeded = true
is_known ExecutionOutcome.failed = true
is_known (ExecutionOutcome.unknown n) = false

abbrev pub has_receipt : String → List Receipt → Bool
has_receipt id receipts = any (λ r. text_eq r.transaction_id id) receipts

-- The first loop of `validateBlock`; `seen` are the receipts before, the last one first.
unfoldable pub valid_receipts : List Block → List Receipt → List Receipt → Bool
valid_receipts chain seen [] = true
valid_receipts chain seen (r ∷ rs) =
    not (text_eq r.transaction_id "")
    && is_known r.outcome
    && not (has_receipt r.transaction_id seen)
    && not (any (λ b. has_receipt r.transaction_id b.receipts) chain)
    && valid_receipts chain (r ∷ seen) rs

abbrev pub has_succeeded : String → List Receipt → Bool
has_succeeded id receipts = elim (find (λ r. text_eq r.transaction_id id) receipts) [
  | none ↦ false
  | some r ↦ elim r.outcome [ ExecutionOutcome.succeeded ↦ true | _ ↦ false ]
]

abbrev same_position : EventId → EventId → Bool
same_position x y = text_eq x.transaction_id y.transaction_id && x.log_index == y.log_index

-- The second loop of `validateBlock`; `seen` are the positions before.
unfoldable pub valid_transfers : String → List Receipt → List EventId → List Transfer → Bool
valid_transfers network receipts seen [] = true
valid_transfers network receipts seen (t ∷ ts) =
    text_eq t.id.network network
    && not (text_eq t.id.contract "")
    && not (text_eq t.id.transaction_id "")
    && not (text_eq t.from "")
    && not (text_eq t.to "")
    && has_succeeded t.id.transaction_id receipts
    && positive_integer t.amount
    && not (any (same_position t.id) seen)
    && valid_transfers network receipts (t.id ∷ seen) ts

-- The conditions of `validateBlock` on the header, after the block `previous`.
abbrev pub follows : Header → Header → Bool
follows previous h =
    h.height == previous.height + 1
    && not (text_eq h.hash "")
    && is_some h.timestamp
    && text_eq h.parent_hash previous.hash

abbrev pub has_hash : String → List Block → Bool
has_hash hash chain = any (λ b. text_eq b.header.hash hash) chain

-- `validateBlock`; the chain is never empty.
unfoldable pub validate_block : String → List Block → Block → Bool
unfolding valid_receipts valid_transfers
validate_block network [] b = false
validate_block network (last ∷ rest) b =
    follows last.header b.header
    && not (has_hash b.header.hash (last ∷ rest))
    && valid_receipts (last ∷ rest) [] b.receipts
    && valid_transfers network b.receipts [] b.transfers

-- The loop of `ReplaceUnfinalized`; `none` where a block is not valid.
unfoldable pub extend : String → List Block → List Block → Option (List Block)
extend network chain [] = some chain
extend network chain (b ∷ bs) =
    let rest = extend network (b ∷ chain) bs in
    if validate_block network chain b then rest else none

abbrev outcome_status : ExecutionOutcome → TransactionStatus
outcome_status ExecutionOutcome.succeeded = TransactionStatus.succeeded
outcome_status _ = TransactionStatus.failed

-- The loop of `Transaction`, from the last block to the first.
unfoldable pub find_state : ℕ → String → List Block → Option TransactionState
find_state solidified id [] = none
find_state solidified id (b ∷ bs) =
    let rest = find_state solidified id bs in
    elim (find (λ r. text_eq r.transaction_id id) b.receipts) [
      | none ↦ rest
      | some r ↦ some (record {
        status = outcome_status r.outcome;
        block = some b.header;
        solidified = leb b.header.height solidified;
      })
    ]
