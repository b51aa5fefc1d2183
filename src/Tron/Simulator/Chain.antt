-- ===== src/Tron/Simulator/Chain.antt =====
-- internal/chain/tron/simulator/simulator.go: the state of the simulator and its operations. The
-- error of the context, where it has one, is an argument of the operations that read it.
use stablecoin_gateway.Prelude.{
  ℕ, ◌-◌, String, false, ◌||◌, Option, none, some, List, [], ◌∷◌, ◌++◌, ltb, leb, ◌==◌,
  if◌then◌else◌, text_eq, find, length, Result, ok, err, Action, gets, lift, raise_if, ◌>>=◌, ◌>>◌,
}
use stablecoin_gateway.Tron.Types.{
  Header, Block, TransactionStatus, TransactionState, SignedTransaction,
}
use stablecoin_gateway.Tron.Simulator.Blocks.{
  block_at, first_blocks, validate_block, extend, find_state,
}

pub data FailurePoint : Type 0 where
  fail_head fail_solidified_head fail_block_by_height fail_transaction : FailurePoint
  fail_broadcast_before_accept fail_broadcast_after_accept fail_solidified_block_by_height :
      FailurePoint

pub data SimulatorError : Type 0 where
  invalid_chain invalid_block finalized_block invalid_finality invalid_transaction : SimulatorError
  transaction_conflict invalid_failure_point block_not_found : SimulatorError
  injected : String → SimulatorError

-- `broadcasted` holds the identities and payloads of the transactions, `failures` the queue of
-- each point.
pub record Simulator : Type 0 where
  pub network : String
  pub blocks : List Block
  pub solidified : ℕ
  pub broadcasted : List (String × String)
  pub failures : FailurePoint → List String

abbrev pub Op : Type 0 → Type 0
Op = Action Simulator SimulatorError

abbrev pub genesis : String → Block
genesis hash = record {
  header = record { height = 0; hash = hash; parent_hash = ""; timestamp = none };
  receipts = [];
  transfers = [];
}

-- `New`
unfoldable pub new_simulator : String → String → Result SimulatorError Simulator
new_simulator network genesis_hash =
    if text_eq network "" || text_eq genesis_hash ""
    then err invalid_chain
    else ok (record {
      network = network;
      blocks = genesis genesis_hash ∷ [];
      solidified = 0;
      broadcasted = [];
      failures = λ point. [];
    })

-- `AppendBlock`
unfoldable pub append_block : Block → Op (Unit {0})
append_block b s =
    if validate_block s.network s.blocks b
    then (ok tt, record s { blocks = b ∷ s.blocks })
    else (err invalid_block, s)

abbrev pub replaced : Option (List Block) → Op (Unit {0})
replaced none s = (err invalid_block, s)
replaced (some candidate) s = (ok tt, record s { blocks = candidate })

-- `ReplaceUnfinalized`
unfoldable pub replace_unfinalized : ℕ → List Block → Op (Unit {0})
replace_unfinalized from_height replacement s =
    if leb from_height s.solidified
    then (err finalized_block, s)
    else if from_height == 0 || ltb (length s.blocks) from_height
    then (err invalid_block, s)
    else replaced (extend s.network (first_blocks from_height s.blocks) replacement) s

-- `Solidify`
unfoldable pub solidify : ℕ → Op (Unit {0})
solidify height s =
    if ltb height s.solidified || leb (length s.blocks) height
    then (err invalid_finality, s)
    else (ok tt, record s { solidified = height })

abbrev pub number : FailurePoint → ℕ
number fail_head = 1
number fail_solidified_head = 2
number fail_block_by_height = 3
number fail_transaction = 4
number fail_broadcast_before_accept = 5
number fail_broadcast_after_accept = 6
number fail_solidified_block_by_height = 7

abbrev set_queue : FailurePoint → List String → Simulator → Simulator
set_queue point queue s = record s {
  failures = λ p. if number p == number point then queue else s.failures p;
}

-- `FailNext`; the failure is `none` where it is nil.
unfoldable pub fail_next : FailurePoint → Option String → Op (Unit {0})
fail_next point none s = (err invalid_failure_point, s)
fail_next point (some failure) s = (ok tt, set_queue point (s.failures point ++ (failure ∷ [])) s)

abbrev pub pop_failure : FailurePoint → List String → Op (Unit {0})
pop_failure point [] s = (ok tt, s)
pop_failure point (failure ∷ queue) s = (err (injected failure), set_queue point queue s)

-- `readError`
unfoldable pub read_error : Option String → FailurePoint → Op (Unit {0})
read_error (some e) point s = (err (injected e), s)
read_error none point s = pop_failure point (s.failures point) s

abbrev or_not_found : {A B : Type 0} → (A → B) → Option A → Result SimulatorError B
or_not_found f none = err block_not_found
or_not_found f (some a) = ok (f a)

-- `Head`
unfoldable pub head : Option String → Op Header
head ctx = do
  read_error ctx fail_head
  s ← gets (λ s. s)
  lift (or_not_found (λ b. b.header) (block_at (length s.blocks - 1) s.blocks))

-- `SolidifiedHead`
unfoldable pub solidified_head : Option String → Op Header
solidified_head ctx = do
  read_error ctx fail_solidified_head
  s ← gets (λ s. s)
  lift (or_not_found (λ b. b.header) (block_at s.solidified s.blocks))

-- `BlockByHeight`
unfoldable pub block_by_height : Option String → ℕ → Op Block
block_by_height ctx height = do
  read_error ctx fail_block_by_height
  s ← gets (λ s. s)
  lift (or_not_found (λ b. b) (block_at height s.blocks))

-- `SolidifiedBlockByHeight`
unfoldable pub solidified_block_by_height : Option String → ℕ → Op Block
solidified_block_by_height ctx height = do
  read_error ctx fail_solidified_block_by_height
  s ← gets (λ s. s)
  raise_if (ltb s.solidified height) block_not_found
  lift (or_not_found (λ b. b) (block_at height s.blocks))

abbrev payload_of : String → List (String × String) → Option (String × String)
payload_of id = find (λ t. text_eq t.0 id)

abbrev unmined : String → Simulator → TransactionState
unmined id s = elim (payload_of id s.broadcasted) [
  | none ↦ record { status = TransactionStatus.not_found; block = none; solidified = false }
  | some t ↦ record { status = TransactionStatus.pending; block = none; solidified = false }
]

abbrev state_of : String → Simulator → TransactionState
state_of id s = elim (find_state s.solidified id s.blocks) [
  | none ↦ unmined id s
  | some state ↦ state
]

-- `Transaction`
unfoldable pub transaction : Option String → String → Op TransactionState
transaction ctx id = do
  read_error ctx fail_transaction
  raise_if (text_eq id "") invalid_transaction
  gets (state_of id)

unfoldable pub accept : SignedTransaction → Op (Unit {0})
accept t s = elim (payload_of t.id s.broadcasted) [
  | none ↦ (ok tt, record s { broadcasted = (t.id, t.payload) ∷ s.broadcasted })
  | some known ↦ if text_eq known.1 t.payload then (ok tt, s) else (err transaction_conflict, s)
]

-- `Broadcast`
unfoldable pub broadcast : Option String → SignedTransaction → Op (Unit {0})
unfolding accept
broadcast ctx t = do
  read_error ctx fail_broadcast_before_accept
  raise_if (text_eq t.id "" || text_eq t.payload "") invalid_transaction
  accept t
  read_error ctx fail_broadcast_after_accept
