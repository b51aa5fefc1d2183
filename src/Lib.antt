-- ===== src/Lib.antt =====
-- stablecoin-gateway: a gateway that keeps merchants' balances of a TRC20 stablecoin in a
-- double-entry ledger and pays them out on the TRON chain.
--
-- The parts and how they interact:
--   * The ledger (internal/ledger) posts transactions of balanced entries, once for each
--     idempotency key and reference of a requester.
--   * The payout store (internal/payout/store.go, review.go) creates a payout, which freezes its
--     amount in the ledger and queues its screening, and records the review of an operator, which
--     approves it or gives the frozen amount back.
--   * The screening (internal/screening) asks a provider about the destination of a payout that
--     waits for its review; an approval needs its answer.
--   * The payout queues (internal/payout) hand a payout from worker to worker by leases that carry
--     an epoch: signing, broadcasting, confirming. The end of a confirmation posts to the ledger and
--     creates an event in the outbox, in one database transaction.
--   * The execution worker (internal/payout/execution_worker.go) claims from the last two queues,
--     talks to the node, and reports back to the queues.
--   * The outbox (internal/outbox) leases events to a processor, which hands them to handlers.
--   * The background runner (internal/background/runner.go) calls a worker again and again.
--   * The deposits (internal/deposit) match an event of the chain, once it is screened, to the intent
--     of a merchant and credit it in the ledger.
--   * The signer (internal/signer) signs a transfer that its policy permits, once for each request.
--   * The indexer (internal/chain/tron/indexer) scans the finalized chain block by block into the
--     table of events, under a leased cursor.
--   * The chain (internal/chain/tron) gives addresses and the types of blocks and transactions; its
--     simulator stands for the node in tests.
--
-- The modules:
--   * Prelude: Boolean tests, Go's signed integers, texts, tables as lists, and the action of a
--     database transaction.
--   * Ledger.Transaction is internal/ledger/transaction.go (`ValidateTransaction`), and
--     Ledger.Repository is internal/ledger/repository.go (`Post`, `PostInTransaction`). Balance,
--     Rounds, Loop and Validation are about the first; Posting, Booking, Idempotency and Soundness
--     about the second, where Booking says what a movement between two accounts leaves in the journal; Examples applies the results.
--   * Tron.Types and Tron.Address (Forms is about its texts) are internal/chain/tron/types.go and address.go; Tron.Simulator is
--     internal/chain/tron/simulator/simulator.go: Blocks has its checks, Chain its operations,
--     Finality and Runs what they keep.
--   * Outbox.Enqueue, Outbox.Queue and Outbox.Processor are internal/outbox/enqueue.go, postgres.go
--     and outbox.go; Leases, Verdicts and Backoff are about them.
--   * Background.Runner is internal/background/runner.go; Delays is about its waits.
--   * Signer.Store and Signer.Service are internal/signer/postgres.go and service.go; Requests and
--     Once are about them.
--   * Deposit.Tables, Posting and Matcher are internal/deposit/posting.go and matcher.go, over the
--     events of the indexer; Recording, Credits and Matches are about them.
--   * Lease has the lease columns that the tables share.
--   * Indexer.Cursor, Scanner and Worker are internal/chain/tron/indexer/cursor.go, scanner.go and
--     worker.go. Insertion, Mirror, Refinement and Progress are about them.
--   * Payout.Create and Payout.Review are internal/payout/store.go and review.go, over the tables of
--     Payout.State.Tables; Create.Requests and Review.Rows have their requests and rows, and Posting
--     has the two writes that the operations share. Creations and Replays are about the first,
--     Reviews (its Writes has the writes) and Approvals about the second.
--   * Screening.Store and Screening.Worker are internal/screening/store.go and worker.go, over the
--     same tables; Gate and Rounds are about them.
--   * Payout.State, Signing, Execution, Accounts, Finalization and Worker are
--     internal/payout/signing.go, execution.go and execution_worker.go, with `accountBalance` of
--     store.go, the states of review.go and `ValidUUID` of internal/identity/uuid.go. Lifecycle,
--     Steps, Terminal and Traces are about the life of a payout, Leases, Exclusion and Fencing about its leases,
--     Settlement and Once about its end, and Decisions about the worker.
--
-- How the program is read:
--   * A table is a list of rows with the newest in front; an SQL statement is a function on it. An
--     `UPDATE` that has to meet one row says what the source does where it meets another number.
--   * A database transaction is an action that returns a result or an error with the state; an error
--     puts the state back. Failures of the connection are left out. Of the triggers, the two that
--     refuse to close a screening job at a time before its last update are modelled; the others are
--     left out: those that guard identities, the moves between states and the balance of the
--     journal, and the tests of time in the other updates of screening jobs. The `CHECK`
--     constraints of a table are read as what its rows satisfy (a payout that waits for its review
--     has neither a review nor a transaction), so a row that they allow passes the guard of payouts.
--   * The clock is an argument of each operation, in milliseconds. The rows that `SKIP LOCKED`
--     passes over are an argument too.
--   * Strings hold valid UTF-8. Go's `int64` is checked where the source checks it: an amount of the
--     ledger is an integer with the bound of `int64` as a hypothesis, and a sum that is too large is
--     refused as in the source.
--   * SHA-256, JSON, `json.Valid`, random identities, the check of a signature, the parser and the
--     validation of a signed transaction and the answers of the node are parameters.
--   * Fuel occurs in Base58: a text of n digits has a value below 58 ^ n, so n bytes hold it, and
--     two digits for each byte are enough on the way back.
--
-- Not modelled: the HTTP transport, the configuration, the clients of the node and of KMS, metrics,
-- the creation of deposit intents and addresses, the screening of deposits and sweeps, sweeps, the
-- parsing of signed transactions, the file store of the signer, wallets, webhooks and
-- reconciliation.
pub mod Prelude
pub mod Lease
pub mod Ledger
pub mod Tron
pub mod Outbox
pub mod Payout
pub mod Screening
pub mod Signer
pub mod Deposit
pub mod Background
pub mod Indexer
