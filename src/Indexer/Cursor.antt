-- ===== src/Indexer/Cursor.antt =====
-- internal/chain/tron/indexer/cursor.go: the cursor of each network's scan, under a lease with an
-- epoch.
use stablecoin_gateway.Prelude.{
  ℕ, ◌+◌, String, Bool, true, false, not, ◌&&◌, ◌||◌, Option, none, some, List, ◌∷◌, ltb, ◌==◌,
  if◌then◌else◌, ℤ, pos_part, is_positive, max_int64, text_eq, is_blank, find, any, update_where,
  count_where, ok, err, Action, pure, gets, or_raise, ◌>>=◌, ◌>>◌, raise_if, modify,
}
use stablecoin_gateway.Lease.{Lease, is_free, owned_by, is_live, milliseconds}
use stablecoin_gateway.Tron.Types.{Header}

-- A row of `chain_scan_cursors`; heights are `BIGINT`s that a check keeps positive.
pub record Cursor : Type 0 where
  pub network : String
  pub start_height : ℕ
  pub anchor_hash : String
  pub next_height : ℕ
  pub previous_hash : String
  pub tracked_contract : Option String
  pub lease : Option Lease
  pub lease_epoch : ℕ
  pub updated_at : ℕ

-- A row of `chain_events`.
pub record ChainEvent : Type 0 where
  pub network : String
  pub contract : String
  pub transaction_id : String
  pub log_index : ℕ
  pub block_height : ℕ
  pub block_hash : String
  pub block_time : Option ℕ
  pub from_address : String
  pub to_address : String
  pub amount : String

pub record Tables : Type 0 where
  pub cursors : List Cursor
  pub events : List ChainEvent

-- `cursor_missing` is `pgx.ErrNoRows` wrapped by `BindContract`, and `joined` is `errors.Join`.
pub data IndexerError : Type 0 where
  invalid_cursor anchor_conflict contract_conflict contract_unbound : IndexerError
  lease_unavailable lease_lost invalid_block cursor_missing : IndexerError
  invalid_event event_conflict node_error : IndexerError
  joined : IndexerError → IndexerError → IndexerError

-- A `Claim` of the source: the lease with the position that it was taken at.
pub record ScanClaim : Type 0 where
  pub network : String
  pub worker_id : String
  pub next_height : ℕ
  pub previous_hash : String
  pub lease_epoch : ℕ

abbrev pub Tx : Type 0 → Type 0
Tx = Action Tables IndexerError

abbrev pub has_network : String → Cursor → Bool
has_network network c = text_eq c.network network

abbrev pub update_cursors : (Cursor → Bool) → (Cursor → Cursor) → Tables → Tables
update_cursors p f db = record db { cursors = update_where p f db.cursors }

abbrev pub is_unbound : String → Cursor → Bool
is_unbound network c =
    has_network network c
    && elim c.tracked_contract [ none ↦ true | some b ↦ false ]
    && c.next_height == c.start_height

abbrev pub bound_row : ℕ → String → Cursor → Cursor
bound_row now contract c = record c { tracked_contract = some contract; updated_at = now }

abbrev check_bound : String → Cursor → Tx (Unit {0})
check_bound contract c db = elim c.tracked_contract [
  | none ↦ (err contract_unbound, db)
  | some bound ↦ if text_eq bound contract then (ok tt, db) else (err contract_conflict, db)
]

-- `BindContract`
unfoldable pub bind_contract : ℕ → String → String → Tx (Unit {0})
bind_contract now network contract = do
  raise_if (is_blank network || is_blank contract) invalid_cursor
  modify (update_cursors (is_unbound network) (bound_row now contract))
  db ← gets (λ db. db)
  c ← or_raise (find (has_network network) db.cursors) cursor_missing
  check_bound contract c

abbrev pub new_cursor : ℕ → String → ℕ → String → Cursor
new_cursor now network start_height anchor_hash = record {
  network = network;
  start_height = start_height;
  anchor_hash = anchor_hash;
  next_height = start_height;
  previous_hash = anchor_hash;
  tracked_contract = none;
  lease = none;
  lease_epoch = 0;
  updated_at = now;
}

-- `INSERT … ON CONFLICT (network) DO NOTHING`
abbrev pub insert_cursor : Cursor → Tables → Tables
insert_cursor c db =
    if any (has_network c.network) db.cursors then db else record db { cursors = c ∷ db.cursors }

-- `Ensure`
unfoldable pub ensure : ℕ → String → ℤ → String → Tx (Unit {0})
ensure now network start_height anchor_hash = do
  raise_if (is_blank network || not (is_positive start_height) || is_blank anchor_hash)
      invalid_cursor
  modify (insert_cursor (new_cursor now network (pos_part start_height) anchor_hash))
  db ← gets (λ db. db)
  c ← or_raise (find (has_network network) db.cursors) cursor_missing
  raise_if (not (c.start_height == pos_part start_height && text_eq c.anchor_hash anchor_hash))
      anchor_conflict

abbrev pub is_claimable : ℕ → String → Cursor → Bool
is_claimable now network c = has_network network c && is_free now c.lease

abbrev pub claimed_row : ℕ → String → ℤ → Cursor → Cursor
claimed_row now worker_id duration c = record c {
  lease = some (record { owner = worker_id; until = now + milliseconds duration });
  lease_epoch = c.lease_epoch + 1;
  updated_at = now;
}

-- `Claim`
unfoldable pub claim : ℕ → String → String → ℤ → Tx ScanClaim
claim now network worker_id duration = do
  raise_if (is_blank network || is_blank worker_id || not (ltb 0 (milliseconds duration)))
      invalid_cursor
  db ← gets (λ db. db)
  c ← or_raise (find (is_claimable now network) db.cursors) lease_unavailable
  modify (update_cursors (is_claimable now network) (claimed_row now worker_id duration))
  pure (record {
    network = network;
    worker_id = worker_id;
    next_height = c.next_height;
    previous_hash = c.previous_hash;
    lease_epoch = c.lease_epoch + 1;
  })

-- The guard of `AdvanceTx`.
unfoldable pub continues : ScanClaim → Header → Bool
continues s h =
    not (text_eq s.network "")
    && not (text_eq s.worker_id "")
    && ltb 0 s.lease_epoch
    && ltb 0 s.next_height
    && ltb s.next_height max_int64
    && s.next_height == h.height
    && not (text_eq s.previous_hash "")
    && not (text_eq h.hash "")
    && not (text_eq h.hash s.previous_hash)
    && text_eq h.parent_hash s.previous_hash

abbrev pub is_owned : ScanClaim → Cursor → Bool
is_owned s c =
    has_network s.network c && owned_by s.worker_id c.lease && c.lease_epoch == s.lease_epoch

abbrev pub is_at : ℕ → ScanClaim → Cursor → Bool
is_at now s c =
    is_owned s c
    && is_live now c.lease
    && c.next_height == s.next_height
    && text_eq c.previous_hash s.previous_hash

abbrev pub advanced_row : ℕ → String → Cursor → Cursor
advanced_row now hash c = record c {
  next_height = c.next_height + 1;
  previous_hash = hash;
  lease = none;
  updated_at = now;
}

abbrev pub released_row : ℕ → Cursor → Cursor
released_row now c = record c { lease = none; updated_at = now }

-- An update that has to meet exactly one row.
unfoldable pub update_one : (Cursor → Bool) → (Cursor → Cursor) → Tx (Unit {0})
update_one p f db =
    (if count_where p db.cursors == 1 then ok tt else err lease_lost, update_cursors p f db)

-- `AdvanceTx`
unfoldable pub advance : ℕ → ScanClaim → Header → Tx (Unit {0})
unfolding continues update_one
advance now s h = do
  raise_if (not (continues s h)) invalid_block
  update_one (is_at now s) (advanced_row now h.hash)

-- `Release`
unfoldable pub release : ℕ → ScanClaim → Tx (Unit {0})
unfolding update_one
release now s = update_one (is_owned s) (released_row now)
