-- ===== src/Indexer/Mirror.antt =====
-- The table of events as a copy of the finalized chain: a specification that every step refines.
use stablecoin_gateway.Prelude.{
  ℕ, zero, suc, ◌+◌, ◌≤◌, ◌≡◌, refl, sym, ap, ◌∙◌, ◌⊎◌, inl, inr, String, Bool, true, ◌||◌, some,
  List, [], ◌∷◌, arith, if◌then◌else◌, ℤ, text_eq, is_blank, find, count_where, update_where, All,
  All₂, All₂-refl, All₂-find, All₂-count_where, update_where-All₂, update_where_rows,
  count_where-find, ok, Option-cases, Bool-cases,
}
use stablecoin_gateway.Tron.Types.{Header, Transfer, Block}
use stablecoin_gateway.Indexer.Cursor.{
  Cursor, ChainEvent, Tables, ScanClaim, has_network, update_cursors, is_unbound, bound_row,
  bind_contract, is_claimable, claimed_row, claim, continues, is_owned, is_at, advanced_row,
  released_row, update_one, advance, release,
}
use stablecoin_gateway.Indexer.Scanner.{event_row}
use stablecoin_gateway.Indexer.Insertion.{push_rows, of_contract, AreLower}

-- The events of one network.
abbrev pub of_network : String → List ChainEvent → List ChainEvent
of_network network [] = []
of_network network (e ∷ es) =
    let rest = of_network network es in if text_eq e.network network then e ∷ rest else rest

module _ (chain : ℕ → Block) (network contract : String) (start : ℕ) where
  -- The events of the contract in `count` blocks of the chain from `start` on, the last one first.
  unfoldable pub scanned : ℕ → List ChainEvent
  scanned zero = []
  scanned (suc count) =
      push_rows (chain (start + count)).header
        (of_contract contract (chain (start + count)).transfers) (scanned count)

  -- The network's one cursor stands `count` blocks behind the start, and the events of the network
  -- are exactly those of the blocks passed.
  pub record IsMirror (db : Tables) : Type 0 where
    pub cursor : Cursor
    pub count : ℕ
    pub found : find (has_network network) db.cursors ≡ some cursor
    pub one_cursor : count_where (has_network network) db.cursors ≤ 1
    pub position : cursor.next_height ≡ start + count
    pub mirrored : of_network network db.events ≡ scanned count
    pub lower : AreLower network cursor.next_height db.events

  -- What an operation that does not advance does to a cursor.
  abbrev pub IsQuiet : Cursor → Cursor → Type 0
  IsQuiet c d = (d.network ≡ c.network) × (d.next_height ≡ c.next_height)

  abbrev pub Quiet : Tables → Tables → Type 0
  Quiet db db' = All₂ IsQuiet db.cursors db'.cursors × (db'.events ≡ db.events)

  Quiet-refl : (db : Tables) → Quiet db db
  Quiet-refl db = (All₂-refl IsQuiet (λ c. (refl, refl)) db.cursors, refl)

  pub Quiet-IsMirror : (db db' : Tables) → Quiet db db' → IsMirror db → IsMirror db'
  Quiet-IsMirror db db' quiet m =
      let (d, found, same) =
        All₂-find IsQuiet (has_network network) (λ c e q. rw q.0 refl) db.cursors db'.cursors
          m.cursor quiet.0 m.found in
      let count_same =
        All₂-count_where IsQuiet (has_network network) (λ c e q. rw q.0 refl) db.cursors db'.cursors
          quiet.0 in
      record {
        cursor = d;
        count = m.count;
        found = found;
        one_cursor = rw count_same m.one_cursor;
        position = same.1 ∙ m.position;
        mirrored = rw quiet.1 m.mirrored;
        lower = rw (quiet.1, same.1) m.lower;
      }

  -- An operation ends where it began, or after an update that keeps the position of each cursor.
  pub Quiet-update :
      (db db' : Tables) (p : Cursor → Bool) (f : Cursor → Cursor)
      → ((c : Cursor) → IsQuiet c (f c))
      → (db' ≡ db) ⊎ (db' ≡ update_cursors p f db)
      → Quiet db db'
  Quiet-update db db' p f keeps (inl e) = rw e (Quiet-refl db)
  Quiet-update db db' p f keeps (inr e) =
      rw e (update_where-All₂ IsQuiet p f (λ c. (refl, refl)) (λ c h. keeps c) db.cursors, refl)

  pub bind_contract-Quiet :
      (now : ℕ) (n c : String) (db : Tables) → Quiet db (bind_contract now n c db).1
  unfolding bind_contract
  bind_contract-Quiet now n c db =
      Quiet-update db (bind_contract now n c db).1 (is_unbound n) (bound_row now c)
        (λ d. (refl, refl))
        (elim (Bool-cases (is_blank n || is_blank c)) [
          | inl blank ↦ inl (rw (blank, bind_contract) refl)
          | inr fine ↦
              elim (Option-cases (
                find (has_network n)
                  (update_cursors (is_unbound n) (bound_row now c) db).cursors)) [
                    | inl missing ↦ inr (ground arith)
                    | inr (d, found) ↦ inr (ground arith)
                  ]
        ])

  pub claim-Quiet :
      (now : ℕ) (n worker : String) (duration : ℤ) (db : Tables)
      → Quiet db (claim now n worker duration db).1
  unfolding claim
  claim-Quiet now n worker duration db =
      Quiet-update db (claim now n worker duration db).1 (is_claimable now n)
        (claimed_row now worker duration) (λ d. (refl, refl))
        (elim (Option-cases (find (is_claimable now n) db.cursors)) [
          | inl missing ↦ inl (ground arith)
          | inr (d, found) ↦ ground arith
        ])

  pub release-Quiet : (now : ℕ) (s : ScanClaim) (db : Tables) → Quiet db (release now s db).1
  unfolding release update_one
  release-Quiet now s db =
      Quiet-update db (release now s db).1 (is_owned s) (released_row now) (λ d. (refl, refl))
        (inr refl)

  pub of_network-push_rows :
      (h : Header) (ts : List Transfer) (es : List ChainEvent)
      → All (λ t. t.id.network ≡ network) ts
      → of_network network (push_rows h ts es) ≡ push_rows h ts (of_network network es)
  of_network-push_rows h [] es on = refl
  of_network-push_rows h (t ∷ ts) es on =
      let kept : of_network network (event_row h t ∷ es) ≡ event_row h t ∷ of_network network es =
        ground (arith, on.0) in
      of_network-push_rows h ts (event_row h t ∷ es) on.1 ∙ ap (push_rows h ts) kept

  pub AreLower-push_rows :
      (h : Header) (ts : List Transfer) (es : List ChainEvent)
      → AreLower network (h.height + 1) es
      → AreLower network (h.height + 1) (push_rows h ts es)
  AreLower-push_rows h [] es low = low
  AreLower-push_rows h (t ∷ ts) es low =
      AreLower-push_rows h ts (event_row h t ∷ es) (λ same. omega arith, low)

  pub AreLower-next :
      (height : ℕ) (es : List ChainEvent)
      → AreLower network height es
      → AreLower network (height + 1) es
  AreLower-next height [] low = tt
  AreLower-next height (e ∷ es) low =
      (λ same. omega (arith, low.0 same), AreLower-next height es low.1)

  -- The cursor that an advance has met stands at the claim, and moves by one block.
  pub advance-moves :
      (later : ℕ) (s : ScanClaim) (h : Header) (db db' : Tables) (c : Cursor)
      → s.network ≡ network
      → count_where (has_network network) db.cursors ≤ 1
      → find (has_network network) db.cursors ≡ some c
      → advance later s h db ≡ (ok tt, db')
      → (c.next_height ≡ h.height)
        × (find (has_network network) db'.cursors ≡ some (advanced_row later h.hash c))
        × (count_where (has_network network) db'.cursors ≤ 1)
        × (db'.events ≡ db.events)
  unfolding advance continues update_one
  advance-moves later s h db db' c on one found e =
      let moved : db' ≡ update_cursors (is_at later s) (advanced_row later h.hash) db =
        ground arith in
      let met : 1 ≤ count_where (is_at later s) db.cursors = ground arith in
      let rows = update_where_rows (is_at later s) (advanced_row later h.hash) db.cursors in
      let hit : is_at later s c ≡ true =
        count_where-find (has_network network) (is_at later s) (λ x p. ground (arith, on, p))
          db.cursors c one met found in
      let (d, found', same) =
        All₂-find (λ x y. y ≡ (if is_at later s x then advanced_row later h.hash x else x))
          (has_network network) (λ x y q. ground (arith, q)) db.cursors
          (update_where (is_at later s) (advanced_row later h.hash) db.cursors) c rows found in
      let count_same =
        All₂-count_where (λ x y. y ≡ (if is_at later s x then advanced_row later h.hash x else x))
          (has_network network) (λ x y q. ground (arith, q)) db.cursors
          (update_where (is_at later s) (advanced_row later h.hash) db.cursors) rows in
      let new : d ≡ advanced_row later h.hash c = ground (arith, same, hit) in
      (
        ground arith,
        rw (moved, sym new) found',
        rw moved (omega (arith, count_same, one)),
        rw moved refl,
      )
