-- ===== src/Tron/Simulator/Finality.antt =====
-- What stays of the simulated chain: its links, and the blocks up to the finalized height.
use stablecoin_gateway.Prelude.{
  ℕ, suc, ◌≤◌, ◌<◌, ◌≡◌, refl, ◌∙◌, inl, inr, String, true, false, ◌||◌, Option, none, some, List,
  [], ◌∷◌, arith, ltb, leb, ◌==◌, length, Bool-cases,
}
use stablecoin_gateway.Tron.Types.{Block}
use stablecoin_gateway.Tron.Simulator.Blocks.{
  block_at, first_blocks, validate_block, extend, has_hash,
}
use stablecoin_gateway.Tron.Simulator.Chain.{
  Simulator, genesis, append_block, replace_unfinalized, replaced, solidify,
}

-- The blocks from a genesis block on, the last one first: each height is the index of its block,
-- each parent hash the hash before it, and no hash occurs twice.
pub data IsChain : List Block → Type 0 where
  start : (hash : String) → IsChain (genesis hash ∷ [])
  next :
      {b last : Block} {rest : List Block}
      → IsChain (last ∷ rest)
      → b.header.height ≡ length (last ∷ rest)
      → b.header.parent_hash ≡ last.header.hash
      → has_hash b.header.hash (last ∷ rest) ≡ false
      → IsChain (b ∷ last ∷ rest)

chain_height : (b : Block) (rest : List Block) → IsChain (b ∷ rest) → b.header.height ≡ length rest
chain_height b [] (IsChain.start hash) = refl
chain_height b (last ∷ rest) (IsChain.next c h p f) = h

validate_block-IsChain :
    (network : String) (bs : List Block) (b : Block)
    → IsChain bs
    → validate_block network bs b ≡ true
    → IsChain (b ∷ bs)
unfolding validate_block
validate_block-IsChain network [] b c v = ground arith
validate_block-IsChain network (last ∷ rest) b c v =
    let top = chain_height last rest c in
    IsChain.next c (ground arith) (ground arith) (ground arith)

first_blocks-IsChain : (n : ℕ) (bs : List Block) → 1 ≤ n → IsChain bs → IsChain (first_blocks n bs)
unfolding first_blocks
first_blocks-IsChain n _ pos_n (IsChain.start hash) =
    let whole : leb 1 n ≡ true = ground arith in rw whole (IsChain.start hash)
first_blocks-IsChain n (b ∷ last ∷ rest) pos_n (IsChain.next c h p f) =
    elim (Bool-cases (leb (suc (suc (length rest))) n)) [
      | inl whole ↦ rw (whole, first_blocks) (IsChain.next c h p f)
      | inr part ↦ rw (part, first_blocks) (first_blocks-IsChain n (last ∷ rest) pos_n c)
    ]

extend-IsChain :
    (network : String) (bs replacement new : List Block)
    → IsChain bs
    → extend network bs replacement ≡ some new
    → IsChain new
unfolding extend
extend-IsChain network bs [] new c h = let same : new ≡ bs = cc in rw same c
extend-IsChain network bs (b ∷ more) new c h = elim (Bool-cases (validate_block network bs b)) [
  | inl v ↦
      let rest : extend network (b ∷ bs) more ≡ some new = ground arith in
      extend-IsChain network (b ∷ bs) more new (validate_block-IsChain network bs b c v) rest
  | inr bad ↦ ground arith
]

block_at-first :
    (height n : ℕ) (bs : List Block)
    → height < n
    → block_at height (first_blocks n bs) ≡ block_at height bs
unfolding first_blocks block_at
block_at-first height n [] h = refl
block_at-first height n (b ∷ bs) h = ground (arith, block_at-first height n bs h)

block_at_cons :
    (height : ℕ) (b : Block) (bs : List Block)
    → height < length bs
    → block_at height (b ∷ bs) ≡ block_at height bs
unfolding block_at
block_at_cons height b bs h = ground arith

length-first : (n : ℕ) (bs : List Block) → n ≤ length bs → length (first_blocks n bs) ≡ n
unfolding first_blocks
length-first n [] h = ground arith
length-first n (b ∷ bs) h = elim (Bool-cases (leb (suc (length bs)) n)) [
  | inl whole ↦ rw (whole, first_blocks) (ground arith)
  | inr part ↦ rw (part, first_blocks) (length-first n bs (ground arith))
]

-- A longer chain that has the same blocks at the heights below `n`.
abbrev pub Extends : ℕ → List Block → List Block → Type 0
Extends n bs new =
    ((height : ℕ) → height < n → block_at height new ≡ block_at height bs) × (n ≤ length new)

extend-Extends :
    (network : String) (n : ℕ) (bs replacement new : List Block)
    → n ≤ length bs
    → extend network bs replacement ≡ some new
    → Extends n bs new
unfolding extend
extend-Extends network n bs [] new h e =
    let same : new ≡ bs = cc in rw same (λ height below. refl, h)
extend-Extends network n bs (b ∷ more) new h e = elim (Bool-cases (validate_block network bs b)) [
  | inl v ↦
      let rest : extend network (b ∷ bs) more ≡ some new = ground arith in
      let longer : n ≤ length (b ∷ bs) = omega (arith, h) in
      let (same, more_blocks) = extend-Extends network n (b ∷ bs) more new longer rest in
      (
        λ height below. same height below ∙ block_at_cons height b bs (omega (arith, below, h)),
        more_blocks,
      )
  | inr bad ↦ ground arith
]

abbrev pub Sound : Simulator → Type 0
Sound s = IsChain s.blocks × (s.solidified < length s.blocks)

-- What an operation may do: keep the chain sound, move the finalized height forward only, and
-- keep every block that was finalized.
abbrev pub Preserves : Simulator → Simulator → Type 0
Preserves s t =
    Sound t
    × (s.solidified ≤ t.solidified)
    × ((height : ℕ) → height ≤ s.solidified → block_at height t.blocks ≡ block_at height s.blocks)

pub same_chain :
    (s t : Simulator) → Sound s → t.blocks ≡ s.blocks → t.solidified ≡ s.solidified → Preserves s t
same_chain s t h eb es = rw (eb, es) (h, omega arith, λ height below. refl)

pub append_block-Preserves :
    (b : Block) (s : Simulator) → Sound s → Preserves s (append_block b s).1
unfolding append_block
append_block-Preserves b s h = elim (Bool-cases (validate_block s.network s.blocks b)) [
  | inl v ↦
      rw (v, append_block)
        (
          (validate_block-IsChain s.network s.blocks b h.0 v, omega (arith, h.1)),
          omega arith,
          λ height below. block_at_cons height b s.blocks (omega (arith, below, h.1)),
        )
  | inr bad ↦ rw (bad, append_block) (same_chain s s h refl refl)
]

replaced-Preserves :
    (n : ℕ) (replacement : List Block) (s : Simulator) (o : Option (List Block))
    → s.solidified < n
    → n ≤ length s.blocks
    → extend s.network (first_blocks n s.blocks) replacement ≡ o
    → Sound s
    → Preserves s (replaced o s).1
replaced-Preserves n replacement s none past fits e h = same_chain s s h refl refl
replaced-Preserves n replacement s (some new) past fits e h =
    let kept = length-first n s.blocks fits in
    let (same, longer) = extend-Extends s.network n _ replacement new (omega (arith, kept)) e in
    (
      (
        extend-IsChain s.network _ replacement new
            (first_blocks-IsChain n s.blocks (omega (arith, past)) h.0) e,
        omega (arith, past, longer),
      ),
      omega arith,
      λ height below.
          same height (omega (arith, past, below))
          ∙ block_at-first height n s.blocks (omega (arith, past, below)),
    )

pub replace_unfinalized-Preserves :
    (n : ℕ) (replacement : List Block) (s : Simulator)
    → Sound s
    → Preserves s (replace_unfinalized n replacement s).1
unfolding replace_unfinalized
replace_unfinalized-Preserves n replacement s h = elim (Bool-cases (leb n s.solidified)) [
  | inl final ↦ rw (final, replace_unfinalized) (same_chain s s h refl refl)
  | inr past ↦ elim (Bool-cases (n == 0 || ltb (length s.blocks) n)) [
    | inl wrong ↦ rw (past, wrong, replace_unfinalized) (same_chain s s h refl refl)
    | inr fits ↦
        rw (past, fits, replace_unfinalized)
          (replaced-Preserves n replacement s _ (ground arith) (ground arith) refl h)
  ]
]

pub solidify-Preserves : (height : ℕ) (s : Simulator) → Sound s → Preserves s (solidify height s).1
unfolding solidify
solidify-Preserves height s h =
    elim (Bool-cases (ltb height s.solidified || leb (length s.blocks) height)) [
      | inl bad ↦ rw (bad, solidify) (same_chain s s h refl refl)
      | inr fine ↦ rw (fine, solidify) ((h.0, ground arith), ground arith, λ n below. refl)
    ]
