-- ===== src/Tron/Simulator/Runs.antt =====
-- Every run of the simulator's operations keeps the finalized blocks.
use stablecoin_gateway.Prelude.{
  ℕ, ◌≤◌, ◌<◌, ◌≡◌, refl, ◌∙◌, inl, inr, String, ◌||◌, Option, none, some, List, [], ◌∷◌, arith,
  text_eq, length, ok, Outcome-cases, Bool-cases,
}
use stablecoin_gateway.Tron.Types.{Block, SignedTransaction}
use stablecoin_gateway.Tron.Simulator.Blocks.{block_at}
use stablecoin_gateway.Tron.Simulator.Chain.{
  FailurePoint, fail_head, fail_solidified_head, fail_block_by_height,
  fail_solidified_block_by_height, fail_transaction, fail_broadcast_before_accept,
  fail_broadcast_after_accept, Simulator, append_block, replace_unfinalized, solidify, fail_next,
  pop_failure, read_error, new_simulator, genesis, head, solidified_head, block_by_height,
  solidified_block_by_height, transaction, accept, broadcast,
}
use stablecoin_gateway.Tron.Simulator.Finality.{
  IsChain, Sound, Preserves, same_chain, append_block-Preserves, replace_unfinalized-Preserves,
  solidify-Preserves,
}

abbrev Same : Simulator → Simulator → Type 0
Same s t = (t.blocks ≡ s.blocks) × (t.solidified ≡ s.solidified)

pop_failure-Same :
    (point : FailurePoint) (queue : List String) (s : Simulator)
    → Same s (pop_failure point queue s).1
pop_failure-Same point [] s = (refl, refl)
pop_failure-Same point (failure ∷ queue) s = (refl, refl)

read_error-Same :
    (ctx : Option String) (point : FailurePoint) (s : Simulator) → Same s (read_error ctx point s).1
unfolding read_error
read_error-Same (some e) point s = (refl, refl)
read_error-Same none point s = pop_failure-Same point (s.failures point) s

fail_next-Same :
    (point : FailurePoint) (failure : Option String) (s : Simulator)
    → Same s (fail_next point failure s).1
unfolding fail_next
fail_next-Same point none s = (refl, refl)
fail_next-Same point (some failure) s = (refl, refl)

head-Same : (ctx : Option String) (s : Simulator) → Same s (head ctx s).1
unfolding head
head-Same ctx s =
    let same = read_error-Same ctx fail_head s in
    elim (Outcome-cases (read_error ctx fail_head s)) [
      | inl (u, t, e) ↦ ground arith
      | inr (x, t, e) ↦ ground arith
    ]

solidified_head-Same : (ctx : Option String) (s : Simulator) → Same s (solidified_head ctx s).1
unfolding solidified_head
solidified_head-Same ctx s =
    let same = read_error-Same ctx fail_solidified_head s in
    elim (Outcome-cases (read_error ctx fail_solidified_head s)) [
      | inl (u, t, e) ↦ ground arith
      | inr (x, t, e) ↦ ground arith
    ]

block_by_height-Same :
    (ctx : Option String) (height : ℕ) (s : Simulator) → Same s (block_by_height ctx height s).1
unfolding block_by_height
block_by_height-Same ctx height s =
    let same = read_error-Same ctx fail_block_by_height s in
    elim (Outcome-cases (read_error ctx fail_block_by_height s)) [
      | inl (u, t, e) ↦ ground arith
      | inr (x, t, e) ↦ ground arith
    ]

solidified_block_by_height-Same :
    (ctx : Option String) (height : ℕ) (s : Simulator)
    → Same s (solidified_block_by_height ctx height s).1
unfolding solidified_block_by_height
solidified_block_by_height-Same ctx height s =
    let same = read_error-Same ctx fail_solidified_block_by_height s in
    elim (Outcome-cases (read_error ctx fail_solidified_block_by_height s)) [
      | inl (u, t, e) ↦ ground arith
      | inr (x, t, e) ↦ ground arith
    ]

transaction-Same :
    (ctx : Option String) (id : String) (s : Simulator) → Same s (transaction ctx id s).1
unfolding transaction
transaction-Same ctx id s =
    let same = read_error-Same ctx fail_transaction s in
    elim (Outcome-cases (read_error ctx fail_transaction s)) [
      | inl (u, t, e) ↦ ground arith
      | inr (x, t, e) ↦ ground arith
    ]

accept-Same : (t : SignedTransaction) (s : Simulator) → Same s (accept t s).1
unfolding accept
accept-Same t s = ground arith

broadcast-Same :
    (ctx : Option String) (t : SignedTransaction) (s : Simulator) → Same s (broadcast ctx t s).1
unfolding broadcast
broadcast-Same ctx t s =
    let before = read_error-Same ctx fail_broadcast_before_accept s in
    elim (Outcome-cases (read_error ctx fail_broadcast_before_accept s)) [
      | inl (u, s', e) ↦
          let taken = accept-Same t s' in
          elim (Outcome-cases (accept t s')) [
            | inl (v, s2, f) ↦
                let after = read_error-Same ctx fail_broadcast_after_accept s2 in
                elim (Outcome-cases (read_error ctx fail_broadcast_after_accept s2)) [
                  | inl (x, s3, g) ↦ ground arith
                  | inr (x, s3, g) ↦ ground arith
                ]
            | inr (x, s2, f) ↦ ground arith
          ]
      | inr (x, s', e) ↦ ground arith
    ]

-- A call of the simulator.
pub data Operation : Type 0 where
  append : Block → Operation
  replace : ℕ → List Block → Operation
  solidify_at : ℕ → Operation
  inject : FailurePoint → Option String → Operation
  read_head read_solidified_head : Option String → Operation
  read_block read_solidified_block : Option String → ℕ → Operation
  query : Option String → String → Operation
  submit : Option String → SignedTransaction → Operation

unfoldable pub perform : Operation → Simulator → Simulator
unfolding append_block
perform (append b) s = (append_block b s).1
perform (replace n bs) s = (replace_unfinalized n bs s).1
perform (solidify_at h) s = (solidify h s).1
perform (inject point failure) s = (fail_next point failure s).1
perform (read_head ctx) s = (head ctx s).1
perform (read_solidified_head ctx) s = (solidified_head ctx s).1
perform (read_block ctx h) s = (block_by_height ctx h s).1
perform (read_solidified_block ctx h) s = (solidified_block_by_height ctx h s).1
perform (query ctx id) s = (transaction ctx id s).1
perform (submit ctx t) s = (broadcast ctx t s).1

Preserves-Same : (s t : Simulator) → Sound s → Same s t → Preserves s t
Preserves-Same s t h same = same_chain s t h same.0 same.1

perform-Preserves : (o : Operation) (s : Simulator) → Sound s → Preserves s (perform o s)
unfolding perform
perform-Preserves (append b) s h = append_block-Preserves b s h
perform-Preserves (replace n bs) s h = replace_unfinalized-Preserves n bs s h
perform-Preserves (solidify_at n) s h = solidify-Preserves n s h
perform-Preserves (inject point failure) s h =
    Preserves-Same s (perform (inject point failure) s) h (fail_next-Same point failure s)
perform-Preserves (read_head ctx) s h =
    Preserves-Same s (perform (read_head ctx) s) h (head-Same ctx s)
perform-Preserves (read_solidified_head ctx) s h =
    Preserves-Same s (perform (read_solidified_head ctx) s) h (solidified_head-Same ctx s)
perform-Preserves (read_block ctx n) s h =
    Preserves-Same s (perform (read_block ctx n) s) h (block_by_height-Same ctx n s)
perform-Preserves (read_solidified_block ctx n) s h =
    Preserves-Same s (perform (read_solidified_block ctx n) s) h
      (solidified_block_by_height-Same ctx n s)
perform-Preserves (query ctx id) s h =
    Preserves-Same s (perform (query ctx id) s) h (transaction-Same ctx id s)
perform-Preserves (submit ctx t) s h =
    Preserves-Same s (perform (submit ctx t) s) h (broadcast-Same ctx t s)

unfoldable pub run : List Operation → Simulator → Simulator
unfolding perform
run [] s = s
run (o ∷ os) s = run os (perform o s)

run-Preserves : (os : List Operation) (s : Simulator) → Sound s → Preserves s (run os s)
unfolding run
run-Preserves [] s h = same_chain s s h refl refl
run-Preserves (o ∷ os) s h =
    let (sound, forward, kept) = perform-Preserves o s h in
    let (end, onward, still) = run-Preserves os (perform o s) sound in
    (
      end,
      omega (arith, forward, onward),
      λ height below. still height (omega (arith, below, forward)) ∙ kept height below,
    )

-- From a sound state, every sequence of calls of the simulator ends in a sound state: its blocks
-- are linked from genesis by height and by parent hash, without a hash that occurs twice, and the
-- finalized height is that of a block. The finalized height does not go back, and every block at
-- or below it is the same as before.
pub run_keeps :
    (os : List Operation) (s : Simulator) (height : ℕ)
    → Sound s
    → height ≤ s.solidified
    → IsChain (run os s).blocks
      × ((run os s).solidified < length (run os s).blocks)
      × (s.solidified ≤ (run os s).solidified)
      × (block_at height (run os s).blocks ≡ block_at height s.blocks)
run_keeps os s height h below =
    let (sound, forward, kept) = run-Preserves os s h in
    (sound.0, sound.1, forward, kept height below)

-- A simulator that was made is sound.
pub new_simulator-Sound :
    (network genesis_hash : String) (s : Simulator)
    → new_simulator network genesis_hash ≡ ok s
    → Sound s
unfolding new_simulator
new_simulator-Sound network genesis_hash s h =
    elim (Bool-cases (text_eq network "" || text_eq genesis_hash "")) [
      | inl bad ↦ ground arith
      | inr fine ↦
          let eb : s.blocks ≡ genesis genesis_hash ∷ [] = ground arith in
          let es : s.solidified ≡ 0 = ground arith in
          rw (eb, es) (IsChain.start genesis_hash, omega arith)
    ]
