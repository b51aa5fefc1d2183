-- ===== src/Tron/Simulator/Examples.antt =====
-- A chain of three blocks with two finalized, whose last block is replaced.
use stablecoin_gateway.Prelude.{ℕ, ◌≤◌, ◌<◌, ◌≡◌, String, some, List, [], ◌∷◌, arith, length}
use stablecoin_gateway.Tron.Types.{Block}
use stablecoin_gateway.Tron.Simulator.Blocks.{block_at}
use stablecoin_gateway.Tron.Simulator.Chain.{Simulator, genesis}
use stablecoin_gateway.Tron.Simulator.Finality.{IsChain, Sound}
use stablecoin_gateway.Tron.Simulator.Runs.{Operation, append, replace, solidify_at, run, run_keeps}

abbrev block_of : ℕ → String → String → Block
block_of height hash parent = record {
  header = record { height = height; hash = hash; parent_hash = parent; timestamp = some 1000 };
  receipts = [];
  transfers = [];
}

abbrev only_genesis : Simulator
only_genesis = record {
  network = "nile";
  blocks = genesis "g" ∷ [];
  solidified = 0;
  broadcasted = [];
  failures = λ point. [];
}

only_genesis-Sound : Sound only_genesis
only_genesis-Sound = (IsChain.start "g", omega arith)

abbrev microfork : List Operation
microfork =
    append (block_of 1 "b" "g")
    ∷ append (block_of 2 "c" "b")
    ∷ solidify_at 1
    ∷ replace 2 (block_of 2 "d" "b" ∷ [])
    ∷ []

run_keeps_example :
    IsChain (run microfork only_genesis).blocks
    × ((run microfork only_genesis).solidified < length (run microfork only_genesis).blocks)
    × (only_genesis.solidified ≤ (run microfork only_genesis).solidified)
    × (block_at 0 (run microfork only_genesis).blocks ≡ block_at 0 only_genesis.blocks)
run_keeps_example = run_keeps microfork only_genesis 0 only_genesis-Sound (omega arith)
