-- ===== src/Background/Delays.antt =====
-- How long the loop of a worker waits.
use stablecoin_gateway.Prelude.{
  ℕ, ◌+◌, ◌-◌, ◌*◌, ◌%◌, max_int64, ℤ, pos, ◌/◌, ◌≤◌, ◌≡◌, refl, ◌⊎◌, inl, inr, String, Bool, true,
  false, ◌||◌, List, [], ◌∷◌, Option, arith, ltb, leb, ◌==◌, pos_part, ok, All, Bool-cases,
}
use stablecoin_gateway.Background.Runner.{
  Decision, retry, idle, stop, RunnerConfig, Attempt, Effect, new_runner, next_retry, jitter,
  classify, wait, finish_round, run,
}

next_retry_bounds :
    (current low maximum : ℕ)
    → low ≤ current
    → current ≤ maximum
    → (low ≤ next_retry current maximum) × (next_retry current maximum ≤ maximum)
unfolding next_retry
next_retry_bounds current low maximum l h =
    elim (Bool-cases (leb maximum current || ltb (maximum / 2) current)) [
      | inl top ↦ rw (top, next_retry) (omega arith, omega arith)
      | inr below ↦ rw (below, next_retry) (omega arith, ground arith)
    ]

-- A positive delay of at most the largest delay and a fifth of it.
abbrev pub IsDelayUpTo : ℕ → ℤ → Type 0
IsDelayUpTo maximum duration = (n : ℕ) × (duration ≡ pos n) × (1 ≤ n) × (n ≤ maximum + maximum / 5)

jitter-IsDelayUpTo :
    (random duration maximum : ℕ)
    → 1 ≤ duration
    → duration ≤ maximum
    → maximum + maximum / 5 ≤ max_int64
    → IsDelayUpTo maximum (jitter random duration)
unfolding jitter
jitter-IsDelayUpTo random duration maximum h top fits = elim (Bool-cases (duration / 5 == 0)) [
  | inl none_left ↦ rw (none_left, jitter) (duration, refl, h, omega (arith, top))
  | inr some_left ↦
      let n : ℕ = duration + random % (duration / 5 * 2 + 1) - duration / 5 in
      let bounds : (1 ≤ n) × (n ≤ maximum + maximum / 5) = (omega arith, omega arith) in
      let inside : leb n max_int64 ≡ true = ground arith in
      rw (some_left, jitter) (n, rw inside refl, bounds.0, bounds.1)
]

-- A wait is the idle interval, or a positive delay of at most the largest delay and a fifth of it.
abbrev pub IsWait : RunnerConfig → ℤ → Type 0
IsWait config duration =
    (duration ≡ config.idle_interval) ⊎ IsDelayUpTo (pos_part config.retry_max) duration

module _ (config : RunnerConfig) (classifier : Option (String → Decision))
    (fits : pos_part config.retry_max + pos_part config.retry_max / 5 ≤ max_int64) where
  abbrev AreWaits : Effect → Type 0
  AreWaits r = All (IsWait config) r.0

  -- The delays between the smallest and the largest.
  abbrev IsInRange : ℕ → Type 0
  IsInRange delay = (1 ≤ delay) × (delay ≤ pos_part config.retry_max)

  wait-AreWaits :
      (duration : ℤ) (b : Bool) (rest : Effect)
      → IsWait config duration
      → AreWaits rest
      → AreWaits (wait duration b rest)
  wait-AreWaits duration true (waits, ending) h r = (h, r)
  wait-AreWaits duration false rest h r = (h, tt)

  jitter-IsWait : (random delay : ℕ) → IsInRange delay → IsWait config (jitter random delay)
  jitter-IsWait random delay h =
      inr (jitter-IsDelayUpTo random delay (pos_part config.retry_max) h.0 h.1 fits)

  finish_round-AreWaits :
      (decision : Decision) (e : String) (random : ℕ) (waited : Bool) (delay : ℕ)
      (same longer : Effect)
      → IsInRange delay
      → AreWaits same
      → AreWaits longer
      → AreWaits (finish_round config classifier decision e random waited delay same longer)
  unfolding finish_round
  finish_round-AreWaits stop e random waited delay same longer h s l = tt
  finish_round-AreWaits idle e random waited delay same longer h s l =
      wait-AreWaits config.idle_interval waited same (inl refl) s
  finish_round-AreWaits retry e random waited delay same longer h s l =
      wait-AreWaits (jitter random delay) waited longer (jitter-IsWait random delay h) l

  run-AreWaits :
      (delay : ℕ) (rest : List Attempt)
      → IsInRange (pos_part config.retry_min)
      → IsInRange delay
      → AreWaits (run config classifier delay rest)
  unfolding run
  run-AreWaits delay [] low h = tt
  run-AreWaits delay (Attempt.cancelled_before ∷ rest) low h = tt
  run-AreWaits delay (Attempt.cancelled_after ∷ rest) low h = tt
  run-AreWaits delay (Attempt.finished true waited ∷ rest) low h =
      run-AreWaits (pos_part config.retry_min) rest low low
  run-AreWaits delay (Attempt.finished false waited ∷ rest) low h =
      wait-AreWaits config.idle_interval waited _ (inl refl)
        (run-AreWaits (pos_part config.retry_min) rest low low)
  run-AreWaits delay (Attempt.failed e random waited ∷ rest) low h =
      finish_round-AreWaits (classify classifier e) e random waited delay _ _ h
        (run-AreWaits delay rest low h)
        (run-AreWaits (next_retry delay (pos_part config.retry_max)) rest low
          (next_retry_bounds delay 1 (pos_part config.retry_max) h.0 h.1))

-- Every wait of a runner that `NewRunner` accepted, over any rounds, is the idle interval, or a
-- delay after a failure that is at least 1 and at most the largest delay and a fifth of it. Condition:
-- the largest delay and a fifth of it are together an `int64`, which `NewRunner` does not test.
pub run_waits :
    (given config : RunnerConfig) (classifier : Option (String → Decision)) (rounds : List Attempt)
    → new_runner given ≡ ok config
    → pos_part config.retry_max + pos_part config.retry_max / 5 ≤ max_int64
    → All (IsWait config) (run config classifier (pos_part config.retry_min) rounds).0
unfolding new_runner
run_waits given config classifier rounds h fits =
    let low : IsInRange config classifier fits (pos_part config.retry_min) =
      (ground arith, ground arith) in
    run-AreWaits config classifier fits (pos_part config.retry_min) rounds low low
