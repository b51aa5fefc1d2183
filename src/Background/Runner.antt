-- ===== src/Background/Runner.antt =====
-- internal/background/runner.go: the loop of a worker, with its waits. Durations are nanoseconds.
use stablecoin_gateway.Prelude.{
  ℕ, ◌+◌, ◌-◌, ◌*◌, ◌/◌, ◌%◌, String, Bool, true, false, ◌||◌, ◌&&◌, not, List, [], ◌∷◌, Option,
  none, some, ltb, leb, ◌==◌, if◌then◌else◌, ℤ, pos, negsuc, max_int64, is_positive, pos_part,
  is_blank, Result, ok, err,
}

pub data Decision : Type 0 where
  retry idle stop : Decision

pub record RunnerConfig : Type 0 where
  pub name : String
  pub operation_timeout : ℤ
  pub idle_interval : ℤ
  pub retry_min : ℤ
  pub retry_max : ℤ

pub data RunnerError : Type 0 where
  invalid_runner : RunnerError

-- `NewRunner`, with an operation and a logger that are not nil. `RetryMax < RetryMin` is tested
-- where both are positive.
unfoldable pub new_runner : RunnerConfig → Result RunnerError RunnerConfig
new_runner config =
    if not (is_blank config.name)
      && is_positive config.operation_timeout
      && is_positive config.idle_interval
      && is_positive config.retry_min
      && is_positive config.retry_max
      && leb (pos_part config.retry_min) (pos_part config.retry_max)
    then ok config
    else err invalid_runner

-- `nextRetry`
unfoldable pub next_retry : ℕ → ℕ → ℕ
next_retry current maximum =
    if leb maximum current || ltb (maximum / 2) current then maximum else current * 2

-- `jitter`, where `random` is what `rand.Int64N` is drawn from: a number below `2 * spread + 1`.
-- The sum is an `int64`, so one above its largest value is negative.
abbrev pub wrapped : ℕ → ℤ
wrapped n = if leb n max_int64 then pos n else negsuc (2 * max_int64 + 1 - n)

unfoldable pub jitter : ℕ → ℕ → ℤ
jitter random duration =
    let spread = duration / 5 in
    if spread == 0 then pos duration else wrapped (duration + random % (spread * 2 + 1) - spread)

-- What one round of the loop meets: a context that ends before or after the operation, or the
-- operation's end, with whether the wait after it runs out before the context does.
pub data Attempt : Type 0 where
  cancelled_before cancelled_after : Attempt
  finished : Bool → Bool → Attempt
  failed : String → ℕ → Bool → Attempt

-- How `Run` ends; `running` is a loop that has not ended within the rounds given, with its delay.
pub data Ending : Type 0 where
  cancelled : Ending
  stopped : String → Ending
  running : ℕ → Ending

-- The waits of the rounds, in their order, and the end.
abbrev pub Effect : Type 0
Effect = List ℤ × Ending

-- `classify`; `none` is a nil classifier.
unfoldable pub classify : Option (String → Decision) → String → Decision
classify none e = retry
classify (some f) e = f e

abbrev pub wait : ℤ → Bool → Effect → Effect
wait duration true (waits, ending) = (duration ∷ waits, ending)
wait duration false rest = (duration ∷ [], cancelled)

-- `Run`, over what its rounds meet; `delay` is `retryDelay`.
module _ (config : RunnerConfig) (classifier : Option (String → Decision)) where
  -- The end of a round whose operation failed, where `again` is the rest of the loop.
  unfoldable pub finish_round : Decision → String → ℕ → Bool → ℕ → Effect → Effect → Effect
  unfolding jitter
  finish_round stop e random waited delay same longer = ([], stopped e)
  finish_round idle e random waited delay same longer = wait config.idle_interval waited same
  finish_round retry e random waited delay same longer = wait (jitter random delay) waited longer

  unfoldable pub run : ℕ → List Attempt → Effect
  unfolding finish_round next_retry classify
  run delay [] = ([], running delay)
  run delay (cancelled_before ∷ rest) = ([], cancelled)
  run delay (cancelled_after ∷ rest) = ([], cancelled)
  run delay (finished true waited ∷ rest) = run (pos_part config.retry_min) rest
  run delay (finished false waited ∷ rest) =
      wait config.idle_interval waited (run (pos_part config.retry_min) rest)
  run delay (failed e random waited ∷ rest) =
      finish_round (classify classifier e) e random waited delay (run delay rest)
        (run (next_retry delay (pos_part config.retry_max)) rest)
