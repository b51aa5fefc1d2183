-- ===== src/Background/Examples.antt =====
-- A worker that fails twice, is idle once and is then cancelled.
use stablecoin_gateway.Prelude.{
  ◌≡◌, refl, true, false, arith, List, [], ◌∷◌, none, pos, pos_part, ok, All, is_blank, trim_space,
  trim_left, trim_right, is_space, text_dec,
}
use stablecoin_gateway.Background.Runner.{RunnerConfig, Attempt, new_runner, run}
use stablecoin_gateway.Background.Delays.{IsWait, run_waits}

abbrev one_second : RunnerConfig
one_second = record {
  name = "payout";
  operation_timeout = pos 10000000000;
  idle_interval = pos 500000000;
  retry_min = pos 1000000000;
  retry_max = pos 30000000000;
}

one_second-accepted : new_runner one_second ≡ ok one_second
unfolding new_runner is_blank trim_space trim_left trim_right is_space text_dec
one_second-accepted = refl

abbrev four_rounds : List Attempt
four_rounds =
    Attempt.failed "timeout" 7 true
    ∷ Attempt.failed "timeout" 9 true
    ∷ Attempt.finished false true
    ∷ Attempt.cancelled_before
    ∷ []

run_waits_example :
    All (IsWait one_second) (run one_second none (pos_part one_second.retry_min) four_rounds).0
run_waits_example =
    run_waits one_second one_second none four_rounds one_second-accepted (omega arith)
