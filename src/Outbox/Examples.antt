-- ===== src/Outbox/Examples.antt =====
-- Two events, and a processor with one handler that fails.
use stablecoin_gateway.Prelude.{◌-◌, refl, false, none, some, [], ◌∷◌, pos, All₂, arith}
use stablecoin_gateway.Outbox.Queue.{pending, processing, Event, EventRow, Events, claim}
use stablecoin_gateway.Outbox.Leases.{Leased, AreKeyed, claim-Leased}
use stablecoin_gateway.Outbox.Processor.{Config, Processor, retry_backoff, process}
use stablecoin_gateway.Outbox.Backoff.{IsDelay, retry_backoff-IsDelay}
use stablecoin_gateway.Outbox.Verdicts.{Processed, process-Processed}

abbrev waiting_row : EventRow
waiting_row = record {
  id = "e1";
  topic = "deposit.posted";
  payload = "{}";
  status = pending;
  attempts = 0;
  available_at = 5;
  created_at = 1;
  lease_owner = none;
  lease_until = none;
  last_error = none;
  updated_at = 1;
}

abbrev held_row : EventRow
held_row = record waiting_row {
  id = "e2";
  status = processing;
  attempts = 3;
  lease_owner = some "w";
  lease_until = some 50;
}

abbrev two_rows : Events
two_rows = waiting_row ∷ held_row ∷ []

abbrev hundred_to_thousand : Config
hundred_to_thousand = record {
  worker_id = "w";
  batch_size = pos 10;
  lease_duration = pos 30000000000;
  max_attempts = pos 5;
  base_backoff = pos 100;
  max_backoff = pos 1000;
}

abbrev failing : Processor
failing = record {
  config = hundred_to_thousand;
  handlers = ("deposit.posted", λ e. some "timeout") ∷ [];
  topics = "deposit.posted" ∷ [];
}

abbrev held_event : Event
held_event = record {
  id = "e2";
  topic = "deposit.posted";
  payload = "{}";
  attempts = 3;
  created_at = 1;
}

waiting_row-AreKeyed : AreKeyed (waiting_row ∷ [])
waiting_row-AreKeyed id = ground arith

claim-Leased_example :
    All₂
      (Leased (λ id. false) 10 "w" ("deposit.posted" ∷ []) (pos 30000000000))
      (waiting_row ∷ [])
      (claim
        (λ id. false)
        10
        "w"
        ("deposit.posted" ∷ [])
        (pos 10)
        (pos 30000000000)
        (waiting_row ∷ [])).1
claim-Leased_example =
    claim-Leased (λ id. false) 10 "w" ("deposit.posted" ∷ []) (pos 10) (pos 30000000000)
      (waiting_row ∷ []) waiting_row-AreKeyed

process-Processed_example :
    All₂ (Processed failing 10 held_event) two_rows (process failing 10 held_event two_rows).1
process-Processed_example = process-Processed failing 10 held_event two_rows

retry_backoff-IsDelay_example : IsDelay 1000 100 (3 - 1) (retry_backoff hundred_to_thousand 3)
retry_backoff-IsDelay_example =
    retry_backoff-IsDelay hundred_to_thousand 100 1000 3 refl refl (omega arith)
