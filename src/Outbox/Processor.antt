-- ===== src/Outbox/Processor.antt =====
-- internal/outbox/outbox.go: the processor that claims events and hands them to their handlers.
use Prim.Native.String.{◌++◌ as append}
use stablecoin_gateway.Prelude.{
  ℕ, zero, suc, ◌-◌, ◌*◌, ◌/◌, String, Bool, true, false, Option, none, some, List, [], ◌∷◌, map,
  length, ltb, leb, if◌then◌else◌, ℤ, pos, negsuc, is_positive, text_eq, Result, ok, err,
}
use stablecoin_gateway.Outbox.Queue.{
  Event, Events, QueueError, claim, mark_succeeded, mark_retry, mark_dead,
}

-- Durations are nanoseconds; `base_backoff` and `max_backoff` are positive once checked.
pub record Config : Type 0 where
  pub worker_id : String
  pub batch_size : ℤ
  pub lease_duration : ℤ
  pub max_attempts : ℤ
  pub base_backoff : ℤ
  pub max_backoff : ℤ

pub data ConfigError : Type 0 where
  worker_id_required invalid_batch_size invalid_lease_duration : ConfigError
  invalid_max_attempts invalid_backoff : ConfigError

-- A handler returns `none`, the nil error, or the text of its error.
abbrev pub Handler : Type 0
Handler = Event → Option String

-- `handlers` and `topics`; `none` is a nil handler.
pub record Processor : Type 0 where
  pub config : Config
  pub handlers : List (String × Handler)
  pub topics : List String

abbrev pub ltb_ℤ : ℤ → ℤ → Bool
ltb_ℤ (pos m) (pos n) = ltb m n
ltb_ℤ (pos m) (negsuc n) = false
ltb_ℤ (negsuc m) (pos n) = true
ltb_ℤ (negsuc m) (negsuc n) = ltb n m

-- The loop of `NewProcessor` over the map of handlers.
unfoldable pub registered : List (String × Option Handler) → List (String × Handler)
registered [] = []
registered ((topic, none) ∷ rest) = registered rest
registered ((topic, some handler) ∷ rest) =
    let others = registered rest in if text_eq topic "" then others else (topic, handler) ∷ others

-- `NewProcessor` with a store that is not nil; `sort` is `sort.Strings`.
unfoldable pub new_processor :
    (List String → List String)
    → Config
    → List (String × Option Handler)
    → Result ConfigError Processor
unfolding registered
new_processor sort config handlers =
    if text_eq config.worker_id ""
    then err worker_id_required
    else if is_positive config.batch_size
    then if is_positive config.lease_duration
      then if is_positive config.max_attempts
        then if is_positive config.base_backoff
          then if ltb_ℤ config.max_backoff config.base_backoff
            then err invalid_backoff
            else ok (record {
              config = config;
              handlers = registered handlers;
              topics = sort (map (λ h. h.0) (registered handlers));
            })
          else err invalid_backoff
        else err invalid_max_attempts
      else err invalid_lease_duration
    else err invalid_batch_size

-- The loop of `retryBackoff`, with the rounds that are left.
unfoldable pub backoff_loop : ℕ → ℕ → ℕ → ℕ
backoff_loop max backoff zero = if ltb max backoff then max else backoff
backoff_loop max backoff (suc rounds) =
    let rest = backoff_loop max (backoff * 2) rounds in if leb (max / 2) backoff then max else rest

abbrev to_ℕ : ℤ → ℕ
to_ℕ (pos n) = n
to_ℕ (negsuc n) = 0

-- `retryBackoff`, of a checked configuration.
unfoldable pub retry_backoff : Config → ℕ → ℕ
unfolding backoff_loop
retry_backoff config attempts =
    backoff_loop (to_ℕ config.max_backoff) (to_ℕ config.base_backoff) (attempts - 1)

-- `processor.handlers[topic]`
abbrev pub handler_of : String → List (String × Handler) → Option Handler
handler_of topic [] = none
handler_of topic ((key, handler) ∷ rest) =
    if text_eq key topic then some handler else handler_of topic rest

abbrev pub Done : Type 0
Done = Result QueueError (Unit {0}) × Events

-- The end of `process`, by what the handler returned.
unfoldable pub record_outcome : Processor → ℕ → Event → Option String → Events → Done
record_outcome p now event none xs = mark_succeeded now event.id p.config.worker_id xs
record_outcome p now event (some reason) xs =
    if ltb_ℤ (pos event.attempts) p.config.max_attempts
    then mark_retry now event.id p.config.worker_id (pos (retry_backoff p.config event.attempts))
        reason xs
    else mark_dead now event.id p.config.worker_id reason xs

-- `process`
unfoldable pub process : Processor → ℕ → Event → Events → Done
unfolding record_outcome
process p now event xs = elim (handler_of event.topic p.handlers) [
  | none ↦ mark_dead now event.id p.config.worker_id (append "未注册 Outbox Handler: " event.topic) xs
  | some handler ↦ record_outcome p now event (handler event) xs
]

-- The loop of `RunOnce`, where `clock` gives the time at which the outcome of an event is
-- recorded: the events whose outcome was not recorded, with the error.
unfoldable pub process_all :
    Processor → (Event → ℕ) → List Event → Events → List (String × QueueError) × Events
process_all p clock [] xs = ([], xs)
process_all p clock (event ∷ events) xs =
    let (r, ys) = process p (clock event) event xs in
    let (errors, zs) = process_all p clock events ys in
    elim r [ ok u ↦ (errors, zs) | err e ↦ ((event.id, e) ∷ errors, zs) ]

-- `RunOnce`: how many events it claimed with the errors of the events, or the error of the claim.
unfoldable pub run_once :
    Processor
    → (String → Bool)
    → ℕ
    → (Event → ℕ)
    → Events
    → Result QueueError (ℕ × List (String × QueueError)) × Events
unfolding process_all
run_once p locked now clock xs =
    let (r, ys) =
      claim locked now p.config.worker_id p.topics p.config.batch_size p.config.lease_duration xs in
    elim r [
      | err e ↦ (err e, ys)
      | ok events ↦
          let (errors, zs) = process_all p clock events ys in (ok (length events, errors), zs)
    ]
