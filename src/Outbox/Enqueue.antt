-- ===== src/Outbox/Enqueue.antt =====
-- internal/outbox/enqueue.go: a pending event, created in the caller's transaction.
use stablecoin_gateway.Prelude.{
  String, Bool, not, ◌||◌, List, ◌∷◌, if◌then◌else◌, is_blank, text_eq, any, Result, ok, err,
}

pub record PendingEvent : Type 0 where
  pub id : String
  pub topic : String
  pub aggregate_type : String
  pub aggregate_id : String
  pub payload : String

pub data Error : Type 0 where
  invalid_pending_event event_exists : Error

-- The primary key of `outbox_events`.
abbrev pub has_event : String → List PendingEvent → Bool
has_event id events = any (λ e. text_eq e.id id) events

-- `json_valid` is `json.Valid`.
module _ (json_valid : String → Bool) where
  -- `validatePendingEvent`; true is the nil error.
  unfoldable pub is_pending_event : PendingEvent → Bool
  is_pending_event e = not (
      is_blank e.id
      || is_blank e.topic
      || is_blank e.aggregate_type
      || is_blank e.aggregate_id
      || not (json_valid e.payload))

  -- `EnqueueInTransaction`, over the table of events; the new row is pending.
  unfoldable pub enqueue_in_transaction :
      PendingEvent → List PendingEvent → Result Error (List PendingEvent)
  unfolding is_pending_event
  enqueue_in_transaction e events =
      if is_pending_event e
      then (if has_event e.id events then err event_exists else ok (e ∷ events))
      else err invalid_pending_event
