-- ===== src/Outbox/Queue.antt =====
-- internal/outbox/postgres.go: the table `outbox_events`, with the lease of an event.
use Prim.Native.String.{compare as text_compare}
use Prim.Native.Nat.{Ordering}
use stablecoin_gateway.Prelude.{
  ℕ, ◌+◌, String, Bool, true, false, not, ◌&&◌, ◌||◌, Option, none, some, List, [], ◌∷◌, map, take,
  ltb, leb, ◌==◌, if◌then◌else◌, ℤ, pos, negsuc, text_eq, any, update_where, count_where, Result,
  ok, err,
}
use stablecoin_gateway.Lease.{milliseconds}

pub data Status : Type 0 where
  pending processing succeeded dead : Status

-- A row of `outbox_events`. Times are milliseconds of the database's clock.
pub record EventRow : Type 0 where
  pub id : String
  pub topic : String
  pub payload : String
  pub status : Status
  pub attempts : ℕ
  pub available_at : ℕ
  pub created_at : ℕ
  pub lease_owner : Option String
  pub lease_until : Option ℕ
  pub last_error : Option String
  pub updated_at : ℕ

pub record Event : Type 0 where
  pub id : String
  pub topic : String
  pub payload : String
  pub attempts : ℕ
  pub created_at : ℕ

pub data QueueError : Type 0 where
  lease_lost several_rows negative_limit : QueueError

abbrev pub Events : Type 0
Events = List EventRow

-- `ORDER BY available_at, created_at, id`
abbrev text_leb : String → String → Bool
text_leb s t = elim (text_compare s t) [ Ordering.gt ↦ false | _ ↦ true ]

unfoldable pub goes_first : EventRow → EventRow → Bool
goes_first x y =
    ltb x.available_at y.available_at
    || x.available_at == y.available_at
      && (ltb x.created_at y.created_at || x.created_at == y.created_at && text_leb x.id y.id)

unfoldable pub insert_row : EventRow → Events → Events
unfolding goes_first
insert_row x [] = x ∷ []
insert_row x (y ∷ ys) =
    let rest = insert_row x ys in if goes_first x y then x ∷ y ∷ ys else y ∷ rest

unfoldable pub sort_rows : Events → Events
unfolding insert_row
sort_rows [] = []
sort_rows (x ∷ xs) = insert_row x (sort_rows xs)

abbrev pub keep : (EventRow → Bool) → Events → Events
keep p [] = []
keep p (x ∷ xs) = let rest = keep p xs in if p x then x ∷ rest else rest

abbrev pub is_due : ℕ → Option ℕ → Bool
is_due now none = false
is_due now (some t) = leb t now

-- `pending` and available, or `processing` under a lease that has ended.
abbrev pub is_available : ℕ → EventRow → Bool
is_available now x = elim x.status [
  | pending ↦ leb x.available_at now
  | processing ↦ is_due now x.lease_until
  | succeeded ↦ false
  | dead ↦ false
]

-- The `WHERE` of the candidates; `locked` are the rows that `SKIP LOCKED` passes over.
abbrev pub is_candidate : (String → Bool) → ℕ → List String → EventRow → Bool
is_candidate locked now topics x =
    any (text_eq x.topic) topics && is_available now x && not (locked x.id)

unfoldable pub candidates : (String → Bool) → ℕ → List String → ℕ → Events → Events
unfolding sort_rows
candidates locked now topics limit xs =
    take limit (sort_rows (keep (is_candidate locked now topics) xs))

abbrev pub lease_row : ℕ → String → ℤ → EventRow → EventRow
lease_row now worker duration x = record x {
  status = processing;
  attempts = x.attempts + 1;
  lease_owner = some worker;
  lease_until = some (now + milliseconds duration);
  updated_at = now;
}

abbrev pub event_of : EventRow → Event
event_of x = record {
  id = x.id;
  topic = x.topic;
  payload = x.payload;
  attempts = x.attempts;
  created_at = x.created_at;
}

-- `event.id = candidates.id`: the join of the table with its own rows, on the primary key.
abbrev pub is_chosen : Events → EventRow → Bool
is_chosen chosen x = any (λ c. text_eq x.id c.id) chosen

-- `Claim`; the events are those of the rows updated, and a negative `LIMIT` is an error.
unfoldable pub claim :
    (String → Bool)
    → ℕ
    → String
    → List String
    → ℤ
    → ℤ
    → Events
    → Result QueueError (List Event) × Events
unfolding candidates
claim locked now worker topics (negsuc n) duration xs = (err negative_limit, xs)
claim locked now worker topics (pos limit) duration xs =
    let is_row = is_chosen (candidates locked now topics limit xs) in
    let leased = map (lease_row now worker duration) (keep is_row xs) in
    (ok (map event_of leased), update_where is_row (lease_row now worker duration) xs)

-- `WHERE id = $1 AND status = 'processing' AND lease_owner = $2`
abbrev pub holds_lease : String → Option String → Bool
holds_lease worker none = false
holds_lease worker (some owner) = text_eq owner worker

abbrev pub is_processing : Status → Bool
is_processing processing = true
is_processing _ = false

unfoldable pub is_held : String → String → EventRow → Bool
is_held event_id worker x =
    text_eq x.id event_id && is_processing x.status && holds_lease worker x.lease_owner

-- `updateLeasedEvent`
unfoldable pub update_leased_event :
    String → String → (EventRow → EventRow) → Events → Result QueueError (Unit {0}) × Events
unfolding is_held
update_leased_event event_id worker f xs =
    let affected = count_where (is_held event_id worker) xs in
    let updated = update_where (is_held event_id worker) f xs in
    if affected == 0
    then (err lease_lost, updated)
    else if affected == 1
    then (ok tt, updated)
    else (err several_rows, updated)

abbrev pub succeeded_row : ℕ → EventRow → EventRow
succeeded_row now x = record x {
  status = succeeded;
  lease_owner = none;
  lease_until = none;
  last_error = none;
  updated_at = now;
}

abbrev pub retry_row : ℕ → ℤ → String → EventRow → EventRow
retry_row now retry_after reason x = record x {
  status = pending;
  available_at = now + milliseconds retry_after;
  lease_owner = none;
  lease_until = none;
  last_error = some reason;
  updated_at = now;
}

abbrev pub dead_row : ℕ → String → EventRow → EventRow
dead_row now reason x = record x {
  status = dead;
  lease_owner = none;
  lease_until = none;
  last_error = some reason;
  updated_at = now;
}

-- `MarkSucceeded`
unfoldable pub mark_succeeded : ℕ → String → String → Events → Result QueueError (Unit {0}) × Events
mark_succeeded now event_id worker = update_leased_event event_id worker (succeeded_row now)

-- `MarkRetry`
unfoldable pub mark_retry :
    ℕ → String → String → ℤ → String → Events → Result QueueError (Unit {0}) × Events
mark_retry now event_id worker retry_after reason =
    update_leased_event event_id worker (retry_row now retry_after reason)

-- `MarkDead`
unfoldable pub mark_dead :
    ℕ → String → String → String → Events → Result QueueError (Unit {0}) × Events
mark_dead now event_id worker reason = update_leased_event event_id worker (dead_row now reason)
