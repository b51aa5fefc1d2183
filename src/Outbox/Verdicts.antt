-- ===== src/Outbox/Verdicts.antt =====
-- What the processor makes of the row of an event that it has handled.
use stablecoin_gateway.Prelude.{
  ℕ, ◌+◌, String, ◌≡◌, refl, ◌⊎◌, inl, inr, true, false, Option, none, some, ◌==◌, pos, All₂,
  update_where-All₂, update_where, count_where, Option-cases, Bool-cases,
}
use stablecoin_gateway.Lease.{milliseconds}
use stablecoin_gateway.Outbox.Queue.{
  Event, pending, succeeded, dead, EventRow, Events, is_held, update_leased_event, mark_succeeded,
  mark_retry, mark_dead,
}
use stablecoin_gateway.Outbox.Processor.{
  Processor, Handler, ltb_ℤ, handler_of, retry_backoff, record_outcome, process,
}

-- The row of a handled event: succeeded, where a handler took it without an error; pending again,
-- where the handler failed and attempts are left; dead, where none are left or no handler has the
-- topic. Its lease is gone in each.
abbrev pub Verdict : Processor → ℕ → Event → EventRow → EventRow → Type 0
Verdict p now event x y =
    ((h : Handler) × (handler_of event.topic p.handlers ≡ some h)
      × (h event ≡ none)
      × (y ≡ record x {
        status = succeeded;
        lease_owner = none;
        lease_until = none;
        last_error = none;
        updated_at = now;
      }))
    ⊎ ((h : Handler) × (reason : String) × (handler_of event.topic p.handlers ≡ some h)
        × (h event ≡ some reason)
        × (ltb_ℤ (pos event.attempts) p.config.max_attempts ≡ true)
        × (y ≡ record x {
          status = pending;
          available_at = now + milliseconds (pos (retry_backoff p.config event.attempts));
          lease_owner = none;
          lease_until = none;
          last_error = some reason;
          updated_at = now;
        }))
    ⊎ ((h : Handler) × (reason : String) × (handler_of event.topic p.handlers ≡ some h)
        × (h event ≡ some reason)
        × (ltb_ℤ (pos event.attempts) p.config.max_attempts ≡ false)
        × (y ≡ record x {
          status = dead;
          lease_owner = none;
          lease_until = none;
          last_error = some reason;
          updated_at = now;
        }))
    ⊎ ((reason : String) × (handler_of event.topic p.handlers ≡ none)
        × (y ≡ record x {
          status = dead;
          lease_owner = none;
          lease_until = none;
          last_error = some reason;
          updated_at = now;
        }))

-- One row, before and after an event was processed: only the row that the worker still holds for
-- the event moves.
abbrev pub Processed : Processor → ℕ → Event → EventRow → EventRow → Type 0
Processed p now event x y =
    (y ≡ x) ⊎ (is_held event.id p.config.worker_id x ≡ true) × Verdict p now event x y

module _ (p : Processor) (now : ℕ) (event : Event) where
  update_leased_event-rows :
      (f : EventRow → EventRow) (xs : Events)
      → (update_leased_event event.id p.config.worker_id f xs).1
        ≡ update_where (is_held event.id p.config.worker_id) f xs
  unfolding update_leased_event
  update_leased_event-rows f xs =
      elim (Bool-cases (count_where (is_held event.id p.config.worker_id) xs == 0)) [
        | inl e ↦ rw (e, update_leased_event) refl
        | inr e ↦ elim (Bool-cases (count_where (is_held event.id p.config.worker_id) xs == 1)) [
          | inl one ↦ rw (e, one, update_leased_event) refl
          | inr more ↦ rw (e, more, update_leased_event) refl
        ]
      ]

  update_leased_event-Processed :
      (f : EventRow → EventRow)
      → ((x : EventRow) → Verdict p now event x (f x))
      → (xs : Events)
      → All₂ (Processed p now event) xs (update_leased_event event.id p.config.worker_id f xs).1
  update_leased_event-Processed f verdict xs = rw (update_leased_event-rows f xs) (
      update_where-All₂ (Processed p now event) (is_held event.id p.config.worker_id) f
        (λ x. inl refl) (λ x h. inr (h, verdict x)) xs)

  record_outcome-Processed :
      (h : Handler) (o : Option String)
      → handler_of event.topic p.handlers ≡ some h
      → h event ≡ o
      → (xs : Events) → All₂ (Processed p now event) xs (record_outcome p now event o xs).1
  unfolding record_outcome mark_succeeded mark_retry mark_dead
  record_outcome-Processed h none e o xs =
      update_leased_event-Processed _ (λ x. inl (h, e, o, refl)) xs
  record_outcome-Processed h (some reason) e o xs =
      elim (Bool-cases (ltb_ℤ (pos event.attempts) p.config.max_attempts)) [
        | inl left ↦
            rw (left, record_outcome)
              (update_leased_event-Processed _ (λ x. inr (inl (h, reason, e, o, left, refl))) xs)
        | inr over ↦
            rw (over, record_outcome)
              (update_leased_event-Processed _ (λ x. inr (inr (inl (h, reason, e, o, over, refl))))
                xs)
      ]

  -- Processing an event changes no row of the table but the one that the worker still holds for
  -- it. That row succeeds, where the topic has a handler that returned no error. It is pending
  -- again after the delay of the attempt, where the handler failed and attempts are left. It is
  -- dead where none are left, or where no handler has the topic. The lease is gone in each.
  pub process-Processed : (xs : Events) → All₂ (Processed p now event) xs (process p now event xs).1
  unfolding process mark_dead
  process-Processed xs = elim (Option-cases (handler_of event.topic p.handlers)) [
    | inl e ↦
        rw (e, process) (update_leased_event-Processed _ (λ x. inr (inr (inr (_, e, refl)))) xs)
    | inr (h, e) ↦ rw (e, process) (record_outcome-Processed h (h event) e refl xs)
  ]
