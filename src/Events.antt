-- ===== src/Events.antt =====
-- ext/memory/profiler/events.h and events.c: the global event queue. New events go to one queue
-- while the other is processed. `triggered` is the state of Ruby's postponed job: it is set by
-- `rb_postponed_job_trigger`, and cleared when Ruby runs the job.
pub mod Receive
pub mod Drain
pub mod Collect
pub mod Arrival
pub mod System
pub mod Accounts
pub mod History
pub mod Progress
pub mod Wakeup
pub mod Survival
pub mod Runs
pub mod Tests
use mathlib.Core.Option
use memory_profiler.Base.{
  ℕ, zero, suc, ◌+◌, Bool, true, false, List, [], ◌∷◌, some, ltb, if◌then◌else◌,
}
use memory_profiler.Ruby.{Ruby}
use memory_profiler.Queue
use memory_profiler.Queue.{Queue, Realloc}
use memory_profiler.Queue.Push.{write_pushed}

pub data EventType : Type 0 where
  none newobj freeobj : EventType

-- What `process_all` does: it returns, or raises "Recursive call detected!".
pub data Attempt (A : Type 0) : Type 0 where
  finished : A → Attempt A
  recursive_call : Attempt A

pub record Event : Type 0 where
  pub kind : EventType
  pub capture : ℕ
  pub klass : ℕ
  pub object : ℕ

-- A pointer to one of the two queues.
pub data Side : Type 0 where
  left right : Side

pub record Events : Type 0 where
  pub queue_left : Queue Event
  pub queue_right : Queue Event
  pub available : Side
  pub processing : Side
  pub processing_flag : Bool
  pub triggered : Bool

-- `sizeof(struct Memory_Profiler_Event)`: an `enum` and three words.
abbrev pub event_size : ℕ
event_size = 32

unfoldable pub new : Events
new = record {
  queue_left = Queue.initialize event_size;
  queue_right = Queue.initialize event_size;
  available = left;
  processing = right;
  processing_flag = false;
  triggered = false;
}

-- The single queue, created on the first call. `registered` says whether Ruby registers the postponed
-- job; where it does not, the exception is `none`.
unfoldable pub events_instance : Bool → Option.Option Events → Option.Option Events
unfolding new
events_instance registered (some events) = some events
events_instance registered Option.none = if registered then some new else Option.none

abbrev pub queue_at : Events → Side → Queue Event
queue_at events left = events.queue_left
queue_at events right = events.queue_right

abbrev pub put_queue : Events → Side → Queue Event → Events
put_queue events left q = record events { queue_left = q }
put_queue events right q = record events { queue_right = q }

-- What a processed event is overwritten by.
abbrev pub cleared_event : ⦃rb : Ruby⦄ → Event
cleared_event ⦃rb⦄ = record {
  kind = EventType.none;
  capture = rb.q_nil;
  klass = rb.q_nil;
  object = rb.q_nil;
}

module _ (realloc : Realloc Event) where
  enqueued : Events → Queue Event × Bool → Events × Bool
  enqueued events (q, true) =
      (record (put_queue events events.available q) { triggered = true }, true)
  enqueued events (q, false) = (put_queue events events.available q, false)

  -- The new state, and whether there was room.
  unfoldable pub enqueue : Events → Event → Events × Bool
  unfolding enqueued
  enqueue events event =
      enqueued events (write_pushed event (Queue.push realloc (queue_at events events.available)))

  unfoldable pub enqueue_all : Events → List Event → Events
  enqueue_all events [] = events
  enqueue_all events (e ∷ es) = enqueue_all (enqueue events e).0 es

  -- `S` is the rest of the world. A handler returns its new state, the events that were enqueued
  -- while it ran, and whether it raised.
  module _ ⦃rb : Ruby⦄ {S : Type 0} (handle : Event → S → S × List Event × Bool) where
    -- One round of the loop: `rb_protect` catches the exception and the event is cleared.
    unfoldable pub process_one : Events → S → ℕ → Event → Events × S
    process_one events s index event =
        let (s', new_events, raised) = handle event s in
        let after = enqueue_all events new_events in
        (
          put_queue after after.processing
              (Queue.write (queue_at after after.processing) index cleared_event),
          s',
        )

    -- `for (i = 0; i < events->processing->count; i++)`, with the number of rounds that are left.
    unfoldable pub process_loop : ℕ → ℕ → Events × S → Events × S
    process_loop zero index (events, s) = (events, s)
    process_loop (suc rounds) index (events, s) =
        let q = queue_at events events.processing in
        let next =
          process_loop rounds (index + 1)
            (process_one events s index (Queue.at q index cleared_event)) in
        if ltb index q.count then next else (events, s)

    abbrev finish : Events → Events
    finish events =
        record (put_queue events events.processing
          (Queue.clear (queue_at events events.processing))) { processing_flag = false }

    -- The postponed job's function.
    unfoldable pub process_queue : Events → S → Events × S
    unfolding process_loop process_one
    process_queue events s =
        if events.processing_flag
        then (events, s)
        else let swapped = record events {
          processing_flag = true;
          available = events.processing;
          processing = events.available;
        } in
          let (done, s') =
            process_loop (queue_at swapped swapped.processing).count 0 (swapped, s) in
          (finish done, s')

    unfoldable pub process_all : Events → S → Attempt (Events × S)
    process_all events s =
        if events.processing_flag then recursive_call else finished (process_queue events s)

  -- Ruby runs the postponed job.
  unfoldable pub run_job :
      ⦃rb : Ruby⦄ {S : Type 0} → (Event → S → S × List Event × Bool) → Events → S → Events × S
  run_job handle events s =
      if events.triggered
      then process_queue handle (record events { triggered = false }) s
      else (events, s)
