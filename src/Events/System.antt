-- ===== src/Events/System.antt =====
-- events.c as an interleaving: hooks post events at any time, also while the queue is processed, and
-- Ruby runs the postponed job whenever it is triggered. One step is what happens between two points
-- at which other code can run. `process_queue` is cut at each event, before the event is cleared.
use memory_profiler.Base.{ℕ, suc, ◌≤◌, ◌<◌, ◌≡◌, true, false, List, [], ◌∷◌, ◌++◌}
use memory_profiler.Ruby.{Ruby}
use memory_profiler.Queue
use memory_profiler.Queue.{Queue, Realloc}
use memory_profiler.Events.{Event, Events, queue_at, put_queue, enqueue, cleared_event, new}
use memory_profiler.Events.Collect.{is_none}

-- The queues, the loop variable of `process_queue`, and for the statements every event that was
-- accepted and every event that was handled, in order.
pub record System : Type 0 where
  pub events : Events
  pub index : ℕ
  pub posted : List Event
  pub handled : List Event

-- The head of `process_queue`: the queues are swapped and the flag is set.
abbrev pub swapped : Events → Events
swapped events = record events {
  processing_flag = true;
  available = events.processing;
  processing = events.available;
}

-- The postponed job is taken from Ruby's list.
abbrev pub taken : Events → Events
taken events = record events { triggered = false }

-- The tail of `process_queue`.
abbrev pub ended : Events → Events
ended events =
    record (put_queue events events.processing (Queue.clear (queue_at events events.processing))) {
      processing_flag = false;
    }

module _ ⦃rb : Ruby⦄ where
  -- The event at an index of the processed queue is overwritten.
  abbrev pub cleared : Events → ℕ → Events
  cleared events index =
      put_queue events events.processing
        (Queue.write (queue_at events events.processing) index cleared_event)

  abbrev pub current : System → Event
  current s = Queue.at (queue_at s.events s.events.processing) s.index cleared_event

module _ ⦃rb : Ruby⦄ (realloc : Realloc Event) where
  pub data Step (s : System) : System → Type 0 where
    -- A hook enqueues an event, for which there is room or not.
    post :
        (e : Event) (events : Events)
        → is_none e.kind ≡ false
        → enqueue realloc s.events e ≡ (events, true)
        → Step s (record s { events = events; posted = s.posted ++ e ∷ [] })
    refuse :
        (e : Event) (events : Events)
        → enqueue realloc s.events e ≡ (events, false)
        → Step s (record s { events = events })
    -- Ruby runs the postponed job, or `process_all` is called.
    job :
        s.events.triggered ≡ true
        → s.events.processing_flag ≡ false
        → Step s (record s { events = swapped (taken s.events); index = 0 })
    flush :
        s.events.processing_flag ≡ false
        → Step s (record s { events = swapped s.events; index = 0 })
    -- Ruby runs the postponed job while the queue is being processed: it returns at once.
    interrupt :
        s.events.triggered ≡ true
        → s.events.processing_flag ≡ true
        → Step s (record s { events = taken s.events })
    -- The handler of the current event has returned.
    handled_one :
        s.events.processing_flag ≡ true
        → s.index < (queue_at s.events s.events.processing).count
        → Step s (record s {
          events = cleared s.events s.index;
          index = suc s.index;
          handled = s.handled ++ current s ∷ [];
        })
    end_loop :
        s.events.processing_flag ≡ true
        → (queue_at s.events s.events.processing).count ≤ s.index
        → Step s (record s { events = ended s.events })

  -- `s` is followed by `t` after some steps.
  pub data Steps (s : System) : System → Type 0 where
    here : Steps s s
    next : {t u : System} → Steps s t → Step t u → Steps s u

-- The state that `Memory_Profiler_Events_new` makes.
abbrev pub initial : System
initial = record { events = new; index = 0; posted = []; handled = [] }
