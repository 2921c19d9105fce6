-- ===== src/Program.antt =====
-- The extension at work, events.c and capture.c together: Ruby allocates and frees objects at any
-- time, the event hooks of the captures hear of it and enqueue events, and the postponed job hands the
-- events to the captures. Each move is what runs between two points at which other code can run; a
-- handler with its callbacks is one move, and what hooks enqueue while it runs are moves before it.
pub mod Taking
pub mod Moving
pub mod Capturing
pub mod Heap
pub mod Exact
pub mod Quiet
pub mod Flushing
pub mod Draining
pub mod Iterating
pub mod Stopping
pub mod Settling
pub mod Settings
pub mod Setup
pub mod Restarting
mod Runs
mod Tests
use memory_profiler.Base.{ℕ, suc, ◌≤◌, ◌<◌, ◌≡◌, ◌⊎◌, Bool, true, false, List, [], ◌∷◌, ◌++◌, some}
use memory_profiler.Ruby.{Ruby, StTable}
use memory_profiler.Queue.{Realloc}
use memory_profiler.Events.{Event, Events, queue_at, enqueue}
use memory_profiler.Events.System
use memory_profiler.Events.System.{System, taken, swapped, ended, cleared, current, initial}
use memory_profiler.Table.Holds.{IsLive}
use memory_profiler.Capture.State.{World, Run, finished, raised, Surroundings}
use memory_profiler.Capture.Hook.{Objects, EventFlag, event_callback}
use memory_profiler.Capture.Process.{process_event}

module _ ⦃rb : Ruby⦄ (st : StTable) (realloc : Realloc Event) (env : Surroundings st)
    (objects : Objects) where
  -- The event queue with its history, and the captures.
  pub record Program : Type 0 where
    pub queue : System
    pub world : World st

  pub data Move (p : Program) : Program → Type 0 where
    -- Ruby allocates or frees an object and calls the hook of a capture, which enqueues an event. The
    -- queue has room for it or not.
    hook :
        (capture object : ℕ) (flag : EventFlag) (e : Event) (events : Events)
        → p.world.hooked capture ≡ true
        → IsLive object
        → event_callback st objects p.world capture flag object ≡ some e
        → enqueue realloc p.queue.events e ≡ (events, true)
        → Move p (record p {
          queue = record p.queue { events = events; posted = p.queue.posted ++ e ∷ [] };
        })
    drop :
        (capture object : ℕ) (flag : EventFlag) (e : Event) (events : Events)
        → p.world.hooked capture ≡ true
        → event_callback st objects p.world capture flag object ≡ some e
        → enqueue realloc p.queue.events e ≡ (events, false)
        → Move p (record p { queue = record p.queue { events = events } })
    -- Ruby runs the postponed job, or a method calls `process_all`.
    job :
        p.queue.events.triggered ≡ true
        → p.queue.events.processing_flag ≡ false
        → Move p (record p {
          queue = record p.queue { events = swapped (taken p.queue.events); index = 0 };
        })
    flush :
        p.queue.events.processing_flag ≡ false
        → Move p
            (record p { queue = record p.queue { events = swapped p.queue.events; index = 0 } })
    interrupt :
        p.queue.events.triggered ≡ true
        → p.queue.events.processing_flag ≡ true
        → Move p (record p { queue = record p.queue { events = taken p.queue.events } })
    -- The loop hands the current event to its capture, whose handler returns or raises.
    handle :
        (world : World st)
        → p.queue.events.processing_flag ≡ true
        → p.queue.index < (queue_at p.queue.events p.queue.events.processing).count
        → (process_event st env p.world (current p.queue) ≡ finished world)
          ⊎ (process_event st env p.world (current p.queue) ≡ raised world)
        → Move p (record {
          queue = record p.queue {
            events = cleared p.queue.events p.queue.index;
            index = suc p.queue.index;
            handled = p.queue.handled ++ current p.queue ∷ [];
          };
          world = world;
        })
    end_loop :
        p.queue.events.processing_flag ≡ true
        → (queue_at p.queue.events p.queue.events.processing).count ≤ p.queue.index
        → Move p (record p { queue = record p.queue { events = ended p.queue.events } })

  pub data Moves (p : Program) : Program → Type 0 where
    here : Moves p p
    next : {q r : Program} → Moves p q → Move q r → Moves p r

  -- The program before any event.
  abbrev pub at_start : World st → Program
  at_start world = record { queue = initial; world = world }
