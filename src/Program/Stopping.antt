-- ===== src/Program/Stopping.antt =====
-- `stop` at any moment between two flushes: what the stopped capture reports.
use memory_profiler.Base.{
  subst, ℕ, ◌≤◌, ◌<◌, ◌≡◌, refl, sym, ap, ◌∙◌, true, false, List, some, arith, length,
}
use mathlib.Core.Option.{some-injective}
use memory_profiler.Ruby.{Ruby, StTable}
use memory_profiler.Queue.{Realloc, KeepsBlock}
use memory_profiler.Events.{Event, Events}
use memory_profiler.Events.History.{Steps-Consistent}
use memory_profiler.Table.Layout.{entry_size, max_probe_length}
use memory_profiler.Table.Holds.{IsLive}
use memory_profiler.Table.Resize.{RefusesOverflow}
use memory_profiler.Capture.State.{World, Surroundings}
use memory_profiler.Capture.Hook.{Objects}
use memory_profiler.Capture.Calls.{Leaves}
use memory_profiler.Capture.Lifetime.{Returns}
use memory_profiler.Capture.Methods.{Stopped, stopped, stop}
use memory_profiler.Capture.Stopping.{
  Halted, Stops, idle, busy, lost, done, stop-Stops, unhooked, flushed,
}
use memory_profiler.Capture.Implements.{Implements, retracked-Implements}
use memory_profiler.Program.{Program, Moves, at_start}
use memory_profiler.Program.Taking.{own, taken_in}
use memory_profiler.Program.Moving.{Moves-Steps}
use memory_profiler.Program.Heap.{empty_model, nothing_heard, AllProper}
use memory_profiler.Program.Exact.{Reports, exact-Reports}
use memory_profiler.Program.Draining.{drained}
use memory_profiler.Program.Flushing.{AllExact}

module _ ⦃rb : Ruby⦄ (st : StTable) (realloc : Realloc Event) (env : Surroundings st) where
  -- A stop that flushes the queue.
  stops_done :
      (events : Events) (w w' : World st) (self : ℕ) (r : Stopped st)
      → (w.captures self).running ≡ true
      → events.processing_flag ≡ false
      → (flushed st env realloc events w self).0 ≡ some w'
      → Stops st env realloc events w self r
      → (events' : Events) × (h : World st) × (r ≡ stopped events' h true)
        × Halted st env realloc events w self w' h
  stops_done events w w' self r on off ran (idle stopped_) = absurd (ground (arith, on, stopped_))
  stops_done events w w' self r on off ran (busy running flag) = absurd (ground (arith, off, flag))
  stops_done events w w' self r on off ran (lost running gone) =
      absurd (ground (arith, sym ran ∙ gone))
  stops_done events w w' self r on off ran
        (done events' v h running ran' flag empty arrived halted) =
      let same : v ≡ w' = some-injective v w' (sym ran' ∙ ran) in
      (events', h, refl, subst (λ u. Halted st env realloc events w self u h) same halted)

  module _ (objects : Objects) (classes : ℕ → st.Table)
      (leaves : (self callback klass symbol argument : ℕ) (w : World st)
        → Leaves st self (w.captures self) (env.call callback klass symbol argument w))
      (returns : (callback klass symbol argument : ℕ) (w : World st)
        → Returns st env (env.call callback klass symbol argument w))
      (refuses : RefusesOverflow env.calloc)
      (grants : (c : ℕ) → c < 40000 → env.calloc c entry_size ≡ true) (law : KeepsBlock realloc)
      (start : World st)
      (fresh : (self : ℕ) → Implements st env self (classes self) start empty_model 0) where
    pub halt-Implements :
        (w h : World st) (self : ℕ) (es : List Event)
        → h.captures self ≡ record (w.captures self) { running = false; paused = 0 }
        → AllExact st realloc env objects classes leaves returns refuses grants self w es
        → Implements st env self
            (classes self)
            h
            (taken_in st env self (classes self) empty_model es)
            (length es)
    halt-Implements w h self es e (taken, x) =
        retracked-Implements st env self (taken_in st env self (classes self) empty_model es)
          (length es) (classes self) (classes self) w h false 0
          (e
            ∙ ap (λ t. record (w.captures self) { tracked = t; running = false; paused = 0 })
                (taken self).classes_fixed)
          (omega arith) (taken self)

    -- A stop that flushes the queue, and the world that the flush leaves.
    pub stop-AllExact :
        {p : Program st realloc env objects} (self : ℕ)
        → Moves st realloc env objects (at_start st realloc env objects start) p
        → length p.queue.posted ≤ max_probe_length
        → AllProper nothing_heard (own self p.queue.posted)
        → (p.world.captures self).running ≡ true
        → p.queue.events.processing_flag ≡ false
        → (events' : Events) × (w' h : World st) × (stop st realloc env p.queue.events p.world self
            ≡ stopped events' h true)
          × (h.captures self ≡ record (w'.captures self) { running = false; paused = 0 })
          × AllExact st realloc env objects classes leaves returns refuses grants self w'
              p.queue.posted
    stop-AllExact {p} self run few proper on off =
        let (split, c) = Steps-Consistent realloc law (Moves-Steps st realloc env objects run) in
        let (w', ran, x) =
          drained st realloc env objects classes leaves returns refuses grants law start fresh self
            run few proper off (unhooked st env realloc p.queue.events p.world self) (λ _. refl) in
        let (events', h, ends, halted) =
          stops_done p.queue.events p.world w' self
            (stop st realloc env p.queue.events p.world self) on off ran
            (stop-Stops st env realloc p.queue.events p.world self split
              (omega (arith, c.valid.width, c.valid.bound))) in
        (events', w', h, ends, halted.capture, x)

    -- Where `realloc` keeps a block's prefix, callbacks return and leave every capture as it is, `calloc`
    -- refuses sizes that overflow and grants arrays of fewer than 40000 entries, and every capture
    -- implements the empty view at the start: in every state that any interleaving of hooks, jobs,
    -- flushes and handlers reaches with at most 10000 events posted, in which the capture runs and
    -- nothing is being processed, and if no new object was posted at the address of one that the
    -- capture had heard of and that lived, `stop` succeeds, and afterwards a lookup of a live address
    -- in the capture's table gives the class of the last object posted there before the stop if that
    -- one was not freed since and its class is tracked, and nothing otherwise; and the retained count
    -- is the size of the table. The waiting events are so accounted for too.
    pub stop-Reports :
        {p : Program st realloc env objects} (self : ℕ)
        → Moves st realloc env objects (at_start st realloc env objects start) p
        → length p.queue.posted ≤ max_probe_length
        → AllProper nothing_heard (own self p.queue.posted)
        → (p.world.captures self).running ≡ true
        → p.queue.events.processing_flag ≡ false
        → (q : ℕ) → IsLive q
        → (events' : Events) × (w' : World st) × (stop st realloc env p.queue.events p.world self
            ≡ stopped events' w' true)
          × Reports st env self (classes self) w' p.queue.posted q
    stop-Reports {p} self run few proper on off q ok =
        let (events', w', h, ends, halted, x) = stop-AllExact self run few proper on off in
        (
          events',
          h,
          ends,
          exact-Reports st env self (classes self) h p.queue.posted _ q
              (halt-Implements w' h self p.queue.posted halted x) x.1 ok,
        )
