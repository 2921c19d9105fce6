-- ===== src/Capture/Stopping.antt =====
-- capture.c: `stop`, and what becomes of the events that are still queued.
use memory_profiler.Base.{
  ℕ, ◌≤◌, ◌≡◌, ◌≢◌, refl, arith, sym, ap, true, false, List, [], Option, none, some, inl, inr,
  if◌then◌else◌, Bool-cases, length, subst,
}
use memory_profiler.Ruby.{Ruby, StTable}
use memory_profiler.Queue.{Realloc, contents}
use memory_profiler.Events.{Event, Events, Attempt, queue_at, process_all, process_queue}
use memory_profiler.Events.Drain.{Processed, process_queue-Processed, handle_all}
use memory_profiler.Events.Receive.{IsSplit, push_all}
use memory_profiler.Capture.Calls.{captures-put}
use memory_profiler.Capture.State.{World, Surroundings, update}
use memory_profiler.Capture.Process.{handle}
use memory_profiler.Capture.Methods.{Stopped, stopped, recursive, crashed, halt, stop, after_flush}

module _ ⦃rb : Ruby⦄ (st : StTable) (env : Surroundings st) (realloc : Realloc Event)
    (events : Events) (w : World st) (self : ℕ) where
  -- The world in which the queue is flushed: the event hook is removed.
  abbrev pub unhooked : World st
  unhooked = record w { hooked = update w.hooked self false }

  -- The reference: what handling the queued events in order gives.
  abbrev pub flushed : Option (World st) × List Event
  flushed =
      handle_all realloc (handle st env) (contents (queue_at events events.available))
        (some unhooked)

  -- The capture is not running and not paused, and nothing else has changed.
  pub record Halted (w' h : World st) : Type 0 where
    pub capture : h.captures self ≡ record (w'.captures self) { running = false; paused = 0 }
    pub others : (q : ℕ) → q ≢ self → h.captures q ≡ w'.captures q
    pub records : h.records ≡ w'.records
    pub hooked : h.hooked ≡ w'.hooked

  halt-Halted : (w' : World st) → Halted w' (halt st realloc env w' self)
  unfolding halt
  halt-Halted w' = record {
    capture = captures-put st w' self _;
    others = λ q n. ground (arith, n);
    records = refl;
    hooked = refl;
  }

  -- How a stop ends. A capture that does not run is left as it is. While events are being processed,
  -- the hook is removed and an exception is raised, and the capture still counts as running. Otherwise
  -- all queued events are handled in order, the capture is not running and not paused, and what the
  -- callbacks enqueued meanwhile is all that is left in the queue.
  pub data Stops : Stopped st → Type 0 where
    idle : (w.captures self).running ≡ false → Stops (stopped events w false)
    busy :
        (w.captures self).running ≡ true
        → events.processing_flag ≡ true
        → Stops (recursive events unhooked)
    lost : (w.captures self).running ≡ true → flushed.0 ≡ none → Stops crashed
    done :
        (events' : Events) (w' h : World st)
        → (w.captures self).running ≡ true
        → flushed.0 ≡ some w'
        → events'.processing_flag ≡ false
        → contents (queue_at events' events'.processing) ≡ []
        → queue_at events' events'.available
          ≡ push_all realloc (queue_at events events.processing) flushed.1
        → Halted w' h
        → Stops (stopped events' h true)

  module _ (split : IsSplit events)
      (bound : let q = queue_at events events.available in q.count ≤ length q.base) where
    after_flush-Stops :
        (flag : events.processing_flag ≡ false) (r : Events × Option (World st))
        → (w.captures self).running ≡ true
        → Processed realloc (handle st env) events (some unhooked) split flag bound r
        → Stops (after_flush st realloc env events unhooked self (Attempt.finished r))
    unfolding after_flush
    after_flush-Stops flag (events', none) on p = lost on (sym p.state)
    after_flush-Stops flag (events', some w') on p =
        done events' w' (halt st realloc env w' self) on (sym p.state) p.flag p.emptied p.arrived
          (halt-Halted w')

    all : Attempt (Events × Option (World st))
    all = process_all realloc (handle st env) events (some unhooked)

    all_busy : events.processing_flag ≡ true → all ≡ Attempt.recursive_call
    unfolding all process_all
    all_busy flag =
        ap
          (λ b.
            if b
            then Attempt.recursive_call
            else Attempt.finished (process_queue realloc (handle st env) events (some unhooked)))
          flag

    all_idle :
        events.processing_flag ≡ false
        → all ≡ Attempt.finished (process_queue realloc (handle st env) events (some unhooked))
    unfolding all process_all
    all_idle flag =
        ap
          (λ b.
            if b
            then Attempt.recursive_call
            else Attempt.finished (process_queue realloc (handle st env) events (some unhooked)))
          flag

    flushes :
        (a : Attempt (Events × Option (World st)))
        → all ≡ a
        → Stops (after_flush st realloc env events unhooked self a)
        → Stops (after_flush st realloc env events unhooked self all)
    flushes a e h = subst (λ x. Stops (after_flush st realloc env events unhooked self x)) (sym e) h

    -- Where the two queue pointers name different queues and the queued events are within their
    -- block, `stop` has one of these ends: a capture that does not run is left as it is; while events
    -- are being processed, the hook is removed and an exception is raised, and the capture still
    -- counts as running; otherwise all queued events are handled in order and after that the
    -- capture neither runs nor is paused and nothing else has changed, unless a handler followed NULL.
    pub stop-Stops : Stops (stop st realloc env events w self)
    unfolding stop all
    stop-Stops = elim (Bool-cases (w.captures self).running) [
      | inr off ↦ rw (off, stop) (idle off)
      | inl on ↦ elim (Bool-cases events.processing_flag) [
        | inl flag ↦ rw (on, stop) (flushes _ (all_busy flag) (busy on flag))
        | inr flag ↦
            rw (on, stop)
              (flushes _ (all_idle flag) (
                after_flush-Stops flag
                  (process_queue realloc (handle st env) events (some unhooked)) on
                  (process_queue-Processed realloc (handle st env) events (some unhooked) split flag
                    bound)))
      ]
    ]
