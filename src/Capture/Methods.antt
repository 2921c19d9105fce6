-- ===== src/Capture/Methods.antt =====
-- capture.c: the methods of `Capture`. A method that raises returns `none` or a constructor of its own.
use memory_profiler.Base.{
  ℕ, ◌-◌, Bool, true, false, not, List, [], ◌∷◌, Option, none, some, ltb, leb, if◌then◌else◌,
  length,
}
use memory_profiler.Ruby.{Ruby, StTable}
use memory_profiler.Queue.{Realloc}
use memory_profiler.Allocations
use memory_profiler.Allocations.{Allocations}
use memory_profiler.Events.{Event, Events, Attempt, process_all, events_instance}
use memory_profiler.Table.Layout
use memory_profiler.Table.Operations
use memory_profiler.Capture.State.{Capture, World, Surroundings, put_capture, put_record, update}
use memory_profiler.Capture.Process.{handle}

abbrev pub table_capacity : ℕ
table_capacity = 1024

module _ ⦃rb : Ruby⦄ (st : StTable) where
  -- `alloc`; `none` is the exception where the table cannot be allocated.
  unfoldable pub alloc : Bool → (ℕ → ℕ → Bool) → Option (Capture st)
  alloc malloc_grants calloc = elim (Layout.new malloc_grants calloc table_capacity) [
    | none ↦ none
    | some t ↦ some (record {
      running = false;
      paused = 0;
      track_all = false;
      tracked = st.init_numtable;
      states = some t;
      new_count = 0;
      free_count = 0;
    })
  ]

  unfoldable pub track_all_set : World st → ℕ → Bool → World st
  track_all_set w self value =
      put_capture st w self (record (w.captures self) { track_all = value })

  -- The event queue, the new state, and the method's result; the exception where there is no event
  -- queue is `none`. `registered` is as in `events_instance`.
  unfoldable pub start :
      Bool → Option Events → World st → ℕ → Option (Option Events × World st × Bool)
  start registered queue w self =
      let c = w.captures self in
      if c.running then some (queue, w, false) else elim (events_instance registered queue) [
        | none ↦ none
        | some events ↦ some (
          some events,
          put_capture st (record w { hooked = update w.hooked self true }) self
              (record c { running = true; paused = 0 }),
          true,
        )
      ]

  -- How `stop` ends: with its result, with the exception of `process_all`, or by following NULL.
  pub data Stopped : Type 0 where
    stopped : Events → World st → Bool → Stopped
    recursive : Events → World st → Stopped
    crashed : Stopped

  module _ (realloc : Realloc Event) (env : Surroundings st) where
    unfoldable pub halt : World st → ℕ → World st
    halt w self = put_capture st w self (record (w.captures self) { running = false; paused = 0 })

    unfoldable pub after_flush :
        Events → World st → ℕ → Attempt (Events × Option (World st)) → Stopped
    unfolding halt
    after_flush events w self Attempt.recursive_call = recursive events w
    after_flush events w self (Attempt.finished (events', none)) = crashed
    after_flush events w self (Attempt.finished (events', some w')) =
        stopped events' (halt w' self) true

    unfoldable pub stop : Events → World st → ℕ → Stopped
    unfolding after_flush
    stop events w self =
        if not (w.captures self).running
        then stopped events w false
        else let unhooked = record w { hooked = update w.hooked self false } in
          after_flush events unhooked self
            (process_all realloc (handle st env) events (some unhooked))

  -- The wrapper of the class's record; `wrapper` is the address that a new one gets.
  unfoldable pub track : World st → ℕ → ℕ → ℕ → ℕ → World st × ℕ
  track w self klass callback wrapper =
      let c = w.captures self in
      elim (st.lookup c.tracked klass) [
        | some allocations ↦ (
          put_record st w allocations (record (w.records allocations) { callback = callback }),
          allocations,
        )
        | none ↦ (
          put_capture st
              (put_record st w wrapper
                (record { callback = callback; new_count = 0; free_count = 0 }))
              self (record c { tracked = st.insert c.tracked klass wrapper }),
          wrapper,
        )
      ]

  unfoldable pub untrack : World st → ℕ → ℕ → World st
  untrack w self klass =
      let c = w.captures self in
      put_capture st w self (record c { tracked = st.delete c.tracked klass })

  unfoldable pub aref : World st → ℕ → ℕ → ℕ
  aref w self klass = elim (st.lookup (w.captures self).tracked klass) [
    | some allocations ↦ allocations
    | none ↦ rb.q_nil
  ]

  unfoldable pub tracking_p : World st → ℕ → ℕ → Bool
  tracking_p w self klass = elim (st.lookup (w.captures self).tracked klass) [
    | some allocations ↦ true
    | none ↦ false
  ]

  unfoldable pub retained_count_of : World st → ℕ → ℕ → ℕ
  retained_count_of w self klass = elim (st.lookup (w.captures self).tracked klass) [
    | some allocations ↦
        let r = w.records allocations in
        if leb r.free_count r.new_count then r.new_count - r.free_count else 0
    | none ↦ 0
  ]

  unfoldable pub retained_count : World st → ℕ → ℕ
  retained_count w self =
      let c = w.captures self in
      if ltb c.new_count c.free_count then 0 else c.new_count - c.free_count

  -- The `st_foreach` over the tracked classes.
  unfoldable pub clear_records : List (ℕ × ℕ) → (ℕ → Allocations) → ℕ → Allocations
  clear_records [] records = records
  clear_records ((klass, allocations) ∷ rest) records =
      clear_records rest (update records allocations (Allocations.clear (records allocations)))

  -- `none` is the exception of a capture that is running.
  unfoldable pub clear : Bool → (ℕ → ℕ → Bool) → World st → ℕ → Option (World st)
  unfolding clear_records
  clear malloc_grants calloc w self =
      let c = w.captures self in
      if c.running
      then none
      else some (
          put_capture st (record w { records = clear_records (st.pairs c.tracked) w.records }) self
            (record c {
              states = elim c.states [
                | none ↦ none
                | some t ↦ Layout.new malloc_grants calloc table_capacity
              ];
              new_count = 0;
              free_count = 0;
            }))

  -- The two numbers of `statistics`.
  unfoldable pub statistics : World st → ℕ → ℕ × ℕ
  statistics w self =
      let c = w.captures self in
      (length (st.pairs c.tracked), elim c.states [ none ↦ 0 | some t ↦ Operations.size t ])
