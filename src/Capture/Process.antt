-- ===== src/Capture/Process.antt =====
-- capture.c: `Memory_Profiler_Capture_process_newobj`, `_process_freeobj` and `_process_event`.
use memory_profiler.Base.{
  ℕ, Bool, true, false, List, [], Option, none, some, ◌==◌, ◌||◌, if◌then◌else◌, add_size, get_or,
  set, not,
}
use memory_profiler.Ruby.{Ruby, StTable}
use memory_profiler.Events.{Event, EventType}
use memory_profiler.Table.Layout.{Table, zeroed}
use memory_profiler.Table.Operations.{insert, lookup, delete_entry}
use memory_profiler.Capture.State.{
  World, Called, returned, threw, Run, finished, raised, fault, Surroundings, put_capture,
  put_record, pause, resume,
}

-- `entry->klass = klass; entry->data = data`.
abbrev pub fill : Table → ℕ → ℕ → ℕ → Table
fill t index klass data_value = record t {
  entries =
      set t.entries index
        (record (get_or t.entries index zeroed) { klass = klass; data_value = data_value });
}

module _ ⦃rb : Ruby⦄ (st : StTable) (env : Surroundings st) where
  -- The world with the allocation counted for its class, and the class's wrapper; nothing where the
  -- class is not tracked.
  unfoldable pub count_new : World st → ℕ → ℕ → Option (World st × ℕ)
  count_new w self klass =
      let c = w.captures self in
      elim (st.lookup c.tracked klass) [
        | some allocations ↦
            let r = w.records allocations in
            some (
              put_record st w allocations (record r { new_count = add_size r.new_count 1 }),
              allocations,
            )
        | none ↦
            let allocations = env.wrap w in
            let made =
              put_record st w allocations
                (record { callback = rb.q_nil; new_count = 1; free_count = 0 }) in
            if c.track_all
            then some (
              put_capture st made self
                  (record c { tracked = st.insert c.tracked klass allocations }),
              allocations,
            )
            else none
      ]

  -- A callback that is `nil` is not called.
  abbrev pub call_if : Bool → ℕ → ℕ → ℕ → ℕ → World st → Called st
  call_if calls callback klass symbol argument w =
      if calls then env.call callback klass symbol argument w else returned rb.q_nil w

  -- The insertion after the callback has returned.
  unfoldable pub store_object : ℕ → ℕ → ℕ → Called st → Run st
  store_object self klass object (threw w) = raised w
  store_object self klass object (returned data_value w) =
      let c = w.captures self in
      elim c.states [
        | none ↦ fault
        | some t ↦
            let (t', index) = insert env.calloc t object in
            finished (
              resume st
                (put_capture st w self
                  (record c { states = some (fill t' index klass data_value) }))
                self)
      ]

  unfoldable pub process_newobj : World st → ℕ → ℕ → ℕ → Run st
  unfolding store_object
  process_newobj w self klass object =
      let paused = pause st w self in
      elim (count_new paused self klass) [
        | none ↦ finished (resume st paused self)
        | some (counted, allocations) ↦
            let c = counted.captures self in
            let w' =
              put_capture st counted self (record c { new_count = add_size c.new_count 1 }) in
            let callback = (w'.records allocations).callback in
            store_object self klass object
              (call_if (not (callback == rb.q_nil)) callback klass env.sym_newobj rb.q_nil w')
      ]

  unfoldable pub end_freeobj : ℕ → Called st → Run st
  end_freeobj self (threw w) = raised w
  end_freeobj self (returned value w) = finished (resume st w self)

  -- The body after the entry was found, up to the callback.
  unfoldable pub release_object : World st → ℕ → Table → ℕ → Run st
  unfolding end_freeobj
  release_object w self t index =
      let entry = get_or t.entries index zeroed in
      let c = w.captures self in
      elim (st.lookup c.tracked entry.klass) [
        | none ↦ finished (resume st w self)
        | some allocations ↦
            let deleted = put_capture st w self (record c {
              states = some (delete_entry t index);
              free_count = add_size c.free_count 1;
            }) in
            let r = deleted.records allocations in
            let w' =
              put_record st deleted allocations
                (record r { free_count = add_size r.free_count 1 }) in
            end_freeobj self (
              call_if (not (r.callback == rb.q_nil || entry.data_value == rb.q_nil)) r.callback
                entry.klass env.sym_freeobj entry.data_value w')
      ]

  unfoldable pub process_freeobj : World st → ℕ → ℕ → Run st
  unfolding release_object
  process_freeobj w self object =
      let paused = pause st w self in
      elim (paused.captures self).states [
        | none ↦ fault
        | some t ↦ elim (lookup t object) [
          | none ↦ finished (resume st paused self)
          | some index ↦ release_object paused self t index
        ]
      ]

  unfoldable pub process_event : World st → Event → Run st
  process_event w event = elim event.kind [
    | EventType.newobj ↦ process_newobj w event.capture event.klass event.object
    | EventType.freeobj ↦ process_freeobj w event.capture event.object
    | EventType.none ↦ finished w
  ]

  abbrev pub from_run : Run st → Option (World st) × List Event × Bool
  from_run (finished w) = (some w, w.posted, false)
  from_run (raised w) = (some w, w.posted, true)
  from_run fault = (none, [], false)

  -- The handler that the event queue runs under `rb_protect`. A world that followed NULL is gone.
  unfoldable pub handle : Event → Option (World st) → Option (World st) × List Event × Bool
  handle event none = (none, [], false)
  handle event (some w) = from_run (process_event (record w { posted = [] }) event)
