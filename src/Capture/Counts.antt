-- ===== src/Capture/Counts.antt =====
-- capture.c: the counts of a capture against the size of its table.
use memory_profiler.Base.{ℕ, ◌+◌, ◌^◌, ◌≤◌, ◌<◌, ◌≡◌, sym, ap, ◌∙◌, some, arith, subst}
use memory_profiler.Ruby.{Ruby, StTable}
use memory_profiler.Events.{Event, EventType}
use memory_profiler.Table.Layout.{Table}
use memory_profiler.Table.Slots.{scan}
use memory_profiler.Table.Load.{absences-le}
use memory_profiler.Table.Holds.{IsLive, IsValid}
use memory_profiler.Capture.State.{
  Capture, World, Called, returned, threw, Run, finished, raised, fault, Surroundings,
}
use memory_profiler.Capture.Calls.{Leaves}
use memory_profiler.Capture.Process.{process_event}
use memory_profiler.Capture.Newobj.{
  StoredAfter, Ready, Newobj, ignored, tracked, counted_capture, process_newobj-Newobj,
}
use memory_profiler.Capture.Freeobj.{
  EndedAfter, Freeobj, unknown, stale, released, freed_capture, process_freeobj-Freeobj,
}

module _ ⦃rb : Ruby⦄ (st : StTable) where
  -- The capture has a well-formed table, and no more objects in it and freed than were seen.
  abbrev pub IsSound : Capture st → Type 0
  IsSound c = (t : Table) × (c.states ≡ some t) × IsValid t × (t.count + c.free_count ≤ c.new_count)

  abbrev pub SoundAfter : ℕ → Run st → Type 0
  SoundAfter self (finished w) = IsSound (w.captures self)
  SoundAfter self (raised w) = IsSound (w.captures self)
  SoundAfter self fault = ⊥

module _ ⦃rb : Ruby⦄ (st : StTable) (env : Surroundings st) (self : ℕ) where
  stored-SoundAfter :
      (c : Capture st) (classes : st.Table) (t : Table) (klass object : ℕ)
      → c.states ≡ some t
      → IsValid t
      → t.count + c.free_count ≤ c.new_count
      → c.new_count + 1 < 2 ^ 64
      → (called : Called st) (run : Run st)
      → StoredAfter st env self (counted_capture st env c classes) t klass object called run
      → SoundAfter st self run
  stored-SoundAfter c classes t klass object e v le small (returned value w) (finished w')
        (t', shape, s) =
      (
        t',
        ap (λ (x : Capture st). x.states) shape,
        s.valid,
        omega (
          arith,
          s.counted,
          absences-le (scan object t.entries),
          ap (λ (x : Capture st). x.free_count) shape,
          ap (λ (x : Capture st). x.new_count) shape,
        ),
      )
  stored-SoundAfter c classes t klass object e v le small (threw w) (raised w') shape = (
    t,
    ap (λ (x : Capture st). x.states) shape ∙ e,
    v,
    omega (
      arith,
      ap (λ (x : Capture st). x.free_count) shape,
      ap (λ (x : Capture st). x.new_count) shape,
    ),
  )
  stored-SoundAfter c classes t klass object e v le small (returned value w) (raised w') h =
      elim h [ ]
  stored-SoundAfter c classes t klass object e v le small (returned value w) fault h = elim h [ ]
  stored-SoundAfter c classes t klass object e v le small (threw w) (finished w') h = elim h [ ]
  stored-SoundAfter c classes t klass object e v le small (threw w) fault h = elim h [ ]

  same-IsSound : (c c' : Capture st) → c' ≡ c → IsSound st c → IsSound st c'
  same-IsSound c c' e s = subst (IsSound st) (sym e) s

  Newobj-SoundAfter :
      (w : World st) (klass object : ℕ) (t : Table)
      → (w.captures self).states ≡ some t
      → IsValid t
      → t.count + (w.captures self).free_count ≤ (w.captures self).new_count
      → (w.captures self).new_count + 1 < 2 ^ 64
      → (run : Run st) → Newobj st env w self klass object t run
      → SoundAfter st self run
  Newobj-SoundAfter w klass object t e v le small (finished _) (ignored w' absent off same) =
      same-IsSound (w.captures self) (w'.captures self) same (t, e, v, le)
  Newobj-SoundAfter w klass object t e v le small run
        (tracked a r classes before _ counting shape rec stored) =
      stored-SoundAfter (w.captures self) classes t klass object e v le small _ run stored

  ended-SoundAfter :
      (c : Capture st) {t : Table} (v : IsValid t) (t' : Table)
      → IsValid t'
      → t'.count + 1 ≡ t.count
      → t.count + c.free_count ≤ c.new_count
      → c.new_count + 1 < 2 ^ 64
      → (called : Called st) (run : Run st)
      → EndedAfter st env self (freed_capture st env c t') called run
      → SoundAfter st self run
  ended-SoundAfter c v t' v' less le small (returned value w) (finished w') shape = (
    t',
    ap (λ (x : Capture st). x.states) shape,
    v',
    omega (
      arith,
      ap (λ (x : Capture st). x.free_count) shape,
      ap (λ (x : Capture st). x.new_count) shape,
    ),
  )
  ended-SoundAfter c v t' v' less le small (threw w) (raised w') shape = (
    t',
    ap (λ (x : Capture st). x.states) shape,
    v',
    omega (
      arith,
      ap (λ (x : Capture st). x.free_count) shape,
      ap (λ (x : Capture st). x.new_count) shape,
    ),
  )
  ended-SoundAfter c v t' v' less le small (returned value w) (raised w') h = elim h [ ]
  ended-SoundAfter c v t' v' less le small (returned value w) fault h = elim h [ ]
  ended-SoundAfter c v t' v' less le small (threw w) (finished w') h = elim h [ ]
  ended-SoundAfter c v t' v' less le small (threw w) fault h = elim h [ ]

  Freeobj-SoundAfter :
      (w : World st) (object : ℕ) {t : Table} (v : IsValid t)
      → (w.captures self).states ≡ some t
      → t.count + (w.captures self).free_count ≤ (w.captures self).new_count
      → (w.captures self).new_count + 1 < 2 ^ 64
      → (run : Run st) → Freeobj st env w self object v run
      → SoundAfter st self run
  Freeobj-SoundAfter w object {t} v e le small (finished _) (unknown w' absent same) =
      same-IsSound (w.captures self) (w'.captures self) same (t, e, v, le)
  Freeobj-SoundAfter w object {t} v e le small (finished _) (stale w' entry there gone same) =
      same-IsSound (w.captures self) (w'.captures self) same (t, e, v, le)
  Freeobj-SoundAfter w object {t} v e le small run
        (released entry a t' before _ there at gone shape rec ended) =
      ended-SoundAfter (w.captures self) v t' gone.valid gone.counted le small _ run ended

  module _
      (leaves : (callback klass symbol argument : ℕ) (w : World st)
        → Leaves st self (w.captures self) (env.call callback klass symbol argument w)) where
    event-SoundAfter :
        (w : World st) (t : Table) (kind : EventType) (klass object : ℕ)
        → (w.captures self).states ≡ some t
        → Ready st env t
        → t.count + (w.captures self).free_count ≤ (w.captures self).new_count
        → (w.captures self).new_count + 1 < 2 ^ 64
        → (w.captures self).paused < 2 ^ 32
        → IsLive object
        → SoundAfter st self (
            process_event st env w
              (record { kind = kind; capture = self; klass = klass; object = object }))
    unfolding process_event
    event-SoundAfter w t EventType.none klass object e ready le small lt ok =
        (t, e, ready.valid, le)
    event-SoundAfter w t EventType.newobj klass object e ready le small lt ok =
        Newobj-SoundAfter w klass object t e ready.valid le small _
          (process_newobj-Newobj st env self leaves w klass object t e lt ready ok)
    event-SoundAfter w t EventType.freeobj klass object e ready le small lt ok =
        Freeobj-SoundAfter w object ready.valid e le small _
          (process_freeobj-Freeobj st env self leaves w object ready.valid e lt ok)

    -- Where the capture's table can take one more object, its count of new objects can be raised
    -- without a wrap, and the callbacks leave the capture as it is: processing an event of this
    -- capture, whether it returns or raises, never follows a NULL table, leaves a well-formed table,
    -- and keeps the number of objects in it plus the freed ones at most the number of new ones.
    pub process_event-SoundAfter :
        (w : World st) (t : Table) (event : Event)
        → event.capture ≡ self
        → (w.captures self).states ≡ some t
        → Ready st env t
        → t.count + (w.captures self).free_count ≤ (w.captures self).new_count
        → (w.captures self).new_count + 1 < 2 ^ 64
        → (w.captures self).paused < 2 ^ 32
        → IsLive event.object
        → SoundAfter st self (process_event st env w event)
    process_event-SoundAfter w t event same e ready le small lt ok =
        subst (λ n. SoundAfter st self (process_event st env w (record event { capture = n })))
          (sym same)
          (event-SoundAfter w t event.kind event.klass event.object e ready le small lt ok)
