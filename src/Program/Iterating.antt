-- ===== src/Program/Iterating.antt =====
-- `each_object` at any moment between two flushes: which objects its block is called with.
use mathlib.Core.Option
use memory_profiler.Base.{
  ℕ, suc, ◌≤◌, ◌<◌, ◌≡◌, refl, ap, ◌∙◌, Bool, true, false, List, Option, none, some, inl, inr,
  arith, length, ◌==◌, if◌then◌else◌, Bool-cases,
}
use memory_profiler.Ruby.{Ruby, StTable}
use memory_profiler.Queue.{Realloc, KeepsBlock}
use memory_profiler.Events.{Event, Events, process_queue}
use memory_profiler.Events.Drain.{process_queue-Processed}
use memory_profiler.Events.History.{Steps-Consistent}
use memory_profiler.Table.Layout.{Entry, entry_size, max_probe_length}
use memory_profiler.Table.Slots.{scan}
use memory_profiler.Table.Holds.{IsLive}
use memory_profiler.Table.Resize.{RefusesOverflow}
use memory_profiler.Capture.State.{World, Surroundings}
use memory_profiler.Capture.Hook.{Objects}
use memory_profiler.Capture.Process.{handle}
use memory_profiler.Capture.Calls.{Leaves}
use memory_profiler.Capture.Lifetime.{Returns}
use memory_profiler.Capture.Methods.{aref, tracking_p}
use memory_profiler.Capture.Each
use memory_profiler.Capture.Each.{times, due, selects, allocations_of, each_object_body-times}
use memory_profiler.Capture.EachObject.{Process, Block, ensured, filter_of, each_object}
use memory_profiler.Capture.Iteration.{Reads, run_block, each_object-run_block}
use memory_profiler.Capture.Implements.{Implements}
use memory_profiler.Program.{Program, Moves, at_start}
use memory_profiler.Program.Taking.{own}
use memory_profiler.Program.Moving.{Moves-Steps}
use memory_profiler.Program.Heap.{empty_model, heard_of, nothing_heard, AllProper, if_tracked}
use memory_profiler.Program.Exact.{exact_reads}
use memory_profiler.Program.Draining.{drained}

module _ ⦃rb : Ruby⦄ (st : StTable) (self : ℕ) where
  -- How often an object of this class is asked for by the wrapper `filter`, where `nil` asks for all.
  abbrev pub asked : World st → ℕ → Option ℕ → ℕ
  asked w filter none = 0
  asked w filter (some klass) =
      if filter == rb.q_nil then 1 else if aref st w self klass == filter then 1 else 0

  due-asked :
      (w : World st) (filter : ℕ) (o : Option Entry)
      → due st (w.captures self).tracked filter o
        ≡ asked w filter (Option.map (λ (e : Entry). e.klass) o)
  unfolding aref
  due-asked w filter none = refl
  due-asked w filter (some e) = elim (Bool-cases (filter == rb.q_nil)) [
    | inl all ↦ rw all refl
    | inr one ↦ rw one refl
  ]

  module _ (realloc : Realloc Event) (env : Surroundings st) (objects : Objects)
      (classes : ℕ → st.Table)
      (leaves : (self callback klass symbol argument : ℕ) (w : World st)
        → Leaves st self (w.captures self) (env.call callback klass symbol argument w))
      (returns : (callback klass symbol argument : ℕ) (w : World st)
        → Returns st env (env.call callback klass symbol argument w))
      (refuses : RefusesOverflow env.calloc)
      (grants : (c : ℕ) → c < 40000 → env.calloc c entry_size ≡ true) (law : KeepsBlock realloc)
      (start : World st)
      (fresh : (self : ℕ) → Implements st env self (classes self) start empty_model 0) {S : Type 0}
      (block : Block st realloc env S) (reads : Reads st realloc env block self) where
    -- The block is called for pairs in which the object occurs as often as what was heard asks for.
    abbrev pub Visits : Process st realloc env S → ℕ → ℕ → List Event → ℕ → Type 0
    Visits p klass filter es q =
        (rounds : ℕ) × (events : Events) × (world : World st) × (pairs : List (ℕ × ℕ))
        × (each_object st realloc env S block self rounds klass p
            ≡ ensured st realloc env S block self p.gc_enabled (
                run_block st realloc env block self pairs
                  (record p { gc_enabled = false; events = events; world = world })))
        × (times st q pairs
            ≡ asked world filter (if_tracked (tracking_p st world self) (heard_of self es q)))

    -- Where `realloc` keeps a block's prefix, callbacks return and leave every capture as it is, `calloc`
    -- refuses sizes that overflow and grants arrays of fewer than 40000 entries, every capture
    -- implements the empty view at the start, and the block leaves the capture's classes and table as
    -- they are: in every state that any interleaving of hooks, jobs, flushes and handlers reaches with
    -- at most 10000 events posted, in which nothing is being processed, and if no new object was posted
    -- at the address of one that the capture had heard of and that lived, `each_object`, called without
    -- a class or with one that is tracked, calls its block in order for a list of pairs until a call
    -- leaves it, and then cleans up; in that list a live address occurs exactly once if the last object
    -- posted there was not freed since, its class is tracked and its wrapper is the one asked for or
    -- none is asked for, and not at all otherwise.
    pub each_object-Visits :
        {p : Program st realloc env objects}
        → Moves st realloc env objects (at_start st realloc env objects start) p
        → length p.queue.posted ≤ max_probe_length
        → AllProper nothing_heard (own self p.queue.posted)
        → p.queue.events.processing_flag ≡ false
        → (gc_enabled : Bool) (rest : S) (klass filter : ℕ)
        → let process : Process st realloc env S = record {
          gc_enabled = gc_enabled;
          events = p.queue.events;
          world = p.world;
          rest = rest;
        } in
          filter_of st realloc env S block self process klass ≡ some filter
          → (q : ℕ) → IsLive q
          → Visits process klass filter p.queue.posted q
    each_object-Visits {p} run few proper off gc_enabled rest klass filter known q ok =
        let process : Process st realloc env S = record {
          gc_enabled = gc_enabled;
          events = p.queue.events;
          world = p.world;
          rest = rest;
        } in
        let (split, c) = Steps-Consistent realloc law (Moves-Steps st realloc env objects run) in
        let (w', ran, (taken, x)) =
          drained st realloc env objects classes leaves returns refuses grants law start fresh self
            run few proper off p.world (λ _. refl) in
        let i = taken self in
        let done = process_queue realloc (handle st env) p.queue.events (some p.world) in
        let processed =
          process_queue-Processed realloc (handle st env) p.queue.events (some p.world) split off
            (omega (arith, c.valid.width, c.valid.bound)) in
        let flushed : done ≡ (done.0, some w') = ap (λ s. (done.0, s)) (processed.state ∙ ran) in
        (
          suc i.table.capacity,
          done.0,
          w',
          Each.each_object_body st (w'.captures self) filter,
          each_object-run_block st realloc env block self reads process klass filter known off
              done.0 w' flushed i.table i.states i.valid.width (suc i.table.capacity) (omega arith),
          each_object_body-times st (w'.captures self) filter i.table i.states i.valid q ok
              ∙ due-asked w' filter (scan q i.table.entries)
              ∙ ap (asked w' filter)
                  (exact_reads st env self (classes self) w' p.queue.posted _ q i x ok),
        )
