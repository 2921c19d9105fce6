-- ===== src/Capture/Iteration.antt =====
-- capture.c: which calls of the block `each_object` makes.
use memory_profiler.Base.{
  ℕ, ◌⊎◌, zero, suc, ◌+◌, ◌≤◌, ◌<◌, ◌≡◌, refl, sym, ap, ◌∙◌, inl, inr, Bool, true, false, List, [],
  ◌∷◌, some, ltb, if◌then◌else◌, arith, length, Bool-cases, get_or, drop, drop-cons, drop_all,
}
use memory_profiler.Ruby.{Ruby, StTable}
use memory_profiler.Queue.{Realloc}
use memory_profiler.Events.{Event, Events, Attempt, process_all, process_queue}
use memory_profiler.Table.Layout.{Entry, Table, is_occupied, zeroed}
use memory_profiler.Capture.State.{World, Surroundings}
use memory_profiler.Capture.Process.{handle}
use memory_profiler.Capture.Each
use memory_profiler.Capture.Each.{allocations_of, selects, yields}
use memory_profiler.Capture.EachObject.{
  Process, Block, Iterated, iterated, left_by, visit, each_loop, each_object_body, ensured,
  after_flush, filter_of, each_object,
}

module _ ⦃rb : Ruby⦄ (st : StTable) (realloc : Realloc Event) (env : Surroundings st) {S : Type 0}
    (block : Block st realloc env S) (self : ℕ) where
  -- What follows the visit of an entry.
  abbrev pub round :
      (Process st realloc env S → Iterated st realloc env S)
      → Process st realloc env S × Bool
      → Iterated st realloc env S
  round next (p, true) = left_by p
  round next (p, false) = next p

  round-congr :
      (f g : Process st realloc env S → Iterated st realloc env S)
      (r : Process st realloc env S × Bool)
      → f r.0 ≡ g r.0
      → round f r ≡ round g r
  round-congr f g (p, true) e = refl
  round-congr f g (p, false) e = e

  -- The reference: the block is called for each pair in order until a call leaves.
  pub run_block : List (ℕ × ℕ) → Process st realloc env S → Iterated st realloc env S
  run_block [] p = iterated p
  run_block ((object, allocations) ∷ rest) p = round (run_block rest) (block object allocations p)

  -- A block that leaves the capture's classes and table as they are.
  pub record Reads : Type 0 where
    pub tracked :
        (object allocations : ℕ) (p : Process st realloc env S)
        → ((block object allocations p).0.world.captures self).tracked
          ≡ (p.world.captures self).tracked
    pub states :
        (object allocations : ℕ) (p : Process st realloc env S)
        → ((block object allocations p).0.world.captures self).states
          ≡ (p.world.captures self).states

  -- The capture has these classes and this table.
  abbrev pub HasTable : st.Table → Table → Process st realloc env S → Type 0
  HasTable tracked t p =
      ((p.world.captures self).tracked ≡ tracked) × ((p.world.captures self).states ≡ some t)

  module _ (reads : Reads) (filter : ℕ) (tracked : st.Table) (t : Table)
      (width : length t.entries ≡ t.capacity) where
    block-HasTable :
        (object allocations : ℕ) (p : Process st realloc env S)
        → HasTable tracked t p
        → HasTable tracked t (block object allocations p).0
    block-HasTable object allocations p (classes, there) =
        (reads.tracked object allocations p ∙ classes, reads.states object allocations p ∙ there)

    -- What the visit of an entry is, by the table of classes that is known.
    visit_cases :
        (e : Entry) (p : Process st realloc env S)
        → HasTable tracked t p
        → ((visit st realloc env S block self filter p e ≡ (p, false))
            × ((es : List Entry) → yields st tracked filter (e ∷ es) ≡ yields st tracked filter es))
          ⊎ ((visit st realloc env S block self filter p e
                ≡ block e.object (allocations_of st tracked e.klass) p)
              × ((es : List Entry)
                  → yields st tracked filter (e ∷ es)
                    ≡ (e.object, allocations_of st tracked e.klass) ∷ yields st tracked filter es))
    unfolding visit yields
    visit_cases e p (classes, there) =
        let read : selects st (p.world.captures self).tracked filter e
            ≡ selects st tracked filter e =
          ap (λ c. selects st c filter e) classes in
        let called : block e.object (allocations_of st (p.world.captures self).tracked e.klass) p
            ≡ block e.object (allocations_of st tracked e.klass) p =
          ap (λ c. block e.object (allocations_of st c e.klass) p) classes in
        elim (Bool-cases (is_occupied e.object)) [
          | inr hole ↦ inl (rw hole refl, λ es. rw hole refl)
          | inl used ↦ elim (Bool-cases (selects st tracked filter e)) [
            | inr other ↦ inl (rw (used, read ∙ other) refl, λ es. rw (used, other) refl)
            | inl own ↦ inr (rw (used, read ∙ own) called, λ es. rw (used, own) refl)
          ]
        ]

    visit-run_block :
        (next : Process st realloc env S → Iterated st realloc env S) (es : List Entry)
        → ((p : Process st realloc env S)
            → HasTable tracked t p
            → next p ≡ run_block (yields st tracked filter es) p)
        → (e : Entry) (p : Process st realloc env S) → HasTable tracked t p
        → round next (visit st realloc env S block self filter p e)
          ≡ run_block (yields st tracked filter (e ∷ es)) p
    unfolding run_block
    visit-run_block next es h e p has = elim (visit_cases e p has) [
      | inl (skipped, rest) ↦
          ap (round next) skipped ∙ h p has ∙ ap (λ l. run_block l p) (sym (rest es))
      | inr (called, rest) ↦
          let a = allocations_of st tracked e.klass in
          ap (round next) called
          ∙ round-congr next (run_block (yields st tracked filter es)) (block e.object a p)
              (h (block e.object a p).0 (block-HasTable e.object a p has))
          ∙ ap (λ l. run_block l p) (sym (rest es))
    ]

    each_loop-run_block :
        (rounds i : ℕ)
        → t.capacity < i + rounds
        → i ≤ t.capacity
        → (p : Process st realloc env S) → HasTable tracked t p
        → each_loop st realloc env S block self rounds filter i p
          ≡ run_block (yields st tracked filter (drop i t.entries)) p
    unfolding each_loop run_block yields
    each_loop-run_block zero i enough le p has = absurd (omega (arith, enough, le))
    each_loop-run_block (suc rounds) i enough le p (classes, there) =
        elim (Bool-cases (ltb i t.capacity)) [
          | inr over ↦
              let nothing : drop i t.entries ≡ [] =
                drop_all i t.entries (ground (arith, over, width)) in
              rw (there, each_loop) (rw (over, nothing) refl)
          | inl more ↦
              let es = drop (i + 1) t.entries in
              let split : drop i t.entries ≡ get_or t.entries i zeroed ∷ es =
                drop-cons i t.entries zeroed (ground (arith, more, width))
                ∙ ap (λ n. get_or t.entries i zeroed ∷ drop n t.entries) {x = suc i} {y = i + 1}
                    (omega arith) in
              rw (there, each_loop)
                (rw more (
                  visit-run_block (each_loop st realloc env S block self rounds filter (i + 1)) es
                    (each_loop-run_block rounds (i + 1) (omega (arith, enough))
                      (ground (arith, more)))
                    (get_or t.entries i zeroed) p (classes, there)
                  ∙ ap (λ l. run_block (yields st tracked filter l) p) (sym split)))
        ]

  pub process_all-idle :
      (p : Process st realloc env S)
      → p.events.processing_flag ≡ false
      → process_all realloc (handle st env) p.events (some p.world)
        ≡ Attempt.finished (process_queue realloc (handle st env) p.events (some p.world))
  unfolding process_all
  process_all-idle p idle =
      ap
        (λ b.
          if b
          then Attempt.recursive_call
          else Attempt.finished (process_queue realloc (handle st env) p.events (some p.world)))
        idle

  pub process_all-busy :
      (p : Process st realloc env S)
      → process_all realloc (handle st env) p.events (some p.world) ≡ Attempt.recursive_call
      → p.events.processing_flag ≡ true
  process_all-busy p e = elim (Bool-cases p.events.processing_flag) [
    | inl busy ↦ busy
    | inr idle ↦ absurd (ground (arith, sym e ∙ process_all-idle p idle))
  ]

  -- Where the class is tracked or none is given, no events are being processed, flushing the queue
  -- leads to a world in which the capture has a table whose array is as long as its capacity, there
  -- are more rounds than slots, and the block leaves the capture's classes and table as they are:
  -- `each_object` calls the block for the pairs that the loop over the array yields, in order, until a
  -- call leaves it, and then runs the cleanup.
  pub each_object-run_block :
      Reads
      → (p : Process st realloc env S) (klass filter : ℕ)
      → filter_of st realloc env S block self p klass ≡ some filter
      → p.events.processing_flag ≡ false
      → (events : Events) (world : World st)
      → process_queue realloc (handle st env) p.events (some p.world) ≡ (events, some world)
      → (t : Table) → (world.captures self).states ≡ some t
      → length t.entries ≡ t.capacity
      → (rounds : ℕ) → t.capacity < rounds
      → each_object st realloc env S block self rounds klass p
        ≡ ensured st realloc env S block self p.gc_enabled (
            run_block
              (Each.each_object_body st (world.captures self) filter)
              (record p { gc_enabled = false; events = events; world = world }))
  unfolding each_object after_flush each_object_body process_all Each.each_object_body
  each_object-run_block reads p klass filter tracked idle events world flushed t there width rounds
        enough =
      let c = world.captures self in
      let start : Process st realloc env S = record p {
        gc_enabled = false;
        events = events;
        world = world;
      } in
      let loop : each_loop st realloc env S block self rounds filter 0 start
          ≡ run_block (yields st c.tracked filter t.entries) start =
        each_loop-run_block reads filter c.tracked t width rounds 0 (omega (arith, enough))
          (omega arith) start (refl, there) in
      let ran : process_all realloc (handle st env) p.events (some p.world)
          ≡ Attempt.finished (events, some world) =
        process_all-idle p idle ∙ ap Attempt.finished flushed in
      rw (tracked, each_object)
        (rw (ran, after_flush)
          (ap (ensured st realloc env S block self p.gc_enabled)
            (rw (there, each_object_body, Each.each_object_body) loop)))
