-- ===== src/Capture/Others.antt =====
-- capture.c: what the processing of one capture's events leaves of the other captures.
use memory_profiler.Base.{
  ℕ, ◌≡◌, ◌≢◌, refl, ◌∙◌, true, not, ◌||◌, Option, none, some, inl, inr, ◌==◌, subst, arith,
  Bool-cases, Option-cases, add_size, get_or,
}
use memory_profiler.Ruby.{Ruby, StTable}
use memory_profiler.Events.{Event}
use memory_profiler.Table.Layout.{Table, zeroed}
use memory_profiler.Table.Operations.{lookup, insert, delete_entry}
use memory_profiler.Capture.State.{
  Capture, World, Called, returned, threw, Run, finished, raised, fault, Surroundings, put_capture,
  put_record, pause,
}
use memory_profiler.Capture.Process.{
  count_new, store_object, process_newobj, end_freeobj, release_object, process_freeobj,
  process_event, call_if, fill,
}
use memory_profiler.Capture.Calls.{Leaves, call_if-Leaves}
use memory_profiler.Events.Collect.{kind_cases}

module _ ⦃rb : Ruby⦄ (st : StTable) (env : Surroundings st) (self : ℕ)
    (leaves : (callback klass symbol argument : ℕ) (w : World st)
      → Leaves st self (w.captures self) (env.call callback klass symbol argument w)) where
  -- The capture `self` after a run, where it is not lost.
  abbrev pub Keeps : Capture st → Run st → Type 0
  Keeps c (finished w) = w.captures self ≡ c
  Keeps c (raised w) = w.captures self ≡ c
  Keeps c fault = Unit {0}

  module _ (other : ℕ) (differ : other ≢ self) where
    put_other :
        (w : World st) (capture : Capture st)
        → (put_capture st w other capture).captures self ≡ w.captures self
    put_other w capture = ground (arith, differ)

    store_object-Keeps :
        (klass object : ℕ) (c : Capture st) (called : Called st)
        → Leaves st self c called
        → Keeps c (store_object st env other klass object called)
    unfolding store_object
    store_object-Keeps klass object c (threw w) h = h
    store_object-Keeps klass object c (returned value w) h =
        elim (Option-cases (w.captures other).states) [
          | inl e ↦ rw e tt
          | inr (t, e) ↦
              let stored : Capture st = record (w.captures other) {
                states = some (
                    fill (insert env.calloc t object).0 (insert env.calloc t object).1 klass value);
              } in
              rw e (put_other (put_capture st w other stored) _ ∙ put_other w stored ∙ h)
        ]

    end_freeobj-Keeps :
        (c : Capture st) (called : Called st)
        → Leaves st self c called
        → Keeps c (end_freeobj st env other called)
    unfolding end_freeobj
    end_freeobj-Keeps c (threw w) h = h
    end_freeobj-Keeps c (returned value w) h = put_other w _ ∙ h

    abbrev Kept : Capture st → Option (World st × ℕ) → Type 0
    Kept c none = Unit {0}
    Kept c (some (w, allocations)) = w.captures self ≡ c

    count_new-Kept :
        (w : World st) (klass : ℕ) → Kept (w.captures self) (count_new st env w other klass)
    unfolding count_new
    count_new-Kept w klass = elim (Option-cases (st.lookup (w.captures other).tracked klass)) [
      | inr (allocations, e) ↦ rw (e, Kept) refl
      | inl e ↦ elim (Bool-cases (w.captures other).track_all) [
        | inl all ↦
            rw (e, all, Kept)
              (put_other
                (put_record st w (env.wrap w)
                  (record { callback = rb.q_nil; new_count = 1; free_count = 0 }))
                (record (w.captures other) {
                  track_all = true;
                  tracked = st.insert (w.captures other).tracked klass (env.wrap w);
                }))
        | inr few ↦ rw (e, few, Kept) tt
      ]
    ]

    newobj-Keeps :
        (w : World st) (klass object : ℕ)
        → Keeps (w.captures self) (process_newobj st env w other klass object)
    unfolding process_newobj
    newobj-Keeps w klass object =
        let paused = pause st w other in
        let kept = count_new-Kept paused klass in
        elim (Option-cases (count_new st env paused other klass)) [
          | inl e ↦ rw (e, Keeps) (put_other paused _ ∙ put_other w _)
          | inr ((counted, allocations), e) ↦
              let same : counted.captures self ≡ paused.captures self =
                subst (Kept (paused.captures self)) e kept in
              let capture = counted.captures other in
              let w' =
                put_capture st counted other
                  (record capture { new_count = add_size capture.new_count 1 }) in
              let callback = (w'.records allocations).callback in
              let called =
                call_if st env (not (callback == rb.q_nil)) callback klass env.sym_newobj rb.q_nil
                  w' in
              rw (e, Keeps)
                (store_object-Keeps klass object (w.captures self) called (
                  subst (λ c. Leaves st self c called)
                    (put_other counted (record capture { new_count = add_size capture.new_count 1 })
                      ∙ same
                      ∙ put_other w _)
                    (call_if-Leaves st env self leaves (not (callback == rb.q_nil)) callback klass
                      env.sym_newobj rb.q_nil w')))
        ]

    release_object-Keeps :
        (w : World st) (t : Table) (index : ℕ)
        → Keeps (w.captures self) (release_object st env w other t index)
    unfolding release_object
    release_object-Keeps w t index =
        let entry = get_or t.entries index zeroed in
        let capture = w.captures other in
        elim (Option-cases (st.lookup capture.tracked entry.klass)) [
          | inl e ↦ rw (e, Keeps) (put_other w _)
          | inr (allocations, e) ↦
              let changed : Capture st = record capture {
                states = some (delete_entry t index);
                free_count = add_size capture.free_count 1;
              } in
              let deleted = put_capture st w other changed in
              let r = deleted.records allocations in
              let w' =
                put_record st deleted allocations
                  (record r { free_count = add_size r.free_count 1 }) in
              let called =
                call_if st env (not (r.callback == rb.q_nil || entry.data_value == rb.q_nil))
                  r.callback entry.klass env.sym_freeobj entry.data_value w' in
              rw (e, Keeps)
                (end_freeobj-Keeps (w.captures self) called (
                  subst (λ c. Leaves st self c called) (put_other w changed)
                    (call_if-Leaves st env self leaves
                      (not (r.callback == rb.q_nil || entry.data_value == rb.q_nil)) r.callback
                      entry.klass env.sym_freeobj entry.data_value w')))
        ]

    freeobj-Keeps :
        (w : World st) (object : ℕ)
        → Keeps (w.captures self) (process_freeobj st env w other object)
    unfolding process_freeobj
    freeobj-Keeps w object =
        let paused = pause st w other in
        elim (Option-cases (paused.captures other).states) [
          | inl e ↦ rw (e, Keeps) tt
          | inr (t, e) ↦
              rw (e, Keeps)
                (elim (Option-cases (lookup t object)) [
                  | inl absent ↦ rw (absent, Keeps) (put_other paused _ ∙ put_other w _)
                  | inr (index, there) ↦
                      rw (there, Keeps)
                        (subst (λ c. Keeps c (release_object st env paused other t index))
                          (put_other w _) (release_object-Keeps paused t index))
                ])
        ]

  -- Where the callbacks leave a capture as it is: processing an event of another capture leaves it as
  -- it is, whether the processing returns or raises.
  pub process_event-Keeps :
      (w : World st) (event : Event)
      → event.capture ≢ self
      → Keeps (w.captures self) (process_event st env w event)
  unfolding process_event
  process_event-Keeps w event differ = elim (kind_cases event.kind) [
    | inl e ↦ rw (e, Keeps) refl
    | inr (inl e) ↦ rw (e, Keeps) (newobj-Keeps event.capture differ w event.klass event.object)
    | inr (inr e) ↦ rw (e, Keeps) (freeobj-Keeps event.capture differ w event.object)
  ]
