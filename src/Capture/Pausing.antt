-- ===== src/Capture/Pausing.antt =====
-- capture.c: the counter `paused`, which stops the event hook while an event is processed.
use memory_profiler.Base.{
  ℕ, ◌^◌, ◌<◌, ◌≡◌, refl, ◌∙◌, Bool, true, false, not, ◌||◌, Option, none, some, inl, inr, ◌==◌,
  subst, if◌then◌else◌, arith, Bool-cases, Option-cases, add_size, get_or,
}
use native.Mathlib.Decide.{ℕ_discrete}
use memory_profiler.Ruby.{Ruby, StTable}
use memory_profiler.Events.{Event}
use memory_profiler.Events.Collect.{kind_cases}
use memory_profiler.Table.Layout.{Table, zeroed}
use memory_profiler.Table.Operations.{lookup, insert, delete_entry}
use memory_profiler.Capture.State.{
  Capture, World, Called, returned, threw, Run, finished, raised, fault, Surroundings, inc_int,
  put_capture, put_record, dec_int, pause, resume,
}
use memory_profiler.Capture.Process.{
  count_new, store_object, process_newobj, end_freeobj, release_object, process_freeobj,
  process_event, call_if, fill,
}

module _ ⦃rb : Ruby⦄ (st : StTable) (env : Surroundings st) (c : ℕ) where
  -- How often the capture `c` is paused.
  abbrev pub paused_of : World st → ℕ
  paused_of w = (w.captures c).paused

  abbrev pub CalledWith : ℕ → Called st → Type 0
  CalledWith p (returned value w) = paused_of w ≡ p
  CalledWith p (threw w) = paused_of w ≡ p

  -- The callbacks leave the counter as they found it.
  abbrev pub CallsKeepPaused : Type 0
  CallsKeepPaused =
      (callback klass symbol argument : ℕ) (w : World st)
      → CalledWith (paused_of w) (env.call callback klass symbol argument w)

  -- A handler that returns leaves the counter as it was; an exception leaves the capture paused once
  -- more.
  abbrev pub PausedAfter : ℕ → ℕ → Run st → Type 0
  PausedAfter self p (finished w) = paused_of w ≡ p
  PausedAfter self p (raised w) = paused_of w ≡ (if c == self then inc_int p else p)
  PausedAfter self p fault = Unit {0}

  abbrev within : ℕ → ℕ → ℕ
  within self p = if c == self then inc_int p else p

  -- A change of a capture that keeps its own counter keeps every counter.
  paused-put :
      (w : World st) (self : ℕ) (capture : Capture st)
      → capture.paused ≡ (w.captures self).paused
      → paused_of (put_capture st w self capture) ≡ paused_of w
  paused-put w self capture e = elim (ℕ_discrete c self) [
    | yes same ↦ ground (arith, same, e)
    | no differ ↦ ground (arith, differ)
  ]

  paused-pause : (w : World st) (self : ℕ) → paused_of (pause st w self) ≡ within self (paused_of w)
  paused-pause w self = elim (ℕ_discrete c self) [
    | yes same ↦ ground (arith, same)
    | no differ ↦ ground (arith, differ)
  ]

  dec-inc : (p : ℕ) → p < 2 ^ 32 → dec_int (inc_int p) ≡ p
  dec-inc p lt = omega arith

  paused-resume :
      (w : World st) (self p : ℕ)
      → p < 2 ^ 32
      → paused_of w ≡ within self p
      → paused_of (resume st w self) ≡ p
  paused-resume w self p lt e = elim (ℕ_discrete c self) [
    | yes same ↦ ground (arith, same, e, dec-inc p lt)
    | no differ ↦ ground (arith, differ, e)
  ]

  store_object-PausedAfter :
      (self klass object p : ℕ) (called : Called st)
      → p < 2 ^ 32
      → CalledWith (within self p) called
      → PausedAfter self p (store_object st env self klass object called)
  unfolding store_object
  store_object-PausedAfter self klass object p (threw w) lt h = h
  store_object-PausedAfter self klass object p (returned value w) lt h =
      elim (Option-cases (w.captures self).states) [
        | inl e ↦ rw e tt
        | inr (t, e) ↦
            let stored : Capture st = record (w.captures self) {
              states =
                  some (
                    fill (insert env.calloc t object).0 (insert env.calloc t object).1 klass value);
            } in
            rw e (
              paused-resume (put_capture st w self stored) self p lt
                (paused-put w self stored refl ∙ h))
      ]

  call_if-CalledWith :
      (calls : Bool) (callback klass symbol argument : ℕ) (w : World st)
      → CallsKeepPaused
      → CalledWith (paused_of w) (call_if st env calls callback klass symbol argument w)
  call_if-CalledWith true callback klass symbol argument w keeps =
      keeps callback klass symbol argument w
  call_if-CalledWith false callback klass symbol argument w keeps = refl

  abbrev Counts : ℕ → Option (World st × ℕ) → Type 0
  Counts p none = Unit {0}
  Counts p (some (w, allocations)) = paused_of w ≡ p

  count_new-Counts :
      (w : World st) (self klass : ℕ) → Counts (paused_of w) (count_new st env w self klass)
  unfolding count_new
  count_new-Counts w self klass = elim (Option-cases (st.lookup (w.captures self).tracked klass)) [
    | inr (allocations, e) ↦ rw (e, Counts) refl
    | inl e ↦ elim (Bool-cases (w.captures self).track_all) [
      | inl all ↦
          rw (e, all, Counts)
            (paused-put
              (put_record st w (env.wrap w)
                (record { callback = rb.q_nil; new_count = 1; free_count = 0 }))
              self
              (record (w.captures self) {
                track_all = true;
                tracked = st.insert (w.captures self).tracked klass (env.wrap w);
              })
              refl)
      | inr few ↦ rw (e, few, Counts) tt
    ]
  ]

  module _ (keeps : CallsKeepPaused) where
    newobj-PausedAfter :
        (w : World st) (self klass object : ℕ)
        → paused_of w < 2 ^ 32
        → PausedAfter self (paused_of w) (process_newobj st env w self klass object)
    unfolding process_newobj
    newobj-PausedAfter w self klass object lt =
        let p = paused_of w in
        let paused = pause st w self in
        let counts = count_new-Counts paused self klass in
        elim (Option-cases (count_new st env paused self klass)) [
          | inl e ↦ rw (e, PausedAfter) (paused-resume paused self p lt (paused-pause w self))
          | inr ((counted, allocations), e) ↦
              let same : paused_of counted ≡ paused_of paused =
                subst (Counts (paused_of paused)) e counts in
              let capture = counted.captures self in
              let w' =
                put_capture st counted self
                  (record capture { new_count = add_size capture.new_count 1 }) in
              let callback = (w'.records allocations).callback in
              let h : paused_of w' ≡ within self p =
                paused-put counted self
                  (record capture { new_count = add_size capture.new_count 1 }) refl
                ∙ same
                ∙ paused-pause w self in
              let called =
                call_if st env (not (callback == rb.q_nil)) callback klass env.sym_newobj rb.q_nil
                  w' in
              rw (e, PausedAfter)
                (store_object-PausedAfter self klass object p called lt (
                  subst (λ n. CalledWith n called) h
                    (call_if-CalledWith (not (callback == rb.q_nil)) callback klass env.sym_newobj
                      rb.q_nil w' keeps)))
        ]

    end_freeobj-PausedAfter :
        (self p : ℕ) (called : Called st)
        → p < 2 ^ 32
        → CalledWith (within self p) called
        → PausedAfter self p (end_freeobj st env self called)
    unfolding end_freeobj
    end_freeobj-PausedAfter self p (threw w) lt h = h
    end_freeobj-PausedAfter self p (returned value w) lt h = paused-resume w self p lt h

    release_object-PausedAfter :
        (w : World st) (self p : ℕ) (t : Table) (index : ℕ)
        → p < 2 ^ 32
        → paused_of w ≡ within self p
        → PausedAfter self p (release_object st env w self t index)
    unfolding release_object
    release_object-PausedAfter w self p t index lt h =
        let entry = get_or t.entries index zeroed in
        let capture = w.captures self in
        elim (Option-cases (st.lookup capture.tracked entry.klass)) [
          | inl e ↦ rw (e, PausedAfter) (paused-resume w self p lt h)
          | inr (allocations, e) ↦
              let changed : Capture st = record capture {
                states = some (delete_entry t index);
                free_count = add_size capture.free_count 1;
              } in
              let deleted = put_capture st w self changed in
              let r = deleted.records allocations in
              let w' =
                put_record st deleted allocations
                  (record r { free_count = add_size r.free_count 1 }) in
              let called =
                call_if st env (not (r.callback == rb.q_nil || entry.data_value == rb.q_nil))
                  r.callback entry.klass env.sym_freeobj entry.data_value w' in
              rw (e, PausedAfter)
                (end_freeobj-PausedAfter self p called lt (
                  subst (λ n. CalledWith n called) (paused-put w self changed refl ∙ h)
                    (call_if-CalledWith
                      (not (r.callback == rb.q_nil || entry.data_value == rb.q_nil)) r.callback
                      entry.klass env.sym_freeobj entry.data_value w' keeps)))
        ]

    freeobj-PausedAfter :
        (w : World st) (self object : ℕ)
        → paused_of w < 2 ^ 32
        → PausedAfter self (paused_of w) (process_freeobj st env w self object)
    unfolding process_freeobj
    freeobj-PausedAfter w self object lt =
        let p = paused_of w in
        let paused = pause st w self in
        elim (Option-cases (paused.captures self).states) [
          | inl e ↦ rw (e, PausedAfter) tt
          | inr (t, e) ↦
              rw (e, PausedAfter)
                (elim (Option-cases (lookup t object)) [
                  | inl absent ↦
                      rw (absent, PausedAfter)
                        (paused-resume paused self p lt (paused-pause w self))
                  | inr (index, there) ↦
                      rw (there, PausedAfter)
                        (release_object-PausedAfter paused self p t index lt (paused-pause w self))
                ])
        ]

    -- Where the callbacks leave the counter `paused` of a capture as they found it: processing an
    -- event, when it returns, leaves the counter of every capture as it was; when an exception of the
    -- callback passes through it, the counter of the event's capture stays one higher.
    pub process_event-PausedAfter :
        (w : World st) (event : Event)
        → paused_of w < 2 ^ 32
        → PausedAfter event.capture (paused_of w) (process_event st env w event)
    unfolding process_event
    process_event-PausedAfter w event lt = elim (kind_cases event.kind) [
      | inl e ↦ rw (e, PausedAfter) refl
      | inr (inl e) ↦
          rw (e, PausedAfter) (newobj-PausedAfter w event.capture event.klass event.object lt)
      | inr (inr e) ↦ rw (e, PausedAfter) (freeobj-PausedAfter w event.capture event.object lt)
    ]
