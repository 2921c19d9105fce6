-- ===== src/Capture/Freeobj.antt =====
-- capture.c: what `process_freeobj` does to the capture, the record of the class and the table.
use memory_profiler.Base.{
  ℕ, ◌^◌, ◌<◌, ◌≡◌, sym, ap, ◌∙◌, not, ◌||◌, none, some, inl, inr, ◌==◌, arith, Option-cases,
  add_size, subst,
}
use memory_profiler.Ruby.{Ruby, StTable}
use memory_profiler.Allocations.{Allocations}
use memory_profiler.Table.Layout.{Table, Entry}
use memory_profiler.Table.Operations.{lookup, delete_entry}
use memory_profiler.Table.Slots.{scan}
use memory_profiler.Table.Holds.{IsLive, IsValid}
use memory_profiler.Table.Lookup.{entry_at, lookup_cases}
use memory_profiler.Table.Delete.{Removes, delete-Removes, delete_entry-eq-delete}
use memory_profiler.Capture.State.{
  Capture, World, Called, returned, threw, Run, finished, raised, fault, Surroundings, inc_int,
  put_capture, put_record, dec_int, pause,
}
use memory_profiler.Capture.Process.{process_freeobj, release_object, end_freeobj, call_if}
use memory_profiler.Capture.Calls.{
  Leaves, captures-put, records-put, paused-captures, skip-captures, call_if-Leaves,
}

module _ ⦃rb : Ruby⦄ (st : StTable) (env : Surroundings st) where
  -- After a callback the capture is resumed; where the callback raised it stays paused.
  abbrev pub EndedAfter : ℕ → Capture st → Called st → Run st → Type 0
  EndedAfter self c (returned value w) (finished w') =
      w'.captures self ≡ record c { paused = dec_int c.paused }
  EndedAfter self c (threw w) (raised w') = w'.captures self ≡ c
  EndedAfter self c (returned value w) (raised w') = ⊥
  EndedAfter self c (returned value w) fault = ⊥
  EndedAfter self c (threw w) (finished w') = ⊥
  EndedAfter self c (threw w) fault = ⊥

  end_freeobj-EndedAfter :
      (self : ℕ) (c : Capture st) (called : Called st)
      → Leaves st self c called
      → EndedAfter self c called (end_freeobj st env self called)
  unfolding end_freeobj
  end_freeobj-EndedAfter self c (threw w) h = h
  end_freeobj-EndedAfter self c (returned value w) h =
      captures-put st w self _ ∙ ap (λ (x : Capture st). record x { paused = dec_int x.paused }) h

  -- The capture while the callback runs for a freed object.
  abbrev pub freed_capture : Capture st → Table → Capture st
  freed_capture c t = record c {
    paused = inc_int c.paused;
    states = some t;
    free_count = add_size c.free_count 1;
  }

  -- The callback's part: it is called with the stored data unless there is none.
  abbrev pub freed_call : Entry → Allocations → World st → Called st
  freed_call entry r before =
      call_if st env (not (r.callback == rb.q_nil || entry.data_value == rb.q_nil)) r.callback
        entry.klass env.sym_freeobj entry.data_value before

  -- How the processing of a freed object ends: the object is not in the table; its class is not
  -- tracked any more, and its entry stays; or the entry is removed, the object is counted and the
  -- callback gets the data that was stored with the object.
  pub data Freeobj (w : World st) (self object : ℕ) {t : Table} (v : IsValid t)
      : Run st → Type 0 where
    unknown :
        (w' : World st)
        → scan object t.entries ≡ none
        → w'.captures self ≡ w.captures self
        → Freeobj w self object v (finished w')
    stale :
        (w' : World st) (entry : Entry)
        → scan object t.entries ≡ some entry
        → st.lookup (w.captures self).tracked entry.klass ≡ none
        → w'.captures self ≡ w.captures self
        → Freeobj w self object v (finished w')
    released :
        (entry : Entry) (a : ℕ) (t' : Table) (before : World st) (run : Run st)
        → scan object t.entries ≡ some entry
        → st.lookup (w.captures self).tracked entry.klass ≡ some a
        → Removes v object 1 t'
        → before.captures self ≡ freed_capture (w.captures self) t'
        → before.records a
          ≡ record (w.records a) { free_count = add_size (w.records a).free_count 1 }
        → EndedAfter self
            (freed_capture (w.captures self) t')
            (freed_call entry (w.records a) before)
            run
        → Freeobj w self object v run

  module _ (self : ℕ)
      (leaves : (callback klass symbol argument : ℕ) (w : World st)
        → Leaves st self (w.captures self) (env.call callback klass symbol argument w)) where
    removed :
        {t : Table} (v : IsValid t) (object index : ℕ)
        → IsLive object
        → lookup t object ≡ some index
        → scan object t.entries ≡ some (entry_at t index)
        → Removes v object 1 (delete_entry t index)
    removed {t} v object index ok at there =
        subst (λ u. Removes v object 1 u) (sym (delete_entry-eq-delete v object ok index at))
          (elim (delete-Removes v object ok) [
            | inl (absent, _) ↦ absurd (ground (arith, absent, there))
            | inr gone ↦ gone
          ])

    release_object-Freeobj :
        (w : World st) (object index : ℕ) {t : Table} (v : IsValid t)
        → (w.captures self).paused < 2 ^ 32
        → IsLive object
        → lookup t object ≡ some index
        → scan object t.entries ≡ some (entry_at t index)
        → Freeobj w self object v (release_object st env (pause st w self) self t index)
    unfolding release_object
    release_object-Freeobj w object index {t} v lt ok at there =
        let entry = entry_at t index in
        let paused = pause st w self in
        let c = paused.captures self in
        elim (Option-cases (st.lookup (w.captures self).tracked entry.klass)) [
          | inl e ↦
              let e' : st.lookup c.tracked entry.klass ≡ none =
                ap (λ (x : Capture st). st.lookup x.tracked entry.klass) (paused-captures st self w)
                ∙ e in
              rw (e', release_object) (stale _ entry there e (skip-captures st self w lt))
          | inr (a, e) ↦
              let e' : st.lookup c.tracked entry.klass ≡ some a =
                ap (λ (x : Capture st). st.lookup x.tracked entry.klass) (paused-captures st self w)
                ∙ e in
              let t' = delete_entry t index in
              let deleted =
                put_capture st paused self
                  (record c { states = some t'; free_count = add_size c.free_count 1 }) in
              let r : Allocations = w.records a in
              let before =
                put_record st deleted a (record r { free_count = add_size r.free_count 1 }) in
              let shape : before.captures self ≡ freed_capture (w.captures self) t' =
                captures-put st paused self _
                ∙ ap
                    (λ (x : Capture st). record x {
                      states = some t';
                      free_count = add_size x.free_count 1;
                    })
                    (paused-captures st self w) in
              let called = freed_call entry r before in
              rw (e', release_object)
                (released entry a t' before _ there e (removed v object index ok at there) shape
                  (records-put st deleted a _)
                  (end_freeobj-EndedAfter self (freed_capture (w.captures self) t') called (
                    subst (λ x. Leaves st self x called) shape
                      (call_if-Leaves st env self leaves _ r.callback entry.klass env.sym_freeobj
                        entry.data_value before))))
        ]

    pub process_freeobj-Freeobj :
        (w : World st) (object : ℕ) {t : Table} (v : IsValid t)
        → (w.captures self).states ≡ some t
        → (w.captures self).paused < 2 ^ 32
        → IsLive object
        → Freeobj w self object v (process_freeobj st env w self object)
    unfolding process_freeobj
    process_freeobj-Freeobj w object {t} v e lt ok =
        let e' : ((pause st w self).captures self).states ≡ some t =
          ap (λ (x : Capture st). x.states) (paused-captures st self w) ∙ e in
        elim (lookup_cases v object ok) [
          | inr (missed, absent, _) ↦
              rw (e', missed, process_freeobj) (unknown _ absent (skip-captures st self w lt))
          | inl (index, at, _, _, there) ↦
              rw (e', at, process_freeobj) (release_object-Freeobj w object index v lt ok at there)
        ]
