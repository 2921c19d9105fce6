-- ===== src/Capture/Newobj.antt =====
-- capture.c: what `process_newobj` does to the capture, the record of the class and the table.
use memory_profiler.Base.{
  ℕ, ◌+◌, ◌^◌, ◌<◌, ◌≡◌, refl, sym, ap, ◌∙◌, true, false, not, Option, none, some, ◌==◌, add_size,
  mul_size, subst,
}
use memory_profiler.Ruby.{Ruby, StTable}
use memory_profiler.Allocations.{Allocations}
use memory_profiler.Table.Layout.{Table, entry_size, max_probe_length}
use memory_profiler.Table.Operations.{insert, overloaded}
use memory_profiler.Table.Holds.{IsLive, IsValid}
use memory_profiler.Table.Resize.{RefusesOverflow}
use memory_profiler.Table.Load.{insert-Loads}
use memory_profiler.Table.Insert.{insert-Inserts}
use memory_profiler.Capture.State.{
  Capture, World, Called, returned, threw, Run, finished, raised, fault, Surroundings, inc_int,
  put_capture, dec_int, pause, resume,
}
use memory_profiler.Capture.Calls.{
  Leaves, captures-put, paused-captures, skip-captures, call_if-Leaves,
}
use memory_profiler.Capture.Process.{count_new, store_object, process_newobj, call_if, fill}
use memory_profiler.Capture.Stores.{Stores, fill-Stores}
use memory_profiler.Capture.Counting.{Counting, Counted, skipped, counted, count_new-Counted}

module _ ⦃rb : Ruby⦄ (st : StTable) (env : Surroundings st) where
  -- After a callback: the object is stored with what the callback returned and the capture is resumed;
  -- where the callback raised, nothing is stored and the capture stays paused.
  abbrev pub StoredAfter : ℕ → Capture st → Table → ℕ → ℕ → Called st → Run st → Type 0
  StoredAfter self c t klass object (returned value w) (finished w') =
      (t' : Table) × (w'.captures self ≡ record c { states = some t'; paused = dec_int c.paused })
      × Stores t (record { object = object; klass = klass; data_value = value }) t'
  StoredAfter self c t klass object (threw w) (raised w') = w'.captures self ≡ c
  StoredAfter self c t klass object (returned value w) (raised w') = ⊥
  StoredAfter self c t klass object (returned value w) fault = ⊥
  StoredAfter self c t klass object (threw w) (finished w') = ⊥
  StoredAfter self c t klass object (threw w) fault = ⊥

  -- The table can take one more object: it is well formed, fewer than 10000 slots are in use, and the
  -- allocator grants the larger array where one is needed.
  pub record Ready (t : Table) : Type 0 where
    pub valid : IsValid t
    pub refuses : RefusesOverflow env.calloc
    pub granted : overloaded t ≡ true → env.calloc (mul_size t.capacity 2) entry_size ≡ true
    pub few : t.count + t.tombstones < max_probe_length

  store_object-StoredAfter :
      (self klass object : ℕ) (c : Capture st) (t : Table) (called : Called st)
      → c.states ≡ some t
      → Ready t
      → IsLive object
      → Leaves st self c called
      → StoredAfter self c t klass object called (store_object st env self klass object called)
  unfolding store_object
  store_object-StoredAfter self klass object c t (threw w) e ready ok h = h
  store_object-StoredAfter self klass object c t (returned value w) e ready ok h =
      let r = insert env.calloc t object in
      let t' = fill r.0 r.1 klass value in
      let c' : Capture st = record (w.captures self) { states = some t' } in
      let there : (w.captures self).states ≡ some t = ap (λ (x : Capture st). x.states) h ∙ e in
      let end : (resume st (put_capture st w self c') self).captures self
          ≡ record c { states = some t'; paused = dec_int c.paused } =
        captures-put st (put_capture st w self c') self _
        ∙ ap (λ (x : Capture st). record x { paused = dec_int x.paused })
            (captures-put st w self c')
        ∙ ap (λ (x : Capture st). record x { states = some t'; paused = dec_int x.paused }) h in
      let load =
        insert-Loads ready.valid object ok env.calloc ready.refuses ready.granted ready.few in
      rw there (
        t',
        end,
        fill-Stores t object klass value r ok
            (insert-Inserts ready.valid object ok env.calloc ready.refuses ready.granted ready.few)
            load.one_more,
      )

  -- The capture while the callback runs for a new object.
  abbrev pub counted_capture : Capture st → st.Table → Capture st
  counted_capture c classes = record c {
    paused = inc_int c.paused;
    tracked = classes;
    new_count = add_size c.new_count 1;
  }

  -- How the processing of a new object ends, where the capture's table was `t`: it is ignored, or it
  -- is counted and then stored as the callback decides.
  pub data Newobj (w : World st) (self klass object : ℕ) (t : Table) : Run st → Type 0 where
    ignored :
        (w' : World st)
        → st.lookup (w.captures self).tracked klass ≡ none
        → (w.captures self).track_all ≡ false
        → w'.captures self ≡ w.captures self
        → Newobj w self klass object t (finished w')
    tracked :
        (a : ℕ) (r : Allocations) (classes : st.Table) (before : World st) (run : Run st)
        → Counting st env (pause st w self) self klass a r classes
        → before.captures self ≡ counted_capture (w.captures self) classes
        → before.records a ≡ r
        → StoredAfter self
            (counted_capture (w.captures self) classes)
            t
            klass
            object
            (call_if st env
              (not (r.callback == rb.q_nil))
              r.callback
              klass
              env.sym_newobj
              rb.q_nil
              before)
            run
        → Newobj w self klass object t run

  module _ (self : ℕ)
      (leaves : (callback klass symbol argument : ℕ) (w : World st)
        → Leaves st self (w.captures self) (env.call callback klass symbol argument w)) where
    finish-Newobj :
        (w : World st) (klass object : ℕ) (t : Table)
        → (w.captures self).states ≡ some t
        → (w.captures self).paused < 2 ^ 32
        → Ready t
        → IsLive object
        → (o : Option (World st × ℕ)) → count_new st env (pause st w self) self klass ≡ o
        → Counted st env (pause st w self) self klass o
        → Newobj w self klass object t (process_newobj st env w self klass object)
    unfolding process_newobj
    finish-Newobj w klass object t e lt ready ok none same (skipped absent off) =
        rw (same, process_newobj)
          (ignored _
            (subst (λ (c : Capture st). st.lookup c.tracked klass ≡ none)
              (paused-captures st self w) absent)
            (ap (λ (c : Capture st). c.track_all) (sym (paused-captures st self w)) ∙ off)
            (skip-captures st self w lt))
    finish-Newobj w klass object t e lt ready ok (some _) same
          (counted w' a r classes counting cap rec) =
        let c = w'.captures self in
        let before = put_capture st w' self (record c { new_count = add_size c.new_count 1 }) in
        let shape : before.captures self ≡ counted_capture (w.captures self) classes =
          captures-put st w' self _
          ∙ ap (λ (x : Capture st). record x { new_count = add_size x.new_count 1 }) cap
          ∙ ap
              (λ (x : Capture st). record x {
                tracked = classes;
                new_count = add_size x.new_count 1;
              })
              (paused-captures st self w) in
        let call : Allocations → Called st = λ x.
          call_if st env (not (x.callback == rb.q_nil)) x.callback klass env.sym_newobj rb.q_nil
            before in
        let run : Called st → Run st = store_object st env self klass object in
        rw (same, process_newobj)
          (tracked a r classes before _ counting shape rec (
            subst
              (λ x.
                StoredAfter self (counted_capture (w.captures self) classes) t klass object (call r)
                  (run (call x)))
              (sym rec)
              (store_object-StoredAfter self klass object
                (counted_capture (w.captures self) classes) t (call r) e ready ok
                (subst (λ x. Leaves st self x (call r)) shape
                  (call_if-Leaves st env self leaves _ _ klass env.sym_newobj rb.q_nil before)))))

    pub process_newobj-Newobj :
        (w : World st) (klass object : ℕ) (t : Table)
        → (w.captures self).states ≡ some t
        → (w.captures self).paused < 2 ^ 32
        → Ready t
        → IsLive object
        → Newobj w self klass object t (process_newobj st env w self klass object)
    process_newobj-Newobj w klass object t e lt ready ok =
        finish-Newobj w klass object t e lt ready ok _ refl
          (count_new-Counted st env (pause st w self) self klass)
