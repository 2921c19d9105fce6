-- ===== src/Capture/Lifetime.antt =====
-- capture.c: the life of an object, from `process_newobj` to `process_freeobj`.
use memory_profiler.Base.{
  ℕ, ◌^◌, ◌<◌, ◌≡◌, refl, sym, ap, ◌∙◌, Bool, true, false, not, none, some, ◌==◌, if◌then◌else◌,
  arith, add_size, subst,
}
use memory_profiler.Ruby.{Ruby, StTable}
use memory_profiler.Allocations.{Allocations}
use memory_profiler.Table.Layout.{Table}
use memory_profiler.Table.Slots.{scan}
use memory_profiler.Table.Holds.{IsLive, IsValid}
use memory_profiler.Capture.State.{
  Capture, World, Called, returned, threw, Run, finished, raised, fault, Surroundings, inc_int,
  dec_int, pause,
}
use memory_profiler.Capture.Process.{call_if, process_newobj, process_freeobj}
use memory_profiler.Capture.Calls.{Leaves, paused-captures}
use memory_profiler.Capture.Newobj.{
  Ready, StoredAfter, Newobj, ignored, tracked, counted_capture, process_newobj-Newobj,
}
use memory_profiler.Capture.Counting.{Counting, known, created}
use memory_profiler.Capture.Stores.{Stores}
use memory_profiler.Capture.Freeobj.{
  Freeobj, unknown, stale, released, EndedAfter, freed_capture, process_freeobj-Freeobj,
}

module _ ⦃rb : Ruby⦄ (st : StTable) (env : Surroundings st) where
  -- A call that returns.
  abbrev pub Returns : Called st → Type 0
  Returns called = (value : ℕ) × (w : World st) × (called ≡ returned value w)

  module _
      (returns : (callback klass symbol argument : ℕ) (w : World st)
        → Returns (env.call callback klass symbol argument w)) where
    pub call_if-Returns :
        (calls : Bool) (callback klass symbol argument : ℕ) (w : World st)
        → Returns (call_if st env calls callback klass symbol argument w)
    call_if-Returns true callback klass symbol argument w = returns callback klass symbol argument w
    call_if-Returns false callback klass symbol argument w = (rb.q_nil, w, refl)

  -- A new object that was stored, and where.
  abbrev pub IsStored : ℕ → Capture st → Table → ℕ → ℕ → Run st → Type 0
  IsStored self c t klass object run =
      (w' : World st) × (run ≡ finished w')
      × (value : ℕ) × (t' : Table) × (w'.captures self
          ≡ record c { states = some t'; paused = dec_int c.paused })
      × Stores t (record { object = object; klass = klass; data_value = value }) t'

  StoredAfter-IsStored :
      (self : ℕ) (c : Capture st) (t : Table) (klass object : ℕ) (called : Called st) (run : Run st)
      → Returns called
      → StoredAfter st env self c t klass object called run
      → IsStored self c t klass object run
  StoredAfter-IsStored self c t klass object (returned value w) (finished w') r
        (t', shape, stores) =
      (w', refl, value, t', shape, stores)
  StoredAfter-IsStored self c t klass object (returned value w) (raised w') r h = elim h [ ]
  StoredAfter-IsStored self c t klass object (returned value w) fault r h = elim h [ ]
  StoredAfter-IsStored self c t klass object (threw w) run (value, w', e) h =
      absurd (ground (arith, e))

  Counting-tracked :
      (w : World st) (self klass a b : ℕ) (r : Allocations) (classes : st.Table)
      → st.lookup (w.captures self).tracked klass ≡ some a
      → Counting st env (pause st w self) self klass b r classes
      → classes ≡ (w.captures self).tracked
  Counting-tracked w self klass a b r classes e (known b' found) =
      ap (λ (x : Capture st). x.tracked) (paused-captures st self w)
  Counting-tracked w self klass a b r classes e (created absent all) = absurd (
      ground (
        arith,
        sym e
            ∙ ap (λ (x : Capture st). st.lookup x.tracked klass) (sym (paused-captures st self w))
            ∙ absent,
      ))

  pub Newobj-IsStored :
      (returns : (callback klass symbol argument : ℕ) (w : World st)
        → Returns (env.call callback klass symbol argument w))
      (w : World st) (self klass object a : ℕ) (t : Table) (run : Run st)
      → st.lookup (w.captures self).tracked klass ≡ some a
      → Newobj st env w self klass object t run
      → IsStored self
          (counted_capture st env (w.captures self) (w.captures self).tracked)
          t
          klass
          object
          run
  Newobj-IsStored returns w self klass object a t run e (ignored w' absent off same) =
      absurd (ground (arith, sym e ∙ absent))
  Newobj-IsStored returns w self klass object a t run e
        (tracked b r classes before run' counting shape rec after) =
      subst (λ x. IsStored self (counted_capture st env (w.captures self) x) t klass object run)
        (Counting-tracked w self klass a b r classes e counting)
        (StoredAfter-IsStored self (counted_capture st env (w.captures self) classes) t klass object
          (call_if st env (not (r.callback == rb.q_nil)) r.callback klass env.sym_newobj rb.q_nil
            before)
          run (call_if-Returns returns _ _ _ _ _ before) after)

  pub EndedAfter-finished :
      (self : ℕ) (c : Capture st) (called : Called st) (run : Run st)
      → Returns called
      → EndedAfter st env self c called run
      → (w' : World st) × (run ≡ finished w')
        × (w'.captures self ≡ record c { paused = dec_int c.paused })
  EndedAfter-finished self c (returned value w) (finished w') r shape = (w', refl, shape)
  EndedAfter-finished self c (returned value w) (raised w') r h = elim h [ ]
  EndedAfter-finished self c (returned value w) fault r h = elim h [ ]
  EndedAfter-finished self c (threw w) run (value, w', e) h = absurd (ground (arith, e))

  -- A capture after the whole life of an object: both counts are one higher, and the table reads as
  -- before but for the object, which is not in it.
  pub record Lived (c : Capture st) (t : Table) (object : ℕ) (c' : Capture st) : Type 0 where
    pub table : Table
    pub valid : IsValid table
    pub reads :
        (q : ℕ) → IsLive q → scan q table.entries ≡ (if q == object then none else scan q t.entries)
    pub shape : c' ≡ record c {
      states = some table;
      new_count = add_size c.new_count 1;
      free_count = add_size c.free_count 1;
    }

  module _ (self : ℕ)
      (leaves : (callback klass symbol argument : ℕ) (w : World st)
        → Leaves st self (w.captures self) (env.call callback klass symbol argument w))
      (returns : (callback klass symbol argument : ℕ) (w : World st)
        → Returns (env.call callback klass symbol argument w)) where
    freed-Lived :
        (c : Capture st) (w : World st) (t t' : Table) (klass object value a : ℕ) (run : Run st)
        (stores : Stores t (record { object = object; klass = klass; data_value = value }) t')
        → c.paused < 2 ^ 32
        → IsLive object
        → st.lookup c.tracked klass ≡ some a
        → w.captures self ≡ record c {
          states = some t';
          paused = dec_int (inc_int c.paused);
          new_count = add_size c.new_count 1;
        }
        → Freeobj st env w self object stores.valid run
        → (w' : World st) × (run ≡ finished w') × Lived c t object (w'.captures self)
    freed-Lived c w t t' klass object value a run stores lt ok known_ shape
          (unknown w' absent same) =
        absurd (ground (arith, sym (stores.reads object ok) ∙ absent))
    freed-Lived c w t t' klass object value a run stores lt ok known_ shape
          (stale w' entry there lost same) =
        let class : klass ≡ entry.klass = ground (arith, sym (stores.reads object ok) ∙ there) in
        absurd (
          ground (
            arith,
            sym known_
                ∙ ap (st.lookup c.tracked) class
                ∙ ap (λ (x : Capture st). st.lookup x.tracked entry.klass) (sym shape)
                ∙ lost,
          ))
    freed-Lived c w t t' klass object value a run stores lt ok known_ shape
          (released entry b t'' before run' there found gone before_ rec ended) =
        let (w', ran, after) =
          EndedAfter-finished self (freed_capture st env (w.captures self) t'') _ run
            (call_if-Returns returns _ _ _ _ _ before) ended in
        let restored : dec_int (inc_int (dec_int (inc_int c.paused))) ≡ c.paused =
          omega (arith, lt) in
        (
          w',
          ran,
          record {
            table = t'';
            valid = gone.valid;
            reads = λ q ql. gone.reads q ql ∙ ground (arith, stores.reads q ql);
            shape =
                after
                ∙ ap
                    (λ (x : Capture st). record x {
                      states = some t'';
                      paused = dec_int (inc_int x.paused);
                      free_count = add_size x.free_count 1;
                    })
                    shape
                ∙ ap
                    (λ p. record c {
                      states = some t'';
                      paused = p;
                      new_count = add_size c.new_count 1;
                      free_count = add_size c.free_count 1;
                    })
                    restored;
          },
        )

    -- For a tracked class, a capture whose table can take one more object and is not paused 2 ^ 32
    -- times, a live address, and callbacks that return and leave the capture as it is: when a new
    -- object is processed and then the same object as freed, both runs finish, one is added to the
    -- capture's counts of new and of freed objects, the capture is as paused as before, and every live
    -- address reads in the table as before but the object's, which has no entry.
    pub process_newobj-Lived :
        (w : World st) (klass object a : ℕ) (t : Table)
        → st.lookup (w.captures self).tracked klass ≡ some a
        → (w.captures self).states ≡ some t
        → (w.captures self).paused < 2 ^ 32
        → Ready st env t
        → IsLive object
        → (w1 w2 : World st) × (process_newobj st env w self klass object ≡ finished w1)
          × (process_freeobj st env w1 self object ≡ finished w2)
          × Lived (w.captures self) t object (w2.captures self)
    process_newobj-Lived w klass object a t known_ there lt ready ok =
        let c = w.captures self in
        let (w1, first, value, t', shape, stores) =
          Newobj-IsStored returns w self klass object a t _ known_
            (process_newobj-Newobj st env self leaves w klass object t there lt ready ok) in
        let paused : (w1.captures self).paused ≡ c.paused =
          ap (λ (x : Capture st). x.paused) shape ∙ omega (arith, lt) in
        let (w2, second, lived) =
          freed-Lived c w1 t t' klass object value a _ stores lt ok known_ shape (
            process_freeobj-Freeobj st env self leaves w1 object stores.valid
              (ap (λ (x : Capture st). x.states) shape) (omega (arith, paused, lt)) ok) in
        (w1, w2, first, second, lived)
