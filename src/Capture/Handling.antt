-- ===== src/Capture/Handling.antt =====
-- capture.c: what the processing of one event makes of a capture, in the abstract view.
use mathlib.Core.Option
use memory_profiler.Base.{
  Option, ℕ, suc, ◌+◌, ◌<◌, ◌≡◌, refl, sym, ap, ◌∙◌, true, false, none, some, inl, inr, arith,
  add_size, subst, Option-cases,
}
use memory_profiler.Ruby.{Ruby, StTable}
use memory_profiler.Events.{Event, EventType}
use memory_profiler.Table.Layout.{Entry, entry_size, max_probe_length}
use memory_profiler.Table.Holds.{IsLive}
use memory_profiler.Table.Resize.{RefusesOverflow}
use memory_profiler.Capture.State.{Capture, World, Run, Surroundings}
use memory_profiler.Capture.Process.{process_newobj, process_event}
use memory_profiler.Capture.Calls.{Leaves}
use memory_profiler.Capture.Newobj.{process_newobj-Newobj}
use memory_profiler.Capture.Freeobj.{
  Freeobj, unknown, stale, released, freed_capture, process_freeobj-Freeobj,
}
use memory_profiler.Capture.Lifetime.{
  Returns, call_if-Returns, Newobj-IsStored, EndedAfter-finished,
}
use memory_profiler.Table.Insert.{absences}
use memory_profiler.Table.Slots.{scan}
use memory_profiler.Capture.Implements.{
  added, Model, next_newobj, free_at, next_event, tracks_class, Implements, same-Implements,
  Reaches, Newobj-ignored, ready,
}

absences-eq-added : (o : Option Entry) → absences o ≡ added (Option.map (λ (e : Entry). e.klass) o)
absences-eq-added none = refl
absences-eq-added (some e) = refl

module _ ⦃rb : Ruby⦄ (st : StTable) (env : Surroundings st) (self : ℕ) (classes : st.Table)
    (leaves : (callback klass symbol argument : ℕ) (w : World st)
      → Leaves st self (w.captures self) (env.call callback klass symbol argument w))
    (returns : (callback klass symbol argument : ℕ) (w : World st)
      → Returns st env (env.call callback klass symbol argument w))
    (refuses : RefusesOverflow env.calloc)
    (grants : (c : ℕ) → c < 40000 → env.calloc c entry_size ≡ true) where
  tracks_some :
      (w : World st) (m : Model) (n klass a : ℕ)
      → Implements st env self classes w m n
      → st.lookup (w.captures self).tracked klass ≡ some a
      → tracks_class st env self classes klass ≡ true
  tracks_some w m n klass a i e =
      let known_ : st.lookup classes klass ≡ some a =
        ap (λ c. st.lookup c klass) (sym i.classes_fixed) ∙ e in
      rw (known_, tracks_class) refl

  tracks_none :
      (w : World st) (m : Model) (n klass : ℕ)
      → Implements st env self classes w m n
      → st.lookup (w.captures self).tracked klass ≡ none
      → tracks_class st env self classes klass ≡ false
  tracks_none w m n klass i e =
      let absent : st.lookup classes klass ≡ none =
        ap (λ c. st.lookup c klass) (sym i.classes_fixed) ∙ e in
      rw (absent, tracks_class) refl

  newobj-Implements :
      (w : World st) (m : Model) (n klass object : ℕ)
      → Implements st env self classes w m n
      → n < max_probe_length
      → IsLive object
      → Reaches st env self classes
          (process_newobj st env w self klass object)
          (next_newobj (tracks_class st env self classes) m klass object)
          (suc n)
  newobj-Implements w m n klass object i few ok =
      let t = i.table in
      let run =
        process_newobj-Newobj st env self leaves w klass object t i.states i.paused
          (ready st env self classes refuses grants t i.valid (omega (arith, i.used, few))) ok in
      elim (Option-cases (st.lookup (w.captures self).tracked klass)) [
        | inl e ↦
            let (w', ran, same) =
              Newobj-ignored st env self classes w klass object t _ e i.explicit run in
            rw (tracks_none w m n klass i e)
              (w', ran, same-Implements st env self classes w w' m n (suc n) same (omega arith) i)
        | inr (a, e) ↦
            let (w', ran, value, t', shape, stores) =
              Newobj-IsStored st env returns w self klass object a t _ e run in
            rw (tracks_some w m n klass a i e) (
              w',
              ran,
              record {
                table = t';
                states = ap (λ (x : Capture st). x.states) shape;
                classes_fixed = ap (λ (x : Capture st). x.tracked) shape ∙ i.classes_fixed;
                explicit = ap (λ (x : Capture st). x.track_all) shape ∙ i.explicit;
                paused = omega (arith, ap (λ (x : Capture st). x.paused) shape, i.paused);
                valid = stores.valid;
                reads = λ q ql.
                    ap (Option.map (λ (e : Entry). e.klass)) (stores.reads q ql)
                    ∙ ground (arith, i.reads q ql);
                sized =
                    stores.counted
                    ∙ ap (λ k. i.table.count + k) (absences-eq-added (scan object i.table.entries))
                    ∙ ap (λ o. i.table.count + added o) (i.reads object ok)
                    ∙ ap (λ n. n + added (m.classes object)) i.sized;
                used = omega (arith, stores.used, i.used);
                new_count =
                    ap (λ (x : Capture st). x.new_count) shape ∙ ap (λ c. add_size c 1) i.new_count;
                free_count = ap (λ (x : Capture st). x.free_count) shape ∙ i.free_count;
              },
            )
      ]

  Freeobj-Implements :
      (w : World st) (m : Model) (n object : ℕ) (i : Implements st env self classes w m n)
      (run : Run st)
      → IsLive object
      → Freeobj st env w self object i.valid run
      → Reaches st env self classes run
          (free_at (tracks_class st env self classes) m object (m.classes object))
          (suc n)
  Freeobj-Implements w m n object i run ok (unknown w' absent same) =
      let nothing : m.classes object ≡ none =
        sym (i.reads object ok) ∙ ap (Option.map (λ (e : Entry). e.klass)) absent in
      rw nothing
        (w', refl, same-Implements st env self classes w w' m n (suc n) same (omega arith) i)
  Freeobj-Implements w m n object i run ok (stale w' entry there lost same) =
      let class : m.classes object ≡ some entry.klass =
        sym (i.reads object ok) ∙ ap (Option.map (λ (e : Entry). e.klass)) there in
      rw (class, tracks_none w m n entry.klass i lost)
        (w', refl, same-Implements st env self classes w w' m n (suc n) same (omega arith) i)
  Freeobj-Implements w m n object i run ok
        (released entry a t' before run' there found gone before_ rec ended) =
      let class : m.classes object ≡ some entry.klass =
        sym (i.reads object ok) ∙ ap (Option.map (λ (e : Entry). e.klass)) there in
      let (w', ran, shape) =
        EndedAfter-finished st env self (freed_capture st env (w.captures self) t') _ run
          (call_if-Returns st env returns _ _ _ _ _ before) ended in
      rw (class, tracks_some w m n entry.klass a i found)
        (
          w',
          ran,
          record {
            table = t';
            states = ap (λ (x : Capture st). x.states) shape;
            classes_fixed = ap (λ (x : Capture st). x.tracked) shape ∙ i.classes_fixed;
            explicit = ap (λ (x : Capture st). x.track_all) shape ∙ i.explicit;
            paused = omega (arith, ap (λ (x : Capture st). x.paused) shape, i.paused);
            valid = gone.valid;
            reads = λ q ql.
                ap (Option.map (λ (e : Entry). e.klass)) (gone.reads q ql)
                ∙ ground (arith, i.reads q ql);
            sized = omega (arith, gone.counted, i.sized);
            used = omega (arith, gone.used, i.used);
            new_count = ap (λ (x : Capture st). x.new_count) shape ∙ i.new_count;
            free_count =
                ap (λ (x : Capture st). x.free_count) shape ∙ ap (λ c. add_size c 1) i.free_count;
          },
        )

  -- An event of this capture, for an object that is one.
  abbrev pub Concerns : Event → Type 0
  Concerns e = (e.capture ≡ self) × IsLive e.object

  kind-Implements :
      (kind : EventType) (klass object : ℕ) (w : World st) (m : Model) (n : ℕ)
      → Implements st env self classes w m n
      → n < max_probe_length
      → IsLive object
      → let e : Event = record { kind = kind; capture = self; klass = klass; object = object } in
        Reaches st env self classes
          (process_event st env w e)
          (next_event (tracks_class st env self classes) m e)
          (suc n)
  unfolding process_event next_event
  kind-Implements EventType.none klass object w m n i few ok =
      (w, refl, same-Implements st env self classes w w m n (suc n) refl (omega arith) i)
  kind-Implements EventType.newobj klass object w m n i few ok =
      newobj-Implements w m n klass object i few ok
  kind-Implements EventType.freeobj klass object w m n i few ok =
      Freeobj-Implements w m n object i _ ok
        (process_freeobj-Freeobj st env self leaves w object i.valid i.states i.paused ok)

  pub event-Implements :
      (e : Event) (w : World st) (m : Model) (n : ℕ)
      → Implements st env self classes w m n
      → n < max_probe_length
      → Concerns e
      → Reaches st env self classes
          (process_event st env w e)
          (next_event (tracks_class st env self classes) m e)
          (suc n)
  event-Implements e w m n i few (own, ok) =
      subst
        (λ c.
          Reaches st env self classes (process_event st env w (record e { capture = c }))
            (next_event (tracks_class st env self classes) m (record e { capture = c })) (suc n))
        (sym own) (kind-Implements e.kind e.klass e.object w m n i few ok)
