-- ===== src/Program/Setup.antt =====
-- capture.c: how a capture comes to be: `alloc`, any number of `track` and `untrack`, and `start`.
use memory_profiler.Base.{
  ℕ, ◌^◌, ◌<◌, ◌≡◌, refl, sym, ap, ◌∙◌, subst, inl, inr, Bool, true, false, List, [], ◌∷◌, Option,
  none, some, arith, Option-cases,
}
use mathlib.Core.Option
use memory_profiler.Ruby.{Ruby, StTable}
use memory_profiler.Events.{Events}
use memory_profiler.Table.Layout.{Table, Entry, new}
use memory_profiler.Table.New.{new-IsValid, new_granted}
use memory_profiler.Table.Resize.{RefusesOverflow}
use memory_profiler.Capture.State.{Capture, World, Surroundings, put_capture, put_record, update}
use memory_profiler.Capture.Calls.{captures-put}
use memory_profiler.Capture.Methods.{alloc, track, untrack, start, tracking_p, table_capacity}
use memory_profiler.Capture.Implements.{Implements, retracked-Implements}
use memory_profiler.Program.Heap.{empty_model}
use memory_profiler.Program.Settings.{
  Setting, tracks, untracks, set_up, runs, set_up-running, told, set_up-told, started_lem,
}

module _ ⦃rb : Ruby⦄ (st : StTable) where
  module _ (env : Surroundings st) (self : ℕ) where
    abbrev pub IsEmpty : World st → Type 0
    IsEmpty w = Implements st env self (w.captures self).tracked w empty_model 0

    retracked :
        (w w' : World st) (c : st.Table) (running : Bool) (paused : ℕ)
        → w'.captures self
          ≡ record (w.captures self) { tracked = c; running = running; paused = paused }
        → paused < 2 ^ 32
        → IsEmpty w
        → IsEmpty w'
    retracked w w' c running paused e small i =
        subst (λ t. Implements st env self t w' empty_model 0)
          (sym (ap (λ (x : Capture st). x.tracked) e))
          (retracked-Implements st env self empty_model 0 (w.captures self).tracked c w w' running
            paused e small i)

    alloc_lem :
        (malloc_grants : Bool) (c : Capture st)
        → alloc st malloc_grants env.calloc ≡ some c
        → (t : Table) × (new malloc_grants env.calloc table_capacity ≡ some t)
          × (record {
            running = false;
            paused = 0;
            track_all = false;
            tracked = st.init_numtable;
            states = some t;
            new_count = 0;
            free_count = 0;
          }
              ≡ c)
    unfolding alloc
    alloc_lem malloc_grants c e =
        elim (Option-cases (new malloc_grants env.calloc table_capacity)) [
          | inl absent ↦ absurd (ground (arith, sym (ap made absent) ∙ e))
          | inr (t, there) ↦ (t, there, ground (arith, sym (ap made there) ∙ e))
        ]
      where
        made : Option Table → Option (Capture st)
        made o = elim o [
          | none ↦ none
          | some t ↦ some (record {
            running = false;
            paused = 0;
            track_all = false;
            tracked = st.init_numtable;
            states = some t;
            new_count = 0;
            free_count = 0;
          })
        ]

    alloc-Implements :
        (malloc_grants : Bool) (w : World st)
        → RefusesOverflow env.calloc
        → alloc st malloc_grants env.calloc ≡ some (w.captures self)
        → Implements st env self (w.captures self).tracked w empty_model 0
    alloc-Implements malloc_grants w refuses e =
        let (t, there, shape) = alloc_lem malloc_grants (w.captures self) e in
        let (valid, _, empty, absent) =
          new-IsValid malloc_grants env.calloc table_capacity t refuses there in
        let (_, _, cleared) = new_granted malloc_grants env.calloc table_capacity t there in
        record {
          table = t;
          states = sym (ap (λ (x : Capture st). x.states) shape);
          classes_fixed = refl;
          explicit = sym (ap (λ (x : Capture st). x.track_all) shape);
          paused = omega (arith, ap (λ (x : Capture st). x.paused) shape);
          valid = valid;
          reads = λ q ok. ap (Option.map (λ (x : Entry). x.klass)) (absent q ok);
          sized = empty;
          used = omega (arith, empty, ap (λ (x : Table). x.tombstones) cleared);
          new_count = sym (ap (λ (x : Capture st). x.new_count) shape);
          free_count = sym (ap (λ (x : Capture st). x.free_count) shape);
        }

    track-Implements :
        (w : World st) (klass callback wrapper : ℕ)
        → IsEmpty w
        → IsEmpty (track st w self klass callback wrapper).0
    unfolding track
    track-Implements w klass callback wrapper i =
        let c = w.captures self in
        elim (Option-cases (st.lookup c.tracked klass)) [
          | inl absent ↦
              let made =
                put_record st w wrapper
                  (record { callback = callback; new_count = 0; free_count = 0 }) in
              rw (absent, track)
                (retracked w
                  (put_capture st made self
                    (record c { tracked = st.insert c.tracked klass wrapper }))
                  (st.insert c.tracked klass wrapper) c.running c.paused
                  (captures-put st made self _) i.paused i)
          | inr (a, there) ↦
              rw (there, track)
                (retracked w (put_record st w a (record (w.records a) { callback = callback }))
                  c.tracked c.running c.paused refl i.paused i)
        ]

    pub set_up-Implements :
        (calls : List Setting) (w : World st) → IsEmpty w → IsEmpty (set_up st w self calls)
    unfolding set_up untrack
    set_up-Implements [] w i = i
    set_up-Implements (tracks klass callback wrapper ∷ calls) w i =
        set_up-Implements calls (track st w self klass callback wrapper).0
          (track-Implements w klass callback wrapper i)
    set_up-Implements (untracks klass ∷ calls) w i =
        set_up-Implements calls (untrack st w self klass) (
          retracked w (untrack st w self klass) (st.delete (w.captures self).tracked klass)
            (w.captures self).running (w.captures self).paused (captures-put st w self _) i.paused
            i)

    pub start_put-Implements :
        (w : World st)
        → IsEmpty w
        → IsEmpty (
            put_capture st
              (record w { hooked = update w.hooked self true })
              self
              (record (w.captures self) { running = true; paused = 0 }))
    start_put-Implements w i =
        let hooked = record w { hooked = update w.hooked self true } in
        retracked w
          (put_capture st hooked self (record (w.captures self) { running = true; paused = 0 }))
          (w.captures self).tracked true 0 (captures-put st hooked self _) (omega arith) i

    -- Where `calloc` refuses sizes that overflow: a capture that comes from `alloc` is told by any
    -- sequence of `track` and `untrack` which classes to track. If `start` then returns, it returns
    -- true, the capture runs, is not paused and its event hook is installed, it tracks exactly the
    -- classes whose last call was a `track`, and it implements the empty view of them: its table is
    -- well formed and empty and its counts are 0.
    pub start-Implements :
        (malloc_grants registered : Bool) (queue queue' : Option Events) (calls : List Setting)
        (w w' : World st) (result : Bool)
        → RefusesOverflow env.calloc
        → alloc st malloc_grants env.calloc ≡ some (w.captures self)
        → start st registered queue (set_up st w self calls) self ≡ some (queue', w', result)
        → (result ≡ true)
          × ((w'.captures self).running ≡ true)
          × ((w'.captures self).paused ≡ 0)
          × (w'.hooked self ≡ true)
          × ((klass : ℕ) → tracking_p st w' self klass ≡ told calls klass)
          × Implements st env self (w'.captures self).tracked w' empty_model 0
    unfolding tracking_p
    start-Implements malloc_grants registered queue queue' calls w w' result refuses made ran =
        let v = set_up st w self calls in
        let (t, there, shape) = alloc_lem malloc_grants (w.captures self) made in
        let off : runs st self v ≡ false =
          set_up-running st self calls w ∙ sym (ap (λ (x : Capture st). x.running) shape) in
        let nothing : (klass : ℕ) → tracking_p st w self klass ≡ false = λ klass.
          ap (λ o. elim o [ some a ↦ true | none ↦ false ])
            (ap (λ (x : Capture st). st.lookup x.tracked klass) (sym shape)
              ∙ st.lookup-init_numtable klass) in
        let hooked : World st = record v { hooked = update v.hooked self true } in
        let c : Capture st = record (v.captures self) { running = true; paused = 0 } in
        let put = captures-put st hooked self c in
        let (yes_, same) = started_lem st self registered queue queue' v w' result off ran in
        let i = set_up-Implements calls w (alloc-Implements malloc_grants w refuses made) in
        (
          yes_,
          ap (λ (x : World st). (x.captures self).running) (sym same)
              ∙ ap (λ (x : Capture st). x.running) put,
          ap (λ (x : World st). (x.captures self).paused) (sym same)
              ∙ ap (λ (x : Capture st). x.paused) put,
          ap (λ (x : World st). x.hooked self) (sym same) ∙ ground arith,
          λ klass.
              ap (λ (x : World st). tracking_p st x self klass) (sym same)
              ∙ ap
                  (λ (x : Capture st). elim (st.lookup x.tracked klass) [
                    | some a ↦ true
                    | none ↦ false
                  ])
                  put
              ∙ set_up-told st self calls w (λ k. false) nothing klass,
          subst IsEmpty same (start_put-Implements v i),
        )
