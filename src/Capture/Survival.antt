-- ===== src/Capture/Survival.antt =====
-- capture.c: what a garbage collection leaves of a capture.
use mathlib.Core.Option
use mathlib.Core.Path.{fun_ext}
use native.Mathlib.Decide.{ℕ_discrete}
use memory_profiler.Base.{
  ℕ, ◌<◌, ◌≡◌, ◌≢◌, refl, sym, ap, ◌∙◌, inl, inr, Bool, true, false, List, [], ◌∷◌, none, some, ltb,
  ◌==◌, if◌then◌else◌, arith, length, Bool-cases, Option-cases, mul_size,
}
use memory_profiler.Ruby.{Ruby, StTable, assoc}
use memory_profiler.Table.Layout.{Table, Entry, entry_size, max_probe_length}
use memory_profiler.Table.Slots.{scan, scan-none, occurrences}
use memory_profiler.Table.Holds.{IsLive, IsValid}
use memory_profiler.Table.Moves.{move}
use memory_profiler.Table.Compact.{compact-Compacts}
use memory_profiler.Table.Relocate.{IsKey, Relocates, Compacts}
use memory_profiler.Capture.State.{Capture}
use memory_profiler.Capture.Each.{
  allocations_of, selects, times, due, each_object_body, each_object_body-times,
}
use memory_profiler.Capture.Gc.{tracked_update, compacted, compact_tracked, compact_states, compact}

assoc-empty :
    (pairs : List (ℕ × ℕ)) (key : ℕ) → ltb 0 (length pairs) ≡ false → assoc key pairs ≡ none
assoc-empty [] key e = refl
assoc-empty (p ∷ rest) key e = absurd (ground (arith, e))

module _ ⦃rb : Ruby⦄ (st : StTable) where
  tracked_update-eq :
      (location : ℕ → ℕ) (value : ℕ) → tracked_update st location value ≡ location value
  unfolding tracked_update
  tracked_update-eq location value = ground arith

  -- What `rb_gc_location` promises where the objects that exist are `Exists`: different ones are not at
  -- one address after the collection, and none is at 0 or at `nil`, which stays. What the capture holds
  -- exists: its tracked classes, which `mark` pins, their wrappers, and the objects and the classes in
  -- its table. Nothing is said of other words, such as the free addresses that objects move to.
  pub record Moves (location : ℕ → ℕ) (Exists : ℕ → Type 0) (c : Capture st) (t : Table)
      : Type 0 where
    pub apart : (a b : ℕ) → Exists a → Exists b → location a ≡ location b → a ≡ b
    pub live : (q : ℕ) → Exists q → IsLive q → IsLive (location q)
    pub nil_exists : Exists rb.q_nil
    pub nil_stays : location rb.q_nil ≡ rb.q_nil
    pub pinned : (klass a : ℕ) → st.lookup c.tracked klass ≡ some a → location klass ≡ klass
    pub tracked : (klass a : ℕ) → st.lookup c.tracked klass ≡ some a → Exists klass × Exists a
    pub objects : (q : ℕ) → IsKey t.entries q → Exists q
    pub classes : (q : ℕ) (e : Entry) → IsLive q → scan q t.entries ≡ some e → Exists e.klass

  module _ (location : ℕ → ℕ) (Exists : ℕ → Type 0) (c : Capture st) (t : Table)
      (moves : Moves location Exists c t) where
    same_test : (a b : ℕ) → Exists a → Exists b → (location a == location b) ≡ (a == b)
    same_test a b ea eb = elim (ℕ_discrete a b) [
      | yes e ↦ rw e (ground arith)
      | no n ↦
          let n' : location a ≢ location b = λ e. n (moves.apart a b ea eb e) in
          ground (arith, n, n')
    ]

    allocations_of-Exists : (klass : ℕ) → Exists (allocations_of st c.tracked klass)
    allocations_of-Exists klass = elim (Option-cases (st.lookup c.tracked klass)) [
      | inl e ↦ rw (e, allocations_of) moves.nil_exists
      | inr (a, e) ↦ rw (e, allocations_of) (moves.tracked klass a e).1
    ]

    compact_tracked-lookup :
        (compact_tracked st location c.tracked).1 ≡ false
        → (klass : ℕ)
        → st.lookup (compact_tracked st location c.tracked).0 klass
          ≡ Option.map location (st.lookup c.tracked klass)
    unfolding compact_tracked
    compact_tracked-lookup kept klass = elim (Bool-cases (ltb 0 (length (st.pairs c.tracked)))) [
      | inl some_there ↦ rw some_there (
          st.lookup-foreach_with_replace c.tracked (tracked_update st location)
            (rw some_there at kept) klass
          ∙ ap (λ f. Option.map f (st.lookup c.tracked klass))
              (fun_ext (tracked_update-eq location)))
      | inr empty ↦ rw empty (
          let nothing : st.lookup c.tracked klass ≡ none =
            st.lookup-pairs c.tracked klass ∙ assoc-empty (st.pairs c.tracked) klass empty in
          rw nothing refl)
    ]

    abbrev tracked' : st.Table
    tracked' = (compact_tracked st location c.tracked).0

    module _ (kept : (compact_tracked st location c.tracked).1 ≡ false) where
      -- A class has the wrapper that it had, at its new address.
      allocations_of-moved :
          (klass : ℕ)
          → Exists klass
          → allocations_of st tracked' (location klass)
            ≡ location (allocations_of st c.tracked klass)
      allocations_of-moved klass exists =
          let there = compact_tracked-lookup kept (location klass) in
          elim (Option-cases (st.lookup c.tracked klass)) [
            | inr (a, e) ↦
                let pin = moves.pinned klass a e in
                let found : st.lookup tracked' (location klass) ≡ some (location a) =
                  there
                  ∙ ap (λ k. Option.map location (st.lookup c.tracked k)) pin
                  ∙ ap (Option.map location) e in
                rw (e, found, allocations_of) refl
            | inl e ↦ elim (Option-cases (st.lookup c.tracked (location klass))) [
              | inr (a, e') ↦
                  let pin =
                    moves.apart (location klass) klass (moves.tracked (location klass) a e').0
                      exists (moves.pinned (location klass) a e') in
                  absurd (ground (arith, sym e ∙ ap (st.lookup c.tracked) (sym pin) ∙ e'))
              | inl e' ↦
                  let missed : st.lookup tracked' (location klass) ≡ none =
                    there ∙ ap (Option.map location) e' in
                  rw (e, missed, allocations_of) (sym moves.nil_stays)
            ]
          ]

      selects-moved :
          (filter : ℕ) (e : Entry)
          → Exists filter
          → Exists e.klass
          → selects st tracked' (location filter) (move location e) ≡ selects st c.tracked filter e
      selects-moved filter e asked exists =
          let no_filter : (location filter == rb.q_nil) ≡ (filter == rb.q_nil) =
            ap (λ n. location filter == n) (sym moves.nil_stays)
            ∙ same_test filter rb.q_nil asked moves.nil_exists in
          let same : (allocations_of st tracked' (location e.klass) == location filter)
              ≡ (allocations_of st c.tracked e.klass == filter) =
            ap (λ n. n == location filter) (allocations_of-moved e.klass exists)
            ∙ same_test (allocations_of st c.tracked e.klass) filter (allocations_of-Exists e.klass)
                asked in
          rw (no_filter, same) refl

      due-moved :
          (filter q : ℕ)
          → Exists filter
          → IsLive q
          → due st tracked' (location filter) (Option.map (move location) (scan q t.entries))
            ≡ due st c.tracked filter (scan q t.entries)
      due-moved filter q asked ok = elim (Option-cases (scan q t.entries)) [
        | inl e ↦ rw e refl
        | inr (x, e) ↦
            rw e
              (ap (λ b. if b then 1 else 0) (selects-moved filter x asked (moves.classes q x ok e)))
      ]

      module _ (e : c.states ≡ some t) (v : IsValid t) (malloc : ℕ → Bool)
          (granted : malloc (mul_size t.count entry_size) ≡ true) (roomy : t.count < t.capacity)
          (few : t.count < max_probe_length) where
        objects_moved : Relocates location t.entries
        objects_moved = record {
          live = λ q k. moves.live q (moves.objects q k) k.0;
          apart = λ a b ka kb. moves.apart a b (moves.objects a ka) (moves.objects b kb);
        }

        due-compacted :
            (r : Table) (filter q : ℕ)
            → Exists filter
            → Exists q
            → IsLive q
            → Compacts v location objects_moved r
            → due st tracked' (location filter) (scan (location q) r.entries)
              ≡ due st c.tracked filter (scan q t.entries)
        due-compacted r filter q asked exists ok moved =
            elim (ℕ_discrete (occurrences q t.entries) 0) [
              | no n ↦
                  ap (due st tracked' (location filter)) (moved.moved q (ok, omega (arith, n)))
                  ∙ due-moved filter q asked ok
              | yes absent ↦
                  ap (due st tracked' (location filter)) (
                    moved.gone (location q) (moves.live q exists ok) (λ p kp same. absurd (
                      omega (
                        arith,
                        kp.1,
                        absent,
                        ap (λ n. occurrences n t.entries)
                            (moves.apart p q (moves.objects p kp) exists same),
                      ))))
                  ∙ ap (due st c.tracked filter) (sym (scan-none q t.entries absent))
            ]

        -- For a capture with a well-formed table that is not full and has fewer than 10000 entries,
        -- where `malloc` grants the copy, and a collection that puts different objects that exist at
        -- different addresses, none at 0 or `nil`, leaves `nil` and the tracked classes where they
        -- are, and does not modify the table of classes meanwhile, and where the tracked classes,
        -- their wrappers, and the objects and classes in the table exist: `compact` returns a capture
        -- whose `each_object`, filtered by the new address of a wrapper that exists or by `nil`,
        -- yields the new address of every object that exists as often as the object was yielded
        -- before.
        pub compact-times :
            (filter q : ℕ)
            → Exists filter
            → Exists q
            → IsLive q
            → (c' : Capture st) × (compact st location malloc c ≡ compacted c')
              × (times st (location q) (each_object_body st c' (location filter))
                  ≡ times st q (each_object_body st c filter))
        unfolding compact compact_states
        compact-times filter q asked exists ok =
            let (r, ran, moved) =
              compact-Compacts v location objects_moved malloc granted roomy few in
            let c' : Capture st = record c { tracked = tracked'; states = some r } in
            (
              c',
              rw (kept, e, ran, compact_states) refl,
              each_object_body-times st c' (location filter) r refl moved.valid (location q)
                    (moves.live q exists ok)
                  ∙ due-compacted r filter q asked exists ok moved
                  ∙ sym (each_object_body-times st c filter t e v q ok),
            )
