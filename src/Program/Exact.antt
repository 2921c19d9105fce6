-- ===== src/Program/Exact.antt =====
-- What a capture reports, against what its hook has heard of.
use mathlib.Core.Option
use native.Mathlib.Decide.{ℕ_discrete}
use memory_profiler.Base.{
  ℕ, ◌+◌, ◌<◌, ◌≡◌, refl, sym, ap, ◌∙◌, subst, inl, inr, Bool, true, false, List, [], ◌∷◌, ◌++◌,
  none, some, arith, length, length-append,
}
use memory_profiler.Ruby.{Ruby, StTable}
use memory_profiler.Events.{Event}
use memory_profiler.Table.Layout.{Entry, Table, max_probe_length}
use memory_profiler.Table.Holds.{IsLive, IsValid, live_pos}
use memory_profiler.Table.Operations
use memory_profiler.Table.Operations.{lookup}
use memory_profiler.Table.Lookup.{entry_at, lookup_cases, lookup-eq-scan}
use memory_profiler.Table.Slots.{scan}
use memory_profiler.Capture.State.{World, Surroundings}
use memory_profiler.Capture.Methods.{retained_count, statistics, tracking_p}
use memory_profiler.Capture.Implements.{Model, all_events, tracks_class, Implements}
use memory_profiler.Program.Taking.{
  own, own-mine, own-other, taken_in, taken_in-own, taken_in-other,
}
use memory_profiler.Program.Heap.{
  empty_model, heard_of, nothing_heard, next_heard, all_heard, AllProper, AllProper-append,
  all_heard-append, Exact, event-Exact, if_tracked, along-Exact, IsProper,
}

module _ ⦃rb : Ruby⦄ where
  -- A table that finds an object counts at least one.
  pub found-positive :
      (t : Table) (v : IsValid t) (q klass : ℕ)
      → IsLive q
      → Option.map (λ (e : Entry). e.klass) (scan q t.entries) ≡ some klass
      → 0 < t.count
  found-positive t v q klass ok h = elim (lookup_cases v q ok) [
    | inl (i, found, lt, at, there) ↦ live_pos v i lt (subst IsLive (sym at) ok)
    | inr (missed, absent, nowhere) ↦
        absurd (ground (arith, sym h ∙ ap (Option.map (λ (e : Entry). e.klass)) absent))
  ]

module _ ⦃rb : Ruby⦄ (st : StTable) (env : Surroundings st) (self : ℕ) (classes : st.Table) where
  abbrev pub tracks : ℕ → Bool
  tracks = tracks_class st env self classes

  -- The abstract view that these events make is exact.
  abbrev pub ExactAfter : List Event → Type 0
  ExactAfter es =
      Exact tracks (taken_in st env self classes empty_model es) (heard_of self es) (length es)

  heard-mine :
      (es : List Event) (e : Event)
      → e.capture ≡ self
      → heard_of self (es ++ e ∷ []) ≡ next_heard (heard_of self es) e
  unfolding all_heard
  heard-mine es e mine =
      ap (all_heard nothing_heard) (own-mine self es e mine)
      ∙ all_heard-append nothing_heard (own self es) (e ∷ [])

  abbrev taken : List Event → Model
  taken es = taken_in st env self classes empty_model es

  -- One more event.
  pub more-ExactAfter :
      (es : List Event) (e : Event)
      → length es < max_probe_length
      → AllProper nothing_heard (own self (es ++ e ∷ []))
      → ((klass : ℕ) → (taken es).classes e.object ≡ some klass → 0 < (taken es).size)
      → ExactAfter es
      → ExactAfter (es ++ e ∷ [])
  more-ExactAfter es e small proper there x = elim (ℕ_discrete e.capture self) [
    | yes mine ↦
        let own_proper : AllProper nothing_heard (own self es ++ e ∷ []) =
          subst (AllProper nothing_heard) (own-mine self es e mine) proper in
        let fits : IsProper (heard_of self es) e =
          (AllProper-append nothing_heard (own self es) (e ∷ []) own_proper).1.0 in
        along-Exact tracks (taken_in-own st env self classes e empty_model es mine)
          (heard-mine es e mine) (omega (arith, length-append es (e ∷ [])))
          (event-Exact tracks (taken es) (heard_of self es) (length es) e small fits there x)
    | no other ↦
        along-Exact tracks (taken_in-other st env self classes e empty_model es other)
          (ap (all_heard nothing_heard) (own-other self es e other))
          (omega (arith, length-append es (e ∷ []))) x
  ]

  pub none-ExactAfter : ExactAfter []
  unfolding own all_heard all_events
  none-ExactAfter = record { classes = λ q. refl; counted = refl; few = omega arith }

  retained_sized :
      (w : World st) (t : Table)
      → (w.captures self).states ≡ some t
      → (w.captures self).new_count ≡ (w.captures self).free_count + t.count
      → retained_count st w self ≡ (statistics st w self).1
  unfolding retained_count statistics Operations.size
  retained_sized w t e counted = rw (e, statistics) (ground (arith, counted))

  -- What the capture says of its objects is what its hook has heard: a lookup of an object's address
  -- gives the class that it was allocated with if it lives and the class is tracked, and nothing
  -- otherwise, and the retained count is the size of the table.
  abbrev pub Reports : World st → List Event → ℕ → Type 0
  Reports w es q =
      (t : Table) × ((w.captures self).states ≡ some t)
      × (Option.map (λ (e : Entry). e.klass) (Option.map (entry_at t) (lookup t q))
          ≡ if_tracked (tracking_p st w self) (heard_of self es q))
      × (retained_count st w self ≡ (statistics st w self).1)

  -- What the table reads at an address.
  pub exact_reads :
      (w : World st) (es : List Event) (n q : ℕ) (i : Implements st env self classes w (taken es) n)
      → ExactAfter es
      → IsLive q
      → Option.map (λ (e : Entry). e.klass) (scan q i.table.entries)
        ≡ if_tracked (tracking_p st w self) (heard_of self es q)
  unfolding tracking_p
  exact_reads w es n q i x ok =
      i.reads q ok
      ∙ x.classes q
      ∙ ap
          (λ c.
            if_tracked (λ klass. elim (st.lookup c klass) [ some a ↦ true | none ↦ false ])
              (heard_of self es q))
          (sym i.classes_fixed)

  pub exact-Reports :
      (w : World st) (es : List Event) (n q : ℕ)
      → Implements st env self classes w (taken es) n
      → ExactAfter es
      → IsLive q
      → Reports w es q
  exact-Reports w es n q i x ok = (
    i.table,
    i.states,
    ap (Option.map (λ (e : Entry). e.klass)) (lookup-eq-scan i.valid q ok)
        ∙ exact_reads w es n q i x ok,
    retained_sized w i.table i.states
        (omega (arith, i.new_count, i.free_count, x.counted, i.sized)),
  )
