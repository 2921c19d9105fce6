-- ===== src/Program/Flushing.antt =====
-- The handling of several events, and what it makes of all captures.
use mathlib.Core.List.{append-nil, append_assoc}
use memory_profiler.Base.{
  ℕ, suc, ◌≤◌, ◌<◌, ◌≡◌, refl, sym, ap, ◌∙◌, subst, inl, true, List, [], ◌∷◌, ◌++◌, some, arith,
  length, length-append,
}
use memory_profiler.Ruby.{Ruby, StTable}
use memory_profiler.Queue.{Realloc}
use memory_profiler.Events.{Event}
use memory_profiler.Events.Drain.{handle_all}
use memory_profiler.Table.Layout.{entry_size, max_probe_length}
use memory_profiler.Table.Holds.{IsLive}
use memory_profiler.Table.Resize.{RefusesOverflow}
use memory_profiler.Capture.State.{World, Surroundings}
use memory_profiler.Capture.Hook.{Objects}
use memory_profiler.Capture.Process.{handle, from_run}
use memory_profiler.Capture.Calls.{Leaves}
use memory_profiler.Capture.Lifetime.{Returns}
use memory_profiler.Capture.Implements.{Implements, same-Implements}
use memory_profiler.Capture.Handling.{event-Implements}
use memory_profiler.Program.Taking.{own, taken_in}
use memory_profiler.Program.Moving.{AllLive}
use memory_profiler.Program.Capturing.{handled-Implements}
use memory_profiler.Program.Heap.{empty_model, nothing_heard, AllProper, own-AllProper}
use memory_profiler.Program.Exact.{found-positive, ExactAfter, more-ExactAfter}

module _ ⦃rb : Ruby⦄ (st : StTable) (realloc : Realloc Event) (env : Surroundings st)
    (objects : Objects) (classes : ℕ → st.Table)
    (leaves : (self callback klass symbol argument : ℕ) (w : World st)
      → Leaves st self (w.captures self) (env.call callback klass symbol argument w))
    (returns : (callback klass symbol argument : ℕ) (w : World st)
      → Returns st env (env.call callback klass symbol argument w))
    (refuses : RefusesOverflow env.calloc)
    (grants : (c : ℕ) → c < 40000 → env.calloc c entry_size ≡ true) where
  -- Every capture has taken in these events.
  abbrev pub AllTaken : World st → List Event → Type 0
  AllTaken w es =
      (self : ℕ)
      → Implements st env self (classes self) w (taken_in st env self (classes self) empty_model es)
          (length es)

  abbrev plain : World st → World st
  plain w = record w { posted = [] }

  one-AllTaken :
      (e : Event) (w : World st) (es : List Event)
      → length es < max_probe_length
      → IsLive e.object
      → AllTaken w es
      → (w' : World st) × ((handle st env e (some w)).0 ≡ some w') × AllTaken w' (es ++ e ∷ [])
  unfolding handle
  one-AllTaken e w es few ok i =
      let start = plain w in
      let i' : AllTaken start es = λ self.
        same-Implements st env self (classes self) w start
          (taken_in st env self (classes self) empty_model es) (length es) (length es) refl
          (omega arith) (i self) in
      let (w', ran, _) =
        event-Implements st env e.capture (classes e.capture) (leaves e.capture) returns refuses
          grants e start (taken_in st env e.capture (classes e.capture) empty_model es) (length es)
          (i' e.capture) few (refl, ok) in
      let longer = length-append es (e ∷ []) in
      (
        w',
        ap (λ run. (from_run st env run).0) ran,
        λ self.
            same-Implements st env self (classes self) w' w'
              (taken_in st env self (classes self) empty_model (es ++ e ∷ [])) (suc (length es))
              (length (es ++ e ∷ [])) refl (omega (arith, longer))
              (handled-Implements st realloc env objects self (classes self) (leaves self) returns
                refuses grants e start w' empty_model es few ok (inl ran) (i' self)),
      )

  module _ (self : ℕ) where
    -- Every capture has taken in the events, and the view of this one is exact.
    abbrev pub AllExact : World st → List Event → Type 0
    AllExact w es = AllTaken w es × ExactAfter st env self (classes self) es

    one-AllExact :
        (e : Event) (w : World st) (es : List Event)
        → length es < max_probe_length
        → IsLive e.object
        → AllProper nothing_heard (own self (es ++ e ∷ []))
        → AllExact w es
        → (w' : World st) × ((handle st env e (some w)).0 ≡ some w') × AllExact w' (es ++ e ∷ [])
    one-AllExact e w es few ok proper (taken, x) =
        let (w', ran, taken') = one-AllTaken e w es few ok taken in
        let i = taken self in
        (
          w',
          ran,
          (
            taken',
            more-ExactAfter st env self (classes self) es e few proper
                (λ klass h. omega (
                  arith,
                  i.sized,
                  found-positive i.table i.valid e.object klass ok (i.reads e.object ok ∙ h),
                ))
                x,
          ),
        )

    pub handle_all-AllExact :
        (later : List Event) (w : World st) (es : List Event)
        → length (es ++ later) ≤ max_probe_length
        → AllLive later
        → AllProper nothing_heard (own self (es ++ later))
        → AllExact w es
        → (w' : World st) × ((handle_all realloc (handle st env) later (some w)).0 ≡ some w')
          × AllExact w' (es ++ later)
    unfolding handle_all
    handle_all-AllExact [] w es few ok proper x =
        (w, refl, subst (AllExact w) (sym (append-nil es)) x)
    handle_all-AllExact (e ∷ later) w es few (ok, oks) proper x =
        let regrouped : (es ++ e ∷ []) ++ later ≡ es ++ e ∷ later =
          append_assoc es (e ∷ []) later in
        let few' : length ((es ++ e ∷ []) ++ later) ≤ max_probe_length =
          omega (arith, ap length regrouped, few) in
        let proper' : AllProper nothing_heard (own self ((es ++ e ∷ []) ++ later)) =
          subst (λ l. AllProper nothing_heard (own self l)) (sym regrouped) proper in
        let (w', ran, x') =
          one-AllExact e w es
            (omega (arith, few', length-append (es ++ e ∷ []) later, length-append es (e ∷ []))) ok
            (own-AllProper self (es ++ e ∷ []) later proper') x in
        let (w'', rest, x'') = handle_all-AllExact later w' (es ++ e ∷ []) few' oks proper' x' in
        (
          w'',
          ap (λ s. (handle_all realloc (handle st env) later s).0) ran ∙ rest,
          subst (AllExact w'') regrouped x'',
        )
