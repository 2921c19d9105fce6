-- ===== src/Capture/Each.antt =====
-- capture.c: the filter of `each_object`, `each`, and, as a reference, the pairs that the loop of
-- `each_object` yields to a block that leaves the capture as it is.
use memory_profiler.Base.{
  ℕ, ◌≤◌, ◌≡◌, ◌∙◌, refl, Bool, true, false, not, List, [], ◌∷◌, Option, none, some, ◌==◌, inl, inr,
  if◌then◌else◌, arith, Bool-cases, ap, sym, suc,
}
use native.Mathlib.Decide.{ℕ_discrete}
use memory_profiler.Ruby.{Ruby, StTable}
use memory_profiler.Table.Layout.{Entry, Table, is_occupied}
use memory_profiler.Table.Slots.{scan, occurrences}
use memory_profiler.Table.Holds.{IsLive, IsValid}
use memory_profiler.Capture.State.{Capture}

module _ ⦃rb : Ruby⦄ (st : StTable) where
  -- The wrapper of a class, or `nil`.
  abbrev pub allocations_of : st.Table → ℕ → ℕ
  allocations_of tracked klass = elim (st.lookup tracked klass) [
    | some allocations ↦ allocations
    | none ↦ rb.q_nil
  ]

  -- The filter by a wrapper; `nil` lets all entries pass.
  abbrev pub selects : st.Table → ℕ → Entry → Bool
  selects tracked filter entry =
      if filter == rb.q_nil then true else allocations_of tracked entry.klass == filter

  -- The reference: the pairs of the occupied entries that the filter lets pass, in order.
  unfoldable pub yields : st.Table → ℕ → List Entry → List (ℕ × ℕ)
  yields tracked filter [] = []
  yields tracked filter (entry ∷ rest) =
      let later = yields tracked filter rest in
      if not (is_occupied entry.object)
      then later
      else if not (selects tracked filter entry)
      then later
      else (entry.object, allocations_of tracked entry.klass) ∷ later

  unfoldable pub each_object_body : Capture st → ℕ → List (ℕ × ℕ)
  each_object_body c filter = elim c.states [
    | none ↦ []
    | some t ↦ yields c.tracked filter t.entries
  ]

  -- The pairs of a class and its wrapper that `each` yields.
  unfoldable pub each : Capture st → List (ℕ × ℕ)
  each c = st.pairs c.tracked

  -- How often an object is yielded.
  pub times : ℕ → List (ℕ × ℕ) → ℕ
  times q [] = 0
  times q ((object, allocations) ∷ rest) = let n = times q rest in if object == q then suc n else n

  -- How often it ought to be, by what a lookup of it reads.
  abbrev pub due : st.Table → ℕ → Option Entry → ℕ
  due tracked filter none = 0
  due tracked filter (some entry) = if selects tracked filter entry then 1 else 0

  times-none :
      (tracked : st.Table) (filter q : ℕ) (es : List Entry)
      → occurrences q es ≡ 0
      → times q (yields tracked filter es) ≡ 0
  unfolding times yields occurrences
  times-none tracked filter q [] o = refl
  times-none tracked filter q (e ∷ es) o =
      let rest = times-none tracked filter q es (ground arith) in
      elim (Bool-cases (is_occupied e.object)) [
        | inr hole ↦ rw hole rest
        | inl used ↦ elim (Bool-cases (selects tracked filter e)) [
          | inr other ↦ rw (used, other) rest
          | inl own ↦ rw (used, own) (ground (arith, rest))
        ]
      ]

  times-due :
      (tracked : st.Table) (filter q : ℕ) (es : List Entry)
      → IsLive q
      → occurrences q es ≤ 1
      → times q (yields tracked filter es) ≡ due tracked filter (scan q es)
  unfolding times yields occurrences scan
  times-due tracked filter q [] ok once = refl
  times-due tracked filter q (e ∷ es) ok once = elim (ℕ_discrete e.object q) [
    | no differ ↦
        let rest = times-due tracked filter q es ok (ground (arith, differ)) in
        let miss : (e.object == q) ≡ false = ground (arith, differ) in
        elim (Bool-cases (is_occupied e.object)) [
          | inr hole ↦ rw (hole, miss) rest
          | inl used ↦ elim (Bool-cases (selects tracked filter e)) [
            | inr other ↦ rw (used, other, miss) rest
            | inl own ↦ rw (used, own, miss) rest
          ]
        ]
    | yes same ↦
        let hit : (e.object == q) ≡ true = ground (arith, same) in
        let used : is_occupied e.object ≡ true = ground (arith, same, ok.0, ok.1) in
        let rest = times-none tracked filter q es (ground (arith, same)) in
        elim (Bool-cases (selects tracked filter e)) [
          | inr other ↦ rw (used, other, hit) (rest ∙ ap (λ b. if b then 1 else 0) (sym other))
          | inl own ↦ rw (used, own, hit) (ap suc rest ∙ ap (λ b. if b then 1 else 0) (sym own))
        ]
  ]

  -- For a capture with a well-formed table and a block that leaves the capture as it is, with any
  -- filter: `each_object` yields a live address exactly once if a lookup finds it and its class has
  -- the wrapper that is asked for, or none is asked for, and not at all otherwise.
  pub each_object_body-times :
      (c : Capture st) (filter : ℕ) (t : Table)
      → c.states ≡ some t
      → IsValid t
      → (q : ℕ) → IsLive q
      → times q (each_object_body c filter) ≡ due c.tracked filter (scan q t.entries)
  unfolding each_object_body
  each_object_body-times c filter t e v q ok =
      rw (e, each_object_body) (times-due c.tracked filter q t.entries ok (v.once q ok))
