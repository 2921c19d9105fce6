-- ===== src/Capture/Gc.antt =====
-- capture.c: marking, and the update after a compaction of the heap.
use memory_profiler.Base.{
  ℕ, add_size, mul_size, Bool, false, not, List, [], ◌∷◌, ◌++◌, Option, none, some, ltb, ◌==◌,
  if◌then◌else◌, length,
}
use memory_profiler.Ruby.{Ruby, StTable}
use memory_profiler.Table.Layout.{Table}
use memory_profiler.Table.Gc
use memory_profiler.Capture.State.{Capture}

-- `sizeof(struct Memory_Profiler_Capture)` and that of `struct Memory_Profiler_Capture_Allocations`.
abbrev pub capture_size : ℕ
capture_size = 48

abbrev pub allocations_size : ℕ
allocations_size = 24

module _ ⦃rb : Ruby⦄ (st : StTable) where
  -- The words that are passed to `rb_gc_mark`, which pins the object, and to `rb_gc_mark_movable`.
  pub record Marks : Type 0 where
    pub pinned : List ℕ
    pub movable : List ℕ

  unfoldable pub tracked_mark : List (ℕ × ℕ) → Marks → Marks
  tracked_mark [] marks = marks
  tracked_mark ((klass, allocations) ∷ rest) marks =
      tracked_mark rest (record {
        pinned = marks.pinned ++ klass ∷ [];
        movable = marks.movable ++ allocations ∷ [];
      })

  unfoldable pub mark : Capture st → Marks
  unfolding tracked_mark
  mark c =
      let marks = tracked_mark (st.pairs c.tracked) (record { pinned = []; movable = [] }) in
      elim c.states [
        | none ↦ marks
        | some t ↦ record marks { movable = marks.movable ++ Gc.mark t.entries }
      ]

  unfoldable pub memsize : Capture st → ℕ
  memsize c =
      add_size capture_size (mul_size (length (st.pairs c.tracked)) (add_size 8 allocations_size))

  module _ (location : ℕ → ℕ) where
    unfoldable pub tracked_update : ℕ → ℕ
    tracked_update old_allocations =
        let new_allocations = location old_allocations in
        if not (old_allocations == new_allocations) then new_allocations else old_allocations

    -- How an update ends: with the new state, with the exception of a table that was modified, or with
    -- a write behind the end of an array.
    pub data Compacted : Type 0 where
      compacted : Capture st → Compacted
      modified : Compacted
      overrun : Compacted

    unfoldable pub compact_tracked : st.Table → st.Table × Bool
    compact_tracked tracked =
        if ltb 0 (length (st.pairs tracked))
        then st.foreach_with_replace tracked tracked_update
        else (tracked, false)

    unfoldable pub compact_states : (ℕ → Bool) → Capture st → Option Table → Compacted
    compact_states malloc c none = compacted c
    compact_states malloc c (some t) = elim (Gc.compact location malloc t) [
      | none ↦ overrun
      | some t' ↦ compacted (record c { states = some t' })
    ]

    unfoldable pub compact : (ℕ → Bool) → Capture st → Compacted
    unfolding compact_states
    compact malloc c =
        let (tracked, modified_) = compact_tracked c.tracked in
        if modified_
        then modified
        else compact_states malloc (record c { tracked = tracked }) c.states
