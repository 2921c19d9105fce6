-- ===== src/Capture/Readers.antt =====
-- capture.c and allocations.c: the methods that only read, and the release of a capture's memory.
use memory_profiler.Base.{
  ℕ, ◌≡◌, refl, Bool, List, [], ◌∷◌, ◌++◌, Option, none, some, inl, inr, arith, if◌then◌else◌,
  Option-cases,
}
use memory_profiler.Ruby.{Ruby, StTable}
use memory_profiler.Allocations
use memory_profiler.Allocations.{Allocations}
use memory_profiler.Table.Layout.{Table}
use memory_profiler.Capture.State.{Capture, World}
use memory_profiler.Capture.Methods.{aref, tracking_p, retained_count_of}

-- The blocks of memory that a capture owns.
pub data Block : Type 0 where
  tracked_block entries_block table_block capture_block : Block

-- `Memory_Profiler_Object_Table_free`, with the blocks that it releases in their order.
unfoldable pub free_table : Option Table → List Block
free_table none = []
free_table (some t) = entries_block ∷ table_block ∷ []

module _ ⦃rb : Ruby⦄ (st : StTable) where
  -- `Memory_Profiler_Capture_free`. The tracked table is there from `alloc` on.
  unfoldable pub free : Capture st → List Block
  unfolding free_table
  free c = tracked_block ∷ (free_table c.states ++ capture_block ∷ [])

  unfoldable pub initialize : World st → ℕ → World st
  initialize w self = w

  unfoldable pub track_all_get : World st → ℕ → Bool
  track_all_get w self = (w.captures self).track_all

  unfoldable pub new_count : World st → ℕ → ℕ
  new_count w self = (w.captures self).new_count

  unfoldable pub free_count : World st → ℕ → ℕ
  free_count w self = (w.captures self).free_count

  -- The record of a wrapper.
  unfoldable pub get : World st → ℕ → Allocations
  get w wrapper = w.records wrapper

  unfoldable pub allocations_new_count : World st → ℕ → ℕ
  unfolding get
  allocations_new_count w wrapper = (get w wrapper).new_count

  unfoldable pub allocations_free_count : World st → ℕ → ℕ
  unfolding get
  allocations_free_count w wrapper = (get w wrapper).free_count

  unfoldable pub allocations_retained_count : World st → ℕ → ℕ
  unfolding get
  allocations_retained_count w wrapper = Allocations.retained_count (get w wrapper)

  -- For every class: `retained_count_of` is what `retained_count` of the wrapper says that `[]` gives,
  -- if the class is tracked, and 0 otherwise.
  pub retained_count_of-aref :
      (w : World st) (self klass : ℕ)
      → retained_count_of st w self klass ≡ (
          if tracking_p st w self klass
          then allocations_retained_count w (aref st w self klass)
          else 0)
  unfolding retained_count_of tracking_p allocations_retained_count aref get
      Allocations.retained_count
  retained_count_of-aref w self klass =
      elim (Option-cases (st.lookup (w.captures self).tracked klass)) [
        | inl e ↦ rw (e, retained_count_of, tracking_p) refl
        | inr (a, e) ↦ rw (e, retained_count_of, tracking_p, aref) (ground arith)
      ]
