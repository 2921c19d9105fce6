-- ===== src/Capture/Marking.antt =====
-- capture.c: what the garbage collector is told to keep for a capture.
use native.Mathlib.Decide.{ℕ_discrete}
use memory_profiler.Base.{
  ℕ, ◌≡◌, sym, ◌∙◌, inl, inr, List, [], ◌∷◌, ◌++◌, some, arith, Option-cases,
}
use memory_profiler.Base.Marked.{Among, Among-append_left, Among-append_right}
use memory_profiler.Ruby.{Ruby, StTable, assoc}
use memory_profiler.Table.Gc
use memory_profiler.Capture.State.{Capture}
use memory_profiler.Capture.Gc.{Marks, tracked_mark, mark}

module _ ⦃rb : Ruby⦄ (st : StTable) where
  tracked_mark-covers :
      (pairs : List (ℕ × ℕ)) (marks : Marks st) (v : ℕ)
      → (Among v marks.pinned → Among v (tracked_mark st pairs marks).pinned)
        × (Among v marks.movable → Among v (tracked_mark st pairs marks).movable)
  unfolding tracked_mark
  tracked_mark-covers [] marks v = (λ h. h, λ h. h)
  tracked_mark-covers ((k, a) ∷ rest) marks v =
      let (here, there) =
        tracked_mark-covers rest
          (record { pinned = marks.pinned ++ k ∷ []; movable = marks.movable ++ a ∷ [] }) v in
      (
        λ h. here (Among-append_left v marks.pinned (k ∷ []) h),
        λ h. there (Among-append_left v marks.movable (a ∷ []) h),
      )

  tracked_mark-marks :
      (pairs : List (ℕ × ℕ)) (marks : Marks st) (klass a : ℕ)
      → assoc klass pairs ≡ some a
      → Among klass (tracked_mark st pairs marks).pinned
        × Among a (tracked_mark st pairs marks).movable
  unfolding tracked_mark
  tracked_mark-marks [] marks klass a e = absurd (ground (arith, e))
  tracked_mark-marks ((k, b) ∷ rest) marks klass a e =
      let more : Marks st = record {
        pinned = marks.pinned ++ k ∷ [];
        movable = marks.movable ++ b ∷ [];
      } in
      elim (ℕ_discrete k klass) [
        | yes same ↦
            let value : b ≡ a = ground (arith, e, same) in
            (
              (tracked_mark-covers rest more klass).0
                  (Among-append_right klass marks.pinned (k ∷ []) (inl (sym same))),
              (tracked_mark-covers rest more a).1
                  (Among-append_right a marks.movable (b ∷ []) (inl (sym value))),
            )
        | no differ ↦ tracked_mark-marks rest more klass a (ground (arith, e, differ))
      ]

  -- `mark` passes every class that the capture tracks to `rb_gc_mark`, which pins it, and its wrapper
  -- to `rb_gc_mark_movable`.
  pub mark-covers :
      (c : Capture st) (klass a : ℕ)
      → st.lookup c.tracked klass ≡ some a
      → Among klass (mark st c).pinned × Among a (mark st c).movable
  unfolding mark
  mark-covers c klass a e =
      let marks = tracked_mark st (st.pairs c.tracked) (record { pinned = []; movable = [] }) in
      let (pinned, movable) =
        tracked_mark-marks (st.pairs c.tracked) (record { pinned = []; movable = [] }) klass a
          (sym (st.lookup-pairs c.tracked klass) ∙ e) in
      elim (Option-cases c.states) [
        | inl none_there ↦ rw (none_there, mark) (pinned, movable)
        | inr (t, there) ↦
            rw (there, mark) (pinned, Among-append_left a marks.movable (Gc.mark t.entries) movable)
      ]
