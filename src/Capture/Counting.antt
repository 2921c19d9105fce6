-- ===== src/Capture/Counting.antt =====
-- capture.c: how `process_newobj` counts a new object for its class.
use memory_profiler.Base.{
  ℕ, ◌≡◌, refl, sym, ap, ◌∙◌, true, false, Option, none, some, inl, inr, Bool-cases, Option-cases,
  add_size,
}
use memory_profiler.Ruby.{Ruby, StTable}
use memory_profiler.Allocations.{Allocations}
use memory_profiler.Capture.State.{Capture, World, Surroundings, put_capture, put_record}
use memory_profiler.Capture.Calls.{captures-put, records-put}
use memory_profiler.Capture.Process.{count_new}

module _ ⦃rb : Ruby⦄ (st : StTable) (env : Surroundings st) where
  -- The record `a` under which a new object of the class is counted: its content `r` after that, and
  -- the tracked classes `tracked`.
  pub data Counting (w : World st) (self klass : ℕ) : ℕ → Allocations → st.Table → Type 0 where
    known :
        (a : ℕ)
        → st.lookup (w.captures self).tracked klass ≡ some a
        → Counting w self klass a
            (record (w.records a) { new_count = add_size (w.records a).new_count 1 })
            (w.captures self).tracked
    created :
        st.lookup (w.captures self).tracked klass ≡ none
        → (w.captures self).track_all ≡ true
        → Counting w self klass
            (env.wrap w)
            (record { callback = rb.q_nil; new_count = 1; free_count = 0 })
            (st.insert (w.captures self).tracked klass (env.wrap w))

  -- What `count_new` returns: nothing for a class that is not tracked, or the world in which the
  -- object is counted.
  pub data Counted (w : World st) (self klass : ℕ) : Option (World st × ℕ) → Type 0 where
    skipped :
        st.lookup (w.captures self).tracked klass ≡ none
        → (w.captures self).track_all ≡ false
        → Counted w self klass none
    counted :
        (w' : World st) (a : ℕ) (r : Allocations) (tracked : st.Table)
        → Counting w self klass a r tracked
        → w'.captures self ≡ record (w.captures self) { tracked = tracked }
        → w'.records a ≡ r
        → Counted w self klass (some (w', a))

  pub count_new-Counted :
      (w : World st) (self klass : ℕ) → Counted w self klass (count_new st env w self klass)
  unfolding count_new
  count_new-Counted w self klass = elim (Option-cases (st.lookup (w.captures self).tracked klass)) [
    | inr (a, e) ↦
        let r : Allocations = record (w.records a) {
          new_count = add_size (w.records a).new_count 1;
        } in
        rw (e, count_new)
          (counted (put_record st w a r) a r (w.captures self).tracked (known a e) refl
            (records-put st w a r))
    | inl e ↦ elim (Bool-cases (w.captures self).track_all) [
      | inl all ↦
          let a = env.wrap w in
          let r : Allocations = record { callback = rb.q_nil; new_count = 1; free_count = 0 } in
          let made = put_record st w a r in
          let tracked = st.insert (w.captures self).tracked klass a in
          let c : Capture st = record (w.captures self) { track_all = true; tracked = tracked } in
          rw (e, all, count_new)
            (counted (put_capture st made self c) a r tracked (created e all)
              (captures-put st made self c
                ∙ ap (λ b. record (w.captures self) { track_all = b; tracked = tracked }) (sym all))
              (records-put st w a r))
      | inr few ↦ rw (e, few, count_new) (skipped e few)
    ]
  ]
