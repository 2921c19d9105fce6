-- ===== src/Capture/Clearing.antt =====
-- capture.c: what `clear` leaves behind.
use memory_profiler.Base.{
  ℕ, ◌+◌, ◌≡◌, refl, sym, ap, ◌∙◌, Bool, false, List, [], ◌∷◌, none, some, inl, inr, ◌==◌, arith,
  Bool-cases, Option-cases,
}
use memory_profiler.Ruby.{Ruby, StTable, assoc}
use memory_profiler.Allocations
use memory_profiler.Allocations.{Allocations}
use memory_profiler.Table.Layout.{Table, new}
use memory_profiler.Table.Slots.{scan}
use memory_profiler.Table.Holds.{IsLive, IsValid}
use memory_profiler.Table.Resize.{RefusesOverflow}
use memory_profiler.Table.New.{new-IsValid, new_granted}
use memory_profiler.Capture.State.{Capture, World, update, put_capture}
use memory_profiler.Capture.Calls.{captures-put}
use memory_profiler.Capture.Methods.{clear, clear_records, table_capacity, retained_count_of}

module _ ⦃rb : Ruby⦄ where
  -- A record without counts and without a callback.
  abbrev pub fresh : Allocations
  fresh = record { callback = rb.q_nil; new_count = 0; free_count = 0 }

module _ ⦃rb : Ruby⦄ (st : StTable) where
  -- A record that is cleared stays so.
  cleared_stays :
      (pairs : List (ℕ × ℕ)) (records : ℕ → Allocations) (a : ℕ)
      → records a ≡ fresh
      → clear_records st pairs records a ≡ fresh
  unfolding clear_records Allocations.clear
  cleared_stays [] records a e = e
  cleared_stays ((klass, b) ∷ rest) records a e =
      cleared_stays rest (update records b (Allocations.clear (records b))) a (ground (arith, e))

  tracked_cleared :
      (pairs : List (ℕ × ℕ)) (records : ℕ → Allocations) (klass a : ℕ)
      → assoc klass pairs ≡ some a
      → clear_records st pairs records a ≡ fresh
  unfolding clear_records Allocations.clear
  tracked_cleared [] records klass a e = absurd (ground (arith, e))
  tracked_cleared ((k, b) ∷ rest) records klass a e =
      let next = update records b (Allocations.clear (records b)) in
      elim (Bool-cases (klass == k)) [
        | inl same ↦ cleared_stays rest next a (ground (arith, same, e))
        | inr differ ↦ tracked_cleared rest next klass a (ground (arith, differ, e))
      ]

  -- The state that `clear` promises: the same classes are tracked, all their counts are zero and they
  -- have no callback, the capture's own counts are zero, and its table is well formed and empty.
  pub record Clears (w : World st) (self : ℕ) (w' : World st) : Type 0 where
    pub t : Table
    pub capture :
        w'.captures self
        ≡ record (w.captures self) { states = some t; new_count = 0; free_count = 0 }
    pub valid : IsValid t
    pub unused : t.count + t.tombstones ≡ 0
    pub empty : (q : ℕ) → IsLive q → scan q t.entries ≡ none
    pub records :
        (klass a : ℕ) → st.lookup (w.captures self).tracked klass ≡ some a → w'.records a ≡ fresh
    pub retained : (klass : ℕ) → retained_count_of st w' self klass ≡ 0

  none_retained :
      (w : World st) (self klass : ℕ)
      → st.lookup (w.captures self).tracked klass ≡ none
      → retained_count_of st w self klass ≡ 0
  unfolding retained_count_of
  none_retained w self klass e = rw (e, retained_count_of) refl

  fresh_retained :
      (w : World st) (self klass a : ℕ)
      → st.lookup (w.captures self).tracked klass ≡ some a
      → w.records a ≡ fresh
      → retained_count_of st w self klass ≡ 0
  unfolding retained_count_of
  fresh_retained w self klass a e r = rw (e, r, retained_count_of) refl

  -- On a capture that is not running and has a table, where `calloc` refuses sizes that overflow and
  -- both allocations of the new table succeed: `clear` succeeds, tracks the same classes, resets the
  -- counts of every one of them and drops its callback, resets the capture's counts, and leaves a
  -- well-formed empty table, so that no class retains an object.
  pub clear-Clears :
      (malloc_grants : Bool) (calloc : ℕ → ℕ → Bool) (w : World st) (self : ℕ) (t t' : Table)
      → (w.captures self).running ≡ false
      → (w.captures self).states ≡ some t
      → RefusesOverflow calloc
      → new malloc_grants calloc table_capacity ≡ some t'
      → (w' : World st) × (clear st malloc_grants calloc w self ≡ some w') × Clears w self w'
  unfolding clear
  clear-Clears malloc_grants calloc w self t t' idle has refuses made =
      let (valid, _, _, empty) = new-IsValid malloc_grants calloc table_capacity t' refuses made in
      let c : Capture st = record (w.captures self) {
        states = some t';
        new_count = 0;
        free_count = 0;
      } in
      let records = clear_records st (st.pairs (w.captures self).tracked) w.records in
      let w' : World st = put_capture st (record w { records = records }) self c in
      let capture = captures-put st (record w { records = records }) self c in
      let cleared : (klass a : ℕ)
          → st.lookup (w.captures self).tracked klass ≡ some a
          → records a ≡ fresh =
        λ klass a e.
          tracked_cleared (st.pairs (w.captures self).tracked) w.records klass a
            (sym (st.lookup-pairs (w.captures self).tracked klass) ∙ e) in
      (
        w',
        rw (idle, has, made) refl,
        record {
          t = t';
          capture = capture;
          valid = valid;
          unused = sym (
              ap (λ (x : Table). x.count + x.tombstones)
                (new_granted malloc_grants calloc table_capacity t' made).2);
          empty = empty;
          records = cleared;
          retained = λ klass.
              let at = ap (λ (x : Capture st). st.lookup x.tracked klass) capture in
              elim (Option-cases (st.lookup (w.captures self).tracked klass)) [
                | inl e ↦ none_retained w' self klass (at ∙ e)
                | inr (a, e) ↦ fresh_retained w' self klass a (at ∙ e) (cleared klass a e)
              ];
        },
      )
