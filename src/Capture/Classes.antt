-- ===== src/Capture/Classes.antt =====
-- capture.c: the tracked classes: `track`, `untrack`, `[]` and `tracking?`.
use memory_profiler.Base.{
  ℕ, ◌≡◌, ◌≢◌, refl, ap, ◌∙◌, true, false, Option, none, some, inl, inr, arith, Option-cases,
}
use memory_profiler.Ruby.{Ruby, StTable}
use memory_profiler.Allocations.{Allocations}
use memory_profiler.Capture.State.{Capture, World, put_capture, put_record}
use memory_profiler.Capture.Calls.{captures-put, records-put}
use memory_profiler.Capture.Methods.{track, untrack, aref, tracking_p}

module _ ⦃rb : Ruby⦄ (st : StTable) (w : World st) (self klass : ℕ) where
  -- The wrapper that a class has in a world.
  abbrev wrapper_of : World st → ℕ → Option ℕ
  wrapper_of v k = st.lookup (v.captures self).tracked k

  aref-some : (v : World st) (a : ℕ) → wrapper_of v klass ≡ some a → aref st v self klass ≡ a
  unfolding aref
  aref-some v a e = rw (e, aref) refl

  tracking_of_some :
      (v : World st) (a : ℕ) → wrapper_of v klass ≡ some a → tracking_p st v self klass ≡ true
  unfolding tracking_p
  tracking_of_some v a e = rw (e, tracking_p) refl

  tracking_of_none : (v : World st) → wrapper_of v klass ≡ none → tracking_p st v self klass ≡ false
  unfolding tracking_p
  tracking_of_none v e = rw (e, tracking_p) refl

  aref-same :
      (v : World st) (k : ℕ) → wrapper_of v k ≡ wrapper_of w k → aref st v self k ≡ aref st w self k
  unfolding aref
  aref-same v k e = ap (λ o. elim o [ some a ↦ a | none ↦ rb.q_nil ]) e

  -- What `track` promises: the class has the wrapper that it returned, whose record has the callback;
  -- the other classes keep theirs.
  pub record Tracks (callback : ℕ) (r : World st × ℕ) : Type 0 where
    pub found : aref st r.0 self klass ≡ r.1
    pub tracking : tracking_p st r.0 self klass ≡ true
    pub called : (r.0.records r.1).callback ≡ callback
    pub rest : (k : ℕ) → k ≢ klass → aref st r.0 self k ≡ aref st w self k

  -- After `track`, with a new wrapper or the one that the class had: `[]` returns that wrapper and
  -- `tracking?` is true, its record has the callback, and `[]` of every other class is as before.
  pub track-Tracks :
      (callback wrapper : ℕ) → Tracks callback (track st w self klass callback wrapper)
  unfolding track
  track-Tracks callback wrapper = elim (Option-cases (wrapper_of w klass)) [
    | inr (a, e) ↦
        let w' = put_record st w a (record (w.records a) { callback = callback }) in
        rw (e, track)
          (record {
            found = aref-some w' a e;
            tracking = tracking_of_some w' a e;
            called = ap (λ (x : Allocations). x.callback) (records-put st w a _);
            rest = λ k n. aref-same w' k refl;
          })
    | inl e ↦
        let made =
          put_record st w wrapper (record { callback = callback; new_count = 0; free_count = 0 }) in
        let classes = st.insert (w.captures self).tracked klass wrapper in
        let w' = put_capture st made self (record (w.captures self) { tracked = classes }) in
        let read : (k : ℕ) → wrapper_of w' k ≡ st.lookup classes k =
          λ k. ap (λ (x : Capture st). st.lookup x.tracked k) (captures-put st made self _) in
        let here : wrapper_of w' klass ≡ some wrapper =
          read klass
          ∙ st.lookup-insert (w.captures self).tracked klass wrapper klass
          ∙ ground arith in
        rw (e, track)
          (record {
            found = aref-some w' wrapper here;
            tracking = tracking_of_some w' wrapper here;
            called = ap (λ (x : Allocations). x.callback) (records-put st w wrapper _);
            rest = λ k n. aref-same w' k (
                read k
                ∙ st.lookup-insert (w.captures self).tracked klass wrapper k
                ∙ ground (arith, n));
          })
  ]

  -- After `untrack`, `tracking?` is false, and `[]` of every other class is as before.
  pub untrack-tracking_p :
      (tracking_p st (untrack st w self klass) self klass ≡ false)
      × ((k : ℕ) → k ≢ klass → aref st (untrack st w self klass) self k ≡ aref st w self k)
  unfolding untrack
  untrack-tracking_p =
      let classes = st.delete (w.captures self).tracked klass in
      let w' = put_capture st w self (record (w.captures self) { tracked = classes }) in
      let read : (k : ℕ) → wrapper_of w' k ≡ st.lookup classes k =
        λ k. ap (λ (x : Capture st). st.lookup x.tracked k) (captures-put st w self _) in
      (
        tracking_of_none w'
            (read klass ∙ st.lookup-delete (w.captures self).tracked klass klass ∙ ground arith),
        λ k n.
            aref-same w' k
              (read k ∙ st.lookup-delete (w.captures self).tracked klass k ∙ ground (arith, n)),
      )
