-- ===== src/Program/Settings.antt =====
-- capture.c: the calls of `track` and `untrack`, and which classes a capture tracks after them.
use memory_profiler.Base.{
  ℕ, ◌≡◌, refl, sym, ap, ◌∙◌, inl, inr, Bool, true, false, List, [], ◌∷◌, Option, none, some, arith,
  ◌==◌, if◌then◌else◌, Option-cases,
}
use native.Mathlib.Decide.{ℕ_discrete}
use memory_profiler.Ruby.{Ruby, StTable}
use memory_profiler.Events.{Events}
use memory_profiler.Capture.State.{Capture, World, put_capture, put_record, update}
use memory_profiler.Capture.Calls.{captures-put}
use memory_profiler.Capture.Methods.{track, untrack, start, tracking_p}

-- A call that says which classes are tracked.
pub data Setting : Type 0 where
  tracks : (klass callback wrapper : ℕ) → Setting
  untracks : (klass : ℕ) → Setting

-- Whether the last call about a class was a `track`, where `before` says what held before the calls.
pub told_after : (ℕ → Bool) → List Setting → ℕ → Bool
told_after before [] = before
told_after before (tracks klass callback wrapper ∷ calls) =
    told_after (λ k. if k == klass then true else before k) calls
told_after before (untracks klass ∷ calls) =
    told_after (λ k. if k == klass then false else before k) calls

abbrev pub told : List Setting → ℕ → Bool
told = told_after (λ k. false)

same_word : (k klass : ℕ) → k ≡ klass → (k == klass) ≡ true
same_word k klass e = ground (arith, e)

module _ ⦃rb : Ruby⦄ (st : StTable) where
  unfoldable pub set_up : World st → ℕ → List Setting → World st
  set_up w self [] = w
  set_up w self (tracks klass callback wrapper ∷ calls) =
      set_up (track st w self klass callback wrapper).0 self calls
  set_up w self (untracks klass ∷ calls) = set_up (untrack st w self klass) self calls

  module _ (self : ℕ) where
    abbrev pub runs : World st → Bool
    runs w = (w.captures self).running

    track-running :
        (w : World st) (klass callback wrapper : ℕ)
        → runs (track st w self klass callback wrapper).0 ≡ runs w
    unfolding track
    track-running w klass callback wrapper =
        let c = w.captures self in
        elim (Option-cases (st.lookup c.tracked klass)) [
          | inl absent ↦
              rw (absent, track)
                (ap (λ (x : Capture st). x.running)
                  (captures-put st
                    (put_record st w wrapper
                      (record { callback = callback; new_count = 0; free_count = 0 }))
                    self (record c { tracked = st.insert c.tracked klass wrapper })))
          | inr (a, there) ↦ rw (there, track) refl
        ]

    pub set_up-running : (calls : List Setting) (w : World st) → runs (set_up w self calls) ≡ runs w
    unfolding set_up untrack
    set_up-running [] w = refl
    set_up-running (tracks klass callback wrapper ∷ calls) w =
        set_up-running calls (track st w self klass callback wrapper).0
        ∙ track-running w klass callback wrapper
    set_up-running (untracks klass ∷ calls) w =
        set_up-running calls (untrack st w self klass)
        ∙ ap (λ (x : Capture st). x.running) (captures-put st w self _)

    abbrev is_there : Option ℕ → Bool
    is_there o = elim o [ some a ↦ true | none ↦ false ]

    track-told :
        (w : World st) (klass callback wrapper k : ℕ)
        → tracking_p st (track st w self klass callback wrapper).0 self k
          ≡ (if k == klass then true else tracking_p st w self k)
    unfolding track tracking_p
    track-told w klass callback wrapper k =
        let c = w.captures self in
        elim (Option-cases (st.lookup c.tracked klass)) [
          | inl absent ↦
              let made =
                put_record st w wrapper
                  (record { callback = callback; new_count = 0; free_count = 0 }) in
              rw (absent, track)
                (ap (λ (x : Capture st). is_there (st.lookup x.tracked k))
                    (captures-put st made self
                      (record c { tracked = st.insert c.tracked klass wrapper }))
                  ∙ ap is_there (st.lookup-insert c.tracked klass wrapper k)
                  ∙ ground arith)
          | inr (a, there) ↦
              rw (there, track)
                (elim (ℕ_discrete k klass) [
                  | yes e ↦
                      ap (λ q. is_there (st.lookup c.tracked q)) e
                      ∙ ap is_there there
                      ∙ ap (λ b. if b then true else is_there (st.lookup c.tracked k))
                          (sym (same_word k klass e))
                  | no n ↦ ground (arith, n)
                ])
        ]

    untrack-told :
        (w : World st) (klass k : ℕ)
        → tracking_p st (untrack st w self klass) self k
          ≡ (if k == klass then false else tracking_p st w self k)
    unfolding untrack tracking_p
    untrack-told w klass k =
        ap (λ (x : Capture st). is_there (st.lookup x.tracked k)) (captures-put st w self _)
        ∙ ap is_there (st.lookup-delete (w.captures self).tracked klass k)
        ∙ ground arith

    pub set_up-told :
        (calls : List Setting) (w : World st) (before : ℕ → Bool)
        → ((k : ℕ) → tracking_p st w self k ≡ before k)
        → (k : ℕ) → tracking_p st (set_up w self calls) self k ≡ told_after before calls k
    unfolding set_up told_after
    set_up-told [] w before h k = h k
    set_up-told (tracks klass callback wrapper ∷ calls) w before h k =
        set_up-told calls (track st w self klass callback wrapper).0
          (λ k. if k == klass then true else before k)
          (λ k.
            track-told w klass callback wrapper k ∙ ap (λ b. if k == klass then true else b) (h k))
          k
    set_up-told (untracks klass ∷ calls) w before h k =
        set_up-told calls (untrack st w self klass) (λ k. if k == klass then false else before k)
          (λ k. untrack-told w klass k ∙ ap (λ b. if k == klass then false else b) (h k)) k

    -- What `start` does to a capture that does not run.
    pub started_lem :
        (registered : Bool) (queue queue' : Option Events) (w w' : World st) (result : Bool)
        → runs w ≡ false
        → start st registered queue w self ≡ some (queue', w', result)
        → (result ≡ true)
          × (put_capture st
                (record w { hooked = update w.hooked self true })
                self
                (record (w.captures self) { running = true; paused = 0 })
              ≡ w')
    unfolding start
    started_lem registered queue queue' w w' result off ran = ground (arith, off, ran)
