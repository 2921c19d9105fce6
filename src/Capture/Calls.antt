-- ===== src/Capture/Calls.antt =====
-- capture.c: pausing, resuming and calling back, as they change one capture.
use memory_profiler.Base.{ℕ, ◌^◌, ◌<◌, ◌≡◌, refl, ap, ◌∙◌, Bool, true, false, arith}
use memory_profiler.Ruby.{Ruby, StTable}
use memory_profiler.Allocations.{Allocations}
use memory_profiler.Capture.State.{
  Capture, World, Called, returned, threw, Surroundings, inc_int, put_capture, put_record, dec_int,
  pause, resume,
}
use memory_profiler.Capture.Process.{call_if}

module _ (st : StTable) where
  -- A callback does not touch this capture.
  abbrev pub Leaves : ℕ → Capture st → Called st → Type 0
  Leaves self c (returned value w) = w.captures self ≡ c
  Leaves self c (threw w) = w.captures self ≡ c

  pub captures-put :
      (w : World st) (self : ℕ) (c : Capture st) → (put_capture st w self c).captures self ≡ c
  captures-put w self c = ground arith

  pub records-put : (w : World st) (a : ℕ) (r : Allocations) → (put_record st w a r).records a ≡ r
  records-put w a r = ground arith

  module _ (self : ℕ) where
    pub paused-captures :
        (w : World st)
        → (pause st w self).captures self
          ≡ record (w.captures self) { paused = inc_int (w.captures self).paused }
    paused-captures w = captures-put w self _

    pub skip-captures :
        (w : World st)
        → (w.captures self).paused < 2 ^ 32
        → (resume st (pause st w self) self).captures self ≡ w.captures self
    skip-captures w lt =
        captures-put (pause st w self) self _
        ∙ ap (λ (x : Capture st). record x { paused = dec_int x.paused }) (paused-captures w)
        ∙ ap (λ n. record (w.captures self) { paused = n }) (omega (arith, lt))

module _ ⦃rb : Ruby⦄ (st : StTable) (env : Surroundings st) (self : ℕ)
    (leaves : (callback klass symbol argument : ℕ) (w : World st)
      → Leaves st self (w.captures self) (env.call callback klass symbol argument w)) where
  pub call_if-Leaves :
      (calls : Bool) (callback klass symbol argument : ℕ) (w : World st)
      → Leaves st self (w.captures self) (call_if st env calls callback klass symbol argument w)
  call_if-Leaves true callback klass symbol argument w = leaves callback klass symbol argument w
  call_if-Leaves false callback klass symbol argument w = refl
