-- ===== src/Table/Slotting.antt =====
-- What the loop of `find_insert_slot` returns, stated over any number of probes.
use memory_profiler.Base.{
  ℕ, zero, suc, ◌+◌, ◌%◌, ◌≤◌, ◌<◌, ◌≡◌, refl, sym, ◌≢◌, ◌⊎◌, inl, inr, Bool, true, false, List,
  arith, size_max,
}
use native.Mathlib.Decide.{ℕ_discrete}
use memory_profiler.Ruby.{Ruby}
use memory_profiler.Table.Layout.{Entry, object_at, tombstone}
use memory_profiler.Table.Probing.{insert_loop, slot_or}
use memory_profiler.Table.Walk.{walk, Chain, Chain-zero, Chain-suc}

module _ ⦃rb : Ruby⦄ (es : List Entry) (c k start : ℕ) (k_ne_zero : k ≢ 0)
    (k_ne_nil : k ≢ tombstone) (small : c < size_max) where
  -- The loop stops after `n` rounds, at the key or at an empty slot; `Slot n` says which slot it
  -- offers in the second case.
  abbrev pub Offers : ℕ → ℕ → ℕ × Bool → (ℕ → Type 0) → Type 0
  Offers i d r Slot =
      (n : ℕ) × (n ≤ d)
      × Chain es c i n
      × (((r.1 ≡ true) × (walk c i n ≡ r.0) × (object_at es r.0 ≡ k))
          ⊎ ((r.1 ≡ false) × (object_at es (walk c i n) ≡ 0) × Slot n))

  -- A slot that an insertion may take, at most `n` rounds away.
  abbrev pub FreeWithin : ℕ → ℕ → ℕ → Type 0
  FreeWithin i index n =
      (m : ℕ) × (m ≤ n)
      × (walk c i m ≡ index)
      × ((object_at es index ≡ 0) ⊎ (object_at es index ≡ tombstone))

  loop_end :
      (first f i : ℕ)
      → object_at es i ≡ 0
      → insert_loop es c k start first (suc f) i ≡ (slot_or first i, false)
  unfolding insert_loop
  loop_end first f i e = ground arith

  loop_hit :
      (first f i : ℕ) → object_at es i ≡ k → insert_loop es c k start first (suc f) i ≡ (i, true)
  unfolding insert_loop
  loop_hit first f i e = ground arith

  step_known :
      (first f i : ℕ)
      → object_at es i ≢ 0
      → object_at es i ≢ k
      → (i + 1) % c ≢ start
      → (first ≢ size_max) ⊎ (object_at es i ≢ tombstone)
      → insert_loop es c k start first (suc f) i ≡ insert_loop es c k start first f ((i + 1) % c)
  unfolding insert_loop
  step_known first f i p q r s = ground arith

  step_tombstone :
      (f i : ℕ)
      → object_at es i ≢ 0
      → object_at es i ≢ k
      → (i + 1) % c ≢ start
      → object_at es i ≡ tombstone
      → insert_loop es c k start size_max (suc f) i ≡ insert_loop es c k start i f ((i + 1) % c)
  unfolding insert_loop
  step_tombstone f i p q r s = ground arith

  Offers-suc :
      (i d : ℕ) (r : ℕ × Bool) (Slot Slot' : ℕ → Type 0)
      → object_at es i ≢ 0
      → ((n : ℕ) → Slot n → Slot' (suc n))
      → Offers ((i + 1) % c) d r Slot
      → Offers i (suc d) r Slot'
  unfolding walk
  Offers-suc i d r Slot Slot' h f (n, le, chain, inl hit) =
      (suc n, omega arith, Chain-suc es c i n h chain, inl hit)
  Offers-suc i d r Slot Slot' h f (n, le, chain, inr (missed, e, slot)) =
      (suc n, omega arith, Chain-suc es c i n h chain, inr (missed, e, f n slot))

  -- Once a tombstone is remembered, it is the slot that is offered.
  known :
      (first f i d : ℕ)
      → first ≢ size_max
      → d < f
      → ((m : ℕ) → m < d → walk c i (suc m) ≢ start)
      → (object_at es (walk c i d) ≡ 0) ⊎ (object_at es (walk c i d) ≡ k)
      → let r = insert_loop es c k start first f i in Offers i d r (λ _. r.0 ≡ first)
  unfolding walk
  known first zero i d nf lt apart stop = elim lt [ ]
  known first (suc f) i zero nf lt apart (inl e) =
      rw (loop_end first f i e) (0, omega arith, Chain-zero es c i, inr (refl, e, ground arith))
  known first (suc f) i zero nf lt apart (inr e) =
      rw (loop_hit first f i e) (0, omega arith, Chain-zero es c i, inl (refl, refl, e))
  known first (suc f) i (suc d) nf lt apart stop =
      let next = (i + 1) % c in
      let rest = known first f next d nf (omega arith) (λ m h. apart (suc m) (omega arith)) stop in
      elim (ℕ_discrete (object_at es i) 0) [
        | yes e ↦
            rw (loop_end first f i e)
              (0, omega arith, Chain-zero es c i, inr (refl, e, ground arith))
        | no p ↦ elim (ℕ_discrete (object_at es i) k) [
          | yes e ↦
              rw (loop_hit first f i e) (0, omega arith, Chain-zero es c i, inl (refl, refl, e))
          | no q ↦
              rw (step_known first f i p q (apart 0 (omega arith)) (inl nf))
                (Offers-suc i d _ _ _ p (λ n h. h) rest)
        ]
      ]

  FreeWithin-suc : (i index n : ℕ) → FreeWithin ((i + 1) % c) index n → FreeWithin i index (suc n)
  unfolding walk
  FreeWithin-suc i index n (m, le, at, free) = (suc m, omega arith, at, free)

  -- The loop of `find_insert_slot`, when an empty slot or the key stands `d` rounds ahead.
  pub insert_loop-Offers :
      (f i d : ℕ)
      → i < c
      → d < f
      → ((m : ℕ) → m < d → walk c i (suc m) ≢ start)
      → (object_at es (walk c i d) ≡ 0) ⊎ (object_at es (walk c i d) ≡ k)
      → let r = insert_loop es c k start size_max f i in Offers i d r (FreeWithin i r.0)
  unfolding walk
  insert_loop-Offers zero i d il lt apart stop = elim lt [ ]
  insert_loop-Offers (suc f) i zero il lt apart (inl e) =
      rw (loop_end size_max f i e)
        (0, omega arith, Chain-zero es c i, inr (refl, e, (0, omega arith, refl, inl e)))
  insert_loop-Offers (suc f) i zero il lt apart (inr e) =
      rw (loop_hit size_max f i e) (0, omega arith, Chain-zero es c i, inl (refl, refl, e))
  insert_loop-Offers (suc f) i (suc d) il lt apart stop =
      let next = (i + 1) % c in
      let later = λ (m : ℕ) (h : m < d). apart (suc m) (omega arith) in
      let plain = insert_loop-Offers f next d (omega arith) (omega arith) later stop in
      let marked = known i f next d (omega arith) (omega arith) later stop in
      elim (ℕ_discrete (object_at es i) 0) [
        | yes e ↦
            rw (loop_end size_max f i e)
              (0, omega arith, Chain-zero es c i, inr (refl, e, (0, omega arith, refl, inl e)))
        | no p ↦ elim (ℕ_discrete (object_at es i) k) [
          | yes e ↦
              rw (loop_hit size_max f i e) (0, omega arith, Chain-zero es c i, inl (refl, refl, e))
          | no q ↦ elim (ℕ_discrete (object_at es i) tombstone) [
            | no t ↦
                rw (step_known size_max f i p q (apart 0 (omega arith)) (inr t))
                  (Offers-suc i d _ _ _ p (λ n h. FreeWithin-suc i _ n h) plain)
            | yes t ↦
                rw (step_tombstone f i p q (apart 0 (omega arith)) t)
                  (Offers-suc i d _ _ _ p (λ n h. (0, omega arith, sym h, inr (rw h t))) marked)
          ]
        ]
      ]
