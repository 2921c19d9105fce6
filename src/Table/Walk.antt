-- ===== src/Table/Walk.antt =====
-- The order in which the probing loops visit the slots, and what the loops return, stated over any
-- number of probes.
use memory_profiler.Base.{
  ℕ, zero, suc, ◌+◌, ◌-◌, ◌%◌, ◌≤◌, ◌<◌, ◌≡◌, refl, ap, ◌∙◌, ◌≢◌, ◌⊎◌, inl, inr, Bool, true, false,
  List, arith,
}
use native.Mathlib.Nat.{mod-eq_of_lt, mod-add-mod, mod-eq-sub-mod}
use native.Mathlib.Decide.{ℕ_discrete, dec_lt}
use memory_profiler.Ruby.{Ruby}
use memory_profiler.Table.Layout.{Entry, object_at, tombstone}
use memory_profiler.Table.Probing.{find_loop}

-- The slot reached from `i` after `d` rounds, in an array of `c` slots.
unfoldable pub walk : ℕ → ℕ → ℕ → ℕ
walk c i zero = i
walk c i (suc d) = walk c ((i + 1) % c) d

pub walk-lt : (c i d : ℕ) → i < c → walk c i d < c
unfolding walk
walk-lt c i zero h = h
walk-lt c i (suc d) h = walk-lt c ((i + 1) % c) d (omega arith)

pub walk-eq-mod : (c i d : ℕ) → i < c → walk c i d ≡ (i + d) % c
unfolding walk
walk-eq-mod c i zero h = grind arith
walk-eq-mod c i (suc d) h =
    walk-eq-mod c ((i + 1) % c) d (omega arith)
    ∙ mod-add-mod (i + 1) c d
    ∙ ap (λ k. k % c) (omega arith)

mod_cases : (x c : ℕ) → x < c + c → (x % c ≡ x) ⊎ (x % c + c ≡ x)
mod_cases x c h = elim (dec_lt x c) [
  | yes p ↦ inl (mod-eq_of_lt p)
  | no p ↦
      let below : x - c < c = omega arith in
      inr (omega (arith, mod-eq-sub-mod {n = x} {m = c} (omega arith), mod-eq_of_lt below))
]

-- In fewer rounds than there are slots the walk does not come back to its start.
pub walk_no_return : (c i d : ℕ) → i < c → 0 < d → d < c → walk c i d ≢ i
walk_no_return c i d h p q e = omega (arith, mod_cases (i + d) c (omega arith), walk-eq-mod c i d h)

-- The walk visits every slot within as many rounds as there are slots.
pub walk_onto : (c i j : ℕ) → i < c → j < c → (d : ℕ) × (d < c) × (walk c i d ≡ j)
walk_onto c i j h k = elim (dec_lt j i) [
  | yes p ↦
      let d : ℕ = j + c - i in
      (d, omega arith, omega (arith, walk-eq-mod c i d h, mod_cases (i + d) c (omega arith)))
  | no p ↦
      let d : ℕ = j - i in
      (d, omega arith, omega (arith, walk-eq-mod c i d h, mod_cases (i + d) c (omega arith)))
]

-- No slot among the first `n` of the walk is empty.
abbrev pub Chain : List Entry → ℕ → ℕ → ℕ → Type 0
Chain es c i n = (m : ℕ) → m < n → object_at es (walk c i m) ≢ 0

pub Chain-zero : (es : List Entry) (c i : ℕ) → Chain es c i 0
Chain-zero es c i m h = elim h [ ]

pub Chain-suc :
    (es : List Entry) (c i n : ℕ)
    → object_at es i ≢ 0
    → Chain es c ((i + 1) % c) n
    → Chain es c i (suc n)
unfolding walk
Chain-suc es c i n h rest zero lt = h
Chain-suc es c i n h rest (suc m) lt = rest m (omega arith)

module _ ⦃rb : Ruby⦄ (es : List Entry) (c k start : ℕ) (k_ne_zero : k ≢ 0)
    (k_ne_nil : k ≢ tombstone) where
  -- What `find_loop` returns: it stops in at most `d` rounds, at the key or at an empty slot.
  abbrev pub Finds : ℕ → ℕ → ℕ × Bool → Type 0
  Finds i d r =
      (n : ℕ) × (n ≤ d)
      × (walk c i n ≡ r.0)
      × Chain es c i n
      × (((r.1 ≡ true) × (object_at es r.0 ≡ k)) ⊎ ((r.1 ≡ false) × (object_at es r.0 ≡ 0)))

  find_loop_step :
      (f i : ℕ)
      → object_at es i ≢ 0
      → object_at es i ≢ k
      → (i + 1) % c ≢ start
      → find_loop es c k start (suc f) i ≡ find_loop es c k start f ((i + 1) % c)
  unfolding find_loop
  find_loop_step f i p q r = ground arith

  find_loop_hit : (f i : ℕ) → object_at es i ≡ k → find_loop es c k start (suc f) i ≡ (i, true)
  unfolding find_loop
  find_loop_hit f i p = ground arith

  find_loop_end : (f i : ℕ) → object_at es i ≡ 0 → find_loop es c k start (suc f) i ≡ (i, false)
  unfolding find_loop
  find_loop_end f i p = ground arith

  Finds-suc :
      (i d : ℕ) (r : ℕ × Bool) → object_at es i ≢ 0 → Finds ((i + 1) % c) d r → Finds i (suc d) r
  unfolding walk
  Finds-suc i d r h (n, le, at, chain, found) =
      (suc n, omega arith, at, Chain-suc es c i n h chain, found)

  pub find_loop-Finds :
      (f i d : ℕ)
      → d < f
      → ((m : ℕ) → m < d → walk c i (suc m) ≢ start)
      → (object_at es (walk c i d) ≡ 0) ⊎ (object_at es (walk c i d) ≡ k)
      → Finds i d (find_loop es c k start f i)
  unfolding walk
  find_loop-Finds zero i d lt apart stop = elim lt [ ]
  find_loop-Finds (suc f) i zero lt apart (inl e) =
      rw (find_loop_end f i e) (0, omega arith, refl, Chain-zero es c i, inr (refl, e))
  find_loop-Finds (suc f) i zero lt apart (inr e) =
      rw (find_loop_hit f i e) (0, omega arith, refl, Chain-zero es c i, inl (refl, e))
  find_loop-Finds (suc f) i (suc d) lt apart stop =
      let rest =
        find_loop-Finds f ((i + 1) % c) d (omega arith) (λ m h. apart (suc m) (omega arith)) stop in
      elim (ℕ_discrete (object_at es i) 0) [
        | yes e ↦ rw (find_loop_end f i e) (0, omega arith, refl, Chain-zero es c i, inr (refl, e))
        | no p ↦ elim (ℕ_discrete (object_at es i) k) [
          | yes e ↦
              rw (find_loop_hit f i e) (0, omega arith, refl, Chain-zero es c i, inl (refl, e))
          | no q ↦
              rw (find_loop_step f i p q (apart 0 (omega arith)))
                (Finds-suc i d (find_loop es c k start f ((i + 1) % c)) p rest)
        ]
      ]

  -- A key is reported only where it stands.
  pub find_loop_sound :
      (f i : ℕ)
      → (find_loop es c k start f i).1 ≡ true
      → object_at es (find_loop es c k start f i).0 ≡ k
  unfolding find_loop
  find_loop_sound zero i h = cc
  find_loop_sound (suc f) i h = ground (arith, find_loop_sound f ((i + 1) % c))
