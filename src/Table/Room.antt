-- ===== src/Table/Room.antt =====
-- Where a new key is stored, as long as an empty slot is within reach of the probing loops.
use memory_profiler.Base.{
  ℕ, suc, ◌+◌, ◌<◌, ◌≡◌, sym, ap, ◌∙◌, ◌≢◌, ◌⊎◌, inl, inr, Bool, true, false, List, arith, subst,
  size_max,
}
use native.Mathlib.Decide.{dec_lt}
use memory_profiler.Ruby.{Ruby}
use memory_profiler.Table.Layout.{Entry, Table, object_at, tombstone, max_probe_length, hash_object}
use memory_profiler.Table.Probing.{find_entry, find_insert_slot, insert_loop}
use memory_profiler.Table.Slots.{occurrences, occurrences_pos}
use memory_profiler.Table.Walk.{walk, walk-lt, walk_no_return, find_loop-Finds}
use memory_profiler.Table.Slotting.{insert_loop-Offers}
use memory_profiler.Table.Holds.{IsLive, Placed, Holds, IsValid, hash_object-lt, walk_empty}
use memory_profiler.Table.Lookup.{Placed-key, object_at-lt}

-- An empty slot stands within reach of every probing loop.
abbrev pub HasRoom : ℕ → ℕ → ℕ → Type 0
HasRoom c live dead = (live + dead < c) × (live + dead < max_probe_length)

module _ ⦃rb : Ruby⦄ {c live dead : ℕ} {es : List Entry} (v : Holds c live dead es)
    (room : HasRoom c live dead) (k : ℕ) (ok : IsLive k) where
  empty_ahead :
      (d : ℕ) × (d < c) × (d < max_probe_length) × (object_at es (walk c (hash_object k c) d) ≡ 0)
  empty_ahead =
      let h = hash_object k c in
      let (d, near, empty) =
        walk_empty es h (omega (arith, v.width, hash_object-lt k c v.positive))
          (omega (arith, v.counted)) in
      (
        d,
        omega (arith, v.counted, v.width),
        omega (arith, v.counted, v.width),
        subst (λ w. object_at es (walk w h d) ≡ 0) v.width empty,
      )

  -- A slot for a new key.
  pub record Fresh (i : ℕ) : Type 0 where
    pub bound : i < c
    pub absent : occurrences k es ≡ 0
    pub free : (object_at es i ≡ 0) ⊎ (object_at es i ≡ tombstone)
    pub reached : Placed es c k i

  apart : (h d m : ℕ) → h < c → d < c → m < d → walk c h (suc m) ≢ h
  apart h d m hl dl lt = walk_no_return c h (suc m) hl (omega arith) (omega arith)

  -- Where the key is absent, `find_entry` stops at an empty slot for it.
  pub find_entry-Fresh : occurrences k es ≡ 0 → Fresh (find_entry es c k).0
  unfolding find_entry
  find_entry-Fresh absent =
      let h = hash_object k c in
      let hl = hash_object-lt k c v.positive in
      let (d, dl, dn, empty) = empty_ahead in
      let (n, le, at, chain, result) =
        find_loop-Finds es c k h ok.0 ok.1 max_probe_length h d dn (λ m. apart h d m hl dl)
          (inl empty) in
      let index = (find_entry es c k).0 in
      elim result [
        | inl (found, e) ↦ absurd (
            omega (
              arith,
              occurrences_pos k es index (omega (arith, v.width, object_at-lt v k ok index e)) e,
            ))
        | inr (missed, e) ↦ record {
          bound = omega (arith, at, walk-lt c h n hl);
          absent = absent;
          free = inl e;
          reached = record {
            rounds = n;
            short = omega arith;
            near = omega arith;
            arrives = at;
            chain = chain;
          };
        }
      ]

  offered : ℕ × Bool
  offered = let h = hash_object k c in insert_loop es c k h size_max max_probe_length h

  small : c < size_max
  small = omega (arith, v.fits)

  offered_present :
      0 < occurrences k es → (offered.1 ≡ true) × (offered.0 < c) × (object_at es offered.0 ≡ k)
  unfolding offered
  offered_present there =
      let h = hash_object k c in
      let hl = hash_object-lt k c v.positive in
      let (j, jl, e, p) = Placed-key v k ok there in
      let (n, le, chain, result) =
        insert_loop-Offers es c k h ok.0 ok.1 small max_probe_length h p.rounds hl p.near
          (λ m. apart h p.rounds m hl p.short) (inr (ap (object_at es) p.arrives ∙ e)) in
      elim result [
        | inl (found, at, key) ↦ (found, object_at-lt v k ok offered.0 key, key)
        | inr (missed, z, _) ↦ elim (dec_lt n p.rounds) [
          | yes q ↦ absurd (p.chain n q z)
          | no q ↦
              let last : n ≡ p.rounds = omega arith in
              absurd
                (ok.0 (sym e ∙ ap (object_at es) (sym p.arrives ∙ ap (walk c h) (sym last)) ∙ z))
        ]
      ]

  offered_absent : occurrences k es ≡ 0 → (offered.1 ≡ false) × Fresh offered.0
  unfolding offered
  offered_absent absent =
      let h = hash_object k c in
      let hl = hash_object-lt k c v.positive in
      let (d, dl, dn, empty) = empty_ahead in
      let (n, le, chain, result) =
        insert_loop-Offers es c k h ok.0 ok.1 small max_probe_length h d hl dn
          (λ m. apart h d m hl dl) (inl empty) in
      elim result [
        | inl (found, at, e) ↦ absurd (
            omega (
              arith,
              occurrences_pos k es offered.0
                  (omega (arith, v.width, object_at-lt v k ok offered.0 e)) e,
            ))
        | inr (missed, z, (m, before, at, free)) ↦ (
          missed,
          record {
            bound = omega (arith, at, walk-lt c h m hl);
            absent = absent;
            free = free;
            reached = record {
              rounds = m;
              short = omega arith;
              near = omega arith;
              arrives = at;
              chain = λ x lt. chain x (omega arith);
            };
          },
        )
      ]

  -- `find_insert_slot` finds a key that occurs, and otherwise offers a slot for it.
  offered_lem :
      ((offered.1 ≡ true) × (offered.0 < c) × (object_at es offered.0 ≡ k))
      ⊎ ((offered.1 ≡ false) × Fresh offered.0)
  offered_lem = elim (dec_lt 0 (occurrences k es)) [
    | yes p ↦ inl (offered_present p)
    | no p ↦ inr (offered_absent (omega arith))
  ]

module _ ⦃rb : Ruby⦄ {t : Table} (v : IsValid t) (room : HasRoom t.capacity t.count t.tombstones)
    (k : ℕ) (ok : IsLive k) where
  -- `find_insert_slot` finds a key that occurs, and otherwise offers a slot for it.
  pub find_insert_slot_lem :
      let r = find_insert_slot t k in
      ((r.1 ≡ true) × (r.0 < t.capacity) × (object_at t.entries r.0 ≡ k))
      ⊎ ((r.1 ≡ false) × Fresh v room k ok r.0)
  unfolding find_insert_slot offered
  find_insert_slot_lem = offered_lem v room k ok
