-- ===== src/Table/Lookup.antt =====
-- Lookup by probing against lookup by linear scan.
use mathlib.Core.Option
use memory_profiler.Base.{
  ℕ, suc, ◌<◌, ◌≡◌, sym, ap, ◌∙◌, ◌⊎◌, inl, inr, true, false, List, none, some, arith, length,
  get_or, get_or_outside, subst, Bool-cases,
}
use native.Mathlib.Decide.{dec_lt}
use memory_profiler.Ruby.{Ruby}
use memory_profiler.Table.Layout.{Entry, Table, max_probe_length, zeroed, hash_object, object_at}
use memory_profiler.Table.Probing.{find_entry}
use memory_profiler.Table.Operations.{lookup}
use memory_profiler.Table.Slots.{occurrences, scan, occurrences_pos, index_of, scan-none, scan-at}
use memory_profiler.Table.Walk.{walk, walk_no_return, find_loop-Finds, find_loop_sound}
use memory_profiler.Table.Holds.{IsLive, Placed, Holds, IsValid, hash_object-lt}

module _ ⦃rb : Ruby⦄ {c live dead : ℕ} {es : List Entry} (v : Holds c live dead es) (k : ℕ)
    (ok : IsLive k) where
  pub object_at-lt : (i : ℕ) → object_at es i ≡ k → i < c
  object_at-lt i e = elim (dec_lt i (length es)) [
    | yes p ↦ omega (arith, v.width)
    | no p ↦ absurd (ok.0 (sym e ∙ ap (λ (x : Entry). x.object) (get_or_outside es i zeroed p)))
  ]

  -- Where a key occurs, its slot is within reach of the loops.
  pub Placed-key : 0 < occurrences k es → (j : ℕ) × (j < c) × (object_at es j ≡ k) × Placed es c k j
  Placed-key some_slot =
      let (j, lt, e) = index_of k es some_slot in
      let jl : j < c = omega (arith, v.width) in
      (j, jl, e, subst (λ q. Placed es c q j) e (v.placed j jl (subst IsLive (sym e) ok)))

  present :
      (j : ℕ)
      → object_at es j ≡ k
      → Placed es c k j
      → ((find_entry es c k).1 ≡ true) × (object_at es (find_entry es c k).0 ≡ k)
  unfolding find_entry
  present j e p =
      let h = hash_object k c in
      let hl = hash_object-lt k c v.positive in
      let (n, le, at, chain, result) =
        find_loop-Finds es c k h ok.0 ok.1 max_probe_length h p.rounds p.near
          (λ m lt. walk_no_return c h (suc m) hl (omega arith) (omega (arith, p.short)))
          (inr (ap (object_at es) p.arrives ∙ e)) in
      elim result [
        | inl hit ↦ hit
        | inr (missed, z) ↦ elim (dec_lt n p.rounds) [
          | yes q ↦ absurd (p.chain n q (ap (object_at es) at ∙ z))
          | no q ↦
              let last : n ≡ p.rounds = omega arith in
              absurd (
                ok.0
                  (sym e ∙ ap (object_at es) (sym p.arrives ∙ ap (walk c h) (sym last) ∙ at) ∙ z))
        ]
      ]

  find_entry_sound : (find_entry es c k).1 ≡ true → object_at es (find_entry es c k).0 ≡ k
  unfolding find_entry
  find_entry_sound = find_loop_sound es c k (hash_object k c) ok.0 ok.1 max_probe_length _

  -- `find_entry` finds a key exactly if it occurs, and where it occurs.
  pub find_entry_lem :
      let r = find_entry es c k in
      ((r.1 ≡ true) × (r.0 < c) × (object_at es r.0 ≡ k)) ⊎ ((r.1 ≡ false) × (occurrences k es ≡ 0))
  find_entry_lem = elim (dec_lt 0 (occurrences k es)) [
    | yes p ↦
        let (j, jl, e, placed) = Placed-key p in
        let (found, at) = present j e placed in inl (found, object_at-lt _ at, at)
    | no p ↦ elim (Bool-cases (find_entry es c k).1) [
      | inr missed ↦ inr (missed, omega arith)
      | inl found ↦
          let at = find_entry_sound found in
          let lt = object_at-lt _ at in
          absurd (p (occurrences_pos k es _ (omega (arith, v.width, lt)) at))
    ]
  ]

-- What a pointer to an entry reads.
abbrev pub entry_at : Table → ℕ → Entry
entry_at t index = get_or t.entries index zeroed

module _ ⦃rb : Ruby⦄ {t : Table} (v : IsValid t) (k : ℕ) (ok : IsLive k) where
  -- On a well-formed table and for a live key, `lookup` reads what a linear scan of the whole array
  -- reads, present or absent.
  pub lookup-eq-scan : Option.map (entry_at t) (lookup t k) ≡ scan k t.entries
  unfolding lookup
  lookup-eq-scan = elim (find_entry_lem v k ok) [
    | inl (found, lt, at) ↦
        rw found (sym (scan-at k t.entries _ (v.once k ok) (omega (arith, v.width, lt)) at))
    | inr (missed, absent) ↦ rw missed (sym (scan-none k t.entries absent))
  ]

  -- A pointer that `lookup` returns is within the array and stands at the key.
  pub lookup_sound : (i : ℕ) → lookup t k ≡ some i → (i < t.capacity) × (object_at t.entries i ≡ k)
  unfolding lookup
  lookup_sound i e = ground (arith, find_entry_lem v k ok)

  pub lookup_cases :
      ((i : ℕ) × (lookup t k ≡ some i)
        × (i < t.capacity)
        × (object_at t.entries i ≡ k)
        × (scan k t.entries ≡ some (entry_at t i)))
      ⊎ ((lookup t k ≡ none) × (scan k t.entries ≡ none) × (occurrences k t.entries ≡ 0))
  unfolding lookup
  lookup_cases = elim (find_entry_lem v k ok) [
    | inl (found, lt, at) ↦
        inl
          (_, rw found, lt, at, scan-at k t.entries _ (v.once k ok) (omega (arith, v.width, lt)) at)
    | inr (missed, absent) ↦ inr (rw missed, scan-none k t.entries absent, absent)
  ]
