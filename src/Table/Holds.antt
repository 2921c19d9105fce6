-- ===== src/Table/Holds.antt =====
-- The representation invariant of the object table, and the two writes that keep it.
use memory_profiler.Base.{
  ℕ, ◌+◌, ◌-◌, ◌*◌, ◌^◌, ◌≤◌, ◌<◌, ◌≡◌, refl, sym, ap, ◌∙◌, ◌≢◌, ◌⊎◌, List, arith, ◌==◌,
  if◌then◌else◌, length, set, take, drop, subst, get_or-set_self, get_or-set_ne, get_or-drop,
  get_or-take, length-set, length-take, length-drop, take-append-drop,
}
use native.Mathlib.Decide.{ℕ_discrete, dec_lt}
use native.Mathlib.Nat.{mod-lt, mod-eq_of_lt, mod-eq-sub-mod}
use memory_profiler.Ruby.{Ruby}
use memory_profiler.Table.Layout.{
  Entry, Table, max_probe_length, entry_size, zeroed, hash_object, object_at, tombstone,
}
use memory_profiler.Table.Slots.{
  occurrences, occurrences-set, occurrences-append, occurrences_pos, occurrences_disjoint,
  occurrences-le-length, first_empty,
}
use memory_profiler.Table.Walk.{walk, walk-eq-mod, Chain}

pub hash_object-lt : (k c : ℕ) → 0 < c → hash_object k c < c
unfolding hash_object
hash_object-lt k c h = mod-lt _ h

-- A walk over slots in use stays one when a slot is overwritten by another slot in use.
pub Chain-set :
    (es : List Entry) (c h n i : ℕ) (e : Entry)
    → i < length es
    → e.object ≢ 0
    → Chain es c h n
    → Chain (set es i e) c h n
Chain-set es c h n i e lt nz chain m ml z = elim (ℕ_discrete i (walk c h m)) [
  | yes p ↦ nz (
      sym (ap (λ (x : Entry). x.object) (get_or-set_self es i e zeroed lt))
      ∙ ap (object_at (set es i e)) p
      ∙ z)
  | no p ↦
      chain m ml
        (ap (λ (x : Entry). x.object) (sym (get_or-set_ne es i (walk c h m) e zeroed p)) ∙ z)
]

-- The walk from `h` meets an empty slot, after at most as many slots as are in use.
pub walk_empty :
    (es : List Entry) (h : ℕ)
    → h < length es
    → 0 < occurrences 0 es
    → (d : ℕ) × (d + occurrences 0 es ≤ length es) × (object_at es (walk (length es) h d) ≡ 0)
walk_empty es h lt some_empty =
    let front = take h es in
    let back = drop h es in
    let split : occurrences 0 front + occurrences 0 back ≡ occurrences 0 es =
      sym (occurrences-append 0 front back) ∙ ap (occurrences 0) (take-append-drop h es) in
    elim (dec_lt 0 (occurrences 0 back)) [
      | yes p ↦
          let (i, near, empty) = first_empty back p in
          let at : walk (length es) h i ≡ h + i =
            walk-eq-mod (length es) h i lt
            ∙ mod-eq_of_lt (omega (arith, length-drop {0} h es (omega arith))) in
          (
            i,
            omega (
              arith,
              occurrences-le-length 0 front,
              length-take {0} h es (omega arith),
              length-drop {0} h es (omega arith),
            ),
            ap (object_at es) at
                ∙ ap (λ (x : Entry). x.object) (sym (get_or-drop h i es zeroed))
                ∙ empty,
          )
      | no p ↦
          let (i, near, empty) = first_empty front (omega arith) in
          let width = length-take {0} h es (omega arith) in
          let d : ℕ = length es - h + i in
          let at : walk (length es) h d ≡ i =
            walk-eq-mod (length es) h d lt
            ∙ mod-eq-sub-mod {n = h + d} {m = length es} (omega arith)
            ∙ mod-eq_of_lt (omega arith)
            ∙ omega arith in
          (
            d,
            omega arith,
            ap (object_at es) at
                ∙ ap (λ (x : Entry). x.object) (sym (get_or-take h i es zeroed (omega arith)))
                ∙ empty,
          )
    ]

module _ ⦃rb : Ruby⦄ where
  -- The words that can be keys: neither the mark of an empty slot nor that of a deleted one.
  abbrev pub IsLive : ℕ → Type 0
  IsLive k = (k ≢ 0) × (k ≢ tombstone)

  -- The probing loops reach slot `j` from the hash of `k` before they give up.
  pub record Placed (es : List Entry) (c k j : ℕ) : Type 0 where
    pub rounds : ℕ
    pub short : rounds < c
    pub near : rounds < max_probe_length
    pub arrives : walk c (hash_object k c) rounds ≡ j
    pub chain : Chain es c (hash_object k c) rounds

  -- An array of `c` slots with `live` keys and `dead` tombstones.
  pub record Holds (c live dead : ℕ) (es : List Entry) : Type 0 where
    pub width : length es ≡ c
    pub positive : 0 < c
    pub fits : c * entry_size < 2 ^ 64
    pub counted : live + dead + occurrences 0 es ≡ c
    pub buried : occurrences tombstone es ≡ dead
    pub once : (q : ℕ) → IsLive q → occurrences q es ≤ 1
    pub placed : (j : ℕ) → j < c → IsLive (object_at es j) → Placed es c (object_at es j) j

  abbrev pub IsValid : Table → Type 0
  IsValid t = Holds t.capacity t.count t.tombstones t.entries

  Placed-set :
      (es : List Entry) (c k i j : ℕ) (e : Entry)
      → i < length es
      → e.object ≢ 0
      → Placed es c k j
      → Placed (set es i e) c k j
  Placed-set es c k i j e lt nz p = record {
    rounds = p.rounds;
    short = p.short;
    near = p.near;
    arrives = p.arrives;
    chain = Chain-set es c (hash_object k c) p.rounds i e lt nz p.chain;
  }

  module _ {c live dead : ℕ} {es : List Entry} (v : Holds c live dead es) (i : ℕ) (lt : i < c) where
    in_range : i < length es
    in_range = omega (arith, v.width)

    -- A write of a slot in use keeps every key within reach, the new one included.
    set-Placed :
        (e : Entry)
        → e.object ≢ 0
        → (IsLive e.object → Placed es c e.object i)
        → (j : ℕ) → j < c
        → IsLive (object_at (set es i e) j)
        → Placed (set es i e) c (object_at (set es i e) j) j
    set-Placed e nz new j jl live = elim (ℕ_discrete i j) [
      | yes p ↦
          let same : object_at (set es i e) j ≡ e.object =
            ap (object_at (set es i e)) (sym p)
            ∙ ap (λ (x : Entry). x.object) (get_or-set_self es i e zeroed in_range) in
          subst (λ k. Placed (set es i e) c k j) (sym same)
            (subst (Placed (set es i e) c e.object) p
              (Placed-set es c e.object i i e in_range nz (new (subst IsLive same live))))
      | no p ↦
          let same : object_at (set es i e) j ≡ object_at es j =
            ap (λ (x : Entry). x.object) (get_or-set_ne es i j e zeroed p) in
          subst (λ k. Placed (set es i e) c k j) (sym same)
            (Placed-set es c (object_at es j) i j e in_range nz
              (v.placed j jl (subst IsLive same live)))
    ]

    -- Storing a new key in an empty slot or over a tombstone.
    pub store-Holds :
        (e : Entry)
        → IsLive e.object
        → occurrences e.object es ≡ 0
        → (object_at es i ≡ 0) ⊎ (object_at es i ≡ tombstone)
        → Placed es c e.object i
        → Holds c (live + 1) (if object_at es i == tombstone then dead - 1 else dead) (set es i e)
    store-Holds e ok fresh free new = record {
      width = length-set es i e ∙ v.width;
      positive = v.positive;
      fits = v.fits;
      counted = ground (
        arith,
        rb.q_nil_ne_zero,
        v.counted,
        v.buried,
        occurrences-set 0 es i e in_range,
        occurrences_pos tombstone es i in_range,
      );
      buried =
          ground (arith, rb.q_nil_ne_zero, v.buried, occurrences-set tombstone es i e in_range);
      once = λ q ql. ground (arith, ql.1, occurrences-set q es i e in_range, v.once q ql);
      placed = set-Placed e ok.0 (λ _. new);
    }

    pub live_pos : IsLive (object_at es i) → 0 < live
    live_pos ok = omega (
      arith,
      v.width,
      v.counted,
      v.buried,
      occurrences_pos (object_at es i) es i in_range refl,
      occurrences_disjoint (object_at es i) 0 tombstone es ok.0 (λ z. rb.q_nil_ne_zero (sym z))
          ok.1,
    )

    -- Overwriting an entry by another of the same key.
    pub keep-Holds :
        (e : Entry)
        → IsLive (object_at es i)
        → e.object ≡ object_at es i
        → Holds c live dead (set es i e)
    keep-Holds e ok same = record {
      width = length-set es i e ∙ v.width;
      positive = v.positive;
      fits = v.fits;
      counted = ground (arith, v.counted, occurrences-set 0 es i e in_range);
      buried = ground (arith, occurrences-set tombstone es i e in_range, v.buried);
      once = λ q ql. ground (arith, occurrences-set q es i e in_range, v.once q ql);
      placed =
          set-Placed e (λ z. ok.0 (sym same ∙ z))
            (λ _. subst (λ k. Placed es c k i) (sym same) (v.placed i lt ok));
    }

    -- Overwriting a key by a tombstone.
    pub bury-Holds :
        (e : Entry)
        → IsLive (object_at es i)
        → e.object ≡ tombstone
        → Holds c (live - 1) (dead + 1) (set es i e)
    bury-Holds e ok gone = record {
      width = length-set es i e ∙ v.width;
      positive = v.positive;
      fits = v.fits;
      counted =
          ground
            (arith, rb.q_nil_ne_zero, live_pos ok, v.counted, occurrences-set 0 es i e in_range);
      buried = ground (arith, occurrences-set tombstone es i e in_range, v.buried);
      once = λ q ql. ground (arith, ql.1, occurrences-set q es i e in_range, v.once q ql);
      placed = set-Placed e (λ z. rb.q_nil_ne_zero (sym gone ∙ z)) (λ l. absurd (l.1 gone));
    }
