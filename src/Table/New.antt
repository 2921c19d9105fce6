-- ===== src/Table/New.antt =====
-- Creation of a table, and marking.
use memory_profiler.Base.{
  ℕ, ◌<◌, ◌≡◌, refl, ◌≢◌, Bool, true, none, some, arith, ltb, replicate, zero, suc, ◌↔◌,
  if◌then◌else◌, subst, length, List, [], ◌∷◌, ◌⊎◌, inl, inr, get_or,
}
use memory_profiler.Base.Marked.{Among, Among-append_left, Among-append_right, Among-append}
use memory_profiler.Ruby.{Ruby}
use memory_profiler.Table.Layout.{Entry, Table, new, entry_size, initial_capacity_default, zeroed}
use memory_profiler.Table.Gc.{mark, mark_entry}
use memory_profiler.Table.Slots.{scan}
use memory_profiler.Table.Holds.{IsLive, IsValid}
use memory_profiler.Table.Rebuild.{cleared-Reads}
use memory_profiler.Table.Resize.{RefusesOverflow}

module _ ⦃rb : Ruby⦄ where
  pub new_granted :
      (malloc_grants : Bool) (calloc : ℕ → ℕ → Bool) (initial_capacity : ℕ) (t : Table)
      → let c = if ltb 0 initial_capacity then initial_capacity else initial_capacity_default in
        new malloc_grants calloc initial_capacity ≡ some t
        → (malloc_grants ≡ true)
          × (calloc c entry_size ≡ true)
          × (record { capacity = c; count = 0; tombstones = 0; entries = replicate c zeroed } ≡ t)
  unfolding new
  new_granted malloc_grants calloc initial_capacity t e = ground arith

  -- Where `calloc` refuses sizes that overflow: a table that `new` returns is well formed and empty,
  -- and has the capacity that was asked for, or the default for 0.
  pub new-IsValid :
      (malloc_grants : Bool) (calloc : ℕ → ℕ → Bool) (initial_capacity : ℕ) (t : Table)
      → RefusesOverflow calloc
      → new malloc_grants calloc initial_capacity ≡ some t
      → IsValid t
        × (t.capacity
            ≡ (if ltb 0 initial_capacity then initial_capacity else initial_capacity_default))
        × (t.count ≡ 0)
        × ((q : ℕ) → IsLive q → scan q t.entries ≡ none)
  new-IsValid malloc_grants calloc initial_capacity t refuses e =
      let c : ℕ = if ltb 0 initial_capacity then initial_capacity else initial_capacity_default in
      let pos : 0 < c = ground arith in
      let (yes_malloc, yes_calloc, same) = new_granted malloc_grants calloc initial_capacity t e in
      let r = cleared-Reads c pos (refuses c entry_size yes_calloc) in
      subst
        (λ u.
          IsValid u
          × (u.capacity ≡ c)
          × (u.count ≡ 0)
          × ((q : ℕ) → IsLive q → scan q u.entries ≡ none))
        same (r.holds, refl, refl, r.reads)

  -- The words that the entry of a key keeps alive.
  abbrev pub Owns : Entry → ℕ → Type 0
  Owns e v = IsLive e.object × (v ≢ 0) × ((v ≡ e.klass) ⊎ (v ≡ e.data_value))

  mark_entry_owned : (e : Entry) (v : ℕ) → Owns e v → Among v (mark_entry e)
  mark_entry_owned e v (live, nz, inl k) = ground arith
  mark_entry_owned e v (live, nz, inr d) = ground arith

  mark_entry_only : (e : Entry) (v : ℕ) → Among v (mark_entry e) → Owns e v
  mark_entry_only e v h = ground arith

  -- `mark` marks the class and the data of every key's entry.
  mark_owned :
      (es : List Entry) (i v : ℕ) → i < length es → Owns (get_or es i zeroed) v → Among v (mark es)
  unfolding mark
  mark_owned [] i v lt h = elim lt [ ]
  mark_owned (e ∷ es) zero v lt h =
      Among-append_left v (mark_entry e) (mark es) (mark_entry_owned e v h)
  mark_owned (e ∷ es) (suc i) v lt h =
      Among-append_right v (mark_entry e) (mark es) (mark_owned es i v (omega arith) h)

  -- `mark` marks nothing else.
  mark_only :
      (es : List Entry) (v : ℕ)
      → Among v (mark es)
      → (i : ℕ) × (i < length es) × Owns (get_or es i zeroed) v
  unfolding mark
  mark_only [] v h = elim h [ ]
  mark_only (e ∷ es) v h = elim (Among-append v (mark_entry e) (mark es) h) [
    | inl a ↦ (0, omega arith, mark_entry_only e v a)
    | inr b ↦ let (i, lt, o) = mark_only es v b in (suc i, omega arith, o)
  ]

  -- Exactly the classes and the data of the keys' entries are marked: the keys themselves are weak.
  pub mark_iff :
      (es : List Entry) (v : ℕ)
      → Among v (mark es) ↔ ((i : ℕ) × (i < length es) × Owns (get_or es i zeroed) v)
  mark_iff es v = (mark_only es v, λ (i, lt, o). mark_owned es i v lt o)
