-- ===== src/Table/Bounds.antt =====
-- table.c: the slots that the probing loops touch lie in the array, whatever the array holds.
use memory_profiler.Base.{
  ℕ, zero, suc, ◌+◌, ◌%◌, ◌<◌, ◌≡◌, ◌⊎◌, inl, inr, refl, not, ◌&&◌, List, ◌==◌, if◌then◌else◌,
  arith, Bool-cases, size_max,
}
use native.Mathlib.Nat.{mod-lt}
use memory_profiler.Ruby.{Ruby}
use memory_profiler.Table.Layout.{Table, Entry, object_at, tombstone, hash_object, max_probe_length}
use memory_profiler.Table.Probing.{find_loop, find_entry, slot_or, insert_loop, find_insert_slot}
use memory_profiler.Table.Holds.{hash_object-lt}

module _ ⦃rb : Ruby⦄ where
  find_loop-lt :
      (entries : List Entry) (capacity object start probes index : ℕ)
      → index < capacity
      → (find_loop entries capacity object start probes index).0 < capacity
  unfolding find_loop
  find_loop-lt entries capacity object start zero index lt = lt
  find_loop-lt entries capacity object start (suc probes) index lt =
      let next = (index + 1) % capacity in
      let rest =
        find_loop-lt entries capacity object start probes next (mod-lt (index + 1) (omega arith)) in
      ground (arith, rest, mod-lt (index + 1) {m = capacity} (omega arith))

  -- A tombstone that was seen, or the mark that none was.
  abbrev IsSlot : ℕ → ℕ → Type 0
  IsSlot capacity first = (first ≡ size_max) ⊎ (first < capacity)

  slot_or-lt :
      (capacity first index : ℕ)
      → IsSlot capacity first
      → index < capacity
      → slot_or first index < capacity
  slot_or-lt capacity first index f lt = ground arith

  insert_loop-lt :
      (entries : List Entry) (capacity object start first probes index : ℕ)
      → IsSlot capacity first
      → index < capacity
      → (insert_loop entries capacity object start first probes index).0 < capacity
  unfolding insert_loop
  insert_loop-lt entries capacity object start first zero index f lt =
      slot_or-lt capacity first index f lt
  insert_loop-lt entries capacity object start first (suc probes) index f lt =
      let next = (index + 1) % capacity in
      let inside : next < capacity = mod-lt (index + 1) (omega arith) in
      let first' =
        if object_at entries index == tombstone && first == size_max then index else first in
      let f' : IsSlot capacity first' = ground arith in
      let rest = insert_loop-lt entries capacity object start first' probes next f' inside in
      elim (Bool-cases (object_at entries index == 0)) [
        | inl empty ↦ rw empty (slot_or-lt capacity first index f lt)
        | inr used ↦
            elim (Bool-cases
              (not (object_at entries index == tombstone) && object_at entries index == object)) [
                | inl found ↦ rw (used, found) lt
                | inr other ↦ elim (Bool-cases (next == start)) [
                  | inl round ↦ rw (used, other, round) (slot_or-lt capacity first' next f' inside)
                  | inr more ↦ rw (used, other, more) rest
                ]
              ]
      ]

  -- For a table with at least one slot, whatever its slots and counts hold and however many of them
  -- are in use: `find_entry` and `find_insert_slot` return an index within the array, also where they
  -- give up at the probe limit, so that the reads and writes through it stay in bounds.
  pub find-lt :
      (t : Table) (object : ℕ)
      → 0 < t.capacity
      → ((find_entry t.entries t.capacity object).0 < t.capacity)
        × ((find_insert_slot t object).0 < t.capacity)
  unfolding find_entry find_insert_slot
  find-lt t object pos =
      let h = hash_object object t.capacity in
      let lt = hash_object-lt object t.capacity pos in
      (
        find_loop-lt t.entries t.capacity object h max_probe_length h lt,
        insert_loop-lt t.entries t.capacity object h size_max max_probe_length h (inl refl) lt,
      )
