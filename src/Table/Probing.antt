-- ===== src/Table/Probing.antt =====
-- table.c: `find_entry` and `find_insert_slot`, linear probing. The messages that they print to
-- stderr are left out.
use memory_profiler.Base.{
  ℕ, zero, suc, ◌+◌, ◌%◌, Bool, true, false, not, ◌&&◌, List, ◌==◌, if◌then◌else◌, size_max,
}
use memory_profiler.Ruby.{Ruby}
use memory_profiler.Table.Layout.{Table, Entry, max_probe_length, hash_object, object_at, tombstone}

module _ ⦃rb : Ruby⦄ where
  -- The loop of `find_entry`, by the number of probes that `MAX_PROBE_LENGTH` still allows.
  unfoldable pub find_loop : List Entry → ℕ → ℕ → ℕ → ℕ → ℕ → ℕ × Bool
  find_loop entries capacity object start zero index = (index, false)
  find_loop entries capacity object start (suc probes) index =
      let next = (index + 1) % capacity in
      let rest = find_loop entries capacity object start probes next in
      if object_at entries index == 0
      then (index, false)
      else if not (object_at entries index == tombstone) && object_at entries index == object
      then (index, true)
      else if next == start
      then (next, false)
      else rest

  unfoldable pub find_entry : List Entry → ℕ → ℕ → ℕ × Bool
  find_entry entries capacity object =
      let index = hash_object object capacity in
      find_loop entries capacity object index max_probe_length index

  -- `(first_tombstone != SIZE_MAX) ? first_tombstone : index`
  abbrev pub slot_or : ℕ → ℕ → ℕ
  slot_or first_tombstone index = if first_tombstone == size_max then index else first_tombstone

  unfoldable pub insert_loop : List Entry → ℕ → ℕ → ℕ → ℕ → ℕ → ℕ → ℕ × Bool
  insert_loop entries capacity object start first_tombstone zero index =
      (slot_or first_tombstone index, false)
  insert_loop entries capacity object start first_tombstone (suc probes) index =
      let next = (index + 1) % capacity in
      let first =
        if object_at entries index == tombstone && first_tombstone == size_max
        then index
        else first_tombstone in
      let rest = insert_loop entries capacity object start first probes next in
      if object_at entries index == 0
      then (slot_or first_tombstone index, false)
      else if not (object_at entries index == tombstone) && object_at entries index == object
      then (index, true)
      else if next == start
      then (slot_or first next, false)
      else rest

  unfoldable pub find_insert_slot : Table → ℕ → ℕ × Bool
  find_insert_slot table object =
      let index = hash_object object table.capacity in
      insert_loop table.entries table.capacity object index size_max max_probe_length index
