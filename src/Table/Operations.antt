-- ===== src/Table/Operations.antt =====
-- table.c: resizing, insertion, lookup and deletion. A pointer to an entry is its index.
use memory_profiler.Base.{
  ℕ, ◌*◌, Bool, not, ◌||◌, List, [], ◌∷◌, Option, none, some, ltb, leb, ◌==◌, if◌then◌else◌, get_or,
  set, replicate, add_size, dec_size, mul_size,
}
use memory_profiler.Ruby.{Ruby}
use memory_profiler.Table.Layout.{
  Entry, Table, entry_size, zeroed, object_at, tombstone, is_occupied,
}
use memory_profiler.Table.Probing.{find_entry, find_insert_slot}

module _ ⦃rb : Ruby⦄ where
  -- One round of the rehashing loops of `resize_table` and `compact`.
  unfoldable pub place : Table → Entry → Table
  place table entry =
      let index = (find_entry table.entries table.capacity entry.object).0 in
      record table { entries = set table.entries index entry; count = add_size table.count 1 }

  -- The loop that puts the entries of `temp_entries` back in `compact`.
  unfoldable pub place_all : List Entry → Table → Table
  place_all [] table = table
  place_all (entry ∷ rest) table = place_all rest (place table entry)

  -- The loop of `resize_table` over the old array.
  unfoldable pub rehash : List Entry → Table → Table
  rehash [] table = table
  rehash (entry ∷ rest) table =
      rehash rest (if is_occupied entry.object then place table entry else table)

  -- Where `calloc` fails the capacity and the entries are restored, and the two counts are not.
  unfoldable pub resize_table : (ℕ → ℕ → Bool) → Table → Table
  resize_table calloc table =
      let capacity = mul_size table.capacity 2 in
      if not (calloc capacity entry_size)
      then record table { count = 0; tombstones = 0 }
      else rehash table.entries (record {
        capacity = capacity;
        count = 0;
        tombstones = 0;
        entries = replicate capacity zeroed;
      })

  -- `(double)(count + tombstones) / capacity > 0.50`, which is exact below 2 ^ 53.
  abbrev pub overloaded : Table → Bool
  overloaded table = ltb table.capacity (2 * add_size table.count table.tombstones)

  -- The second half of `insert`: the table, and the index of the entry that the caller fills.
  unfoldable pub insert_at : Table → ℕ → ℕ × Bool → Table × ℕ
  insert_at table object (index, found) =
      if found
      then (
        record table {
          entries =
              set table.entries index
                (record (get_or table.entries index zeroed) { object = object });
        },
        index,
      )
      else (
        record table {
          tombstones =
              if object_at table.entries index == tombstone
              then dec_size table.tombstones
              else table.tombstones;
          count = add_size table.count 1;
          entries = set table.entries index (record { object = object; klass = 0; data_value = 0 });
        },
        index,
      )

  unfoldable pub insert : (ℕ → ℕ → Bool) → Table → ℕ → Table × ℕ
  insert calloc table object =
      let ready = if overloaded table then resize_table calloc table else table in
      insert_at ready object (find_insert_slot ready object)

  -- A pointer to the entry, or NULL.
  unfoldable pub lookup : Table → ℕ → Option ℕ
  lookup table object =
      let (index, found) = find_entry table.entries table.capacity object in
      if found then some index else none

  abbrev pub bury : Table → ℕ → Table
  bury table index = record table {
    entries = set table.entries index (record { object = tombstone; klass = 0; data_value = 0 });
    count = dec_size table.count;
    tombstones = add_size table.tombstones 1;
  }

  unfoldable pub delete : Table → ℕ → Table
  delete table object =
      let (index, found) = find_entry table.entries table.capacity object in
      if found then bury table index else table

  unfoldable pub delete_entry : Table → ℕ → Table
  delete_entry table index =
      if leb table.capacity index
      then table
      else if object_at table.entries index == 0 || object_at table.entries index == tombstone
      then table
      else bury table index

  unfoldable pub size : Table → ℕ
  size table = table.count
