-- ===== src/Table/Gc.antt =====
-- table.c: marking, and the update after a compaction of the heap.
use memory_profiler.Base.{
  ℕ, zero, suc, Bool, true, false, not, ◌&&◌, ◌||◌, List, [], ◌∷◌, ◌++◌, Option, none, some, ◌==◌,
  if◌then◌else◌, replicate, mul_size,
}
use mathlib.Core.Option
use memory_profiler.Ruby.{Ruby}
use memory_profiler.Table.Layout.{Entry, Table, entry_size, zeroed, is_occupied}
use memory_profiler.Table.Operations.{place_all}

module _ ⦃rb : Ruby⦄ where
  -- The values that one entry passes to `rb_gc_mark_movable`, in order.
  abbrev pub mark_entry : Entry → List ℕ
  mark_entry entry =
      if is_occupied entry.object
      then (if entry.klass == 0 then [] else entry.klass ∷ [])
        ++ (if entry.data_value == 0 then [] else entry.data_value ∷ [])
      else []

  unfoldable pub mark : List Entry → List ℕ
  mark [] = []
  mark (entry ∷ rest) = mark_entry entry ++ mark rest

  module _ (location : ℕ → ℕ) where
    -- The first pass of `compact`; `location` is `rb_gc_location`.
    unfoldable pub any_moved : List Entry → Bool
    any_moved [] = false
    any_moved (entry ∷ rest) =
        (is_occupied entry.object && not (location entry.object == entry.object)) || any_moved rest

    abbrev pub move_fields : Entry → Entry
    move_fields entry = record entry {
      klass = location entry.klass;
      data_value = location entry.data_value;
    }

    unfoldable pub update_values : List Entry → List Entry
    update_values [] = []
    update_values (entry ∷ rest) =
        (if is_occupied entry.object then move_fields entry else entry) ∷ update_values rest

    -- The loop that fills `temp_entries`, an array with `room` slots left. A write behind its end
    -- is undefined behaviour, which is `none`.
    unfoldable pub collect : ℕ → List Entry → Option (List Entry)
    collect room [] = some []
    collect room (entry ∷ rest) = elim (is_occupied entry.object) [
      | false ↦ collect room rest
      | true ↦ elim room [
        | zero ↦ none
        | suc left ↦
            Option.map (λ es. record (move_fields entry) { object = location entry.object } ∷ es)
              (collect left rest)
      ]
    ]

    unfoldable pub compact : (ℕ → Bool) → Table → Option Table
    compact malloc table =
        if table.count == 0
        then some table
        else if not (any_moved table.entries)
        then some (record table { entries = update_values table.entries })
        else if not (malloc (mul_size table.count entry_size))
        then some table
        else Option.map
            (λ temp_entries. place_all temp_entries (record table {
              entries = replicate table.capacity zeroed;
              count = 0;
              tombstones = 0;
            }))
            (collect table.count table.entries)
