-- ===== src/Table/Tests.antt =====
-- The object table at concrete inputs: a table of eight slots that two objects enter and one leaves.
use mathlib.Core.Option
use memory_profiler.Base.{
  ℕ, ◌+◌, ◌*◌, ◌^◌, ◌<◌, ◌≡◌, refl, ◌≢◌, ◌⊎◌, Bool, true, false, List, [], ◌∷◌, none, some, arith,
  ltb, ltb→lt, mul_size,
}
use memory_profiler.Ruby.{Ruby}
use memory_profiler.Table.Layout.{
  Entry, Table, new, entry_size, hash_object, mix_object, zeroed, max_probe_length,
}
use memory_profiler.Table.Probing.{find_entry, find_loop, find_insert_slot, insert_loop}
use memory_profiler.Table.Operations.{
  lookup, insert, delete, delete_entry, resize_table, insert_at, place, rehash,
}
use memory_profiler.Table.Gc.{mark, compact}
use memory_profiler.Table.Slots.{scan}
use memory_profiler.Table.Holds.{IsLive, IsValid}
use memory_profiler.Table.Lookup.{lookup-eq-scan, entry_at}
use memory_profiler.Table.Delete.{Removes, delete-Removes}
use memory_profiler.Table.Rebuild.{Reads}
use memory_profiler.Table.Resize.{RefusesOverflow, resize_table-Reads}
use memory_profiler.Table.Insert.{Inserts, insert-Inserts}
use memory_profiler.Table.Compact.{compact-Compacts}
use memory_profiler.Table.Relocate.{Relocates, Compacts}
use memory_profiler.Table.Bounds.{find-lt}
use memory_profiler.Table.Load.{Loads, insert-Loads}
use memory_profiler.Table.New.{new-IsValid}

instance abbrev cruby : Ruby
cruby = record { q_nil = 4; q_nil_ne_zero = omega arith }

abbrev generous : ℕ → ℕ → Bool
generous n bytes = ltb (n * bytes) (2 ^ 64)

generous-RefusesOverflow : RefusesOverflow generous
generous-RefusesOverflow n bytes h = ltb→lt _ _ h

live : (q : ℕ) → q ≢ 0 → q ≢ 4 → IsLive q
live q a b = (a, b)

program : Unit {0}
unfolding new hash_object mix_object find_entry find_loop find_insert_slot insert_loop lookup insert
    delete delete_entry resize_table insert_at place rehash mark compact scan
program = tt

abbrev table_0 : Table
table_0 = record {
  capacity = 8;
  count = 0;
  tombstones = 0;
  entries = zeroed ∷ zeroed ∷ zeroed ∷ zeroed ∷ zeroed ∷ zeroed ∷ zeroed ∷ zeroed ∷ [];
}

new_eight : new true generous 8 ≡ some table_0
unfolding program
new_eight = refl

table_0-IsValid : IsValid table_0
table_0-IsValid = (new-IsValid true generous 8 table_0 generous-RefusesOverflow new_eight).0

insert-Inserts_example :
    Inserts (λ q. scan q table_0.entries) 0 0x1000 (insert generous table_0 0x1000)
insert-Inserts_example =
    insert-Inserts table_0-IsValid 0x1000 (live 0x1000 (omega arith) (omega arith)) generous
      generous-RefusesOverflow (λ h. refl) (omega arith)

abbrev table_1 : Table
table_1 = (insert generous table_0 0x1000).0

runs_insert : (table_1.count ≡ 1) × (table_1.capacity ≡ 8) × (table_1.tombstones ≡ 0)
unfolding program
runs_insert = (refl, refl, refl)

table_1-granted : generous (mul_size table_1.capacity 2) entry_size ≡ true
unfolding program
table_1-granted = refl

table_1-few : table_1.count + table_1.tombstones < max_probe_length
table_1-few = omega (arith, runs_insert)

two_objects-Inserts :
    Inserts (λ q. scan q table_1.entries) table_1.count 0x2000 (insert generous table_1 0x2000)
two_objects-Inserts =
    insert-Inserts insert-Inserts_example.valid 0x2000 (live 0x2000 (omega arith) (omega arith))
      generous generous-RefusesOverflow (λ h. table_1-granted) table_1-few

abbrev table_2 : Table
table_2 = (insert generous table_1 0x2000).0

runs_two :
    (table_2.count ≡ 2)
    × (table_2.capacity ≡ 8)
    × (table_2.tombstones ≡ 0)
    × (Option.map (entry_at table_2) (lookup table_2 0x1000)
        ≡ some (record { object = 0x1000; klass = 0; data_value = 0 }))
    × (lookup (delete table_2 0x1000) 0x1000 ≡ none)
    × ((delete table_2 0x1000).tombstones ≡ 1)
unfolding program
runs_two = (refl, refl, refl, refl, refl, refl)

lookup-eq-scan_example :
    Option.map (entry_at table_2) (lookup table_2 0x1000) ≡ scan 0x1000 table_2.entries
lookup-eq-scan_example =
    lookup-eq-scan two_objects-Inserts.valid 0x1000 (live 0x1000 (omega arith) (omega arith))

delete-Removes_example :
    ((scan 0x1000 table_2.entries ≡ none) × (delete table_2 0x1000 ≡ table_2))
    ⊎ Removes two_objects-Inserts.valid 0x1000 1 (delete table_2 0x1000)
delete-Removes_example =
    delete-Removes two_objects-Inserts.valid 0x1000 (live 0x1000 (omega arith) (omega arith))

table_2-granted : generous (mul_size table_2.capacity 2) entry_size ≡ true
unfolding program
table_2-granted = refl

resize_table-Reads_example :
    Reads
      (table_2.capacity * 2)
      table_2.count
      (λ q. scan q table_2.entries)
      (resize_table generous table_2)
resize_table-Reads_example =
    resize_table-Reads two_objects-Inserts.valid generous generous-RefusesOverflow table_2-granted
      (omega (arith, runs_two.0))

abbrev exhausted : ℕ → ℕ → Bool
exhausted n bytes = false

-- A collection that moves every object by 2 ^ 20 bytes.
abbrev shifted : ℕ → ℕ
shifted address = address + 0x10_0000

shifted-Relocates : Relocates shifted table_2.entries
shifted-Relocates = record {
  live = λ q k. (omega arith, omega arith);
  apart = λ a b ka kb e. omega arith;
}

compact-Compacts_example :
    (r : Table) × (compact shifted (λ bytes. true) table_2 ≡ some r)
    × Compacts two_objects-Inserts.valid shifted shifted-Relocates r
compact-Compacts_example =
    compact-Compacts two_objects-Inserts.valid shifted shifted-Relocates (λ bytes. true) refl
      (omega (arith, runs_two.0, runs_two.1)) (omega (arith, runs_two.0))

abbrev marked_entries : List Entry
marked_entries = record { object = 0x1000; klass = 0x88; data_value = 4 } ∷ zeroed ∷ []

find-lt_example :
    ((find_entry table_2.entries table_2.capacity 0x3000).0 < table_2.capacity)
    × ((find_insert_slot table_2 0x3000).0 < table_2.capacity)
find-lt_example = find-lt table_2 0x3000 two_objects-Inserts.valid.positive

insert-Loads_example :
    Loads insert-Inserts_example.valid 0x2000
      (live 0x2000 (omega arith) (omega arith))
      generous
      generous-RefusesOverflow
      (λ h. table_1-granted)
      table_1-few
      (insert generous table_1 0x2000).0
insert-Loads_example =
    insert-Loads insert-Inserts_example.valid 0x2000 (live 0x2000 (omega arith) (omega arith))
      generous generous-RefusesOverflow (λ h. table_1-granted) table_1-few
