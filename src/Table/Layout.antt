-- ===== src/Table/Layout.antt =====
-- ext/memory/profiler/table.h and the top of table.c: entries, the table, creation and hashing.
use memory_profiler.Base.{
  ℕ, ◌/◌, ◌%◌, ◌^◌, bit_xor, Bool, not, ◌&&◌, List, Option, none, some, ltb, ◌==◌, if◌then◌else◌,
  get_or, replicate, mul_size,
}
use memory_profiler.Ruby.{Ruby}

-- `struct Memory_Profiler_Object_Table_Entry`, 24 bytes.
pub record Entry : Type 0 where
  pub object : ℕ
  pub klass : ℕ
  pub data_value : ℕ

pub record Table : Type 0 where
  pub capacity : ℕ
  pub count : ℕ
  pub tombstones : ℕ
  pub entries : List Entry

abbrev pub max_probe_length : ℕ
max_probe_length = 10000

abbrev pub initial_capacity_default : ℕ
initial_capacity_default = 1024

abbrev pub entry_size : ℕ
entry_size = 24

-- A slot that `calloc` or `memset` has zeroed.
abbrev pub zeroed : Entry
zeroed = record { object = 0; klass = 0; data_value = 0 }

-- `malloc_grants` and `calloc n size`: whether the C allocator grants the request.
unfoldable pub new : Bool → (ℕ → ℕ → Bool) → ℕ → Option Table
new malloc_grants calloc initial_capacity =
    let capacity = if ltb 0 initial_capacity then initial_capacity else initial_capacity_default in
    if not malloc_grants
    then none
    else if not (calloc capacity entry_size)
    then none
    else some (record {
      capacity = capacity;
      count = 0;
      tombstones = 0;
      entries = replicate capacity zeroed;
    })

abbrev shift_mix : ℕ → ℕ → ℕ
shift_mix hash bits = bit_xor hash (hash / 2 ^ bits)

-- The words that `hash_object` computes before it reduces by the capacity.
unfoldable pub mix_object : ℕ → ℕ
mix_object object =
    let h1 = mul_size (object / 2 ^ 3) 2654435761 in
    let h2 = mul_size (shift_mix h1 16) 0x85ebca6b in
    let h3 = mul_size (shift_mix h2 13) 0xc2b2ae35 in shift_mix h3 16

unfoldable pub hash_object : ℕ → ℕ → ℕ
hash_object object capacity = mix_object object % capacity

-- `entries[index].object`
abbrev pub object_at : List Entry → ℕ → ℕ
object_at entries index = (get_or entries index zeroed).object

module _ ⦃rb : Ruby⦄ where
  abbrev pub tombstone : ℕ
  tombstone = rb.q_nil

  -- A slot that is neither empty nor deleted.
  abbrev pub is_occupied : ℕ → Bool
  is_occupied object = not (object == 0) && not (object == tombstone)
