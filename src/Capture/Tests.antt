-- ===== src/Capture/Tests.antt =====
-- A capture at concrete inputs: one tracked class, whose callback returns a value for a new object
-- and raises for one particular class.
use memory_profiler.Base.{
  ℕ, ◌*◌, ◌^◌, ◌≡◌, refl, inl, inr, true, false, Bool-cases, List, [], ◌∷◌, none, some, arith, ltb,
  ltb→lt, lt→ltb, ◌<◌, ◌==◌, if◌then◌else◌,
}
use memory_profiler.Ruby.{Ruby, StTable, assoc}
use memory_profiler.Events.{Event, EventType}
use memory_profiler.Table.Layout.{Table, new, entry_size, hash_object, mix_object, zeroed}
use memory_profiler.Table.Probing.{find_entry, find_loop, find_insert_slot, insert_loop}
use memory_profiler.Table.Operations.{lookup, insert, delete_entry, insert_at}
use memory_profiler.Table.Slots.{scan}
use memory_profiler.Table.Holds.{IsValid}
use memory_profiler.Table.New.{new-IsValid}
use memory_profiler.Table.Insert.{insert-Inserts}
use memory_profiler.Table.Load.{insert-Loads}
use memory_profiler.Table.Resize.{RefusesOverflow}
use memory_profiler.Capture.State.{
  Capture, World, Called, returned, threw, Run, finished, raised, fault, Surroundings,
}
use memory_profiler.Capture.Process.{
  process_event, fill, process_newobj, process_freeobj, count_new, store_object, release_object,
  end_freeobj,
}
use memory_profiler.Capture.Calls.{Leaves}
use memory_profiler.Capture.Pausing.{CalledWith, PausedAfter, process_event-PausedAfter}
use memory_profiler.Capture.Newobj.{Ready, Newobj}
use memory_profiler.Capture.Stores.{Stores, fill-Stores}
use memory_profiler.Capture.Freeobj.{Freeobj}
use memory_profiler.Table.Lookup.{entry_at}
use mathlib.Core.Option
use memory_profiler.Capture.Objects.{
  Operation, store, release, all_tables, all_objects, next_table, Keys, all_tables-Refines,
}
use memory_profiler.Events.{process_all, process_queue, process_loop, process_one, enqueue_all}
use memory_profiler.Capture.Process.{handle}
use memory_profiler.Capture.Methods.{
  clear, stop, after_flush, halt, track, untrack, tracking_p, aref,
}
use memory_profiler.Capture.Counts.{SoundAfter, process_event-SoundAfter}

instance abbrev pub ruby_4 : Ruby
ruby_4 = record { q_nil = 4; q_nil_ne_zero = omega arith }

-- The pairs under other keys.
unfoldable pub others : ℕ → List (ℕ × ℕ) → List (ℕ × ℕ)
others key [] = []
others key ((k, v) ∷ rest) = let kept = others key rest in if key == k then kept else (k, v) ∷ kept

pub replaced : (ℕ → ℕ) → List (ℕ × ℕ) → List (ℕ × ℕ)
replaced f [] = []
replaced f ((k, v) ∷ rest) = (k, f v) ∷ replaced f rest

pub assoc-replaced :
    (f : ℕ → ℕ) (t : List (ℕ × ℕ)) (key : ℕ) → assoc key (replaced f t) ≡ Option.map f (assoc key t)
unfolding replaced
assoc-replaced f [] key = refl
assoc-replaced f ((k, v) ∷ rest) key = ground (arith, assoc-replaced f rest key)

pub assoc-others :
    (t : List (ℕ × ℕ)) (key q : ℕ) → assoc q (others key t) ≡ (if q == key then none else assoc q t)
unfolding others
assoc-others [] key q = ground arith
assoc-others ((k, v) ∷ rest) key q = ground (arith, assoc-others rest key q)

abbrev pub pairs_table : StTable
pairs_table = record {
  Table = List (ℕ × ℕ);
  init_numtable = [];
  lookup = λ t key. assoc key t;
  insert = λ t key value. (key, value) ∷ t;
  delete = λ t key. others key t;
  pairs = λ t. t;
  foreach_with_replace = λ t f. (replaced f t, false);
  lookup-init_numtable = λ key. refl;
  lookup-insert = λ t key value q. refl;
  lookup-delete = assoc-others;
  lookup-pairs = λ t key. refl;
  lookup-foreach_with_replace = λ t f h key. assoc-replaced f t key;
}

abbrev pub answer : ℕ → World pairs_table → Called pairs_table
answer klass w = if klass == 0x666 then threw w else returned 0x77 w

abbrev pub surroundings : Surroundings pairs_table
surroundings = record {
  calloc = λ n bytes. ltb (n * bytes) (2 ^ 64);
  wrap = λ w. 0x5000;
  call = λ callback klass symbol argument w. answer klass w;
  sym_newobj = 0x18;
  sym_freeobj = 0x28;
}

abbrev pub eight : Table
eight = record {
  capacity = 8;
  count = 0;
  tombstones = 0;
  entries = zeroed ∷ zeroed ∷ zeroed ∷ zeroed ∷ zeroed ∷ zeroed ∷ zeroed ∷ zeroed ∷ [];
}

abbrev pub capture_0 : Capture pairs_table
capture_0 = record {
  running = true;
  paused = 0;
  track_all = false;
  tracked = (0x200, 0x5000) ∷ (0x666, 0x6000) ∷ [];
  states = some eight;
  new_count = 0;
  free_count = 0;
}

abbrev pub world_0 : World pairs_table
world_0 = record {
  captures = λ q. capture_0;
  records = λ q. record { callback = 0x900; new_count = 0; free_count = 0 };
  hooked = λ q. true;
  posted = [];
}

unfoldable pub program : Unit {0}
unfolding new hash_object mix_object find_entry find_loop find_insert_slot insert_loop insert lookup
    insert_at delete_entry scan process_event process_newobj process_freeobj count_new store_object
    release_object end_freeobj clear stop after_flush halt handle track untrack tracking_p aref
    process_all process_queue process_loop process_one enqueue_all
program = tt

pub calloc-RefusesOverflow : RefusesOverflow surroundings.calloc
calloc-RefusesOverflow n bytes h = ltb→lt _ _ h

pub eight-new : new true surroundings.calloc 8 ≡ some eight
unfolding program
eight-new = refl

pub eight-IsValid : IsValid eight
eight-IsValid = (new-IsValid true surroundings.calloc 8 eight calloc-RefusesOverflow eight-new).0

eight-Ready : Ready pairs_table surroundings eight
eight-Ready = record {
  valid = eight-IsValid;
  refuses = calloc-RefusesOverflow;
  granted = λ h. refl;
  few = omega arith;
}

pub answer-CalledWith :
    (klass : ℕ) (w : World pairs_table)
    → CalledWith pairs_table surroundings 0x100 (w.captures 0x100).paused (answer klass w)
answer-CalledWith klass w = elim (Bool-cases (klass == 0x666)) [
  | inl e ↦ rw e refl
  | inr e ↦ rw e refl
]

pub answer-Leaves :
    (callback klass symbol argument : ℕ) (w : World pairs_table)
    → Leaves pairs_table 0x100
        (w.captures 0x100)
        (surroundings.call callback klass symbol argument w)
answer-Leaves callback klass symbol argument w = elim (Bool-cases (klass == 0x666)) [
  | inl e ↦ rw e refl
  | inr e ↦ rw e refl
]

-- An event whose callback raises.
abbrev pub event_new : Event
event_new = record { kind = EventType.newobj; capture = 0x100; klass = 0x666; object = 0x3000 }

process_event-PausedAfter_example :
    PausedAfter pairs_table surroundings 0x100 0x100 0
      (process_event pairs_table surroundings world_0 event_new)
process_event-PausedAfter_example =
    process_event-PausedAfter pairs_table surroundings 0x100
      (λ callback klass symbol argument w. answer-CalledWith klass w) world_0 event_new
      (omega arith)

-- The paused count of a capture after a run.
abbrev paused_in : Run pairs_table → ℕ
paused_in (finished w) = (w.captures 0x100).paused
paused_in (raised w) = (w.captures 0x100).paused
paused_in fault = 0

runs_raise : paused_in (process_event pairs_table surroundings world_0 event_new) ≡ 1
unfolding program
runs_raise = refl

abbrev pub eight_with_one : Table
eight_with_one = let r = insert surroundings.calloc eight 0x3000 in fill r.0 r.1 0x200 0x77

pub eight_with_one-Stores :
    Stores eight (record { object = 0x3000; klass = 0x200; data_value = 0x77 }) eight_with_one
eight_with_one-Stores =
    fill-Stores eight 0x3000 0x200 0x77 (insert surroundings.calloc eight 0x3000)
      (omega arith, omega arith)
      (insert-Inserts eight-IsValid 0x3000 (omega arith, omega arith) surroundings.calloc
        calloc-RefusesOverflow (λ h. refl) (omega arith))
      (insert-Loads eight-IsValid 0x3000 (omega arith, omega arith) surroundings.calloc
        calloc-RefusesOverflow (λ h. refl) (omega arith)).one_more

pub eight_with_one-IsValid : IsValid eight_with_one
eight_with_one-IsValid = eight_with_one-Stores.valid

abbrev pub world_1 : World pairs_table
world_1 = record world_0 {
  captures = λ q. record capture_0 { states = some eight_with_one; new_count = 1 };
}

-- The frees that a capture has counted after a run.
abbrev freed_in : Run pairs_table → ℕ
freed_in (finished w) = (w.captures 0x100).free_count
freed_in (raised w) = 0
freed_in fault = 0

runs_free : freed_in (process_freeobj pairs_table surroundings world_1 0x100 0x3000) ≡ 1
unfolding program
runs_free = refl

process_event-SoundAfter_example :
    SoundAfter pairs_table 0x100 (process_event pairs_table surroundings world_0 event_new)
process_event-SoundAfter_example =
    process_event-SoundAfter pairs_table surroundings 0x100 answer-Leaves world_0 eight event_new
      refl refl eight-Ready (omega arith) (omega arith) (omega arith) (omega arith, omega arith)

abbrev some_operations : List Operation
some_operations =
    store 0x1000 0x200 0x77 ∷ store 0x2000 0x200 0x88 ∷ release 0x1000 ∷ release 0x4000 ∷ []

some-Keys : Keys some_operations
some-Keys = (
  (omega arith, omega arith),
  ((omega arith, omega arith), ((omega arith, omega arith), ((omega arith, omega arith), tt))),
)

calloc-grants : (c : ℕ) → c < 40000 → surroundings.calloc c entry_size ≡ true
calloc-grants c lt = lt→ltb (c * entry_size) (2 ^ 64) (omega arith)

all_tables-Refines_example :
    let t = all_tables surroundings.calloc eight some_operations in
    IsValid t
    × (Option.map (entry_at t) (lookup t 0x2000) ≡ all_objects (λ _. none) some_operations 0x2000)
all_tables-Refines_example =
    all_tables-Refines surroundings.calloc calloc-RefusesOverflow calloc-grants 8 eight eight-new
      some_operations some-Keys (omega arith) 0x2000 (omega arith, omega arith)

runs_operations :
    let t = all_tables surroundings.calloc eight some_operations in
    (Option.map (entry_at t) (lookup t 0x2000)
      ≡ some (record { object = 0x2000; klass = 0x200; data_value = 0x88 }))
    × (lookup t 0x1000 ≡ none)
unfolding program all_tables next_table
runs_operations = (refl, refl)
