-- ===== src/Capture/ObjectTests.antt =====
-- A capture with one object at concrete inputs: iteration with a block that logs the objects, and a
-- garbage collection that moves them.
use memory_profiler.Base.{
  subst, ◌≢◌, ◌==◌, ℕ, ◌*◌, ◌^◌, ◌<◌, lt→ltb, ◌≡◌, refl, ap, inl, true, false, List, [], ◌∷◌, ◌++◌,
  none, some, arith, if◌then◌else◌,
}
use memory_profiler.Queue
use memory_profiler.Queue.{Realloc}
use memory_profiler.Events
use memory_profiler.Events.{Event, Events, process_queue, process_loop, process_one, process_all}
use memory_profiler.Table.Layout.{new, hash_object, mix_object}
use memory_profiler.Table.Probing.{find_entry, find_loop, find_insert_slot, insert_loop}
use memory_profiler.Table.Operations.{insert, insert_at}
use memory_profiler.Capture.State.{Capture, World}
use memory_profiler.Capture.Process.{handle}
use memory_profiler.Capture.Each
use memory_profiler.Capture.Each.{yields, times}
use memory_profiler.Capture.EachObject.{
  Process, Block, iterated, recursive, visit, each_loop, each_object_body, each_object_ensure,
  ensured, after_flush, filter_of, each_object,
}
use memory_profiler.Capture.Iteration.{Reads}
use memory_profiler.Capture.Restoring.{Restores, each_object-Restores}
use memory_profiler.Capture.Gc.{
  tracked_mark, mark, tracked_update, compacted, compact_tracked, compact_states, compact,
}
use memory_profiler.Capture.Survival.{Moves, compact-times}
use mathlib.Core.Option
use memory_profiler.Events.{EventType, left, right, queue_at}
use memory_profiler.Queue.{contents}
use memory_profiler.Table.Layout.{Entry, entry_size}
use memory_profiler.Table.Slots.{scan, occurrences}
use memory_profiler.Table.Relocate.{IsKey}
use memory_profiler.Table.New.{new-IsValid}
use memory_profiler.Capture.State.{Surroundings, returned, finished}
use memory_profiler.Capture.Process.{process_event}
use memory_profiler.Capture.Calls.{Leaves}
use memory_profiler.Capture.Newobj.{Ready}
use memory_profiler.Capture.Lifetime.{Returns, Lived}
use memory_profiler.Capture.Hooked.{Hears, event_callback-Lived}
use memory_profiler.Capture.Hook.{
  Objects, ValueType, flag_newobj, flag_freeobj, event_callback, trackable_p, trackable_type,
}
use memory_profiler.Capture.Implements.{all_events, tracks_class, Implements}
use memory_profiler.Program.Heap.{empty_model}
use memory_profiler.Capture.Refinement.{process_queue-Implements}
use memory_profiler.Capture.Tests.{
  capture_0, world_0, eight-new, eight-IsValid, calloc-RefusesOverflow, pairs_table, surroundings,
  eight, eight_with_one, eight_with_one-IsValid, eight_with_one-Stores, world_1, ruby_4,
}

abbrev no_memory : Realloc Event
no_memory xs n = none

abbrev log_block : Block pairs_table no_memory surroundings (List ℕ)
log_block object allocations p = (record p { rest = p.rest ++ object ∷ [] }, false)

abbrev first_process : Process pairs_table no_memory surroundings (List ℕ)
first_process = record { gc_enabled = true; events = Events.new; world = world_1; rest = [] }

program : Unit {0}
unfolding new hash_object mix_object find_entry find_loop find_insert_slot insert_loop insert
    insert_at Events.new process_queue process_loop process_one process_all yields
    Each.each_object_body visit each_loop each_object_body each_object_ensure ensured after_flush
    filter_of each_object Queue.initialize tracked_mark mark tracked_update compact_tracked
    compact_states compact
program = tt

log_block-Reads : Reads pairs_table no_memory surroundings log_block 0x100
log_block-Reads = record { tracked = λ o a p. refl; states = λ o a p. refl }

abbrev after_events : Events
after_events =
    (process_queue no_memory (handle pairs_table surroundings) Events.new (some world_1)).0

flushed :
    process_queue no_memory (handle pairs_table surroundings) Events.new (some world_1)
    ≡ (after_events, some world_1)
unfolding program
flushed = refl

no_filter :
    filter_of pairs_table no_memory surroundings (List ℕ) log_block 0x100 first_process 4 ≡ some 4
unfolding program
no_filter = refl

idle : first_process.events.processing_flag ≡ false
unfolding program
idle = refl

sizes : (eight_with_one.capacity ≡ 8) × (eight_with_one.count ≡ 1)
unfolding program
sizes = (refl, refl)

runs_each_object :
    each_object pairs_table no_memory surroundings (List ℕ) log_block 0x100 9 4 first_process
    ≡ iterated (record first_process { events = after_events; rest = 0x3000 ∷ [] })
unfolding program
runs_each_object = refl

each_object-Restores_example :
    Restores pairs_table no_memory surroundings log_block 0x100 first_process
      (each_object pairs_table no_memory surroundings (List ℕ) log_block 0x100 9 4 first_process)
each_object-Restores_example =
    each_object-Restores pairs_table no_memory surroundings log_block 0x100 (λ o a p. refl)
      first_process 9 4

-- `each_object` in a callback: events are being processed, and the collector stays off.
abbrev nested : Process pairs_table no_memory surroundings (List ℕ)
nested = record first_process { events = record Events.new { processing_flag = true } }

runs_nested :
    each_object pairs_table no_memory surroundings (List ℕ) log_block 0x100 9 4 nested
    ≡ recursive (record nested { gc_enabled = false })
unfolding program
runs_nested = refl

-- A collection that moves one object to the free address 0x3010.
abbrev moved_objects : ℕ → ℕ
moved_objects q = if q == 0x3000 then 0x3010 else q

abbrev NotFree : ℕ → Type 0
NotFree q = q ≢ 0x3010

moved_apart : (a b : ℕ) → NotFree a → NotFree b → moved_objects a ≡ moved_objects b → a ≡ b
moved_apart a b na nb e = ground (arith, na, nb, e)

moved_live : (q : ℕ) → NotFree q → (q ≢ 0) × (q ≢ 4) → (moved_objects q ≢ 0) × (moved_objects q ≢ 4)
moved_live q n (nz, nn) = (ground (arith, nz), ground (arith, nn))

tracked-NotFree :
    (klass a : ℕ)
    → pairs_table.lookup (world_1.captures 0x100).tracked klass ≡ some a
    → NotFree klass × NotFree a
tracked-NotFree klass a e = (ground (arith, e), ground (arith, e))

object-NotFree : (q : ℕ) → IsKey eight_with_one.entries q → NotFree q
unfolding program occurrences
object-NotFree q (ok, some_slot) = λ e.
    let none_there : occurrences 0x3010 eight_with_one.entries ≡ 0 = refl in
    omega (arith, none_there, subst (λ k. 0 < occurrences k eight_with_one.entries) e some_slot)

class-NotFree :
    (q : ℕ) (e : Entry)
    → (q ≢ 0) × (q ≢ 4)
    → scan q eight_with_one.entries ≡ some e
    → NotFree e.klass
class-NotFree q e ok h =
    let empty : scan q eight.entries ≡ none =
      (new-IsValid true surroundings.calloc 8 eight calloc-RefusesOverflow eight-new).3 q ok in
    ground (arith, h, eight_with_one-Stores.reads q ok, empty)

moved_objects-Moves :
    Moves pairs_table moved_objects NotFree (world_1.captures 0x100) eight_with_one
moved_objects-Moves = record {
  apart = moved_apart;
  live = moved_live;
  nil_exists = omega arith;
  nil_stays = refl;
  pinned = λ klass a e. ground (arith, e);
  tracked = tracked-NotFree;
  objects = object-NotFree;
  classes = class-NotFree;
}

not_modified :
    (compact_tracked pairs_table moved_objects (world_1.captures 0x100).tracked).1 ≡ false
unfolding program
not_modified = refl

compact-times_example :
    (c' : Capture pairs_table) × (compact pairs_table moved_objects
        (λ bytes. true)
        (world_1.captures 0x100)
      ≡ compacted c')
    × (times pairs_table 0x3010 (Each.each_object_body pairs_table c' 0x5000)
        ≡ times pairs_table 0x3000
            (Each.each_object_body pairs_table (world_1.captures 0x100) 0x5000))
compact-times_example =
    compact-times pairs_table moved_objects NotFree (world_1.captures 0x100) eight_with_one
      moved_objects-Moves not_modified refl eight_with_one-IsValid (λ bytes. true) refl
      (omega (arith, sizes)) (omega (arith, sizes)) 0x5000 0x3000 (omega arith) (omega arith)
      (omega arith, omega arith)

-- The surroundings in which every callback returns.
abbrev pub calm : Surroundings pairs_table
calm = record surroundings { call = λ callback klass symbol argument w. returned 0x77 w }

pub calm-Leaves :
    (self callback klass symbol argument : ℕ) (w : World pairs_table)
    → Leaves pairs_table self (w.captures self) (calm.call callback klass symbol argument w)
calm-Leaves self callback klass symbol argument w = refl

pub calm-Returns :
    (callback klass symbol argument : ℕ) (w : World pairs_table)
    → Returns pairs_table calm (calm.call callback klass symbol argument w)
calm-Returns callback klass symbol argument w = (0x77, w, refl)

pub calm-grants : (c : ℕ) → c < 40000 → calm.calloc c entry_size ≡ true
calm-grants c lt = lt→ltb (c * entry_size) (2 ^ 64) (omega arith)

eight-Ready : Ready pairs_table calm eight
eight-Ready = record {
  valid = eight-IsValid;
  refuses = calloc-RefusesOverflow;
  granted = λ h. refl;
  few = omega arith;
}

-- Every object is of the plain type but the class itself.
abbrev pub all_plain : Objects
all_plain = record {
  rb_type = λ q. if q == 0x200 then ValueType.t_class else ValueType.t_object;
  rb_obj_class = λ q. 0x200;
}

object-Hears : Hears pairs_table calm all_plain 0x100 world_0 0x200 0x3000
unfolding trackable_p trackable_type
object-Hears = record { trackable = refl; class_of = refl; proper = refl; unpaused = refl }

event_callback-Lived_example :
    (new_ free_ : Event) × (w1 w2 : World pairs_table) × (event_callback pairs_table all_plain
        world_0 0x100 flag_newobj 0x3000
      ≡ some new_)
    × (process_event pairs_table calm world_0 new_ ≡ finished w1)
    × (event_callback pairs_table all_plain w1 0x100 flag_freeobj 0x3000 ≡ some free_)
    × (process_event pairs_table calm w1 free_ ≡ finished w2)
    × Lived pairs_table calm capture_0 eight 0x3000 (w2.captures 0x100)
event_callback-Lived_example =
    event_callback-Lived pairs_table calm all_plain 0x100 (calm-Leaves 0x100) calm-Returns world_0
      0x200 0x3000 0x5000 eight object-Hears refl refl eight-Ready (omega arith, omega arith)

abbrev two_events : List Event
two_events =
    record { kind = EventType.newobj; capture = 0x100; klass = 0x200; object = 0x3000 }
    ∷ record { kind = EventType.freeobj; capture = 0x100; klass = 4; object = 0x3000 }
    ∷ []

abbrev queued : Events
queued = record Events.new {
  queue_left = record {
    base = two_events;
    capacity = 2;
    count = 2;
    element_size = Events.event_size;
  };
  available = left;
  processing = right;
  processing_flag = false;
}

pub world_0-Implements :
    (self : ℕ) → Implements pairs_table calm self capture_0.tracked world_0 empty_model 0
unfolding scan
world_0-Implements self = record {
  table = eight;
  states = refl;
  classes_fixed = refl;
  explicit = refl;
  paused = omega arith;
  valid = eight-IsValid;
  reads = λ q ql.
      ap (Option.map (λ (e : Entry). e.klass))
        ((new-IsValid true surroundings.calloc 8 eight calloc-RefusesOverflow eight-new).3 q ql);
  sized = refl;
  used = omega arith;
  new_count = refl;
  free_count = refl;
}

process_queue-Implements_example :
    (w' : World pairs_table) × ((process_queue no_memory
        (handle pairs_table calm)
        queued
        (some world_0)).1
      ≡ some w')
    × Implements pairs_table calm 0x100 capture_0.tracked w'
        (all_events
          (tracks_class pairs_table calm 0x100 capture_0.tracked)
          empty_model
          (contents queued.queue_left))
        2
process_queue-Implements_example =
    process_queue-Implements pairs_table calm 0x100 capture_0.tracked (calm-Leaves 0x100)
      calm-Returns calloc-RefusesOverflow calm-grants no_memory queued world_0 empty_model 0
      (inl (refl, refl)) refl (omega arith)
      ((refl, (omega arith, omega arith)), ((refl, (omega arith, omega arith)), tt)) (omega arith)
      (world_0-Implements 0x100)
