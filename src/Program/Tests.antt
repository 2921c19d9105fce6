-- ===== src/Program/Tests.antt =====
-- What the captures report in the runs at concrete inputs.
use memory_profiler.Base.{
  ℕ, ◌≤◌, ◌≡◌, refl, true, false, List, [], ◌∷◌, ◌++◌, none, some, arith, length,
}
use memory_profiler.Events.{Events, events_instance, new, queue_at}
use memory_profiler.Events.Tests.{padded, padded-KeepsBlock}
use memory_profiler.Capture.State.{Capture, World}
use memory_profiler.Capture.Process.{process_event}
use memory_profiler.Capture.Methods.{stop, stopped, alloc, start, retained_count, tracking_p}
use memory_profiler.Capture.Implements.{Implements}
use memory_profiler.Capture.Others.{Keeps, process_event-Keeps}
use memory_profiler.Capture.Tests.{
  ruby_4, pairs_table, others, world_0, capture_0, calloc-RefusesOverflow,
}
use memory_profiler.Capture.ObjectTests.{
  calm, calm-Leaves, calm-Returns, calm-grants, all_plain, world_0-Implements,
}
use memory_profiler.Program.Taking.{own, taken_in}
use memory_profiler.Program.Heap.{empty_model, heard_of, AllProper, nothing_heard}
use memory_profiler.Program.Capturing.{Moves-Implements}
use memory_profiler.Program.Exact.{Reports}
use memory_profiler.Program.Quiet.{quiet-Reports}
use memory_profiler.Program.Stopping.{stop-Reports}
use memory_profiler.Program.Settings.{Setting, tracks, untracks, set_up, told}
use memory_profiler.Program.Setup.{start-Implements}
use memory_profiler.Capture.MethodTests.{large}
use memory_profiler.Program.{Moves}
use memory_profiler.Program.Runs.{
  run_second-Uninterrupted, second, run_second, Extension, running, new_at, half, all_done,
  run_half, run_all_done, waiting_one, run_waiting_one,
}
use memory_profiler.Program.Moving.{IsOwn}
use memory_profiler.Program.Settling.{comes_to_rest-Reports}
use memory_profiler.Program.Quiet.{IsQuiet}
use memory_profiler.Program.Iterating.{Visits, each_object-Visits}
use memory_profiler.Capture.Iteration.{Reads}
use memory_profiler.Capture.EachObject.{Process, Block, filter_of}

-- One of two events is handled.
half_counts :
    (length half.queue.posted ≡ 2)
    × (length half.queue.handled ≡ 1)
    × (retained_count pairs_table half.world 0x100 ≡ 1)
unfolding running retained_count
half_counts = (refl, refl, refl)

Moves-Implements_example :
    Implements pairs_table calm 0x100 capture_0.tracked half.world
      (taken_in pairs_table calm 0x100 capture_0.tracked empty_model half.queue.handled)
      (length half.queue.handled)
Moves-Implements_example =
    Moves-Implements pairs_table padded calm all_plain 0x100 capture_0.tracked (calm-Leaves 0x100)
      calm-Returns calloc-RefusesOverflow calm-grants padded-KeepsBlock empty_model world_0
      (world_0-Implements 0x100) run_half (omega (arith, half_counts.0))

few_done : length all_done.queue.posted ≤ 10000
unfolding running
few_done = omega arith

proper_done : AllProper nothing_heard (own 0x100 all_done.queue.posted)
unfolding running
proper_done = ((λ _. refl), ((λ _. refl), tt))

quiet_done :
    (all_done.queue.events.processing_flag ≡ false)
    × ((queue_at all_done.queue.events all_done.queue.events.available).count ≡ 0)
unfolding running
quiet_done = (refl, refl)

quiet-Reports_example :
    Reports pairs_table calm 0x100 capture_0.tracked all_done.world all_done.queue.posted 0x4000
quiet-Reports_example =
    quiet-Reports pairs_table padded calm all_plain 0x100 capture_0.tracked (calm-Leaves 0x100)
      calm-Returns calloc-RefusesOverflow calm-grants padded-KeepsBlock world_0
      (world_0-Implements 0x100) run_all_done few_done proper_done quiet_done 0x4000
      (omega arith, omega arith)

reports :
    (heard_of 0x100 all_done.queue.posted 0x4000 ≡ some 0x200)
    × (retained_count pairs_table all_done.world 0x100 ≡ 2)
unfolding running retained_count
reports = (refl, refl)

process_event-Keeps_example :
    Keeps pairs_table calm 0x100
      (calm-Leaves 0x100)
      (world_0.captures 0x100)
      (process_event pairs_table calm world_0 (record (new_at 0x3000) { capture = 0x200 }))
process_event-Keeps_example =
    process_event-Keeps pairs_table calm 0x100 (calm-Leaves 0x100) world_0
      (record (new_at 0x3000) { capture = 0x200 }) (omega arith)

-- A capture from `alloc` on, which is told of two classes and forgets one of them.
abbrev new_capture : Capture pairs_table
new_capture = record capture_0 { running = false; tracked = []; states = some large }

abbrev new_world : World pairs_table
new_world = record world_0 { captures = λ q. new_capture; hooked = λ q. false }

abbrev settings : List Setting
settings = tracks 0x200 0x900 0x5000 ∷ tracks 0x300 4 0x6000 ∷ untracks 0x300 ∷ []

abbrev started_world : World pairs_table
started_world =
    elim (start pairs_table true none (set_up pairs_table new_world 0x100 settings) 0x100) [
      | some (queue, w, result) ↦ w
      | none ↦ new_world
    ]

allocated : alloc pairs_table true calm.calloc ≡ some new_capture
unfolding running alloc
allocated = refl

starts :
    start pairs_table true none (set_up pairs_table new_world 0x100 settings) 0x100
    ≡ some (some new, started_world, true)
unfolding running start set_up events_instance others
starts = refl

tracks_one :
    (tracking_p pairs_table started_world 0x100 0x200 ≡ true)
    × (tracking_p pairs_table started_world 0x100 0x300 ≡ false)
unfolding running start set_up events_instance others
tracks_one = (refl, refl)

start-Implements_example :
    (true ≡ true)
    × ((started_world.captures 0x100).running ≡ true)
    × ((started_world.captures 0x100).paused ≡ 0)
    × (started_world.hooked 0x100 ≡ true)
    × ((klass : ℕ) → tracking_p pairs_table started_world 0x100 klass ≡ told settings klass)
    × Implements pairs_table calm 0x100
        (started_world.captures 0x100).tracked
        started_world
        empty_model
        0
start-Implements_example =
    start-Implements pairs_table calm 0x100 true true none (some new) settings new_world
      started_world true calloc-RefusesOverflow allocated starts

-- `stop` while an event waits.
few_waiting : length waiting_one.queue.posted ≤ 10000
unfolding running
few_waiting = omega arith

proper_waiting : AllProper nothing_heard (own 0x100 waiting_one.queue.posted)
unfolding running
proper_waiting = ((λ _. refl), ((λ _. refl), tt))

one_waits :
    ((waiting_one.world.captures 0x100).running ≡ true)
    × (waiting_one.queue.events.processing_flag ≡ false)
    × (retained_count pairs_table waiting_one.world 0x100 ≡ 1)
unfolding running retained_count
one_waits = (refl, refl, refl)

stop-Reports_example :
    (events' : Events) × (w' : World pairs_table) × (stop pairs_table padded calm
        waiting_one.queue.events waiting_one.world 0x100
      ≡ stopped events' w' true)
    × Reports pairs_table calm 0x100 capture_0.tracked w' waiting_one.queue.posted 0x4000
stop-Reports_example =
    stop-Reports pairs_table padded calm all_plain (λ self. capture_0.tracked) calm-Leaves
      calm-Returns calloc-RefusesOverflow calm-grants padded-KeepsBlock world_0 world_0-Implements
      0x100 run_waiting_one few_waiting proper_waiting one_waits.0 one_waits.1 0x4000
      (omega arith, omega arith)

-- `each_object` while an event waits, with a block that logs the objects.
abbrev log_block : Block pairs_table padded calm (List ℕ)
log_block object allocations p = (record p { rest = p.rest ++ object ∷ [] }, false)

log_block-Reads : Reads pairs_table padded calm log_block 0x100
log_block-Reads = record { tracked = λ o a p. refl; states = λ o a p. refl }

abbrev process : Process pairs_table padded calm (List ℕ)
process = record {
  gc_enabled = true;
  events = waiting_one.queue.events;
  world = waiting_one.world;
  rest = [];
}

filtered : filter_of pairs_table padded calm (List ℕ) log_block 0x100 process 0x200 ≡ some 0x5000
unfolding running filter_of
filtered = refl

each_object-Visits_example :
    Visits pairs_table 0x100 padded calm all_plain
      (λ self. capture_0.tracked)
      calm-Leaves
      calm-Returns
      calloc-RefusesOverflow
      calm-grants
      padded-KeepsBlock
      world_0
      world_0-Implements
      log_block
      log_block-Reads
      process
      0x200
      0x5000
      waiting_one.queue.posted
      0x4000
each_object-Visits_example =
    each_object-Visits pairs_table 0x100 padded calm all_plain (λ self. capture_0.tracked)
      calm-Leaves calm-Returns calloc-RefusesOverflow calm-grants padded-KeepsBlock world_0
      world_0-Implements log_block log_block-Reads run_waiting_one few_waiting proper_waiting
      one_waits.1 true [] 0x200 0x5000 filtered 0x4000 (omega arith, omega arith)

-- In the middle of a run: one event is being processed and one waits.
few_second : length second.queue.posted ≤ 10000
unfolding running
few_second = omega arith

proper_second : AllProper nothing_heard (own 0x100 second.queue.posted)
unfolding running
proper_second = ((λ _. refl), ((λ _. refl), tt))

in_middle :
    (second.queue.events.processing_flag ≡ true)
    × (length second.queue.handled ≡ 0)
    × (length second.queue.posted ≡ 2)
unfolding running
in_middle = (refl, refl, refl)

comes_to_rest-Reports_example :
    (q : Extension) × (later : Moves pairs_table padded calm all_plain second q) × IsOwn pairs_table
      padded calm all_plain later
    × IsQuiet q.queue
    × (q.queue.posted ≡ second.queue.posted)
    × Reports pairs_table calm 0x100 capture_0.tracked q.world second.queue.posted 0x4000
comes_to_rest-Reports_example =
    comes_to_rest-Reports pairs_table padded calm all_plain (λ self. capture_0.tracked) calm-Leaves
      calm-Returns calloc-RefusesOverflow calm-grants padded-KeepsBlock world_0 world_0-Implements
      0x100 run_second run_second-Uninterrupted few_second proper_second 0x4000
      (omega arith, omega arith)
