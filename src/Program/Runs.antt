-- ===== src/Program/Runs.antt =====
-- The whole extension at concrete inputs: two objects are allocated, one of them while the event of the
-- other is being processed, and in the end every event has been handled.
use memory_profiler.Base.{ℕ, suc, refl, inl, [], ◌∷◌, ◌++◌, arith}
use memory_profiler.Queue
use memory_profiler.Queue.Push
use memory_profiler.Queue.{Realloc, KeepsBlock}
use memory_profiler.Events.{Event, EventType, Events, enqueue, new}
use memory_profiler.Events.System.{taken, swapped, cleared, ended, current}
use memory_profiler.Events.Tests.{padded}
use memory_profiler.Capture.State.{World, Run, finished, raised, fault}
use memory_profiler.Capture.Hook.{event_callback, flag_newobj, trackable_p, trackable_type}
use memory_profiler.Capture.Process.{process_event}
use memory_profiler.Capture.Tests.{ruby_4, pairs_table, world_0, program}
use memory_profiler.Capture.ObjectTests.{calm, all_plain}
use memory_profiler.Program
use memory_profiler.Program.Moving.{Uninterrupted}
use memory_profiler.Program.{Program, Move, Moves, at_start}
use memory_profiler.Program.Taking.{own}
use memory_profiler.Program.Heap.{all_heard, next_heard}

unfoldable pub running : Unit {0}
unfolding program new enqueue Queue.initialize Queue.push Queue.resize Queue.adopt Queue.settle
    Queue.double_loop Queue.bump Queue.after_resize Queue.at Queue.write Queue.clear
    Push.write_pushed event_callback trackable_p trackable_type own all_heard next_heard
running = tt

abbrev pub Extension : Type 0
Extension = Program pairs_table padded calm all_plain

abbrev pub new_at : ℕ → Event
new_at object = record { kind = EventType.newobj; capture = 0x100; klass = 0x200; object = object }

abbrev pub world_of : Run pairs_table → World pairs_table
world_of (finished w) = w
world_of (raised w) = w
world_of fault = world_0

-- A hook has enqueued its event.
abbrev pub heard : Extension → Event → Extension
heard p e = record p {
  queue = record p.queue {
    events = (enqueue padded p.queue.events e).0;
    posted = p.queue.posted ++ e ∷ [];
  };
}

abbrev pub started : Extension → Events → Extension
started p events = record p { queue = record p.queue { events = swapped events; index = 0 } }

abbrev pub processed : Extension → Extension
processed p = record {
  queue = record p.queue {
    events = cleared p.queue.events p.queue.index;
    index = suc p.queue.index;
    handled = p.queue.handled ++ current p.queue ∷ [];
  };
  world = world_of (process_event pairs_table calm p.world (current p.queue));
}

abbrev pub done : Extension → Extension
done p = record p { queue = record p.queue { events = ended p.queue.events } }

abbrev pub first : Extension
first = heard (at_start pairs_table padded calm all_plain world_0) (new_at 0x3000)

abbrev pub in_job : Extension
in_job = started first (taken first.queue.events)

abbrev pub second : Extension
second = heard in_job (new_at 0x4000)

abbrev pub half : Extension
half = processed second

abbrev pub all_done : Extension
all_done = done (processed (started (done half) (taken (done half).queue.events)))

abbrev pub RunTo : Extension → Type 0
RunTo p =
    Moves pairs_table padded calm all_plain (at_start pairs_table padded calm all_plain world_0) p

pub run_second : RunTo second
unfolding running
run_second =
    Program.next {q = in_job}
      (Program.next {q = first}
        (Program.next {r = first} Program.here (
          Program.hook 0x100 0x3000 flag_newobj (new_at 0x3000) first.queue.events refl
            (omega arith, omega arith) refl refl))
        (Program.job refl refl))
      (Program.hook 0x100 0x4000 flag_newobj (new_at 0x4000) second.queue.events refl
        (omega arith, omega arith) refl refl)

pub run_half : RunTo half
unfolding running
run_half =
    Program.next {q = second} run_second (Program.handle half.world refl (omega arith) (inl refl))

pub run_all_done : RunTo all_done
unfolding running
run_all_done =
    Program.next {q = processed (started (done half) (taken (done half).queue.events))}
      (Program.next {q = started (done half) (taken (done half).queue.events)}
        (Program.next {q = done half}
          (Program.next {q = half} run_half (Program.end_loop refl (omega arith)))
          (Program.job refl refl))
        (Program.handle all_done.world refl (omega arith) (inl refl)))
      (Program.end_loop refl (omega arith))

abbrev pub waiting_one : Extension
waiting_one = done half

pub run_waiting_one : RunTo waiting_one
unfolding running
run_waiting_one = Program.next {q = half} run_half (Program.end_loop refl (omega arith))

pub run_second-Uninterrupted : Uninterrupted pairs_table padded calm all_plain run_second
unfolding running run_second
run_second-Uninterrupted = tt
