-- ===== src/Capture/MethodTests.antt =====
-- The methods of a capture at concrete inputs: a capture with one tracked class.
use memory_profiler.Base.{ℕ, ◌≡◌, refl, inl, true, false, [], ◌∷◌, none, some, arith, replicate}
use memory_profiler.Events.{Event}
use memory_profiler.Table.Layout.{Table, new, zeroed}
use memory_profiler.Capture.State.{World}
use memory_profiler.Queue
use memory_profiler.Queue.{Realloc}
use memory_profiler.Events.{Events, left, right}
use memory_profiler.Capture.Methods.{clear, stop, Stopped, stopped, recursive, crashed}
use memory_profiler.Capture.Clearing.{Clears, clear-Clears}
use memory_profiler.Capture.Stopping.{Stops, stop-Stops}
use memory_profiler.Capture.Each.{each_object_body, yields}
-- The capture is stopped and has counted one object.
use memory_profiler.Capture.Tests.{
  pairs_table, surroundings, capture_0, world_0, program, calloc-RefusesOverflow, event_new,
  eight_with_one, world_1, ruby_4,
}

abbrev world_2 : World pairs_table
world_2 = record world_0 {
  captures = λ q. record capture_0 { running = false; states = some eight_with_one; new_count = 1 };
}

abbrev pub large : Table
large = record { capacity = 1024; count = 0; tombstones = 0; entries = replicate 1024 zeroed }

pub large-new : new true surroundings.calloc 1024 ≡ some large
unfolding program
large-new = refl

clear-Clears_example :
    (w' : World pairs_table) × (clear pairs_table true surroundings.calloc world_2 0x100 ≡ some w')
    × Clears pairs_table world_2 0x100 w'
clear-Clears_example =
    clear-Clears pairs_table true surroundings.calloc world_2 0x100 eight_with_one large refl refl
      calloc-RefusesOverflow large-new

-- One event is queued.
abbrev events_1 : Events
events_1 = record {
  queue_left = record { base = event_new ∷ []; capacity = 1; count = 1; element_size = 32 };
  queue_right = record { base = []; capacity = 0; count = 0; element_size = 32 };
  available = left;
  processing = right;
  processing_flag = false;
  triggered = true;
}

abbrev full_memory : Realloc Event
full_memory xs n = none

stop-Stops_example :
    Stops pairs_table surroundings full_memory events_1 world_0 0x100
      (stop pairs_table full_memory surroundings events_1 world_0 0x100)
stop-Stops_example =
    stop-Stops pairs_table surroundings full_memory events_1 world_0 0x100 (inl (refl, refl))
      (omega arith)

-- The objects that a stopped capture has seen.
abbrev seen_in : Stopped pairs_table → ℕ
seen_in (stopped events w result) = (w.captures 0x100).new_count
seen_in (recursive events w) = 0
seen_in crashed = 0

runs_stop : seen_in (stop pairs_table full_memory surroundings events_1 world_0 0x100) ≡ 1
unfolding program Queue.at
runs_stop = refl

runs_each_object :
    (each_object_body pairs_table (world_1.captures 0x100) 0x5000 ≡ (0x3000, 0x5000) ∷ [])
    × (each_object_body pairs_table (world_1.captures 0x100) 0x6000 ≡ [])
unfolding program each_object_body yields
runs_each_object = (refl, refl)
