-- ===== src/Events/Tests.antt =====
-- The event queue at concrete inputs: a handler that logs the objects, enqueues an event for each
-- new object and raises for each freed one.
use memory_profiler.Base.{
  Bool-cases, inr, sym, ap, ◌∙◌, length-take, length-append, length-replicate, take-take,
  take-append_left, get_or, ◌<◌, ℕ, ◌+◌, ◌≤◌, ◌≡◌, refl, Bool, true, false, List, [], ◌∷◌, ◌++◌,
  map, inl, some, arith, take, replicate, length, ◌==◌, if◌then◌else◌,
}
use mathlib.Core.Option.{some-injective}
use memory_profiler.Ruby.{Ruby}
use memory_profiler.Queue
use memory_profiler.Queue.{Queue, Realloc, KeepsBlock, contents}
use memory_profiler.Queue.Push
use memory_profiler.Events.{
  Event, EventType, Events, left, right, queue_at, enqueue, enqueue_all, cleared_event,
  process_queue, new, process_one, process_loop, run_job,
}
use memory_profiler.Events.Drain.{Processed, process_queue-Processed}
use memory_profiler.Events.Receive.{IsSplit}
use memory_profiler.Events.System.{System, Steps, here, next, post, job, initial, swapped, taken}
use memory_profiler.Events.History.{Steps-Consistent}
use memory_profiler.Events.Accounts.{Consistent}
use memory_profiler.Events.Progress.{waiting, Steps-handled, interrupt-Stranded}
use memory_profiler.Events.Wakeup.{Wakes, Undisturbed-Wakes}
use memory_profiler.Events.Runs.{Typed, process_queue-Steps}
use memory_profiler.Events.Survival.{moved_event, Refers, compact-contents, mark-events}
use memory_profiler.Base.Marked.{Among}
use memory_profiler.Events.Collect.{compact, is_none, compact_first, compact_queue, is_newobj, mark}

instance abbrev cruby_4 : Ruby
cruby_4 = record { q_nil = 4; q_nil_ne_zero = omega arith }

abbrev pub padded : Realloc Event
padded xs n = some (take n (xs ++ replicate n cleared_event))

abbrev event_new : Event
event_new = record { kind = EventType.newobj; capture = 0x100; klass = 0x200; object = 0x300 }

abbrev event_free : Event
event_free = record { kind = EventType.freeobj; capture = 0x100; klass = 0x200; object = 0x300 }

abbrev log_object : Event → List ℕ → List ℕ × List Event × Bool
log_object e log =
    if is_newobj e.kind
    then (log ++ e.object ∷ [], event_free ∷ [], false)
    else (log ++ e.object ∷ [], [], true)

program : Unit {0}
unfolding new enqueue enqueue_all process_queue process_one process_loop Queue.initialize Queue.push
    Queue.resize Queue.adopt Queue.settle Queue.double_loop Queue.bump Queue.after_resize Queue.at
    Queue.write Queue.clear Push.write_pushed run_job mark
program = tt

abbrev filled : Events
filled = enqueue_all padded new (event_new ∷ event_free ∷ event_new ∷ [])

runs_enqueue :
    (contents (queue_at filled left) ≡ event_new ∷ event_free ∷ event_new ∷ [])
    × (contents (queue_at filled right) ≡ [])
    × (filled.triggered ≡ true)
unfolding program
runs_enqueue = (refl, refl, refl)

filled-IsSplit : IsSplit filled
unfolding program
filled-IsSplit = inl (refl, refl)

filled_idle : filled.processing_flag ≡ false
unfolding program
filled_idle = refl

filled-bound : let q = queue_at filled filled.available in q.count ≤ length q.base
unfolding program
filled-bound = omega arith

runs_job :
    let r = run_job padded log_object filled [] in
    (r.1 ≡ 0x300 ∷ 0x300 ∷ 0x300 ∷ [])
    × (contents (queue_at r.0 right) ≡ event_free ∷ event_free ∷ [])
    × (contents (queue_at r.0 left) ≡ [])
unfolding program
runs_job = (refl, refl, refl)

process_queue-Processed_example :
    Processed padded log_object filled [] filled-IsSplit filled_idle filled-bound
      (process_queue padded log_object filled [])
process_queue-Processed_example =
    process_queue-Processed padded log_object filled [] filled-IsSplit filled_idle filled-bound

-- Every object but `nil` moves up by 16 bytes.
abbrev moved_up : ℕ → ℕ
moved_up q = if q == 4 then 4 else q + 16

abbrev half_done : Queue Event
half_done = record {
  base = cleared_event ∷ event_new ∷ cleared_event ∷ [];
  capacity = 3;
  count = 2;
  element_size = 32;
}

runs_compact_queue :
    contents (compact_queue moved_up half_done true)
    ≡ cleared_event
      ∷ record { kind = EventType.newobj; capture = 0x110; klass = 0x210; object = 0x310 }
      ∷ []
unfolding compact_queue compact_first
runs_compact_queue = refl

pub padded-KeepsBlock : KeepsBlock padded
padded-KeepsBlock = record {
  width = λ xs ys n e.
      ap length (sym (some-injective _ _ e))
      ∙ length-take n (xs ++ replicate n cleared_event) (
          omega (
            arith,
            length-append xs (replicate n cleared_event),
            length-replicate n cleared_event,
          ));
  prefix = λ xs ys n k e a b.
      ap (take k) (sym (some-injective _ _ e))
      ∙ take-take k n (xs ++ replicate n cleared_event) b
      ∙ take-append_left k xs (replicate n cleared_event) a;
}

-- An event is posted, Ruby runs the job, and while it runs another event is posted.
abbrev after_one : System
after_one = record {
  events = (enqueue padded new event_new).0;
  index = 0;
  posted = event_new ∷ [];
  handled = [];
}

abbrev in_job : System
in_job = record after_one { events = swapped (taken after_one.events) }

abbrev in_job_with_one : System
in_job_with_one = record in_job {
  events = (enqueue padded in_job.events event_free).0;
  posted = event_new ∷ event_free ∷ [];
}

run_of_job : Steps padded initial in_job_with_one
unfolding program
run_of_job =
    next
      (next (next {u = after_one} here (post event_new after_one.events refl refl)) (job refl refl))
      (post event_free in_job_with_one.events refl refl)

Steps-Consistent_example : Consistent in_job_with_one
Steps-Consistent_example = Steps-Consistent padded padded-KeepsBlock run_of_job

Steps-handled_example :
    (t : System) × Steps padded in_job_with_one t
    × (t.posted ≡ in_job_with_one.posted)
    × (t.handled ≡ in_job_with_one.posted)
    × (t.events.processing_flag ≡ false)
Steps-handled_example = Steps-handled padded padded-KeepsBlock run_of_job

in_job_state :
    (in_job_with_one.events.processing_flag ≡ true)
    × (in_job_with_one.events.triggered ≡ true)
    × (waiting in_job_with_one ≡ event_free ∷ [])
unfolding program
in_job_state = (refl, refl, refl)

interrupt-Stranded_example :
    (t : System) × Steps padded in_job_with_one t
    × (t.events.processing_flag ≡ false)
    × (t.events.triggered ≡ false)
    × (waiting t ≡ waiting in_job_with_one)
interrupt-Stranded_example =
    interrupt-Stranded padded padded-KeepsBlock run_of_job in_job_state.0 in_job_state.1

Undisturbed-Wakes_example : Wakes padded padded-KeepsBlock in_job_with_one
unfolding run_of_job
Undisturbed-Wakes_example = Undisturbed-Wakes padded padded-KeepsBlock run_of_job tt

log_object-Typed : (e : Event) (log : List ℕ) → Typed (log_object e log).1
log_object-Typed e log = elim (Bool-cases (is_newobj e.kind)) [
  | inl h ↦ rw h (refl, tt)
  | inr h ↦ rw h tt
]

initial_idle : initial.events.processing_flag ≡ false
unfolding program
initial_idle = refl

after_one_idle : after_one.events.processing_flag ≡ false
unfolding program
after_one_idle = refl

after_one-Consistent : Consistent after_one
unfolding program
after_one-Consistent =
    Steps-Consistent padded padded-KeepsBlock
      (next {u = after_one} here (post event_new after_one.events refl refl))

process_queue-Steps_example :
    (t : System) × Steps padded after_one t
    × (t.events ≡ (process_queue padded log_object after_one.events []).0)
process_queue-Steps_example =
    process_queue-Steps padded log_object log_object-Typed padded-KeepsBlock after_one []
      after_one-Consistent after_one_idle

compact-contents_example :
    let r = compact moved_up in_job_with_one.events in
    (contents (queue_at r r.available)
      ≡ map
          (moved_event moved_up)
          (contents (queue_at in_job_with_one.events in_job_with_one.events.available)))
    × (contents (queue_at r r.processing)
        ≡ map
            (moved_event moved_up)
            (contents (queue_at in_job_with_one.events in_job_with_one.events.processing)))
compact-contents_example = compact-contents padded padded-KeepsBlock run_of_job moved_up refl

filled_first :
    let es = contents (queue_at filled left) in
    (0 < length es)
    × (is_none (get_or es 0 cleared_event).kind ≡ false)
    × Refers (get_or es 0 cleared_event) 0x300
unfolding program
filled_first = (omega arith, refl, inr (inr (refl, refl)))

filled_left : left ≡ filled.available
unfolding program
filled_left = refl

mark-events_example : Among 0x300 (mark filled)
mark-events_example =
    mark-events filled left 0 0x300 (inl filled_left) filled_first.0 filled_first.1 filled_first.2
