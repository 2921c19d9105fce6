-- ===== src/Program/Draining.antt =====
-- What a flush of the queue between two others makes of the captures.
use memory_profiler.Base.{ℕ, ◌≤◌, ◌<◌, ◌≡◌, sym, ap, subst, true, false, ◌++◌, some, arith, length}
use memory_profiler.Ruby.{Ruby, StTable}
use memory_profiler.Queue.{Realloc, KeepsBlock, contents}
use memory_profiler.Events.{Event, queue_at}
use memory_profiler.Events.History.{Steps-Consistent}
use memory_profiler.Table.Layout.{entry_size, max_probe_length}
use memory_profiler.Table.Resize.{RefusesOverflow}
use memory_profiler.Capture.State.{World, Surroundings}
use memory_profiler.Capture.Hook.{Objects}
use memory_profiler.Capture.Calls.{Leaves}
use memory_profiler.Capture.Lifetime.{Returns}
use memory_profiler.Capture.Implements.{Implements, same-Implements}
use memory_profiler.Program.{Program, Moves, at_start}
use memory_profiler.Program.Taking.{own, taken_in}
use memory_profiler.Program.Moving.{AllLive, AllLive-right, Moves-Steps}
use memory_profiler.Program.Capturing.{Moves-Follows}
use memory_profiler.Program.Heap.{empty_model, nothing_heard, AllProper, own-AllProper}
use memory_profiler.Program.Quiet.{idle-posted, Moves-ExactAfter}
use memory_profiler.Events.Drain.{handle_all}
use memory_profiler.Capture.Process.{handle}
use memory_profiler.Program.Flushing.{AllTaken, AllExact, handle_all-AllExact}

module _ ⦃rb : Ruby⦄ (st : StTable) (realloc : Realloc Event) (env : Surroundings st)
    (objects : Objects) (classes : ℕ → st.Table)
    (leaves : (self callback klass symbol argument : ℕ) (w : World st)
      → Leaves st self (w.captures self) (env.call callback klass symbol argument w))
    (returns : (callback klass symbol argument : ℕ) (w : World st)
      → Returns st env (env.call callback klass symbol argument w))
    (refuses : RefusesOverflow env.calloc)
    (grants : (c : ℕ) → c < 40000 → env.calloc c entry_size ≡ true) (law : KeepsBlock realloc)
    (start : World st)
    (fresh : (self : ℕ) → Implements st env self (classes self) start empty_model 0) where
  run-AllTaken :
      {p : Program st realloc env objects}
      → Moves st realloc env objects (at_start st realloc env objects start) p
      → length p.queue.posted ≤ max_probe_length
      → (w : World st) → ((self : ℕ) → w.captures self ≡ p.world.captures self)
      → AllTaken st realloc env objects classes leaves returns refuses grants w p.queue.handled
  run-AllTaken {p} run few w same self =
      same-Implements st env self (classes self) p.world w
        (taken_in st env self (classes self) empty_model p.queue.handled) (length p.queue.handled)
        (length p.queue.handled) (same self) (omega arith)
        (Moves-Follows st realloc env objects self (classes self) (leaves self) returns refuses
          grants law empty_model start (fresh self) run few).implements

  -- What the handling of the waiting events leaves.
  pub drained :
      {p : Program st realloc env objects} (self : ℕ)
      → Moves st realloc env objects (at_start st realloc env objects start) p
      → length p.queue.posted ≤ max_probe_length
      → AllProper nothing_heard (own self p.queue.posted)
      → p.queue.events.processing_flag ≡ false
      → (w : World st) → ((self : ℕ) → w.captures self ≡ p.world.captures self)
      → (w' : World st) × ((handle_all realloc
            (handle st env)
            (contents (queue_at p.queue.events p.queue.events.available))
            (some w)).0
          ≡ some w')
        × AllExact st realloc env objects classes leaves returns refuses grants self w'
            p.queue.posted
  drained {p} self run few proper off w same =
      let c = Steps-Consistent realloc law (Moves-Steps st realloc env objects run) in
      let later = contents (queue_at p.queue.events p.queue.events.available) in
      let waits : p.queue.posted ≡ p.queue.handled ++ later = idle-posted p.queue c off in
      let proper' : AllProper nothing_heard (own self (p.queue.handled ++ later)) =
        subst (λ es. AllProper nothing_heard (own self es)) waits proper in
      let follows =
        Moves-Follows st realloc env objects self (classes self) (leaves self) returns refuses
          grants law empty_model start (fresh self) run few in
      let x =
        Moves-ExactAfter st realloc env objects self (classes self) (leaves self) returns refuses
          grants law start (fresh self) run few
          (own-AllProper self p.queue.handled later proper') in
      let (w', ran, x') =
        handle_all-AllExact st realloc env objects classes leaves returns refuses grants self later
          w p.queue.handled (omega (arith, ap length waits, few))
          (AllLive-right p.queue.handled later (subst AllLive waits follows.live)) proper'
          (run-AllTaken run few w same, x) in
      (
        w',
        ran,
        subst (AllExact st realloc env objects classes leaves returns refuses grants self w')
            (sym waits) x',
      )
