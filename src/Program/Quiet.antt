-- ===== src/Program/Quiet.antt =====
-- The extension at rest: what a capture reports once every event has been handled.
use mathlib.Core.List.{append-nil}
use memory_profiler.Base.{
  ℕ, ◌≤◌, ◌<◌, ◌≡◌, sym, ap, ◌∙◌, subst, true, false, List, [], ◌∷◌, ◌++◌, arith, length, take,
  drop, drop_all,
}
use memory_profiler.Ruby.{Ruby, StTable}
use memory_profiler.Queue.{Realloc, KeepsBlock, contents}
use memory_profiler.Events.{Event, queue_at}
use memory_profiler.Events.System.{System, current}
use memory_profiler.Events.Accounts.{Consistent}
use memory_profiler.Events.History.{Steps-Consistent}
use memory_profiler.Table.Layout.{entry_size, max_probe_length}
use memory_profiler.Table.Holds.{IsLive}
use memory_profiler.Table.Resize.{RefusesOverflow}
use memory_profiler.Capture.State.{World, Surroundings}
use memory_profiler.Capture.Hook.{Objects}
use memory_profiler.Capture.Calls.{Leaves}
use memory_profiler.Capture.Lifetime.{Returns}
use memory_profiler.Capture.Implements.{Implements}
use memory_profiler.Program
use memory_profiler.Program.Exact.{
  found-positive, ExactAfter, more-ExactAfter, none-ExactAfter, Reports, exact-Reports,
}
use memory_profiler.Program.{Program, Move, Moves, at_start}
use memory_profiler.Program.Moving.{Moves-Steps}
use memory_profiler.Program.Capturing.{Follows, Moves-Follows, Move-grows, current-live}
use memory_profiler.Program.Taking.{own}
use memory_profiler.Program.Heap.{empty_model, nothing_heard, AllProper, own-AllProper}

-- Nothing is being processed and nothing waits.
abbrev pub IsQuiet : System → Type 0
IsQuiet s = (s.events.processing_flag ≡ false) × ((queue_at s.events s.events.available).count ≡ 0)

-- Between two flushes, the events that were not handled wait in the queue.
pub idle-posted :
    ⦃rb : Ruby⦄ (s : System)
    → Consistent s
    → s.events.processing_flag ≡ false
    → s.posted ≡ s.handled ++ contents (queue_at s.events s.events.available)
idle-posted s (split, c) off =
    c.history
    ∙ ap (λ l. s.handled ++ (l ++ contents (queue_at s.events s.events.available)))
        (ap (λ n. drop s.index (take n (queue_at s.events s.events.processing).base)) (c.idle off)
          ∙ drop_all s.index [] (omega arith))

module _ ⦃rb : Ruby⦄ (st : StTable) (realloc : Realloc Event) (env : Surroundings st)
    (objects : Objects) (self : ℕ) (classes : st.Table)
    (leaves : (callback klass symbol argument : ℕ) (w : World st)
      → Leaves st self (w.captures self) (env.call callback klass symbol argument w))
    (returns : (callback klass symbol argument : ℕ) (w : World st)
      → Returns st env (env.call callback klass symbol argument w))
    (refuses : RefusesOverflow env.calloc)
    (grants : (c : ℕ) → c < 40000 → env.calloc c entry_size ≡ true) (law : KeepsBlock realloc)
    (start : World st) (fresh : Implements st env self classes start empty_model 0) where
  handle-ExactAfter :
      {p : Program st realloc env objects} (rest : List Event)
      → p.queue.posted ≡ (p.queue.handled ++ current p.queue ∷ []) ++ rest
      → length p.queue.posted ≤ max_probe_length
      → Follows st realloc env objects self classes leaves returns refuses grants empty_model p
      → AllProper nothing_heard (own self (p.queue.handled ++ current p.queue ∷ []))
      → ExactAfter st env self classes p.queue.handled
      → ExactAfter st env self classes (p.queue.handled ++ current p.queue ∷ [])
  handle-ExactAfter {p} rest history few f proper x =
      let (fits, ok) =
        current-live st realloc env objects self classes leaves returns refuses grants law
          empty_model rest history few f in
      let i = f.implements in
      more-ExactAfter st env self classes p.queue.handled (current p.queue) fits proper
        (λ klass h. omega (
          arith,
          i.sized,
          found-positive i.table i.valid (current p.queue).object klass ok
              (i.reads (current p.queue).object ok ∙ h),
        ))
        x

  Move-ExactAfter :
      {p q : Program st realloc env objects}
      → Move st realloc env objects p q
      → Consistent q.queue
      → length q.queue.posted ≤ max_probe_length
      → Follows st realloc env objects self classes leaves returns refuses grants empty_model p
      → AllProper nothing_heard (own self q.queue.handled)
      → (AllProper nothing_heard (own self p.queue.handled)
          → ExactAfter st env self classes p.queue.handled)
      → ExactAfter st env self classes q.queue.handled
  Move-ExactAfter {p} (Program.handle world on lt ran) (split, c) few f proper x =
      handle-ExactAfter _ c.history few f proper
        (x (own-AllProper self p.queue.handled (current p.queue ∷ []) proper))
  Move-ExactAfter (Program.hook capture object flag e events on ok heard eq) c few f proper x =
      x proper
  Move-ExactAfter (Program.drop capture object flag e events on heard eq) c few f proper x =
      x proper
  Move-ExactAfter (Program.job on off) c few f proper x = x proper
  Move-ExactAfter (Program.flush off) c few f proper x = x proper
  Move-ExactAfter (Program.interrupt on flag) c few f proper x = x proper
  Move-ExactAfter (Program.end_loop on le) c few f proper x = x proper

  pub Moves-ExactAfter :
      {p : Program st realloc env objects}
      → Moves st realloc env objects (at_start st realloc env objects start) p
      → length p.queue.posted ≤ max_probe_length
      → AllProper nothing_heard (own self p.queue.handled)
      → ExactAfter st env self classes p.queue.handled
  Moves-ExactAfter Program.here few proper = none-ExactAfter st env self classes
  Moves-ExactAfter (Program.next {q = q} run move) few proper =
      let c =
        Steps-Consistent realloc law (Moves-Steps st realloc env objects (Program.next run move)) in
      let grows =
        Move-grows st realloc env objects self classes leaves returns refuses grants law empty_model
          move in
      let before : length q.queue.posted ≤ max_probe_length = omega (arith, grows, few) in
      Move-ExactAfter move c few
        (Moves-Follows st realloc env objects self classes leaves returns refuses grants law
          empty_model start fresh run before)
        proper (Moves-ExactAfter run before)

  quiet-handled : (s : System) → Consistent s → IsQuiet s → s.posted ≡ s.handled
  quiet-handled s c (off, empty) =
      idle-posted s c off
      ∙ ap (λ n. s.handled ++ take n (queue_at s.events s.events.available).base) empty
      ∙ append-nil s.handled

  -- Where `realloc` keeps a block's prefix, callbacks return and leave this capture as it is, `calloc`
  -- refuses sizes that overflow and grants arrays of fewer than 40000 entries, and the capture
  -- implements the empty view at the start: in every state that any interleaving of hooks, jobs,
  -- flushes and handlers reaches with at most 10000 events posted, in which nothing is being processed
  -- and no event waits, and if no new object was posted at the address of one that the capture had
  -- heard of and that lived, a lookup of a live address in the capture's table gives the class of the
  -- last object posted there if that one was not freed since and its class is tracked, and nothing
  -- otherwise; and the retained count is the size of the table.
  pub quiet-Reports :
      {p : Program st realloc env objects}
      → Moves st realloc env objects (at_start st realloc env objects start) p
      → length p.queue.posted ≤ max_probe_length
      → AllProper nothing_heard (own self p.queue.posted)
      → IsQuiet p.queue
      → (q : ℕ) → IsLive q
      → Reports st env self classes p.world p.queue.posted q
  quiet-Reports {p} run few proper quiet q ok =
      let c = Steps-Consistent realloc law (Moves-Steps st realloc env objects run) in
      let i =
        (Moves-Follows st realloc env objects self classes leaves returns refuses grants law
          empty_model start fresh run few).implements in
      let all_done = quiet-handled p.queue c quiet in
      let x =
        Moves-ExactAfter run few
          (subst (λ es. AllProper nothing_heard (own self es)) all_done proper) in
      subst (λ es. Reports st env self classes p.world es q) (sym all_done)
        (exact-Reports st env self classes p.world p.queue.handled _ q i x ok)
