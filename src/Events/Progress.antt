-- ===== src/Events/Progress.antt =====
-- events.c: whether events that wait are handled at last.
use memory_profiler.Base.{
  ℕ, zero, suc, ◌+◌, ◌-◌, ◌≤◌, ◌<◌, ◌≡◌, refl, sym, ap, ◌∙◌, inl, inr, true, false, List, [], ◌∷◌,
  ◌++◌, arith, take, drop, drop_all, Bool-cases,
}
use mathlib.Core.List.{append-nil}
use memory_profiler.Ruby.{Ruby}
use memory_profiler.Queue
use memory_profiler.Queue.{Queue, Realloc, KeepsBlock, IsValid, contents}
use memory_profiler.Events.{Event, Events, queue_at, put_queue, cleared_event}
use memory_profiler.Events.Receive.{IsSplit}
use memory_profiler.Events.System.{
  System, Steps, here, next, flush, interrupt, handled_one, end_loop, swapped, taken, ended,
  cleared, current, initial,
}
use memory_profiler.Events.History.{Step-Consistent, Steps-Consistent, put_processed}
use memory_profiler.Events.Accounts.{Consistent}

-- The events that wait for the next run.
abbrev pub waiting : System → List Event
waiting s = contents (queue_at s.events s.events.available)

module _ ⦃rb : Ruby⦄ (realloc : Realloc Event) where
  pub Steps-trans : {s t u : System} → Steps realloc s t → Steps realloc t u → Steps realloc s u
  Steps-trans r here = r
  Steps-trans r (next q step) = next (Steps-trans r q) step

  module _ (law : KeepsBlock realloc) where
    -- The rest of a run of `process_queue` in which no hook is called: the queue of new events stays,
    -- and so does the state of the job.
    pub record Drained (s t : System) : Type 0 where
      pub steps : Steps realloc s t
      pub idle : t.events.processing_flag ≡ false
      pub same : queue_at t.events t.events.available ≡ queue_at s.events s.events.available
      pub posted : t.posted ≡ s.posted
      pub triggered : t.events.triggered ≡ s.events.triggered
      pub consistent : Consistent t

    pub put_triggered :
        (events : Events) (q : Queue Event)
        → IsSplit events
        → (put_queue events events.processing q).triggered ≡ events.triggered
    put_triggered events q (inl (a, p)) = ground arith
    put_triggered events q (inr (a, p)) = ground arith

    drain :
        (n : ℕ) (s : System)
        → Consistent s
        → s.events.processing_flag ≡ true
        → s.index + n ≡ (queue_at s.events s.events.processing).count
        → (t : System) × Drained s t
    unfolding Queue.write
    drain zero s (split, c) on e =
        let q = queue_at s.events s.events.processing in
        let put = put_processed s.events (Queue.clear q) split in
        let le : q.count ≤ s.index = omega arith in
        let step = end_loop on le in
        (
          record s { events = ended s.events },
          record {
            steps = next here step;
            idle = refl;
            same = put.1;
            posted = refl;
            triggered = put_triggered s.events (Queue.clear q) split;
            consistent = Step-Consistent realloc law step (split, c);
          },
        )
    drain (suc n) s (split, c) on e =
        let q = queue_at s.events s.events.processing in
        let w = Queue.write q s.index cleared_event in
        let put = put_processed s.events w split in
        let lt : s.index < q.count = omega arith in
        let step = handled_one on lt in
        let u : System = record s {
          events = cleared s.events s.index;
          index = suc s.index;
          handled = s.handled ++ current s ∷ [];
        } in
        let (t, d) =
          drain n u (Step-Consistent realloc law step (split, c)) (put.3 ∙ on)
            (omega (arith, ap (λ (x : Queue Event). x.count) put.0)) in
        (
          t,
          record {
            steps = Steps-trans (next here step) d.steps;
            idle = d.idle;
            same = d.same ∙ put.1;
            posted = d.posted;
            triggered = d.triggered ∙ put_triggered s.events w split;
            consistent = d.consistent;
          },
        )

    drain_rest :
        (s : System) → Consistent s → s.events.processing_flag ≡ true → (t : System) × Drained s t
    drain_rest s c on =
        drain ((queue_at s.events s.events.processing).count - s.index) s c on
          (omega (arith, c.1.within on))

    pub nothing_remains :
        (s : System)
        → Consistent s
        → s.events.processing_flag ≡ false
        → contents (queue_at s.events s.events.processing) ≡ []
    nothing_remains s c off =
        let q = queue_at s.events s.events.processing in ap (λ n. take n q.base) (c.1.idle off)

    -- One flush of an idle queue.
    flush_all :
        (s : System)
        → Consistent s
        → s.events.processing_flag ≡ false
        → (t : System) × Steps realloc s t
          × (t.posted ≡ s.posted)
          × (t.handled ≡ s.posted)
          × (t.events.processing_flag ≡ false)
    flush_all s c off =
        let step = flush off in
        let u : System = record s { events = swapped s.events; index = 0 } in
        let (t, d) = drain_rest u (Step-Consistent realloc law step c) refl in
        let none_waits : waiting t ≡ [] = ap contents d.same ∙ nothing_remains s c off in
        let empty = nothing_remains t d.consistent d.idle in
        (
          t,
          Steps-trans (next here step) d.steps,
          d.posted,
          sym (
              sym d.posted
              ∙ d.consistent.1.history
              ∙ ap (λ l. t.handled ++ (drop t.index l ++ waiting t)) empty
              ∙ ap (λ l. t.handled ++ (l ++ waiting t)) (drop_all t.index [] (omega arith))
              ∙ ap (λ l. t.handled ++ l) none_waits
              ∙ append-nil t.handled),
          d.idle,
        )

    -- Where `realloc` keeps a block's prefix: from every state that some interleaving reaches, also in
    -- the middle of a run, there is a way to a state in which nothing is being processed and all the
    -- events that were accepted before have been handled, in the order in which they came.
    pub Steps-handled :
        {s : System}
        → Steps realloc initial s
        → (t : System) × Steps realloc s t
          × (t.posted ≡ s.posted)
          × (t.handled ≡ s.posted)
          × (t.events.processing_flag ≡ false)
    Steps-handled {s} run =
        let c = Steps-Consistent realloc law run in
        elim (Bool-cases s.events.processing_flag) [
          | inr off ↦ flush_all s c off
          | inl on ↦
              let (u, d) = drain_rest s c on in
              let (t, steps, posted, handled, idle) = flush_all u d.consistent d.idle in
              (t, Steps-trans d.steps steps, posted ∙ d.posted, handled ∙ d.posted, idle)
        ]

    -- Where `realloc` keeps a block's prefix: if Ruby runs the job while the queue is being processed
    -- and no hook is called after that, the run ends in a state in which the events that waited still
    -- wait, and the job is not triggered, so that no step but a new event or a flush handles them.
    pub interrupt-Stranded :
        {s : System}
        → Steps realloc initial s
        → s.events.processing_flag ≡ true
        → s.events.triggered ≡ true
        → (t : System) × Steps realloc s t
          × (t.events.processing_flag ≡ false)
          × (t.events.triggered ≡ false)
          × (waiting t ≡ waiting s)
    interrupt-Stranded {s} run on due =
        let step = interrupt due on in
        let c = Step-Consistent realloc law step (Steps-Consistent realloc law run) in
        let (t, d) = drain_rest (record s { events = taken s.events }) c on in
        (t, Steps-trans (next here step) d.steps, d.idle, d.triggered, ap contents d.same)
