-- ===== src/Events/Wakeup.antt =====
-- events.c: whether Ruby is to run the postponed job while events wait.
use memory_profiler.Base.{
  ◌≡◌, refl, sym, ap, ◌∙◌, ◌⊎◌, inl, inr, Bool, true, false, [], arith, subst,
}
use memory_profiler.Ruby.{Ruby}
use memory_profiler.Queue
use memory_profiler.Queue.{Queue, Realloc, KeepsBlock, contents}
use memory_profiler.Queue.Push.{write_pushed}
use memory_profiler.Events.{
  Event, Events, queue_at, put_queue, cleared_event, enqueue, enqueued, new,
}
use memory_profiler.Events.Arrival.{Side-cases, Arrives, refused, enqueue-Arrives}
use memory_profiler.Events.System.{
  System, Steps, here, next, post, refuse, job, flush, interrupt, handled_one, end_loop, initial,
}
use memory_profiler.Events.History.{Steps-Consistent, put_processed}
use memory_profiler.Events.Accounts.{Consistent}
use memory_profiler.Events.Progress.{waiting, put_triggered, nothing_remains}

module _ ⦃rb : Ruby⦄ (realloc : Realloc Event) where
  -- The job does not run while the queue is being processed.
  abbrev pub Undisturbed : {s t : System} → Steps realloc s t → Type 0
  Undisturbed here = Unit {0}
  Undisturbed (next run (interrupt _ _)) = ⊥
  Undisturbed (next run (post _ _ _ _)) = Undisturbed run
  Undisturbed (next run (refuse _ _ _)) = Undisturbed run
  Undisturbed (next run (job _ _)) = Undisturbed run
  Undisturbed (next run (flush _)) = Undisturbed run
  Undisturbed (next run (handled_one _ _)) = Undisturbed run
  Undisturbed (next run (end_loop _ _)) = Undisturbed run

  enqueued-triggered :
      (events : Events) (r : Queue Event × Bool)
      → ((enqueued realloc events r).1 ≡ true → (enqueued realloc events r).0.triggered ≡ true)
        × ((enqueued realloc events r).1 ≡ false
            → (enqueued realloc events r).0.triggered ≡ events.triggered)
  unfolding enqueued
  enqueued-triggered events (q, true) = ((λ _. refl), (λ h. absurd (ground (arith, h))))
  enqueued-triggered events (q, false) =
      ((λ h. absurd (ground (arith, h))), (λ _. ground (arith, Side-cases events.available)))

  enqueue-triggered :
      (events after : Events) (e : Event) (b : Bool)
      → enqueue realloc events e ≡ (after, b)
      → (b ≡ true → after.triggered ≡ true) × (b ≡ false → after.triggered ≡ events.triggered)
  unfolding enqueue
  enqueue-triggered events after e b eq =
      let r = write_pushed e (Queue.push realloc (queue_at events events.available)) in
      let (f, g) = enqueued-triggered events r in
      (
        (λ h.
            sym (ap (λ (x : Events × Bool). x.0.triggered) eq)
            ∙ f (ap (λ (x : Events × Bool). x.1) eq ∙ h)),
        (λ h.
            sym (ap (λ (x : Events × Bool). x.0.triggered) eq)
            ∙ g (ap (λ (x : Events × Bool). x.1) eq ∙ h)),
      )

  module _ (law : KeepsBlock realloc) where
    abbrev pub Wakes : System → Type 0
    Wakes s = (waiting s ≡ []) ⊎ (s.events.triggered ≡ true)

    refused_same :
        (events after : Events) (e : Event)
        → Arrives realloc law events e (after, false)
        → queue_at after after.available ≡ queue_at events events.available
    refused_same events after e (refused _ same) = same

    refuse-Wakes :
        (s : System) (e : Event) (events : Events)
        → Consistent s
        → enqueue realloc s.events e ≡ (events, false)
        → Wakes s
        → Wakes (record s { events = events })
    refuse-Wakes s e events c eq (inl quiet) = inl (
        ap contents (
          refused_same s.events events e (
            subst (Arrives realloc law s.events e) eq
              (enqueue-Arrives realloc law s.events e c.1.valid)))
        ∙ quiet)
    refuse-Wakes s e events c eq (inr due) =
        inr ((enqueue-triggered s.events events e false eq).1 refl ∙ due)

    kept-Wakes :
        (s : System) (events : Events)
        → queue_at events events.available ≡ queue_at s.events s.events.available
        → events.triggered ≡ s.events.triggered
        → Wakes s
        → (contents (queue_at events events.available) ≡ []) ⊎ (events.triggered ≡ true)
    kept-Wakes s events e f (inl quiet) = inl (ap contents e ∙ quiet)
    kept-Wakes s events e f (inr due) = inr (f ∙ due)

    -- Where `realloc` keeps a block's prefix, and Ruby never runs the job while the queue is being
    -- processed: whenever events wait, the job is triggered.
    pub Undisturbed-Wakes : {s : System} (run : Steps realloc initial s) → Undisturbed run → Wakes s
    unfolding Queue.write new Queue.initialize
    Undisturbed-Wakes here quiet = inl refl
    Undisturbed-Wakes (next run (interrupt on flag)) quiet = elim quiet [ ]
    Undisturbed-Wakes (next run (post e events kind eq)) quiet =
        inr ((enqueue-triggered _ events e true eq).0 refl)
    Undisturbed-Wakes (next {t = s} run (refuse e events eq)) quiet =
        refuse-Wakes s e events (Steps-Consistent realloc law run) eq (Undisturbed-Wakes run quiet)
    Undisturbed-Wakes (next {t = s} run (job due off)) quiet =
        inl (nothing_remains realloc law s (Steps-Consistent realloc law run) off)
    Undisturbed-Wakes (next {t = s} run (flush off)) quiet =
        inl (nothing_remains realloc law s (Steps-Consistent realloc law run) off)
    Undisturbed-Wakes (next {t = s} run (handled_one on lt)) quiet =
        let split = (Steps-Consistent realloc law run).0 in
        let w = Queue.write (queue_at s.events s.events.processing) s.index cleared_event in
        kept-Wakes s (put_queue s.events s.events.processing w) (put_processed s.events w split).1
          (put_triggered realloc law s.events w split) (Undisturbed-Wakes run quiet)
    Undisturbed-Wakes (next {t = s} run (end_loop on le)) quiet =
        let split = (Steps-Consistent realloc law run).0 in
        let w = Queue.clear (queue_at s.events s.events.processing) in
        kept-Wakes s (put_queue s.events s.events.processing w) (put_processed s.events w split).1
          (put_triggered realloc law s.events w split) (Undisturbed-Wakes run quiet)
