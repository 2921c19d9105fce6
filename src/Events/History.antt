-- ===== src/Events/History.antt =====
-- events.c: the history of the events, over any interleaving of hooks, jobs and handlers.
use memory_profiler.Base.{
  ℕ, ◌≡◌, refl, sym, inl, inr, Bool, true, false, List, [], ◌∷◌, ◌++◌, arith, subst,
}
use memory_profiler.Ruby.{Ruby}
use memory_profiler.Queue
use memory_profiler.Queue.{Queue, Realloc, KeepsBlock, IsValid, contents}
use memory_profiler.Events.{Event, Events, queue_at, put_queue, cleared_event, new}
use memory_profiler.Events.Receive.{IsSplit, Received, enqueue-Received, Received-IsSplit}
use memory_profiler.Events.Collect.{is_none}
use memory_profiler.Events.Arrival.{Arrives, accepted, refused, enqueue-Arrives}
use memory_profiler.Events.System.{
  System, Step, Steps, here, next, post, refuse, job, flush, interrupt, handled_one, end_loop,
  swapped, taken, initial,
}
use memory_profiler.Events.Accounts.{
  Accounts, Consistent, post-Accounts, swap-Accounts, handle-Accounts, end-Accounts,
}

module _ ⦃rb : Ruby⦄ where
  initial-Consistent : Consistent initial
  unfolding new Queue.initialize
  initial-Consistent = (
    inl (refl, refl),
    record {
      valid = record {
        width = refl;
        bound = omega arith;
        sized = omega arith;
        small = omega arith;
        fits = omega arith;
      };
      processed_valid = record {
        width = refl;
        bound = omega arith;
        sized = omega arith;
        small = omega arith;
        fits = omega arith;
      };
      within = λ h. omega arith;
      idle = λ _. refl;
      history = refl;
      fresh = tt;
      clean = tt;
    },
  )

  Accounts-along :
      {flag flag' : Bool} {index : ℕ} {p p' a a' : Queue Event} {posted handled : List Event}
      → flag' ≡ flag
      → p' ≡ p
      → a' ≡ a
      → Accounts flag index p a posted handled
      → Accounts flag' index p' a' posted handled
  Accounts-along {flag = flag} {index = index} {p = p} {p' = p'} {a = a} {a' = a'} {posted = posted}
        {handled = handled} e f g c =
      subst (λ x. Accounts x index p' a' posted handled) (sym e)
        (subst (λ x. Accounts flag index x a' posted handled) (sym f)
          (subst (λ x. Accounts flag index p x posted handled) (sym g) c))

  -- What a write to the processed queue leaves in the record.
  pub put_processed :
      (events : Events) (q : Queue Event)
      → IsSplit events
      → let r = put_queue events events.processing q in
        (queue_at r r.processing ≡ q)
        × (queue_at r r.available ≡ queue_at events events.available)
        × IsSplit r
        × (r.processing_flag ≡ events.processing_flag)
  put_processed events q (inl (a, p)) =
      (ground arith, ground arith, inl (ground arith, ground arith), ground arith)
  put_processed events q (inr (a, p)) =
      (ground arith, ground arith, inr (ground arith, ground arith), ground arith)

  pub swapped-IsSplit : (events : Events) → IsSplit events → IsSplit (swapped events)
  swapped-IsSplit events (inl (a, p)) = inr (p, a)
  swapped-IsSplit events (inr (a, p)) = inl (p, a)

  module _ (realloc : Realloc Event) (law : KeepsBlock realloc) where
    post-Consistent :
        (s : System) (e : Event) (events : Events)
        → is_none e.kind ≡ false
        → Consistent s
        → Arrives realloc law s.events e (events, true)
        → Received realloc s.events events (e ∷ [])
        → Consistent (record s { events = events; posted = s.posted ++ e ∷ [] })
    post-Consistent s e events kind (split, c) (accepted _ v same) r = (
      Received-IsSplit realloc s.events events (e ∷ []) r split,
      Accounts-along r.flag r.untouched refl
          (post-Accounts c e (queue_at events events.available) kind v same),
    )

    refuse-Consistent :
        (s : System) (e : Event) (events : Events)
        → Consistent s
        → Arrives realloc law s.events e (events, false)
        → Received realloc s.events events (e ∷ [])
        → Consistent (record s { events = events })
    refuse-Consistent s e events (split, c) (refused _ same) r = (
      Received-IsSplit realloc s.events events (e ∷ []) r split,
      Accounts-along r.flag r.untouched same c,
    )

    pub Step-Consistent : {s t : System} → Step realloc s t → Consistent s → Consistent t
    Step-Consistent {s} (post e events kind eq) (split, c) =
        post-Consistent s e events kind (split, c)
          (subst (Arrives realloc law s.events e) eq
            (enqueue-Arrives realloc law s.events e c.valid))
          (subst (λ r. Received realloc s.events r.0 (e ∷ [])) eq
            (enqueue-Received realloc s.events e split))
    Step-Consistent {s} (refuse e events eq) (split, c) =
        refuse-Consistent s e events (split, c)
          (subst (Arrives realloc law s.events e) eq
            (enqueue-Arrives realloc law s.events e c.valid))
          (subst (λ r. Received realloc s.events r.0 (e ∷ [])) eq
            (enqueue-Received realloc s.events e split))
    Step-Consistent {s} (job on off) (split, c) =
        (swapped-IsSplit (taken s.events) split, swap-Accounts c off)
    Step-Consistent {s} (flush off) (split, c) =
        (swapped-IsSplit s.events split, swap-Accounts c off)
    Step-Consistent {s} (interrupt on flag) (split, c) = (split, c)
    Step-Consistent {s} (handled_one on lt) (split, c) =
        let q = queue_at s.events s.events.processing in
        let put = put_processed s.events (Queue.write q s.index cleared_event) split in
        (put.2, Accounts-along put.3 put.0 put.1 (handle-Accounts c on lt))
    Step-Consistent {s} (end_loop on le) (split, c) =
        let q = queue_at s.events s.events.processing in
        let put = put_processed s.events (Queue.clear q) split in
        (put.2, Accounts-along refl put.0 put.1 (end-Accounts c on le))

    -- Where `realloc` keeps a block's prefix: in every state that any interleaving of hooks, jobs,
    -- flushes and handlers reaches from the new event queue, the two queues are different and well
    -- formed, the processed one is empty unless it is being processed, and the events that were
    -- accepted are exactly, and in this order, those that were handled, those that the loop has still
    -- to handle and those that wait: none is lost, repeated or overtaken.
    pub Steps-Consistent : {s : System} → Steps realloc initial s → Consistent s
    Steps-Consistent here = initial-Consistent
    Steps-Consistent (next run step) = Step-Consistent step (Steps-Consistent run)
