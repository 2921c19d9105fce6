-- ===== src/Events/Drain.antt =====
-- events.c: the loop of `process_queue`, and what arrives in the other queue while it runs.
use memory_profiler.Base.{
  ℕ, zero, suc, ◌+◌, ◌≤◌, ◌<◌, ◌≡◌, refl, sym, ap, ◌∙◌, inl, inr, Bool, true, false, List, [], ◌∷◌,
  ◌++◌, arith, ltb, lt→ltb, length, take, drop, set, get_or, length-set, get_or-set_ne, subst,
}
use mathlib.Core.Path.{subst₂}
use mathlib.Core.List.{append-nil, append_assoc}
use memory_profiler.Ruby.{Ruby}
use memory_profiler.Queue
use memory_profiler.Queue.{Queue, Realloc, KeepsBlock, IsValid, contents}
use memory_profiler.Events.{
  Event, Events, queue_at, put_queue, enqueue_all, cleared_event, process_one, process_loop,
  process_queue,
}
use memory_profiler.Events.Receive.{
  IsSplit, push_all, Received-IsSplit, push_all-append, enqueue_all-Received,
}

module _ (realloc : Realloc Event) ⦃rb : Ruby⦄ {S : Type 0}
    (handle : Event → S → S × List Event × Bool) where
  -- The reference: the handler is run on a list of events, and what it enqueues is collected.
  unfoldable pub handle_all : List Event → S → S × List Event
  handle_all [] s = (s, [])
  handle_all (e ∷ es) s =
      let (s', new_events, raised) = handle e s in
      let (s'', later) = handle_all es s' in (s'', new_events ++ later)

  -- The state of the loop before round `index`, from the state `start` in which it began: only the
  -- events before `index` have been overwritten.
  record Drains (start : Events) (index : ℕ) (now : Events) (arrived : List Event) : Type 0 where
    available : now.available ≡ start.available
    processing : now.processing ≡ start.processing
    flag : now.processing_flag ≡ start.processing_flag
    received :
        queue_at now now.available ≡ push_all realloc (queue_at start start.available) arrived
    block : List Event
    shape : queue_at now now.processing ≡ record (queue_at start start.processing) { base = block }
    width : length block ≡ length (queue_at start start.processing).base
    ahead :
        (i : ℕ)
        → index ≤ i
        → get_or block i cleared_event
          ≡ get_or (queue_at start start.processing).base i cleared_event

  put-processing :
      (events : Events) (q : Queue Event)
      → IsSplit events
      → let r = put_queue events events.processing q in
        (queue_at r r.processing ≡ q)
        × (queue_at r r.available ≡ queue_at events events.available)
        × (r.available ≡ events.available)
        × (r.processing ≡ events.processing)
        × (r.processing_flag ≡ events.processing_flag)
  put-processing events q (inl (a, p)) = ground arith
  put-processing events q (inr (a, p)) = ground arith

  process_one-Drains :
      (start now : Events) (index : ℕ) (arrived : List Event) (s : S) (e : Event)
      → IsSplit now
      → Drains start index now arrived
      → Drains start
          (index + 1)
          (process_one realloc handle now s index e).0
          (arrived ++ (handle e s).1)
  unfolding process_one Queue.write
  process_one-Drains start now index arrived s e split d =
      let es = (handle e s).1 in
      let after = enqueue_all realloc now es in
      let r = enqueue_all-Received realloc now es split in
      let split' = Received-IsSplit realloc now after es r split in
      let q' = Queue.write (queue_at after after.processing) index cleared_event in
      let (here, there, a, p, f) = put-processing after q' split' in
      record {
        available = a ∙ r.available ∙ d.available;
        processing = p ∙ r.processing ∙ d.processing;
        flag = f ∙ r.flag ∙ d.flag;
        received =
            there
            ∙ r.arrived
            ∙ ap (λ q. push_all realloc q es) d.received
            ∙ sym (push_all-append realloc (queue_at start start.available) arrived es);
        block = set d.block index cleared_event;
        shape = here ∙ ap (λ q. Queue.write q index cleared_event) (r.untouched ∙ d.shape);
        width = length-set d.block index cleared_event ∙ d.width;
        ahead = λ i le.
            get_or-set_ne d.block index i cleared_event cleared_event (omega arith)
            ∙ d.ahead i (omega arith);
      }

  -- A copy of the events from `index` on, as the loop reads them.
  pending : List Event → ℕ → ℕ → List Event
  pending base zero index = []
  pending base (suc n) index = get_or base index cleared_event ∷ pending base n (index + 1)

  loop_reads :
      (start now : Events) (index : ℕ) (arrived : List Event)
      → Drains start index now arrived
      → index < (queue_at start start.processing).count
      → Queue.at (queue_at now now.processing) index cleared_event
        ≡ get_or (queue_at start start.processing).base index cleared_event
  unfolding Queue.at
  loop_reads start now index arrived d lt =
      ap (λ q. Queue.at q index cleared_event) d.shape
      ∙ rw (lt→ltb index (queue_at start start.processing).count lt) (d.ahead index (omega arith))

  loop_continues :
      (start now : Events) (index : ℕ) (arrived : List Event)
      → Drains start index now arrived
      → index < (queue_at start start.processing).count
      → ltb index (queue_at now now.processing).count ≡ true
  loop_continues start now index arrived d lt =
      lt→ltb _ _ (subst (λ q. index < q.count) (sym d.shape) lt)

  Drains-IsSplit :
      (start now : Events) (index : ℕ) (arrived : List Event)
      → Drains start index now arrived
      → IsSplit start
      → IsSplit now
  Drains-IsSplit start now index arrived d (inl (p, q)) = inl (d.available ∙ p, d.processing ∙ q)
  Drains-IsSplit start now index arrived d (inr (p, q)) = inr (d.available ∙ p, d.processing ∙ q)

  process_loop-Drains :
      (start : Events) (rounds index : ℕ) (now : Events) (arrived : List Event) (s : S)
      → IsSplit start
      → index + rounds ≡ (queue_at start start.processing).count
      → Drains start index now arrived
      → let es = pending (queue_at start start.processing).base rounds index in
        let r = process_loop realloc handle rounds index (now, s) in
        Drains start (index + rounds) r.0 (arrived ++ (handle_all es s).1)
        × (r.1 ≡ (handle_all es s).0)
  unfolding process_loop process_one pending handle_all
  process_loop-Drains start zero index now arrived s split end d = (
    subst₂ (λ i l. Drains start i now l) {x = index} {y = index + 0} (omega arith)
        (sym (append-nil arrived)) d,
    refl,
  )
  process_loop-Drains start (suc rounds) index now arrived s split end d =
      let lt : index < (queue_at start start.processing).count = omega arith in
      let base = (queue_at start start.processing).base in
      let e = get_or base index cleared_event in
      let split' = Drains-IsSplit start now index arrived d split in
      let one = process_one-Drains start now index arrived s e split' d in
      let rest =
        process_loop-Drains start rounds (index + 1) (process_one realloc handle now s index e).0
          (arrived ++ (handle e s).1) (handle e s).0 split (omega arith) one in
      rw (loop_continues start now index arrived d lt) (
        rw (loop_reads start now index arrived d lt) (
          subst₂
              (λ i l.
                Drains start i
                  (process_loop realloc handle rounds (index + 1)
                    (process_one realloc handle now s index e)).0
                  l)
              {x = index + 1 + rounds} {y = index + suc rounds} (omega arith)
              (append_assoc arrived (handle e s).1 _) rest.0,
          rest.1,
        ))

  swap :
      (events : Events)
      → IsSplit events
      → IsSplit (record events {
        processing_flag = true;
        available = events.processing;
        processing = events.available;
      })
  swap events (inl (a, p)) = inr (p, a)
  swap events (inr (a, p)) = inl (p, a)

  drop-cons :
      (base : List Event) (i : ℕ)
      → i < length base
      → drop i base ≡ get_or base i cleared_event ∷ drop (suc i) base
  drop-cons [] i lt = elim lt [ ]
  drop-cons (x ∷ base) zero lt = refl
  drop-cons (x ∷ base) (suc i) lt = drop-cons base i (omega arith)

  pending-drop :
      (base : List Event) (n i : ℕ) → i + n ≤ length base → pending base n i ≡ take n (drop i base)
  unfolding pending
  pending-drop base zero i le = refl
  pending-drop base (suc n) i le =
      ap (λ l. get_or base i cleared_event ∷ l)
        (pending-drop base n (i + 1) (omega arith)
          ∙ ap (λ k. take n (drop k base)) {x = i + 1} {y = suc i} (omega arith))
      ∙ ap (take (suc n)) (sym (drop-cons base i (omega arith)))

  module _ (events : Events) (s : S) (split : IsSplit events)
      (idle : events.processing_flag ≡ false)
      (bound : let q = queue_at events events.available in q.count ≤ length q.base) where
    -- What was queued, and what handling it in order gives.
    abbrev pub queued : List Event
    queued = contents (queue_at events events.available)

    abbrev pub outcome : S × List Event
    outcome = handle_all queued s

    -- The events and the rest of the world after the queue was processed.
    pub record Processed (r : Events × S) : Type 0 where
      pub state : r.1 ≡ outcome.0
      pub flag : r.0.processing_flag ≡ false
      pub swapped_available : r.0.available ≡ events.processing
      pub swapped_processing : r.0.processing ≡ events.available
      pub emptied : contents (queue_at r.0 r.0.processing) ≡ []
      pub arrived :
          queue_at r.0 r.0.available
          ≡ push_all realloc (queue_at events events.processing) outcome.1

    -- Where the two pointers name different queues, nothing is being processed and the queued events
    -- are within their block: each event that was queued is handled once and in order, also where a handler raises; what the
    -- handlers enqueue meanwhile is pushed to the other queue in order and is left for the next
    -- time; the processed queue is emptied and the flag is cleared.
    pub process_queue-Processed : Processed (process_queue realloc handle events s)
    unfolding process_queue Queue.clear push_all
    process_queue-Processed =
        let start : Events = record events {
          processing_flag = true;
          available = events.processing;
          processing = events.available;
        } in
        let split' : IsSplit start = swap events split in
        let q = queue_at events events.available in
        let begin : Drains start 0 start [] = record {
          available = refl;
          processing = refl;
          flag = refl;
          received = refl;
          block = q.base;
          shape = refl;
          width = refl;
          ahead = λ i le. refl;
        } in
        let run = process_loop-Drains start q.count 0 start [] s split' (omega arith) begin in
        let done = (process_loop realloc handle q.count 0 (start, s)).0 in
        let split'' = Drains-IsSplit start done (0 + q.count) _ run.0 split' in
        let same : pending q.base q.count 0 ≡ queued =
          pending-drop q.base q.count 0 (omega arith) in
        let here = put-processing done (Queue.clear (queue_at done done.processing)) split'' in
        rw idle (record {
          state = run.1 ∙ ap (λ l. (handle_all l s).0) same;
          flag = refl;
          swapped_available = here.2 ∙ run.0.available;
          swapped_processing = here.3 ∙ run.0.processing;
          emptied = ap contents here.0;
          arrived =
              here.1
              ∙ run.0.received
              ∙ ap (λ l. push_all realloc (queue_at events events.processing) (handle_all l s).1)
                  same;
        })
