-- ===== src/Events/Receive.antt =====
-- events.c: what a sequence of `enqueue` calls leaves of the two queues.
use memory_profiler.Base.{
  ◌≡◌, refl, sym, ap, ◌∙◌, ◌⊎◌, inl, inr, Bool, true, false, List, [], ◌∷◌, ◌++◌, arith,
}
use memory_profiler.Queue
use memory_profiler.Queue.{Queue, Realloc, KeepsBlock, IsValid, contents}
use memory_profiler.Queue.Push.{write_pushed}
use memory_profiler.Events.{Event, Events, left, right, queue_at, enqueue, enqueued, enqueue_all}

-- The two pointers name different queues.
abbrev pub IsSplit : Events → Type 0
IsSplit events =
    ((events.available ≡ left) × (events.processing ≡ right))
    ⊎ ((events.available ≡ right) × (events.processing ≡ left))

module _ (realloc : Realloc Event) where
  -- The reference for a run of enqueues: the elements are pushed to one queue in order.
  unfoldable pub push_all : Queue Event → List Event → Queue Event
  push_all q [] = q
  push_all q (e ∷ es) = push_all (write_pushed e (Queue.push realloc q)).0 es

  -- What the event system does while events arrive in `available`.
  pub record Received (before after : Events) (es : List Event) : Type 0 where
    pub available : after.available ≡ before.available
    pub processing : after.processing ≡ before.processing
    pub flag : after.processing_flag ≡ before.processing_flag
    pub arrived : queue_at after after.available ≡ push_all (queue_at before before.available) es
    pub untouched : queue_at after after.processing ≡ queue_at before before.processing

  enqueued-Received :
      (events : Events) (q : Queue Event) (stored : Bool) (e : Event)
      → IsSplit events
      → q ≡ (write_pushed e (Queue.push realloc (queue_at events events.available))).0
      → Received events (enqueued realloc events (q, stored)).0 (e ∷ [])
  unfolding enqueued push_all
  enqueued-Received events q true e (inl (a, p)) s = record {
    available = ground arith;
    processing = ground arith;
    flag = ground arith;
    arrived = ground arith;
    untouched = ground arith;
  }
  enqueued-Received events q true e (inr (a, p)) s = record {
    available = ground arith;
    processing = ground arith;
    flag = ground arith;
    arrived = ground arith;
    untouched = ground arith;
  }
  enqueued-Received events q false e (inl (a, p)) s = record {
    available = ground arith;
    processing = ground arith;
    flag = ground arith;
    arrived = ground arith;
    untouched = ground arith;
  }
  enqueued-Received events q false e (inr (a, p)) s = record {
    available = ground arith;
    processing = ground arith;
    flag = ground arith;
    arrived = ground arith;
    untouched = ground arith;
  }

  pub enqueue-Received :
      (events : Events) (e : Event)
      → IsSplit events
      → Received events (enqueue realloc events e).0 (e ∷ [])
  unfolding enqueue
  enqueue-Received events e split =
      let r = write_pushed e (Queue.push realloc (queue_at events events.available)) in
      enqueued-Received events r.0 r.1 e split refl

  pub Received-IsSplit : (a b : Events) (es : List Event) → Received a b es → IsSplit a → IsSplit b
  Received-IsSplit a b es r (inl (p, q)) = inl (r.available ∙ p, r.processing ∙ q)
  Received-IsSplit a b es r (inr (p, q)) = inr (r.available ∙ p, r.processing ∙ q)

  pub push_all-append :
      (q : Queue Event) (xs ys : List Event) → push_all q (xs ++ ys) ≡ push_all (push_all q xs) ys
  unfolding push_all
  push_all-append q [] ys = refl
  push_all-append q (x ∷ xs) ys = push_all-append (write_pushed x (Queue.push realloc q)).0 xs ys

  Received-append :
      (a b c : Events) (xs ys : List Event)
      → Received a b xs
      → Received b c ys
      → Received a c (xs ++ ys)
  Received-append a b c xs ys r s = record {
    available = s.available ∙ r.available;
    processing = s.processing ∙ r.processing;
    flag = s.flag ∙ r.flag;
    arrived =
        s.arrived
        ∙ ap (λ q. push_all q ys) r.arrived
        ∙ sym (push_all-append (queue_at a a.available) xs ys);
    untouched = s.untouched ∙ r.untouched;
  }

  pub enqueue_all-Received :
      (events : Events) (es : List Event)
      → IsSplit events
      → Received events (enqueue_all realloc events es) es
  unfolding enqueue_all push_all
  enqueue_all-Received events [] split = record {
    available = refl;
    processing = refl;
    flag = refl;
    arrived = refl;
    untouched = refl;
  }
  enqueue_all-Received events (e ∷ es) split =
      let one = enqueue-Received events e split in
      let next = (enqueue realloc events e).0 in
      let rest = enqueue_all-Received next es (Received-IsSplit events next (e ∷ []) one split) in
      Received-append events next (enqueue_all realloc next es) (e ∷ []) es one rest
