-- ===== src/Events/Arrival.antt =====
-- events.c: what one `enqueue` does to the queue that it goes to.
use memory_profiler.Base.{
  ◌≡◌, refl, sym, ap, ◌∙◌, ◌⊎◌, inl, inr, Bool, true, false, [], ◌∷◌, ◌++◌, subst, arith,
}
use memory_profiler.Queue.{Queue, Realloc, KeepsBlock, IsValid, contents}
use memory_profiler.Queue.Push.{Enqueues, push-Enqueues}
use memory_profiler.Events.{Event, Events, Side, left, right, queue_at, enqueue, enqueued}

pub Side-cases : (side : Side) → (side ≡ left) ⊎ (side ≡ right)
Side-cases left = inl refl
Side-cases right = inr refl

module _ (realloc : Realloc Event) (law : KeepsBlock realloc) where
  -- The queue of new events ends with the event, or the event was refused and nothing has changed.
  pub data Arrives (before : Events) (e : Event) : Events × Bool → Type 0 where
    accepted :
        (after : Events)
        → IsValid (queue_at after after.available)
        → contents (queue_at after after.available)
          ≡ contents (queue_at before before.available) ++ e ∷ []
        → Arrives before e (after, true)
    refused :
        (after : Events)
        → queue_at after after.available ≡ queue_at before before.available
        → Arrives before e (after, false)

  put_available :
      (events : Events) (q : Queue Event) (b : Bool)
      → let after : Events = (enqueued realloc events (q, b)).0 in
        (queue_at after after.available ≡ q) × ((enqueued realloc events (q, b)).1 ≡ b)
  unfolding enqueued
  put_available events q true = ground (arith, Side-cases events.available)
  put_available events q false = ground (arith, Side-cases events.available)

  Arrives-enqueued :
      (events : Events) (e : Event)
      → (v : IsValid (queue_at events events.available)) → (r : Queue Event × Bool)
      → Enqueues realloc law (queue_at events events.available) v e r
      → Arrives events e (enqueued realloc events r)
  unfolding enqueued
  Arrives-enqueued events e v (q, true) (inl (_, valid, same, _)) =
      let there = (put_available events q true).0 in
      accepted _ (subst IsValid (sym there) valid) (ap contents there ∙ same)
  Arrives-enqueued events e v (q, false) (inl (h, _, _, _)) = absurd (ground (arith, h))
  Arrives-enqueued events e v (q, true) (inr (h, _, _)) = absurd (ground (arith, h))
  Arrives-enqueued events e v (q, false) (inr (_, same, _)) =
      refused _ ((put_available events q false).0 ∙ same)

  pub enqueue-Arrives :
      (events : Events) (e : Event)
      → IsValid (queue_at events events.available)
      → Arrives events e (enqueue realloc events e)
  unfolding enqueue
  enqueue-Arrives events e v =
      Arrives-enqueued events e v _
        (push-Enqueues realloc law (queue_at events events.available) v e)
