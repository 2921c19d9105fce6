-- ===== src/Events/Collect.antt =====
-- events.c: what the garbage collector sees of the event queues (marking, compaction, size).
use memory_profiler.Base.{
  ℕ, zero, suc, ◌≡◌, refl, ap, sym, subst, inl, inr, Bool-cases, ◌∙◌, Bool, true, false, List, [],
  ◌∷◌, ◌++◌, map, take, if◌then◌else◌, ◌&&◌, ◌⊎◌, add_size, mul_size,
}
use mathlib.Core.Path.{ap₂}
use memory_profiler.Ruby.{Ruby}
use memory_profiler.Queue
use memory_profiler.Queue.{Queue, contents}
use memory_profiler.Events.{Event, EventType, Events, queue_at, cleared_event, put_queue}

abbrev pub is_none : EventType → Bool
is_none EventType.none = true
is_none EventType.newobj = false
is_none EventType.freeobj = false

pub kind_cases :
    (kind : EventType)
    → (kind ≡ EventType.none) ⊎ (kind ≡ EventType.newobj) ⊎ (kind ≡ EventType.freeobj)
kind_cases EventType.none = inl refl
kind_cases EventType.newobj = inr (inl refl)
kind_cases EventType.freeobj = inr (inr refl)

abbrev pub is_newobj : EventType → Bool
is_newobj EventType.none = false
is_newobj EventType.newobj = true
is_newobj EventType.freeobj = false

-- The values that one event passes to `rb_gc_mark_movable`, in order.
abbrev pub mark_event : Bool → Event → List ℕ
mark_event skip_none event =
    if skip_none && is_none event.kind
    then []
    else event.capture ∷ event.klass ∷ (if is_newobj event.kind then event.object ∷ [] else [])

unfoldable pub mark_events : Bool → List Event → List ℕ
mark_events skip_none [] = []
mark_events skip_none (e ∷ es) = mark_event skip_none e ++ mark_events skip_none es

unfoldable pub mark_queue : Queue Event → Bool → List ℕ
unfolding mark_events
mark_queue queue skip_none = mark_events skip_none (contents queue)

unfoldable pub mark : Events → List ℕ
unfolding mark_queue
mark events =
    mark_queue (queue_at events events.available) false
    ++ mark_queue (queue_at events events.processing) true

-- Processed events are what the loop leaves behind it.
abbrev pub Cleared : ⦃rb : Ruby⦄ → List Event → Type 0
Cleared [] = Unit {0}
Cleared (e ∷ es) = (is_none e.kind ≡ true → e ≡ cleared_event) × Cleared es

module _ (location : ℕ → ℕ) where
  abbrev pub compact_event : Bool → Event → Event
  compact_event skip_none event = if skip_none && is_none event.kind then event else record event {
    capture = location event.capture;
    klass = location event.klass;
    object = if is_newobj event.kind then location event.object else event.object;
  }

  -- The loop over the first `count` elements of the block.
  unfoldable pub compact_first : Bool → ℕ → List Event → List Event
  compact_first skip_none zero es = es
  compact_first skip_none (suc count) [] = []
  compact_first skip_none (suc count) (e ∷ es) =
      compact_event skip_none e ∷ compact_first skip_none count es

  unfoldable pub compact_queue : Queue Event → Bool → Queue Event
  unfolding compact_first
  compact_queue queue skip_none = record queue {
    base = compact_first skip_none queue.count queue.base;
  }

  unfoldable pub compact : Events → Events
  compact events =
      let first =
        put_queue events events.available
          (compact_queue (queue_at events events.available) false) in
      put_queue first first.processing (compact_queue (queue_at first first.processing) true)

  take-compact_first :
      (skip_none : Bool) (count : ℕ) (es : List Event)
      → take count (compact_first skip_none count es)
        ≡ map (compact_event skip_none) (take count es)
  unfolding compact_first
  take-compact_first skip_none zero es = refl
  take-compact_first skip_none (suc count) [] = refl
  take-compact_first skip_none (suc count) (e ∷ es) =
      ap (λ l. compact_event skip_none e ∷ l) (take-compact_first skip_none count es)

  skip_one :
      ⦃rb : Ruby⦄ (e : Event)
      → location rb.q_nil ≡ rb.q_nil
      → (is_none e.kind ≡ true → e ≡ cleared_event)
      → compact_event true e ≡ compact_event false e
  skip_one ⦃rb⦄ e fixed c = elim (Bool-cases (is_none e.kind)) [
    | inl done ↦
        subst (λ x. compact_event true x ≡ compact_event false x) (sym (c done))
          (ap (λ w. record { kind = EventType.none; capture = w; klass = w; object = rb.q_nil })
            (sym fixed))
    | inr waits ↦ rw waits
  ]

  map-skip :
      ⦃rb : Ruby⦄ (es : List Event)
      → location rb.q_nil ≡ rb.q_nil
      → Cleared es
      → map (compact_event true) es ≡ map (compact_event false) es
  map-skip [] fixed c = refl
  map-skip ⦃rb⦄ (e ∷ es) fixed (c, cs) =
      ap₂ (λ x l. x ∷ l) (skip_one e fixed c) (map-skip es fixed cs)

  -- Where `nil` does not move and the queued events of type NONE are cleared ones: compaction updates
  -- the addresses of every queued event in place, also where it skips those of type NONE.
  pub contents-compact_queue :
      ⦃rb : Ruby⦄ (queue : Queue Event) (skip_none : Bool)
      → location rb.q_nil ≡ rb.q_nil
      → Cleared (contents queue)
      → contents (compact_queue queue skip_none) ≡ map (compact_event false) (contents queue)
  unfolding compact_queue
  contents-compact_queue queue true fixed c =
      take-compact_first true queue.count queue.base ∙ map-skip (contents queue) fixed c
  contents-compact_queue queue false fixed c = take-compact_first false queue.count queue.base

unfoldable pub free : Events → Events
free events = record events {
  queue_left = Queue.free events.queue_left;
  queue_right = Queue.free events.queue_right;
}

-- `struct_size` is `sizeof(struct Memory_Profiler_Events)`.
unfoldable pub memsize : ℕ → Events → ℕ
memsize struct_size events =
    let l = events.queue_left in
    let r = events.queue_right in
    add_size (add_size struct_size (mul_size l.capacity l.element_size))
      (mul_size r.capacity r.element_size)
