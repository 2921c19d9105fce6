-- ===== src/Events/Survival.antt =====
-- events.c: what a garbage collection at any point leaves of the queued events.
use memory_profiler.Base.{
  refl, ℕ, zero, suc, ◌<◌, ◌≡◌, ap, ◌∙◌, inl, inr, Bool, true, false, List, [], ◌∷◌, map, arith,
  length, get_or, subst, ◌⊎◌,
}
use memory_profiler.Ruby.{Ruby}
use memory_profiler.Queue.{Queue, Realloc, KeepsBlock, contents}
use mathlib.Core.Path.{ap₂}
use memory_profiler.Events.Collect.{kind_cases}
use memory_profiler.Events.{Side, EventType, Event, Events, queue_at, put_queue, cleared_event}
use memory_profiler.Events.Receive.{IsSplit}
use memory_profiler.Events.Collect.{
  is_none, mark_event, mark_events, mark_queue, mark, compact_event, compact_queue, compact,
  contents-compact_queue,
}
use memory_profiler.Events.System.{System, Steps, initial}
use memory_profiler.Events.History.{Steps-Consistent, put_processed}
use memory_profiler.Base.Marked.{Among, Among-append_left, Among-append_right}

-- What becomes of an object's address, which only an event of a new object holds as a reference.
abbrev pub moved_object : (ℕ → ℕ) → EventType → ℕ → ℕ
moved_object location EventType.newobj object = location object
moved_object location EventType.freeobj object = object
moved_object location EventType.none object = object

-- An event after a collection that moves the objects: it is of the same type, and its references are
-- the new addresses.
abbrev pub moved_event : (ℕ → ℕ) → Event → Event
moved_event location e = record {
  kind = e.kind;
  capture = location e.capture;
  klass = location e.klass;
  object = moved_object location e.kind e.object;
}

compact_event-eq-moved :
    (location : ℕ → ℕ) (e : Event) → compact_event location false e ≡ moved_event location e
compact_event-eq-moved location e = elim (kind_cases e.kind) [
  | inl k ↦ rw k refl
  | inr (inl k) ↦ rw k refl
  | inr (inr k) ↦ rw k refl
]

map-moved :
    (location : ℕ → ℕ) (es : List Event)
    → map (compact_event location false) es ≡ map (moved_event location) es
map-moved location [] = refl
map-moved location (e ∷ es) =
    ap₂ (λ x l. x ∷ l) (compact_event-eq-moved location e) (map-moved location es)

-- The words that an event refers to: its capture, its class and, for a new object, the object.
abbrev pub Refers : Event → ℕ → Type 0
Refers e v = (v ≡ e.capture) ⊎ (v ≡ e.klass) ⊎ ((e.kind ≡ EventType.newobj) × (v ≡ e.object))

Refers-marked : (e : Event) (v : ℕ) → Refers e v → Among v (mark_event false e)
Refers-marked e v (inl h) = ground (arith, h)
Refers-marked e v (inr (inl h)) = ground (arith, h)
Refers-marked e v (inr (inr (k, h))) = rw k (ground (arith, h))

module _ ⦃rb : Ruby⦄ where
  put_waiting :
      (events : Events) (q : Queue Event)
      → IsSplit events
      → let r = put_queue events events.available q in
        (queue_at r r.available ≡ q)
        × (queue_at r r.processing ≡ queue_at events events.processing)
        × IsSplit r
  put_waiting events q (inl (a, p)) = (ground arith, ground arith, inl (ground arith, ground arith))
  put_waiting events q (inr (a, p)) = (ground arith, ground arith, inr (ground arith, ground arith))

  module _ (realloc : Realloc Event) (law : KeepsBlock realloc) {s : System}
      (run : Steps realloc initial s) where
    -- Where `realloc` keeps a block's prefix and `nil` does not move: a compaction in any state that
    -- some interleaving reaches, also in the middle of a run, puts in the place of every event of both
    -- queues the one of the same type with the new addresses of its capture, its class and, for a
    -- new object, its object.
    pub compact-contents :
        (location : ℕ → ℕ)
        → location rb.q_nil ≡ rb.q_nil
        → let r = compact location s.events in
          (contents (queue_at r r.available)
            ≡ map (moved_event location) (contents (queue_at s.events s.events.available)))
          × (contents (queue_at r r.processing)
              ≡ map (moved_event location) (contents (queue_at s.events s.events.processing)))
    unfolding compact
    compact-contents location fixed =
        let (split, c) = Steps-Consistent realloc law run in
        let a = queue_at s.events s.events.available in
        let p = queue_at s.events s.events.processing in
        let (here_, there_, split') = put_waiting s.events (compact_queue location a false) split in
        let first = put_queue s.events s.events.available (compact_queue location a false) in
        let put =
          put_processed first (compact_queue location (queue_at first first.processing) true)
            split' in
        (
          ap contents (put.1 ∙ here_)
              ∙ contents-compact_queue location a false fixed c.fresh
              ∙ map-moved location (contents a),
          ap contents (put.0 ∙ ap (λ q. compact_queue location q true) there_)
              ∙ contents-compact_queue location p true fixed c.clean
              ∙ map-moved location (contents p),
        )

  marks_one :
      (skip_none : Bool) (e : Event) (v : ℕ)
      → is_none e.kind ≡ false
      → Among v (mark_event false e)
      → Among v (mark_event skip_none e)
  marks_one true e v h m = rw h m
  marks_one false e v h m = m

  marks_all :
      (skip_none : Bool) (es : List Event) (i v : ℕ)
      → i < length es
      → is_none (get_or es i cleared_event).kind ≡ false
      → Among v (mark_event false (get_or es i cleared_event))
      → Among v (mark_events skip_none es)
  unfolding mark_events
  marks_all skip_none [] i v lt h m = elim lt [ ]
  marks_all skip_none (e ∷ es) zero v lt h m =
      Among-append_left v (mark_event skip_none e) (mark_events skip_none es)
        (marks_one skip_none e v h m)
  marks_all skip_none (e ∷ es) (suc i) v lt h m =
      Among-append_right v (mark_event skip_none e) (mark_events skip_none es)
        (marks_all skip_none es i v (omega arith) h m)

  -- Every event of either queue that is not overwritten has its capture, its class and, for a new
  -- object, the object marked, so that none is collected while the event is queued.
  pub mark-events :
      (events : Events) (side : Side) (i v : ℕ)
      → (side ≡ events.available) ⊎ (side ≡ events.processing)
      → let es = contents (queue_at events side) in
        i < length es
        → is_none (get_or es i cleared_event).kind ≡ false
        → Refers (get_or es i cleared_event) v
        → Among v (mark events)
  unfolding mark mark_queue
  mark-events events side i v which lt h m =
      let a = queue_at events events.available in
      let p = queue_at events events.processing in
      let es = contents (queue_at events side) in
      let all : (skip_none : Bool) → Among v (mark_events skip_none es) = λ skip_none.
        marks_all skip_none es i v lt h (Refers-marked (get_or es i cleared_event) v m) in
      elim which [
        | inl e ↦
            Among-append_left v (mark_queue a false) (mark_queue p true)
              (subst (λ k. Among v (mark_queue (queue_at events k) false)) e (all false))
        | inr e ↦
            Among-append_right v (mark_queue a false) (mark_queue p true)
              (subst (λ k. Among v (mark_queue (queue_at events k) true)) e (all true))
      ]
