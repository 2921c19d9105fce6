-- ===== src/Events/Runs.antt =====
-- events.c: `process_queue`, with what its handlers enqueue, is one of the interleavings.
use memory_profiler.Base.{
  ℕ, zero, suc, ◌+◌, ◌≤◌, ◌<◌, ◌≡◌, refl, sym, ap, ◌∙◌, Bool, true, false, List, [], ◌∷◌, arith,
  ltb, ltb→lt, inl, inr, Bool-cases, if◌then◌else◌,
}
use memory_profiler.Ruby.{Ruby}
use memory_profiler.Queue
use memory_profiler.Queue.{Queue, Realloc, KeepsBlock}
use memory_profiler.Events.{
  Event, Events, queue_at, cleared_event, enqueue, enqueue_all, process_one, process_loop,
  process_queue,
}
use memory_profiler.Events.Receive.{IsSplit, enqueue_all-Received, Received-IsSplit}
use memory_profiler.Events.Collect.{is_none}
use memory_profiler.Events.System.{
  System, Step, Steps, here, next, post, refuse, flush, handled_one, end_loop, swapped, ended,
  cleared,
}
use memory_profiler.Events.History.{Step-Consistent, put_processed}
use memory_profiler.Events.Accounts.{Consistent}
use memory_profiler.Events.Progress.{Steps-trans}

-- The events are of a type that is handled.
abbrev pub Typed : List Event → Type 0
Typed [] = Unit {0}
Typed (e ∷ es) = (is_none e.kind ≡ false) × Typed es

module _ ⦃rb : Ruby⦄ (realloc : Realloc Event) where
  -- A run from `s` to some state with these queues and this loop variable.
  abbrev Arrived : System → Events → ℕ → Type 0
  Arrived s events index =
      (t : System) × Steps realloc s t × (t.events ≡ events) × (t.index ≡ index)

  post_one :
      (s : System) (e : Event)
      → is_none e.kind ≡ false
      → (r : Events × Bool) → enqueue realloc s.events e ≡ r
      → Arrived s r.0 s.index
  post_one s e kind (events, true) eq = (_, next here (post e events kind eq), refl, refl)
  post_one s e kind (events, false) eq = (_, next here (refuse e events eq), refl, refl)

  extend :
      {s t u : System} {events : Events} {index : ℕ}
      → Steps realloc s t
      → Step realloc t u
      → u.events ≡ events
      → u.index ≡ index
      → Arrived s events index
  extend {u = u} run step e i = (u, next run step, e, i)

  post_all :
      (s : System) (es : List Event)
      → Typed es
      → Arrived s (enqueue_all realloc s.events es) s.index
  unfolding enqueue_all
  post_all s [] k = (s, here, refl, refl)
  post_all s (e ∷ es) (k, ks) =
      let (t, run, same, index) = post_one s e k (enqueue realloc s.events e) refl in
      let (u, rest, same', index') = post_all t es ks in
      (
        u,
        Steps-trans realloc run rest,
        same' ∙ ap (λ x. enqueue_all realloc x es) same,
        index' ∙ index,
      )

  module _ {S : Type 0} (handle : Event → S → S × List Event × Bool)
      (typed : (e : Event) (x : S) → Typed (handle e x).1) where
    -- A handler runs, what it enqueues arrives, and its event is overwritten.
    one_round :
        (s : System) (x : S)
        → IsSplit s.events
        → s.events.processing_flag ≡ true
        → s.index < (queue_at s.events s.events.processing).count
        → let e = Queue.at (queue_at s.events s.events.processing) s.index cleared_event in
          Arrived s (process_one realloc handle s.events x s.index e).0 (suc s.index)
    unfolding process_one
    one_round s x split on lt =
        let e = Queue.at (queue_at s.events s.events.processing) s.index cleared_event in
        let es = (handle e x).1 in
        let after = enqueue_all realloc s.events es in
        let r = enqueue_all-Received realloc s.events es split in
        let (t, run, same, index) = post_all s es (typed e x) in
        let flag : t.events.processing_flag ≡ true =
          ap (λ (v : Events). v.processing_flag) same ∙ r.flag ∙ on in
        let room : t.index < (queue_at t.events t.events.processing).count = omega (
          arith,
          index,
          ap (λ (v : Events). (queue_at v v.processing).count) same,
          ap (λ (q : Queue Event). q.count) r.untouched,
        ) in
        extend run (handled_one flag room)
          (ap (λ v. cleared v t.index) same ∙ ap (cleared after) index) (ap suc index)

    -- What is left of a run after its loop.
    abbrev Loops : System → Events → Type 0
    Loops s events =
        (t : System) × Steps realloc s t
        × (t.events ≡ events)
        × (t.events.processing_flag ≡ true)
        × ((queue_at t.events t.events.processing).count ≤ t.index)

    one_flag :
        (s : System) (x : S) (e : Event)
        → IsSplit s.events
        → (process_one realloc handle s.events x s.index e).0.processing_flag
          ≡ s.events.processing_flag
    unfolding process_one
    one_flag s x e split =
        let es = (handle e x).1 in
        let after = enqueue_all realloc s.events es in
        let r = enqueue_all-Received realloc s.events es split in
        (put_processed after _ (Received-IsSplit realloc s.events after es r split)).3 ∙ r.flag

    one_count :
        (s : System) (x : S) (e : Event)
        → IsSplit s.events
        → let after = (process_one realloc handle s.events x s.index e).0 in
          (queue_at after after.processing).count ≡ (queue_at s.events s.events.processing).count
    unfolding process_one Queue.write
    one_count s x e split =
        let es = (handle e x).1 in
        let after = enqueue_all realloc s.events es in
        let r = enqueue_all-Received realloc s.events es split in
        ap (λ (q : Queue Event). q.count)
          ((put_processed after _ (Received-IsSplit realloc s.events after es r split)).0
            ∙ ap (λ q. Queue.write q s.index cleared_event) r.untouched)

    module _ (law : KeepsBlock realloc) where
      follow : {s t : System} → Steps realloc s t → Consistent s → Consistent t
      follow here c = c
      follow (next run step) c = Step-Consistent realloc law step (follow run c)

      all_rounds :
          (rounds : ℕ) (s : System) (x : S)
          → Consistent s
          → s.events.processing_flag ≡ true
          → (queue_at s.events s.events.processing).count ≤ s.index + rounds
          → Loops s (process_loop realloc handle rounds s.index (s.events, x)).0
      unfolding process_loop process_one
      all_rounds zero s x c on le = (s, here, refl, on, omega arith)
      all_rounds (suc rounds) s x c on le =
          let q = queue_at s.events s.events.processing in
          let e = Queue.at q s.index cleared_event in
          elim (Bool-cases (ltb s.index q.count)) [
            | inr done ↦ rw done (s, here, refl, on, ground arith)
            | inl more ↦
                let next_one = process_one realloc handle s.events x s.index e in
                let (u, run, same, index) = one_round s x c.0 on (ltb→lt s.index q.count more) in
                let flag : u.events.processing_flag ≡ true =
                  ap (λ (v : Events). v.processing_flag) same ∙ one_flag s x e c.0 ∙ on in
                let (t, rest, end, on', le') =
                  all_rounds rounds u (handle e x).0 (follow run c) flag (
                    omega (
                      arith,
                      index,
                      ap (λ (v : Events). (queue_at v v.processing).count) same,
                      one_count s x e c.0,
                    )) in
                rw more (
                  t,
                  Steps-trans realloc run rest,
                  end
                      ∙ ap
                          (λ i. (process_loop realloc handle rounds i (u.events, (handle e x).0)).0)
                          (index ∙ omega arith)
                      ∙ ap
                          (λ v.
                            (process_loop realloc handle rounds (s.index + 1)
                              (v, (handle e x).0)).0)
                          same,
                  on',
                  le',
                )
          ]

      -- Where `realloc` keeps a block's prefix and the handlers enqueue events of the two types: a call
      -- of `process_queue` in a consistent state in which nothing is being processed is an
      -- interleaving of the single steps.
      pub process_queue-Steps :
          (s : System) (x : S)
          → Consistent s
          → s.events.processing_flag ≡ false
          → (t : System) × Steps realloc s t
            × (t.events ≡ (process_queue realloc handle s.events x).0)
      unfolding process_queue process_loop process_one
      process_queue-Steps s x c off =
          let u : System = record s { events = swapped s.events; index = 0 } in
          let rounds = (queue_at u.events u.events.processing).count in
          let first : Steps realloc s u = next here (flush off) in
          let (t, run, same, on, le) = all_rounds rounds u x (follow first c) refl (omega arith) in
          let done = process_loop realloc handle rounds 0 (u.events, x) in
          let test : Bool → Events × S = λ b. if b then (s.events, x) else (ended done.0, done.1) in
          (
            record t { events = ended t.events },
            next (Steps-trans realloc first run) (end_loop on le),
            ap ended same ∙ ap (λ b. (test b).0) (sym off),
          )
