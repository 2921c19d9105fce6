-- ===== src/Capture/Restoring.antt =====
-- capture.c: the garbage collector's switch after `each_object`.
use memory_profiler.Base.{
  ℕ, zero, suc, ◌+◌, ◌≡◌, refl, inl, inr, Bool, true, false, Option, none, some, ltb, arith,
  Bool-cases, Option-cases, get_or,
}
use memory_profiler.Ruby.{Ruby, StTable}
use memory_profiler.Queue.{Realloc}
use memory_profiler.Events.{Event, Events, Attempt, process_all}
use memory_profiler.Table.Layout.{Entry, is_occupied, zeroed}
use memory_profiler.Capture.State.{World, Surroundings}
use memory_profiler.Capture.Process.{handle}
use memory_profiler.Capture.Each.{selects}
use memory_profiler.Capture.Iteration.{process_all-busy}
use memory_profiler.Capture.EachObject.{
  Process, Block, Iterated, iterated, left_by, recursive, crashed, exhausted, visit, each_loop,
  each_object_body, each_object_ensure, ensured, after_flush, filter_of, each_object,
}

module _ ⦃rb : Ruby⦄ (st : StTable) (realloc : Realloc Event) (env : Surroundings st) {S : Type 0}
    (block : Block st realloc env S) (self : ℕ) where
  -- The switch of the garbage collector in the process that a body leaves.
  abbrev Keeps : Bool → Iterated st realloc env S → Type 0
  Keeps g (iterated q) = q.gc_enabled ≡ g
  Keeps g (left_by q) = q.gc_enabled ≡ g
  Keeps g (recursive q) = ⊥
  Keeps g crashed = Unit
  Keeps g exhausted = Unit

  -- How the switch stands when `each_object` ends: as before, also where the block leaves it. Only where
  -- `process_all` raises, while events are being processed, it is left switched off.
  abbrev pub Restores : Process st realloc env S → Iterated st realloc env S → Type 0
  Restores p (iterated q) = q.gc_enabled ≡ p.gc_enabled
  Restores p (left_by q) = q.gc_enabled ≡ p.gc_enabled
  Restores p (recursive q) = (q.gc_enabled ≡ false) × (p.events.processing_flag ≡ true)
  Restores p crashed = Unit
  Restores p exhausted = Unit

  module _
      (keeps : (object allocations : ℕ) (p : Process st realloc env S)
        → (block object allocations p).0.gc_enabled ≡ p.gc_enabled) where
    visit-keeps :
        (filter : ℕ) (p : Process st realloc env S) (e : Entry)
        → (visit st realloc env S block self filter p e).0.gc_enabled ≡ p.gc_enabled
    unfolding visit
    visit-keeps filter p e = elim (Bool-cases (is_occupied e.object)) [
      | inr hole ↦ rw hole refl
      | inl used ↦ elim (Bool-cases (selects st (p.world.captures self).tracked filter e)) [
        | inr other ↦ rw (used, other) refl
        | inl own ↦ rw (used, own) (keeps e.object _ p)
      ]
    ]

    each_loop-Keeps :
        (rounds filter i : ℕ) (p : Process st realloc env S)
        → Keeps p.gc_enabled (each_loop st realloc env S block self rounds filter i p)
    unfolding each_loop
    each_loop-Keeps zero filter i p = tt
    each_loop-Keeps (suc rounds) filter i p = elim (Option-cases (p.world.captures self).states) [
      | inl gone ↦ rw (gone, each_loop) tt
      | inr (t, there) ↦ elim (Bool-cases (ltb i t.capacity)) [
        | inr over ↦ rw (there, over, each_loop) refl
        | inl more ↦
            let e = get_or t.entries i zeroed in
            let r = visit st realloc env S block self filter p e in
            let same : r.0.gc_enabled ≡ p.gc_enabled = visit-keeps filter p e in
            let rest = each_loop-Keeps rounds filter (i + 1) r.0 in
            elim (Bool-cases r.1) [
              | inl left ↦ rw (there, more, left, each_loop) same
              | inr stays ↦ rw (there, more, stays, each_loop) (rw same at rest)
            ]
      ]
    ]

    ensure-Restores :
        (p : Process st realloc env S) (r : Iterated st realloc env S)
        → Keeps false r
        → Restores p (ensured st realloc env S block self p.gc_enabled r)
    unfolding ensured each_object_ensure
    ensure-Restores p (iterated q) k = ground (arith, k)
    ensure-Restores p (left_by q) k = ground (arith, k)
    ensure-Restores p (recursive q) k = elim k [ ]
    ensure-Restores p crashed k = tt
    ensure-Restores p exhausted k = tt

    body-Keeps :
        (rounds filter : ℕ) (p : Process st realloc env S)
        → Keeps p.gc_enabled (each_object_body st realloc env S block self rounds filter p)
    unfolding each_object_body
    body-Keeps rounds filter p = elim (Option-cases (p.world.captures self).states) [
      | inl gone ↦ rw (gone, each_object_body) refl
      | inr (t, there) ↦ rw (there, each_object_body) (each_loop-Keeps rounds filter 0 p)
    ]

    after_flush-Restores :
        (p : Process st realloc env S) (rounds filter : ℕ)
        (r : Attempt (Events × Option (World st)))
        → (r ≡ Attempt.recursive_call → p.events.processing_flag ≡ true)
        → Restores p (
            after_flush st realloc env S block self rounds filter p.gc_enabled
              (record p { gc_enabled = false })
              r)
    unfolding after_flush
    after_flush-Restores p rounds filter Attempt.recursive_call busy = (refl, busy refl)
    after_flush-Restores p rounds filter (Attempt.finished (events, none)) busy = tt
    after_flush-Restores p rounds filter (Attempt.finished (events, some world)) busy =
        ensure-Restores p _ (
          body-Keeps rounds filter
            (record p { gc_enabled = false; events = events; world = world }))

    -- For a block that leaves the garbage collector's switch alone: where `each_object` returns and
    -- where the block leaves it, the switch is as it was before. Where the call raises because events
    -- are being processed, the switch is left off.
    pub each_object-Restores :
        (p : Process st realloc env S) (rounds klass : ℕ)
        → Restores p (each_object st realloc env S block self rounds klass p)
    unfolding each_object process_all
    each_object-Restores p rounds klass =
        elim (Option-cases (filter_of st realloc env S block self p klass)) [
          | inl untracked ↦ rw (untracked, each_object) refl
          | inr (filter, tracked) ↦
              rw (tracked, each_object)
                (after_flush-Restores p rounds filter
                  (process_all realloc (handle st env) p.events (some p.world))
                  (process_all-busy st realloc env block self p))
        ]
