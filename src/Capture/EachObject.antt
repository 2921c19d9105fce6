-- ===== src/Capture/EachObject.antt =====
-- capture.c: `each_object` as a whole, with the garbage collector's switch and a block that may do
-- anything.
use memory_profiler.Base.{
  ℕ, zero, suc, ◌+◌, Bool, true, false, not, Option, none, some, ◌==◌, if◌then◌else◌, ltb, get_or,
}
use memory_profiler.Ruby.{Ruby, StTable}
use memory_profiler.Queue.{Realloc}
use memory_profiler.Events.{Event, Events, Attempt, process_all}
use memory_profiler.Table.Layout.{Entry, is_occupied, zeroed}
use memory_profiler.Capture.State.{World, Surroundings}
use memory_profiler.Capture.Process.{handle}
use memory_profiler.Capture.Each.{allocations_of, selects}

module _ ⦃rb : Ruby⦄ (st : StTable) (realloc : Realloc Event) (env : Surroundings st)
    (S : Type 0) where
  -- Whether the garbage collector is enabled, the queue, the captures, and the rest of the process. The
  -- callbacks that the queue runs leave the collector's switch alone.
  pub record Process : Type 0 where
    pub gc_enabled : Bool
    pub events : Events
    pub world : World st
    pub rest : S

  -- A call of the block: the process after it, and whether it leaves by an exception or a `break`.
  abbrev pub Block : Type 0
  Block = ℕ → ℕ → Process → Process × Bool

  -- How `each_object` ends: it returns, the block leaves it, `process_all` raises, it follows NULL, or
  -- the rounds are used up.
  pub data Iterated : Type 0 where
    iterated : Process → Iterated
    left_by : Process → Iterated
    recursive : Process → Iterated
    crashed : Iterated
    exhausted : Iterated

  module _ (block : Block) (self : ℕ) where
    -- One entry: it is skipped, or the block is called with it.
    unfoldable pub visit : ℕ → Process → Entry → Process × Bool
    visit filter p entry =
        let tracked = (p.world.captures self).tracked in
        if not (is_occupied entry.object)
        then (p, false)
        else if not (selects st tracked filter entry)
        then (p, false)
        else block entry.object (allocations_of st tracked entry.klass) p

    -- The loop of `each_object_body`, with the number of rounds that are left. Table and capacity are
    -- read again in each round.
    unfoldable pub each_loop : ℕ → ℕ → ℕ → Process → Iterated
    each_loop zero filter i p = exhausted
    each_loop (suc rounds) filter i p = elim (p.world.captures self).states [
      | none ↦ crashed
      | some t ↦
          if not (ltb i t.capacity)
          then iterated p
          else let (p', left) = visit filter p (get_or t.entries i zeroed) in
            elim left [ true ↦ left_by p' | false ↦ each_loop rounds filter (i + 1) p' ]
    ]

    -- `each_object_body`; without a table there is nothing to iterate.
    unfoldable pub each_object_body : ℕ → ℕ → Process → Iterated
    unfolding each_loop visit
    each_object_body rounds filter p = elim (p.world.captures self).states [
      | none ↦ iterated p
      | some t ↦ each_loop rounds filter 0 p
    ]

    -- `each_object_ensure`, which `ensured` runs when the body returns and when it is left.
    unfoldable pub each_object_ensure : Bool → Process → Process
    each_object_ensure gc_was_enabled p =
        if gc_was_enabled then record p { gc_enabled = true } else p

    unfoldable pub ensured : Bool → Iterated → Iterated
    ensured gc_was_enabled (iterated p) = iterated (each_object_ensure gc_was_enabled p)
    ensured gc_was_enabled (left_by p) = left_by (each_object_ensure gc_was_enabled p)
    ensured gc_was_enabled (recursive p) = recursive p
    ensured gc_was_enabled crashed = crashed
    ensured gc_was_enabled exhausted = exhausted

    unfoldable pub after_flush :
        ℕ → ℕ → Bool → Process → Attempt (Events × Option (World st)) → Iterated
    unfolding each_object_body ensured each_object_ensure
    after_flush rounds filter gc_was_enabled p Attempt.recursive_call = recursive p
    after_flush rounds filter gc_was_enabled p (Attempt.finished (events, none)) = crashed
    after_flush rounds filter gc_was_enabled p (Attempt.finished (events, some world)) =
        ensured gc_was_enabled
          (each_object_body rounds filter (record p { events = events; world = world }))

    -- The wrapper that is asked for: `nil` where no class is given, `none` where it is not tracked.
    unfoldable pub filter_of : Process → ℕ → Option ℕ
    filter_of p klass =
        if klass == rb.q_nil then some rb.q_nil else st.lookup (p.world.captures self).tracked klass

    unfoldable pub each_object : ℕ → ℕ → Process → Iterated
    unfolding after_flush filter_of
    each_object rounds klass p = elim (filter_of p klass) [
      | none ↦ iterated p
      | some filter ↦
          after_flush rounds filter p.gc_enabled (record p { gc_enabled = false })
            (process_all realloc (handle st env) p.events (some p.world))
    ]
