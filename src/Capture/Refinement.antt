-- ===== src/Capture/Refinement.antt =====
-- events.c and capture.c together: the processing of the queue implements the abstract view.
use memory_profiler.Base.{
  ℕ, suc, ◌+◌, ◌≤◌, ◌<◌, ◌≡◌, refl, ap, ◌∙◌, true, false, List, [], ◌∷◌, some, arith, length,
}
use memory_profiler.Ruby.{Ruby, StTable}
use memory_profiler.Queue.{Realloc, contents}
use memory_profiler.Events.{Event, Events, queue_at, process_queue}
use memory_profiler.Events.Drain.{handle_all, process_queue-Processed}
use memory_profiler.Events.Receive.{IsSplit}
use memory_profiler.Table.Layout.{entry_size, max_probe_length}
use memory_profiler.Table.Resize.{RefusesOverflow}
use memory_profiler.Capture.State.{World, Surroundings}
use memory_profiler.Capture.Process.{handle, from_run}
use memory_profiler.Capture.Calls.{Leaves}
use memory_profiler.Capture.Lifetime.{Returns}
use memory_profiler.Capture.Implements.{
  Model, next_event, all_events, tracks_class, Implements, same-Implements,
}
use memory_profiler.Capture.Handling.{Concerns, event-Implements}

module _ ⦃rb : Ruby⦄ (st : StTable) (env : Surroundings st) (self : ℕ) (classes : st.Table)
    (leaves : (callback klass symbol argument : ℕ) (w : World st)
      → Leaves st self (w.captures self) (env.call callback klass symbol argument w))
    (returns : (callback klass symbol argument : ℕ) (w : World st)
      → Returns st env (env.call callback klass symbol argument w))
    (refuses : RefusesOverflow env.calloc)
    (grants : (c : ℕ) → c < 40000 → env.calloc c entry_size ≡ true) where
  abbrev pub AllConcern : List Event → Type 0
  AllConcern [] = Unit {0}
  AllConcern (e ∷ es) = Concerns st env self classes leaves returns refuses grants e × AllConcern es

  handle-Implements :
      (e : Event) (w : World st) (m : Model) (n : ℕ)
      → Implements st env self classes w m n
      → n < max_probe_length
      → Concerns st env self classes leaves returns refuses grants e
      → (w' : World st) × ((handle st env e (some w)).0 ≡ some w')
        × Implements st env self classes w'
            (next_event (tracks_class st env self classes) m e)
            (suc n)
  unfolding handle
  handle-Implements e w m n i few own =
      let start : World st = record w { posted = [] } in
      let (w', ran, i') =
        event-Implements st env self classes leaves returns refuses grants e start m n
          (same-Implements st env self classes w start m n n refl (omega arith) i) few own in
      (w', ap (λ run. (from_run st env run).0) ran, i')

  handle_all-Implements :
      (realloc : Realloc Event) (es : List Event) (w : World st) (m : Model) (n : ℕ)
      → Implements st env self classes w m n
      → n + length es ≤ max_probe_length
      → AllConcern es
      → (w' : World st) × ((handle_all realloc (handle st env) es (some w)).0 ≡ some w')
        × Implements st env self classes w'
            (all_events (tracks_class st env self classes) m es)
            (n + length es)
  unfolding handle_all all_events
  handle_all-Implements realloc [] w m n i le own =
      (w, refl, same-Implements st env self classes w w m n (n + 0) refl (omega arith) i)
  handle_all-Implements realloc (e ∷ es) w m n i le (own, rest) =
      let (w', ran, i') = handle-Implements e w m n i (omega (arith, le)) own in
      let (w'', ran', i'') =
        handle_all-Implements realloc es w' (next_event (tracks_class st env self classes) m e)
          (suc n) i' (omega (arith, le)) rest in
      (
        w'',
        ap (λ s. (handle_all realloc (handle st env) es s).0) ran ∙ ran',
        same-Implements st env self classes w'' w'' _ (suc n + length es) (n + suc (length es)) refl
            (omega arith) i'',
      )

  -- For an event queue in which nothing is being processed and whose events are all of this capture
  -- and about live addresses, a capture that tracks only the classes it was told to, callbacks that
  -- return and leave the capture as it is, a `calloc` that refuses sizes that overflow and grants
  -- arrays of fewer than 40000 entries, and at most 10000 slots in use and events together:
  -- `process_queue` handles every event, and if the capture implemented an abstract map from live
  -- objects to classes with two counts before, it implements afterwards the map and the counts that
  -- the same events make of it.
  pub process_queue-Implements :
      (realloc : Realloc Event) (events : Events) (w : World st) (m : Model) (n : ℕ)
      → IsSplit events
      → events.processing_flag ≡ false
      → let q = queue_at events events.available in
        q.count ≤ length q.base
        → AllConcern (contents q)
        → n + length (contents q) ≤ max_probe_length
        → Implements st env self classes w m n
        → (w' : World st) × ((process_queue realloc (handle st env) events (some w)).1 ≡ some w')
          × Implements st env self classes w'
              (all_events (tracks_class st env self classes) m (contents q))
              (n + length (contents q))
  process_queue-Implements realloc events w m n split idle bound own le i =
      let q = queue_at events events.available in
      let done = process_queue-Processed realloc (handle st env) events (some w) split idle bound in
      let (w', ran, i') = handle_all-Implements realloc (contents q) w m n i le own in
      (w', done.state ∙ ran, i')
