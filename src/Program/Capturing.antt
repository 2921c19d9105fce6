-- ===== src/Program/Capturing.antt =====
-- events.c and capture.c together: at any moment each capture has taken in the events that were handled.
use native.Mathlib.Decide.{ℕ_discrete}
use memory_profiler.Base.{
  ℕ, suc, ◌≤◌, ◌<◌, ◌≡◌, sym, ap, ◌∙◌, subst, inl, inr, true, List, [], ◌∷◌, ◌++◌, arith, length,
  length-append, ◌⊎◌,
}
use memory_profiler.Ruby.{Ruby, StTable}
use memory_profiler.Queue.{Realloc, KeepsBlock}
use memory_profiler.Events.{Event}
use memory_profiler.Events.System.{current}
use memory_profiler.Events.Accounts.{Consistent}
use memory_profiler.Events.History.{Steps-Consistent}
use memory_profiler.Table.Layout.{entry_size, max_probe_length}
use memory_profiler.Table.Holds.{IsLive}
use memory_profiler.Table.Resize.{RefusesOverflow}
use memory_profiler.Capture.State.{Capture, World, Run, finished, raised, Surroundings}
use memory_profiler.Capture.Hook.{Objects}
use memory_profiler.Capture.Process.{process_event}
use memory_profiler.Capture.Calls.{Leaves}
use memory_profiler.Capture.Others.{Keeps, process_event-Keeps}
use memory_profiler.Capture.Lifetime.{Returns}
use memory_profiler.Capture.Implements.{Model, all_events, Implements, same-Implements}
use memory_profiler.Capture.Handling.{event-Implements}
use memory_profiler.Program
use memory_profiler.Program.{Program, Move, Moves, at_start}
use memory_profiler.Program.Taking.{own, taken_in, taken_in-own, taken_in-other}
use memory_profiler.Program.Moving.{
  AllLive, AllLive-append, AllLive-last, event_callback-object, Moves-Steps,
}

module _ ⦃rb : Ruby⦄ (st : StTable) (realloc : Realloc Event) (env : Surroundings st)
    (objects : Objects) (self : ℕ) (classes : st.Table)
    (leaves : (callback klass symbol argument : ℕ) (w : World st)
      → Leaves st self (w.captures self) (env.call callback klass symbol argument w))
    (returns : (callback klass symbol argument : ℕ) (w : World st)
      → Returns st env (env.call callback klass symbol argument w))
    (refuses : RefusesOverflow env.calloc)
    (grants : (c : ℕ) → c < 40000 → env.calloc c entry_size ≡ true) where
  ended_in :
      (w w' : World st) (run : Run st) (m : Model) (n : ℕ)
      → (run ≡ finished w') ⊎ (run ≡ raised w')
      → (w'' : World st) × (run ≡ finished w'') × Implements st env self classes w'' m n
      → Implements st env self classes w' m n
  ended_in w w' run m n (inl e) (w'', e', i) =
      subst (λ v. Implements st env self classes v m n) (finished-injective (sym e' ∙ e)) i
    where
      finished-injective : {a b : World st} → finished a ≡ finished b → a ≡ b
      finished-injective e = cc
  ended_in w w' run m n (inr e) (w'', e', i) = absurd (ground (arith, sym e' ∙ e))

  kept_in :
      (w' : World st) (c : Capture st) (run : Run st)
      → (run ≡ finished w') ⊎ (run ≡ raised w')
      → Keeps st env self leaves c run
      → w'.captures self ≡ c
  kept_in w' c run (inl e) h = subst (Keeps st env self leaves c) e h
  kept_in w' c run (inr e) h = subst (Keeps st env self leaves c) e h

  -- One more handled event.
  pub handled-Implements :
      (e : Event) (w w' : World st) (m : Model) (es : List Event)
      → length es < max_probe_length
      → IsLive e.object
      → (process_event st env w e ≡ finished w') ⊎ (process_event st env w e ≡ raised w')
      → Implements st env self classes w (taken_in st env self classes m es) (length es)
      → Implements st env self classes w'
          (taken_in st env self classes m (es ++ e ∷ []))
          (suc (length es))
  handled-Implements e w w' m es few ok ran i = elim (ℕ_discrete e.capture self) [
    | yes mine ↦
        subst (λ x. Implements st env self classes w' x (suc (length es)))
          (sym (taken_in-own st env self classes e m es mine))
          (ended_in w w' _ _ _ ran (
            event-Implements st env self classes leaves returns refuses grants e w
              (taken_in st env self classes m es) (length es) i few (mine, ok)))
    | no other ↦
        subst (λ x. Implements st env self classes w' x (suc (length es)))
          (sym (taken_in-other st env self classes e m es other))
          (same-Implements st env self classes w w' (taken_in st env self classes m es) (length es)
            (suc (length es))
            (kept_in w' (w.captures self) _ ran (process_event-Keeps st env self leaves w e other))
            (omega arith) i)
  ]

  -- The capture has taken in what was handled, and every event that was posted is about an object.
  pub record Follows (m : Model) (p : Program st realloc env objects) : Type 0 where
    pub implements :
        Implements st env self classes p.world
          (taken_in st env self classes m p.queue.handled)
          (length p.queue.handled)
    pub live : AllLive p.queue.posted

  module _ (law : KeepsBlock realloc) (m : Model) where
    -- The event that is handled is about an object, and it is not one too many.
    pub current-live :
        {p : Program st realloc env objects} (rest : List Event)
        → p.queue.posted ≡ (p.queue.handled ++ current p.queue ∷ []) ++ rest
        → length p.queue.posted ≤ max_probe_length
        → Follows m p
        → (length p.queue.handled < max_probe_length) × IsLive (current p.queue).object
    current-live {p} rest history few f =
        let e = current p.queue in
        let es = p.queue.handled in
        (
          omega (
            arith,
            ap length history,
            length-append (es ++ e ∷ []) rest,
            length-append es (e ∷ []),
            few,
          ),
          AllLive-last es e rest (subst AllLive history f.live),
        )

    handle-Follows :
        {p : Program st realloc env objects} (world : World st) (rest : List Event)
        → p.queue.posted ≡ (p.queue.handled ++ current p.queue ∷ []) ++ rest
        → (process_event st env p.world (current p.queue) ≡ finished world)
          ⊎ (process_event st env p.world (current p.queue) ≡ raised world)
        → length p.queue.posted ≤ max_probe_length
        → Follows m p
        → Implements st env self classes world
            (taken_in st env self classes m (p.queue.handled ++ current p.queue ∷ []))
            (length (p.queue.handled ++ current p.queue ∷ []))
    handle-Follows {p} world rest history ran few f =
        let e = current p.queue in
        let es = p.queue.handled in
        let (fits, ok) = current-live rest history few f in
        let longer : length (es ++ e ∷ []) ≡ suc (length es) =
          omega (arith, length-append es (e ∷ [])) in
        subst (Implements st env self classes world (taken_in st env self classes m (es ++ e ∷ [])))
          (sym longer) (handled-Implements e p.world world m es fits ok ran f.implements)

    Move-Follows :
        {p q : Program st realloc env objects}
        → Move st realloc env objects p q
        → Consistent q.queue
        → length q.queue.posted ≤ max_probe_length
        → Follows m p
        → Follows m q
    Move-Follows {p} (Program.hook capture object flag e events on ok heard eq) c few f =
        let about : e.object ≡ object =
          (event_callback-object st realloc env objects p.world capture object flag e heard).0 in
        record {
          implements = f.implements;
          live = AllLive-append p.queue.posted (e ∷ []) f.live (subst IsLive (sym about) ok, tt);
        }
    Move-Follows (Program.drop capture object flag e events on heard eq) c few f = record {
      implements = f.implements;
      live = f.live;
    }
    Move-Follows (Program.job on off) c few f = record { implements = f.implements; live = f.live }
    Move-Follows (Program.flush off) c few f = record { implements = f.implements; live = f.live }
    Move-Follows (Program.interrupt on flag) c few f = record {
      implements = f.implements;
      live = f.live;
    }
    Move-Follows (Program.handle world on lt ran) (split, c) few f = record {
      implements = handle-Follows world _ c.history ran few f;
      live = f.live;
    }
    Move-Follows (Program.end_loop on le) c few f = record {
      implements = f.implements;
      live = f.live;
    }

    pub Move-grows :
        {p q : Program st realloc env objects}
        → Move st realloc env objects p q
        → length p.queue.posted ≤ length q.queue.posted
    Move-grows {p} (Program.hook capture object flag e events on ok heard eq) =
        omega (arith, length-append p.queue.posted (e ∷ []))
    Move-grows (Program.drop capture object flag e events on heard eq) = omega arith
    Move-grows (Program.job on off) = omega arith
    Move-grows (Program.flush off) = omega arith
    Move-grows (Program.interrupt on flag) = omega arith
    Move-grows (Program.handle world on lt ran) = omega arith
    Move-grows (Program.end_loop on le) = omega arith

    module _ (start : World st) (fresh : Implements st env self classes start m 0) where
      start-Follows : Follows m (at_start st realloc env objects start)
      unfolding own all_events
      start-Follows = record { implements = fresh; live = tt }

      pub Moves-Follows :
          {p : Program st realloc env objects}
          → Moves st realloc env objects (at_start st realloc env objects start) p
          → length p.queue.posted ≤ max_probe_length
          → Follows m p
      Moves-Follows Program.here few = start-Follows
      Moves-Follows (Program.next run move) few =
          let c =
            Steps-Consistent realloc law
              (Moves-Steps st realloc env objects (Program.next run move)) in
          Move-Follows move c few (Moves-Follows run (omega (arith, Move-grows move, few)))

      -- Where `realloc` keeps a block's prefix, callbacks return and leave this capture as it is, `calloc`
      -- refuses sizes that overflow and grants arrays of fewer than 40000 entries, and the capture
      -- implements an abstract view with no slot in use at the start: in every state that any
      -- interleaving of the hooks of all captures, jobs, flushes and handlers reaches from the empty
      -- event queue with at most 10000 events posted, the capture implements what its own handled
      -- events, in their order, make of that view.
      pub Moves-Implements :
          {p : Program st realloc env objects}
          → Moves st realloc env objects (at_start st realloc env objects start) p
          → length p.queue.posted ≤ max_probe_length
          → Implements st env self classes p.world
              (taken_in st env self classes m p.queue.handled)
              (length p.queue.handled)
      Moves-Implements run few = (Moves-Follows run few).implements
