-- ===== src/Program/Moving.antt =====
-- The moves of the program as the event queue sees them, and that every event is about an object.
use memory_profiler.Base.{ℕ, ◌≡◌, false, List, [], ◌∷◌, ◌++◌, some, arith}
use memory_profiler.Ruby.{Ruby, StTable}
use memory_profiler.Queue.{Realloc}
use memory_profiler.Events.{Event}
use memory_profiler.Events.Collect.{is_none}
use memory_profiler.Events.System.{System, Step, Steps, post, refuse, handled_one, current, initial}
use memory_profiler.Events.System
use memory_profiler.Events.Wakeup.{Undisturbed}
use memory_profiler.Table.Holds.{IsLive}
use memory_profiler.Capture.State.{World, Surroundings}
use memory_profiler.Capture.Hook.{
  Objects, EventFlag, flag_newobj, flag_freeobj, flag_other, event_callback,
}
use memory_profiler.Program.{Program, Move, Moves, at_start}
use memory_profiler.Program

module _ ⦃rb : Ruby⦄ where
  abbrev pub AllLive : List Event → Type 0
  AllLive [] = Unit {0}
  AllLive (e ∷ es) = IsLive e.object × AllLive es

  pub AllLive-append : (xs ys : List Event) → AllLive xs → AllLive ys → AllLive (xs ++ ys)
  AllLive-append [] ys h k = k
  AllLive-append (e ∷ xs) ys (h, hs) k = (h, AllLive-append xs ys hs k)

  pub AllLive-right : (xs ys : List Event) → AllLive (xs ++ ys) → AllLive ys
  AllLive-right [] ys h = h
  AllLive-right (e ∷ xs) ys (h, hs) = AllLive-right xs ys hs

  pub AllLive-last :
      (xs : List Event) (e : Event) (ys : List Event)
      → AllLive ((xs ++ e ∷ []) ++ ys)
      → IsLive e.object
  AllLive-last [] e ys (h, hs) = h
  AllLive-last (x ∷ xs) e ys (h, hs) = AllLive-last xs e ys hs

  module _ (st : StTable) (realloc : Realloc Event) (env : Surroundings st)
      (objects : Objects) where
    event_callback-kind :
        (w : World st) (capture object : ℕ) (flag : EventFlag) (e : Event)
        → event_callback st objects w capture flag object ≡ some e
        → is_none e.kind ≡ false
    unfolding event_callback
    event_callback-kind w capture object flag_newobj e h = ground (arith, h)
    event_callback-kind w capture object flag_freeobj e h = ground (arith, h)
    event_callback-kind w capture object flag_other e h = ground (arith, h)

    pub event_callback-object :
        (w : World st) (capture object : ℕ) (flag : EventFlag) (e : Event)
        → event_callback st objects w capture flag object ≡ some e
        → (e.object ≡ object) × (e.capture ≡ capture)
    unfolding event_callback
    event_callback-object w capture object flag_newobj e h = ground (arith, h)
    event_callback-object w capture object flag_freeobj e h = ground (arith, h)
    event_callback-object w capture object flag_other e h = ground (arith, h)

    -- What the queue sees of a move is a step of the queue.
    pub Move-Step :
        {p q : Program st realloc env objects}
        → Move st realloc env objects p q
        → Step realloc p.queue q.queue
    Move-Step {p} (Program.hook capture object flag e events on live heard eq) =
        post e events (event_callback-kind p.world capture object flag e heard) eq
    Move-Step (Program.drop capture object flag e events on heard eq) = refuse e events eq
    Move-Step (Program.job on off) = System.job on off
    Move-Step (Program.flush off) = System.flush off
    Move-Step (Program.interrupt on flag) = System.interrupt on flag
    Move-Step (Program.handle world on lt ran) = handled_one on lt
    Move-Step (Program.end_loop on le) = System.end_loop on le

    pub Moves-Steps :
        {p q : Program st realloc env objects}
        → Moves st realloc env objects p q
        → Steps realloc p.queue q.queue
    Moves-Steps Program.here = System.here
    Moves-Steps (Program.next run move) = System.next (Moves-Steps run) (Move-Step move)

    -- Ruby does not run the job while the queue is being processed.
    abbrev pub Uninterrupted :
        {p q : Program st realloc env objects} → Moves st realloc env objects p q → Type 0
    Uninterrupted Program.here = Unit {0}
    Uninterrupted (Program.next run (Program.interrupt _ _)) = ⊥
    Uninterrupted (Program.next run (Program.hook _ _ _ _ _ _ _ _ _)) = Uninterrupted run
    Uninterrupted (Program.next run (Program.drop _ _ _ _ _ _ _ _)) = Uninterrupted run
    Uninterrupted (Program.next run (Program.job _ _)) = Uninterrupted run
    Uninterrupted (Program.next run (Program.flush _)) = Uninterrupted run
    Uninterrupted (Program.next run (Program.handle _ _ _ _)) = Uninterrupted run
    Uninterrupted (Program.next run (Program.end_loop _ _)) = Uninterrupted run

    pub Uninterrupted-Undisturbed :
        {p q : Program st realloc env objects} (run : Moves st realloc env objects p q)
        → Uninterrupted run
        → Undisturbed realloc (Moves-Steps run)
    unfolding Moves-Steps Move-Step
    Uninterrupted-Undisturbed Program.here calm = tt
    Uninterrupted-Undisturbed (Program.next run (Program.interrupt on flag)) calm = elim calm [ ]
    Uninterrupted-Undisturbed
          (Program.next run (Program.hook capture object flag e events on live heard eq)) calm =
        Uninterrupted-Undisturbed run calm
    Uninterrupted-Undisturbed
          (Program.next run (Program.drop capture object flag e events on heard eq)) calm =
        Uninterrupted-Undisturbed run calm
    Uninterrupted-Undisturbed (Program.next run (Program.job on off)) calm =
        Uninterrupted-Undisturbed run calm
    Uninterrupted-Undisturbed (Program.next run (Program.flush off)) calm =
        Uninterrupted-Undisturbed run calm
    Uninterrupted-Undisturbed (Program.next run (Program.handle world on lt ran)) calm =
        Uninterrupted-Undisturbed run calm
    Uninterrupted-Undisturbed (Program.next run (Program.end_loop on le)) calm =
        Uninterrupted-Undisturbed run calm

    -- The postponed job, the rounds of its loop and the end of the loop: no hook, and no flush, which
    -- only a call of `stop` or `each_object` makes.
    abbrev pub IsOwn :
        {p q : Program st realloc env objects} → Moves st realloc env objects p q → Type 0
    IsOwn Program.here = Unit {0}
    IsOwn (Program.next run (Program.interrupt _ _)) = ⊥
    IsOwn (Program.next run (Program.hook _ _ _ _ _ _ _ _ _)) = ⊥
    IsOwn (Program.next run (Program.drop _ _ _ _ _ _ _ _)) = ⊥
    IsOwn (Program.next run (Program.flush _)) = ⊥
    IsOwn (Program.next run (Program.job _ _)) = IsOwn run
    IsOwn (Program.next run (Program.handle _ _ _ _)) = IsOwn run
    IsOwn (Program.next run (Program.end_loop _ _)) = IsOwn run

    pub Moves-trans :
        {p q r : Program st realloc env objects}
        → Moves st realloc env objects p q
        → Moves st realloc env objects q r
        → Moves st realloc env objects p r
    Moves-trans run Program.here = run
    Moves-trans run (Program.next later move) = Program.next (Moves-trans run later) move

    pub IsOwn-trans :
        {p q r : Program st realloc env objects} (run : Moves st realloc env objects p q)
        (later : Moves st realloc env objects q r)
        → IsOwn run
        → IsOwn later
        → IsOwn (Moves-trans run later)
    unfolding Moves-trans
    IsOwn-trans run Program.here own own' = own
    IsOwn-trans run (Program.next later (Program.interrupt on flag)) own own' = elim own' [ ]
    IsOwn-trans run
          (Program.next later (Program.hook capture object flag e events on live heard eq)) own
          own' =
        elim own' [ ]
    IsOwn-trans run (Program.next later (Program.drop capture object flag e events on heard eq)) own
          own' =
        elim own' [ ]
    IsOwn-trans run (Program.next later (Program.flush off)) own own' = elim own' [ ]
    IsOwn-trans run (Program.next later (Program.job on off)) own own' =
        IsOwn-trans run later own own'
    IsOwn-trans run (Program.next later (Program.handle world on lt ran)) own own' =
        IsOwn-trans run later own own'
    IsOwn-trans run (Program.next later (Program.end_loop on le)) own own' =
        IsOwn-trans run later own own'

    pub Uninterrupted-trans :
        {p q r : Program st realloc env objects} (run : Moves st realloc env objects p q)
        (later : Moves st realloc env objects q r)
        → Uninterrupted run
        → IsOwn later
        → Uninterrupted (Moves-trans run later)
    unfolding Moves-trans
    Uninterrupted-trans run Program.here calm own = calm
    Uninterrupted-trans run (Program.next later (Program.interrupt on flag)) calm own = elim own [ ]
    Uninterrupted-trans run
          (Program.next later (Program.hook capture object flag e events on live heard eq)) calm
          own =
        elim own [ ]
    Uninterrupted-trans run
          (Program.next later (Program.drop capture object flag e events on heard eq)) calm own =
        elim own [ ]
    Uninterrupted-trans run (Program.next later (Program.flush off)) calm own = elim own [ ]
    Uninterrupted-trans run (Program.next later (Program.job on off)) calm own =
        Uninterrupted-trans run later calm own
    Uninterrupted-trans run (Program.next later (Program.handle world on lt ran)) calm own =
        Uninterrupted-trans run later calm own
    Uninterrupted-trans run (Program.next later (Program.end_loop on le)) calm own =
        Uninterrupted-trans run later calm own
