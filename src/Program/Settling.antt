-- ===== src/Program/Settling.antt =====
-- From any moment on, the extension comes to rest by the job and its loop, also in the middle of a
-- run, unless the job was run while the queue was being processed.
use memory_profiler.Base.{
  length-take, ℕ, zero, suc, ◌+◌, ◌-◌, ◌≤◌, ◌<◌, ◌≡◌, refl, sym, ap, ◌∙◌, subst, inl, inr, true,
  false, [], ◌∷◌, ◌++◌, arith, length, Bool-cases,
}
use memory_profiler.Ruby.{Ruby, StTable}
use memory_profiler.Queue
use memory_profiler.Queue.{Queue, Realloc, KeepsBlock}
use memory_profiler.Events.{Event, queue_at, cleared_event}
use memory_profiler.Events.System
use memory_profiler.Events.System.{taken, swapped, ended, cleared, current}
use memory_profiler.Events.History.{Step-Consistent, Steps-Consistent, put_processed}
use memory_profiler.Events.Wakeup.{Undisturbed-Wakes}
use memory_profiler.Table.Layout.{entry_size, max_probe_length}
use memory_profiler.Table.Holds.{IsLive}
use memory_profiler.Table.Resize.{RefusesOverflow}
use memory_profiler.Capture.State.{World, finished, Surroundings}
use memory_profiler.Capture.Hook.{Objects}
use memory_profiler.Capture.Process.{process_event}
use memory_profiler.Capture.Calls.{Leaves}
use memory_profiler.Capture.Lifetime.{Returns}
use memory_profiler.Capture.Implements.{Implements}
use memory_profiler.Capture.Handling.{event-Implements}
use memory_profiler.Program
use memory_profiler.Program.{Program, Move, Moves, at_start}
use memory_profiler.Program.Taking.{own, taken_in}
use memory_profiler.Program.Moving.{
  Moves-trans, IsOwn, IsOwn-trans, Uninterrupted, Uninterrupted-trans, Uninterrupted-Undisturbed,
  Moves-Steps,
}
use memory_profiler.Program.Capturing.{Moves-Follows, current-live}
use memory_profiler.Program.Heap.{empty_model, nothing_heard, AllProper}
use memory_profiler.Program.Exact.{Reports}
use memory_profiler.Program.Quiet.{IsQuiet, quiet-Reports}

module _ ⦃rb : Ruby⦄ (st : StTable) (realloc : Realloc Event) (env : Surroundings st)
    (objects : Objects) where
  -- The rest of a run of the loop.
  record Settles (p q : Program st realloc env objects) : Type 0 where
    moves : Moves st realloc env objects p q
    own : IsOwn st realloc env objects moves
    idle : q.queue.events.processing_flag ≡ false
    same :
        queue_at q.queue.events q.queue.events.available
        ≡ queue_at p.queue.events p.queue.events.available
    posted : q.queue.posted ≡ p.queue.posted

  module _ (classes : ℕ → st.Table)
      (leaves : (self callback klass symbol argument : ℕ) (w : World st)
        → Leaves st self (w.captures self) (env.call callback klass symbol argument w))
      (returns : (callback klass symbol argument : ℕ) (w : World st)
        → Returns st env (env.call callback klass symbol argument w))
      (refuses : RefusesOverflow env.calloc)
      (grants : (c : ℕ) → c < 40000 → env.calloc c entry_size ≡ true) (law : KeepsBlock realloc)
      (start : World st)
      (fresh : (self : ℕ) → Implements st env self (classes self) start empty_model 0) where
    -- The handler of the current event returns.
    handles :
        {p : Program st realloc env objects}
        → Moves st realloc env objects (at_start st realloc env objects start) p
        → length p.queue.posted ≤ max_probe_length
        → p.queue.events.processing_flag ≡ true
        → p.queue.index < (queue_at p.queue.events p.queue.events.processing).count
        → (w : World st) × (process_event st env p.world (current p.queue) ≡ finished w)
    handles {p} run few on lt =
        let e = current p.queue in
        let c = Steps-Consistent realloc law (Moves-Steps st realloc env objects run) in
        let history =
          (Step-Consistent realloc law {s = p.queue} (System.handled_one on lt) c).1.history in
        let f =
          Moves-Follows st realloc env objects e.capture (classes e.capture) (leaves e.capture)
            returns refuses grants law empty_model start (fresh e.capture) run few in
        let (fits, ok) =
          current-live st realloc env objects e.capture (classes e.capture) (leaves e.capture)
            returns refuses grants law empty_model _ history few f in
        let (w, ran, _) =
          event-Implements st env e.capture (classes e.capture) (leaves e.capture) returns refuses
            grants e p.world
            (taken_in st env e.capture (classes e.capture) empty_model p.queue.handled)
            (length p.queue.handled) f.implements fits (refl, ok) in
        (w, ran)

    drain :
        (n : ℕ) (p : Program st realloc env objects)
        → Moves st realloc env objects (at_start st realloc env objects start) p
        → length p.queue.posted ≤ max_probe_length
        → p.queue.events.processing_flag ≡ true
        → p.queue.index + n ≡ (queue_at p.queue.events p.queue.events.processing).count
        → (q : Program st realloc env objects) × Settles p q
    unfolding Queue.write
    drain zero p run few on e =
        let (split, c) = Steps-Consistent realloc law (Moves-Steps st realloc env objects run) in
        let put =
          put_processed p.queue.events
            (Queue.clear (queue_at p.queue.events p.queue.events.processing)) split in
        (
          record p { queue = record p.queue { events = ended p.queue.events } },
          record {
            moves = Program.next Program.here (Program.end_loop on (omega arith));
            own = tt;
            idle = refl;
            same = put.1;
            posted = refl;
          },
        )
    drain (suc n) p run few on e =
        let (split, c) = Steps-Consistent realloc law (Moves-Steps st realloc env objects run) in
        let written =
          Queue.write (queue_at p.queue.events p.queue.events.processing) p.queue.index
            cleared_event in
        let put = put_processed p.queue.events written split in
        let lt : p.queue.index < (queue_at p.queue.events p.queue.events.processing).count =
          omega arith in
        let (w, ran) = handles run few on lt in
        let u : Program st realloc env objects = record {
          queue = record p.queue {
            events = cleared p.queue.events p.queue.index;
            index = suc p.queue.index;
            handled = p.queue.handled ++ current p.queue ∷ [];
          };
          world = w;
        } in
        let move : Move st realloc env objects p u = Program.handle w on lt (inl ran) in
        let (q, s) =
          drain n u (Program.next run move) few (put.3 ∙ on)
            (omega (arith, ap (λ (x : Queue Event). x.count) put.0)) in
        (
          q,
          record {
            moves = Moves-trans st realloc env objects (Program.next Program.here move) s.moves;
            own =
                IsOwn-trans st realloc env objects (Program.next Program.here move) s.moves tt
                  s.own;
            idle = s.idle;
            same = s.same ∙ put.1;
            posted = s.posted;
          },
        )

    drain_rest :
        {p : Program st realloc env objects}
        → Moves st realloc env objects (at_start st realloc env objects start) p
        → length p.queue.posted ≤ max_probe_length
        → p.queue.events.processing_flag ≡ true
        → (q : Program st realloc env objects) × Settles p q
    drain_rest {p} run few on =
        let c = (Steps-Consistent realloc law (Moves-Steps st realloc env objects run)).1 in
        drain ((queue_at p.queue.events p.queue.events.processing).count - p.queue.index) p run few
          on (omega (arith, c.within on))

    -- A run of the extension's own moves from `p` to `q`, which is quiet.
    record Rests (p q : Program st realloc env objects) : Type 0 where
      moves : Moves st realloc env objects p q
      own : IsOwn st realloc env objects moves
      quiet : IsQuiet q.queue
      posted : q.queue.posted ≡ p.queue.posted

    -- The job is run where it is triggered.
    job-Rests :
        {p : Program st realloc env objects}
        → Moves st realloc env objects (at_start st realloc env objects start) p
        → length p.queue.posted ≤ max_probe_length
        → p.queue.events.processing_flag ≡ false
        → p.queue.events.triggered ≡ true
        → (q : Program st realloc env objects) × Rests p q
    job-Rests {p} run few off due =
        let c = (Steps-Consistent realloc law (Moves-Steps st realloc env objects run)).1 in
        let u : Program st realloc env objects = record p {
          queue = record p.queue { events = swapped (taken p.queue.events); index = 0 };
        } in
        let move : Move st realloc env objects p u = Program.job due off in
        let (q, s) = drain_rest (Program.next run move) few refl in
        (
          q,
          record {
            moves = Moves-trans st realloc env objects (Program.next Program.here move) s.moves;
            own =
                IsOwn-trans st realloc env objects (Program.next Program.here move) s.moves tt
                  s.own;
            quiet = (s.idle, ap (λ (x : Queue Event). x.count) s.same ∙ c.idle off);
            posted = s.posted;
          },
        )

    idle-Rests :
        {p : Program st realloc env objects}
        (run : Moves st realloc env objects (at_start st realloc env objects start) p)
        → Uninterrupted st realloc env objects run
        → length p.queue.posted ≤ max_probe_length
        → p.queue.events.processing_flag ≡ false
        → (q : Program st realloc env objects) × Rests p q
    idle-Rests {p} run calm few off =
        let steps = Moves-Steps st realloc env objects run in
        let c = (Steps-Consistent realloc law steps).1 in
        let a = queue_at p.queue.events p.queue.events.available in
        elim (Undisturbed-Wakes realloc law steps
          (Uninterrupted-Undisturbed st realloc env objects run calm)) [
            | inr due ↦ job-Rests run few off due
            | inl nothing ↦ (
              p,
              record {
                moves = Program.here;
                own = tt;
                quiet = (
                  off,
                  omega (
                    arith,
                    length-take a.count a.base (omega (arith, c.valid.width, c.valid.bound)),
                    ap length nothing,
                  ),
                );
                posted = refl;
              },
            )
          ]

    comes_to_rest :
        {p : Program st realloc env objects}
        (run : Moves st realloc env objects (at_start st realloc env objects start) p)
        → Uninterrupted st realloc env objects run
        → length p.queue.posted ≤ max_probe_length
        → (q : Program st realloc env objects) × Rests p q
    comes_to_rest {p} run calm few = elim (Bool-cases p.queue.events.processing_flag) [
      | inr off ↦ idle-Rests run calm few off
      | inl on ↦
          let (u, s) = drain_rest run few on in
          let (q, r) =
            idle-Rests (Moves-trans st realloc env objects run s.moves)
              (Uninterrupted-trans st realloc env objects run s.moves calm s.own)
              (omega (arith, ap length s.posted, few)) s.idle in
          (
            q,
            record {
              moves = Moves-trans st realloc env objects s.moves r.moves;
              own = IsOwn-trans st realloc env objects s.moves r.moves s.own r.own;
              quiet = r.quiet;
              posted = r.posted ∙ s.posted;
            },
          )
    ]

    -- Where `realloc` keeps a block's prefix, callbacks return and leave every capture as it is, `calloc`
    -- refuses sizes that overflow and grants arrays of fewer than 40000 entries, and every capture
    -- implements the empty view at the start: from every state that an interleaving of hooks, jobs,
    -- flushes and handlers reaches with at most 10000 events posted, also in the middle of a run, if
    -- Ruby never ran the job while the queue was being processed, then the rest of the loop and the
    -- job, which is triggered if events wait, lead without any flush to a state in which nothing is
    -- being processed and no event waits; and if no new object was posted at the address of one that
    -- the capture had heard of and that lived, the capture reports there for every live address what
    -- the events posted before tell of it.
    pub comes_to_rest-Reports :
        {p : Program st realloc env objects} (self : ℕ)
        (run : Moves st realloc env objects (at_start st realloc env objects start) p)
        → Uninterrupted st realloc env objects run
        → length p.queue.posted ≤ max_probe_length
        → AllProper nothing_heard (own self p.queue.posted)
        → (object : ℕ) → IsLive object
        → (q : Program st realloc env objects) × (later : Moves st realloc env objects p q) × IsOwn
            st realloc env objects later
          × IsQuiet q.queue
          × (q.queue.posted ≡ p.queue.posted)
          × Reports st env self (classes self) q.world p.queue.posted object
    comes_to_rest-Reports {p} self run calm few proper object ok =
        let (q, r) = comes_to_rest run calm few in
        let reports =
          quiet-Reports st realloc env objects self (classes self) (leaves self) returns refuses
            grants law start (fresh self) (Moves-trans st realloc env objects run r.moves)
            (omega (arith, ap length r.posted, few))
            (subst (λ es. AllProper nothing_heard (own self es)) (sym r.posted) proper) r.quiet
            object ok in
        (
          q,
          r.moves,
          r.own,
          r.quiet,
          r.posted,
          subst (λ es. Reports st env self (classes self) q.world es object) r.posted reports,
        )
