-- ===== src/Events/Accounts.antt =====
-- events.c: how the accepted events are accounted for by those handled and those still queued.
use memory_profiler.Base.{
  ℕ, zero, suc, ◌≤◌, ◌<◌, ◌≡◌, refl, sym, ap, ◌∙◌, Bool, true, false, List, [], ◌∷◌, ◌++◌, arith,
  length, take, drop, set, get_or, subst, length-set, take-set, drop-set_before, drop-cons,
  drop_all, get_or-take, length-take, lt→ltb, if◌then◌else◌,
}
use mathlib.Core.List.{append-nil, append_assoc}
use memory_profiler.Ruby.{Ruby}
use memory_profiler.Queue
use memory_profiler.Queue.{Queue, Realloc, KeepsBlock, IsValid, contents}
use memory_profiler.Events.{Event, queue_at, cleared_event}
use memory_profiler.Events.Receive.{IsSplit}
use memory_profiler.Events.Collect.{is_none, Cleared}
use memory_profiler.Events.System.{System}

-- The events of a processed queue that the loop has still to handle.
abbrev pub remaining : ℕ → Queue Event → List Event
remaining index q = drop index (contents q)

module _ ⦃rb : Ruby⦄ where
  -- What holds between two steps of the flag, the loop variable, the processed queue and the queue of
  -- new events.
  pub record Accounts (flag : Bool) (index : ℕ) (processing available : Queue Event)
      (posted handled : List Event) : Type 0 where
    pub valid : IsValid available
    pub processed_valid : IsValid processing
    pub within : flag ≡ true → index ≤ processing.count
    pub idle : flag ≡ false → processing.count ≡ 0
    -- No event is lost, repeated or overtaken.
    pub history : posted ≡ handled ++ (remaining index processing ++ contents available)
    -- An event of type NONE is one that was overwritten.
    pub fresh : Cleared (contents available)
    pub clean : Cleared (contents processing)

  abbrev pub Consistent : System → Type 0
  Consistent s =
      IsSplit s.events
      × Accounts s.events.processing_flag s.index (queue_at s.events s.events.processing)
          (queue_at s.events s.events.available) s.posted s.handled

  Cleared-append :
      (xs : List Event) (e : Event) → is_none e.kind ≡ false → Cleared xs → Cleared (xs ++ e ∷ [])
  Cleared-append [] e h c = ((λ (k : is_none e.kind ≡ true). absurd (ground (arith, k, h))), tt)
  Cleared-append (x ∷ xs) e h (c, cs) = (c, Cleared-append xs e h cs)

  Cleared-set : (xs : List Event) (i : ℕ) → Cleared xs → Cleared (set xs i cleared_event)
  Cleared-set [] i c = c
  Cleared-set (x ∷ xs) zero (c, cs) = ((λ _. refl), cs)
  Cleared-set (x ∷ xs) (suc i) (c, cs) = (c, Cleared-set xs i cs)

  module _ {flag : Bool} {index : ℕ} {p a : Queue Event} {posted handled : List Event}
      (c : Accounts flag index p a posted handled) where
    pub post-Accounts :
        (e : Event) (a' : Queue Event)
        → is_none e.kind ≡ false
        → IsValid a'
        → contents a' ≡ contents a ++ e ∷ []
        → Accounts flag index p a' (posted ++ e ∷ []) handled
    post-Accounts e a' h v same = record {
      valid = v;
      processed_valid = c.processed_valid;
      within = c.within;
      idle = c.idle;
      history =
          ap (λ l. l ++ e ∷ []) c.history
          ∙ append_assoc handled (remaining index p ++ contents a) (e ∷ [])
          ∙ ap (λ l. handled ++ l)
              (append_assoc (remaining index p) (contents a) (e ∷ [])
                ∙ ap (λ l. remaining index p ++ l) (sym same));
      fresh = subst Cleared (sym same) (Cleared-append (contents a) e h c.fresh);
      clean = c.clean;
    }

    pub swap-Accounts : flag ≡ false → Accounts true 0 a p posted handled
    swap-Accounts off =
        let none_left : contents p ≡ [] = ap (λ n. take n p.base) (c.idle off) in
        let none_remaining : remaining index p ≡ [] =
          drop_all index (contents p)
            (subst (λ l. length l ≤ index) (sym none_left) (omega arith)) in
        record {
          valid = c.processed_valid;
          processed_valid = c.valid;
          within = λ _. omega arith;
          idle = λ h. absurd (ground (arith, h));
          history =
              c.history
              ∙ ap (λ l. handled ++ (l ++ contents a)) none_remaining
              ∙ ap (λ l. handled ++ l)
                  (sym (append-nil (contents a)) ∙ ap (λ l. contents a ++ l) (sym none_left));
          fresh = c.clean;
          clean = c.fresh;
        }

    pub handle-Accounts :
        flag ≡ true
        → index < p.count
        → Accounts flag
            (suc index)
            (Queue.write p index cleared_event)
            a
            posted
            (handled ++ Queue.at p index cleared_event ∷ [])
    unfolding Queue.write Queue.at
    handle-Accounts on lt =
        let v = c.processed_valid in
        let e = get_or p.base index cleared_event in
        let read : Queue.at p index cleared_event ≡ e =
          ap (λ b. if b then e else cleared_event) (lt→ltb index p.count lt) in
        let overwritten : contents (Queue.write p index cleared_event)
            ≡ set (contents p) index cleared_event =
          take-set p.count index p.base cleared_event in
        let width = length-take p.count p.base (omega (arith, v.width, v.bound)) in
        let first : remaining index p
            ≡ e ∷ remaining (suc index) (Queue.write p index cleared_event) =
          drop-cons index (contents p) cleared_event (omega arith)
          ∙ ap (λ x. x ∷ drop (suc index) (contents p))
              (get_or-take p.count index p.base cleared_event lt)
          ∙ ap (λ l. e ∷ l)
              (sym (drop-set_before (suc index) index (contents p) cleared_event (omega arith))
                ∙ ap (drop (suc index)) (sym overwritten)) in
        record {
          valid = c.valid;
          processed_valid = record {
            width = length-set p.base index cleared_event ∙ v.width;
            bound = v.bound;
            sized = v.sized;
            small = v.small;
            fits = v.fits;
          };
          within = λ _. omega arith;
          idle = λ off. absurd (ground (arith, on, off));
          history =
              c.history
              ∙ ap (λ l. handled ++ (l ++ contents a)) first
              ∙ sym (append_assoc handled (e ∷ []) _)
              ∙ ap
                  (λ x.
                    (handled ++ x ∷ [])
                    ++ (remaining (suc index) (Queue.write p index cleared_event) ++ contents a))
                  (sym read);
          fresh = c.fresh;
          clean = subst Cleared (sym overwritten) (Cleared-set (contents p) index c.clean);
        }

    pub end-Accounts :
        flag ≡ true → p.count ≤ index → Accounts false index (Queue.clear p) a posted handled
    unfolding Queue.clear
    end-Accounts on le =
        let v = c.processed_valid in
        let width = length-take p.count p.base (omega (arith, v.width, v.bound)) in
        record {
          valid = c.valid;
          processed_valid = record {
            width = v.width;
            bound = omega arith;
            sized = v.sized;
            small = v.small;
            fits = v.fits;
          };
          within = λ h. absurd (ground (arith, h));
          idle = λ _. refl;
          history =
              c.history
              ∙ ap (λ l. handled ++ (l ++ contents a))
                  (drop_all index (contents p) (omega arith)
                    ∙ sym (drop_all index [] (omega arith)));
          fresh = c.fresh;
          clean = tt;
        }
