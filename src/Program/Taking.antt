-- ===== src/Program/Taking.antt =====
-- The events of one capture among those of all captures, and what the capture becomes by them.
use mathlib.Core.List.{append-nil}
use memory_profiler.Base.{
  ℕ, ◌≡◌, ◌≢◌, refl, ap, ◌∙◌, Bool, List, [], ◌∷◌, ◌++◌, arith, ◌==◌, if◌then◌else◌,
}
use memory_profiler.Ruby.{Ruby, StTable}
use memory_profiler.Events.{Event}
use memory_profiler.Capture.State.{Surroundings}
use memory_profiler.Capture.Implements.{Model, next_event, all_events, tracks_class}

unfoldable pub own : ℕ → List Event → List Event
own self [] = []
own self (e ∷ es) = let rest = own self es in if e.capture == self then e ∷ rest else rest

pub own-append : (self : ℕ) (xs ys : List Event) → own self (xs ++ ys) ≡ own self xs ++ own self ys
unfolding own
own-append self [] ys = refl
own-append self (e ∷ xs) ys = ground (arith, own-append self xs ys)

pub own-mine :
    (self : ℕ) (es : List Event) (e : Event)
    → e.capture ≡ self
    → own self (es ++ e ∷ []) ≡ own self es ++ e ∷ []
unfolding own
own-mine self es e mine =
    own-append self es (e ∷ []) ∙ ap (λ l. own self es ++ l) (ground (arith, mine))

pub own-other :
    (self : ℕ) (es : List Event) (e : Event)
    → e.capture ≢ self
    → own self (es ++ e ∷ []) ≡ own self es
unfolding own
own-other self es e other =
    own-append self es (e ∷ [])
    ∙ ap (λ l. own self es ++ l) (ground (arith, other))
    ∙ append-nil (own self es)

all_events-append :
    (tracks : ℕ → Bool) (m : Model) (xs ys : List Event)
    → all_events tracks m (xs ++ ys) ≡ all_events tracks (all_events tracks m xs) ys
unfolding all_events
all_events-append tracks m [] ys = refl
all_events-append tracks m (e ∷ xs) ys = all_events-append tracks (next_event tracks m e) xs ys

module _ ⦃rb : Ruby⦄ (st : StTable) (env : Surroundings st) (self : ℕ) (classes : st.Table) where
  -- What the capture has become by the events that were handled.
  abbrev pub taken_in : Model → List Event → Model
  taken_in m es = all_events (tracks_class st env self classes) m (own self es)

  pub taken_in-own :
      (e : Event) (m : Model) (es : List Event)
      → e.capture ≡ self
      → taken_in m (es ++ e ∷ []) ≡ next_event (tracks_class st env self classes) (taken_in m es) e
  unfolding all_events
  taken_in-own e m es mine =
      ap (all_events (tracks_class st env self classes) m) (own-mine self es e mine)
      ∙ all_events-append (tracks_class st env self classes) m (own self es) (e ∷ [])

  pub taken_in-other :
      (e : Event) (m : Model) (es : List Event)
      → e.capture ≢ self
      → taken_in m (es ++ e ∷ []) ≡ taken_in m es
  taken_in-other e m es other =
      ap (all_events (tracks_class st env self classes) m) (own-other self es e other)
