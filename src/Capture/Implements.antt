-- ===== src/Capture/Implements.antt =====
-- events.c and capture.c together: what the processing of the queue makes of a capture, against a map
-- from live objects to their classes and two counts.
use mathlib.Core.Option
use memory_profiler.Base.{
  ℕ, ◌-◌, ◌+◌, ◌^◌, ◌≤◌, ◌<◌, ◌≡◌, refl, sym, ap, ◌∙◌, Bool, true, false, List, [], ◌∷◌, Option,
  none, some, ◌==◌, if◌then◌else◌, arith, add_size, mul_size,
}
use memory_profiler.Ruby.{Ruby, StTable}
use memory_profiler.Events.{Event, EventType}
use memory_profiler.Table.Layout.{Table, Entry, entry_size, max_probe_length}
use memory_profiler.Table.Slots.{scan}
use memory_profiler.Table.Holds.{IsLive, IsValid}
use memory_profiler.Table.Resize.{RefusesOverflow}
use memory_profiler.Capture.State.{Capture, World, Run, finished, Surroundings}
use memory_profiler.Capture.Calls.{paused-captures}
use memory_profiler.Capture.Newobj.{Ready, Newobj, ignored, tracked}
use memory_profiler.Capture.Counting.{known, created}
use memory_profiler.Capture.Objects.{resize_small}

-- The abstract view of a capture: the class of each live object, how many there are, and the counts.
pub record Model : Type 0 where
  pub classes : ℕ → Option ℕ
  pub size : ℕ
  pub new_count : ℕ
  pub free_count : ℕ

abbrev pub added : Option ℕ → ℕ
added none = 1
added (some klass) = 0

-- `tracks` says which classes are tracked.
module _ (tracks : ℕ → Bool) where
  abbrev pub next_newobj : Model → ℕ → ℕ → Model
  next_newobj m klass object =
      if tracks klass
      then record m {
        classes = λ q. if q == object then some klass else m.classes q;
        size = m.size + added (m.classes object);
        new_count = add_size m.new_count 1;
      }
      else m

  abbrev pub free_at : Model → ℕ → Option ℕ → Model
  free_at m object none = m
  free_at m object (some klass) =
      if tracks klass
      then record m {
        classes = λ q. if q == object then none else m.classes q;
        size = m.size - 1;
        free_count = add_size m.free_count 1;
      }
      else m

  unfoldable pub next_event : Model → Event → Model
  next_event m e = elim e.kind [
    | EventType.newobj ↦ next_newobj m e.klass e.object
    | EventType.freeobj ↦ free_at m e.object (m.classes e.object)
    | EventType.none ↦ m
  ]

  unfoldable pub all_events : Model → List Event → Model
  all_events m [] = m
  all_events m (e ∷ es) = all_events (next_event m e) es

module _ ⦃rb : Ruby⦄ (st : StTable) (env : Surroundings st) (self : ℕ) (classes : st.Table) where
  abbrev pub tracks_class : ℕ → Bool
  tracks_class klass = elim (st.lookup classes klass) [ some a ↦ true | none ↦ false ]

  -- The capture has these explicitly tracked classes, its table reads as the model with at most `n`
  -- slots in use, and its counts are the model's.
  pub record Implements (w : World st) (m : Model) (n : ℕ) : Type 0 where
    pub table : Table
    pub states : (w.captures self).states ≡ some table
    pub classes_fixed : (w.captures self).tracked ≡ classes
    pub explicit : (w.captures self).track_all ≡ false
    pub paused : (w.captures self).paused < 2 ^ 32
    pub valid : IsValid table
    pub reads :
        (q : ℕ)
        → IsLive q
        → Option.map (λ (e : Entry). e.klass) (scan q table.entries) ≡ m.classes q
    pub sized : table.count ≡ m.size
    pub used : table.count + table.tombstones ≤ n
    pub new_count : (w.captures self).new_count ≡ m.new_count
    pub free_count : (w.captures self).free_count ≡ m.free_count

  -- A world with the same capture implements the same model.
  pub same-Implements :
      (w w' : World st) (m : Model) (n n' : ℕ)
      → w'.captures self ≡ w.captures self
      → n ≤ n'
      → Implements w m n
      → Implements w' m n'
  same-Implements w w' m n n' e le i = record {
    table = i.table;
    states = ap (λ (x : Capture st). x.states) e ∙ i.states;
    classes_fixed = ap (λ (x : Capture st). x.tracked) e ∙ i.classes_fixed;
    explicit = ap (λ (x : Capture st). x.track_all) e ∙ i.explicit;
    paused = omega (arith, ap (λ (x : Capture st). x.paused) e, i.paused);
    valid = i.valid;
    reads = i.reads;
    sized = i.sized;
    used = omega (arith, i.used, le);
    new_count = ap (λ (x : Capture st). x.new_count) e ∙ i.new_count;
    free_count = ap (λ (x : Capture st). x.free_count) e ∙ i.free_count;
  }

  -- A run that finishes in a world that implements a model.
  abbrev pub Reaches : Run st → Model → ℕ → Type 0
  Reaches run m n = (w' : World st) × (run ≡ finished w') × Implements w' m n

  pub Newobj-ignored :
      (w : World st) (klass object : ℕ) (t : Table) (run : Run st)
      → st.lookup (w.captures self).tracked klass ≡ none
      → (w.captures self).track_all ≡ false
      → Newobj st env w self klass object t run
      → (w' : World st) × (run ≡ finished w') × (w'.captures self ≡ w.captures self)
  Newobj-ignored w klass object t run e off (ignored w' absent off' same) = (w', refl, same)
  Newobj-ignored w klass object t run e off
        (tracked a r cs before run' (known a' found) shape rec after) =
      absurd (
        ground (
          arith,
          sym e
              ∙ ap (λ (x : Capture st). st.lookup x.tracked klass) (sym (paused-captures st self w))
              ∙ found,
        ))
  Newobj-ignored w klass object t run e off
        (tracked a r cs before run' (created absent all) shape rec after) =
      absurd (
        ground (
          arith,
          sym off ∙ ap (λ (x : Capture st). x.track_all) (sym (paused-captures st self w)) ∙ all,
        ))

  module _ (refuses : RefusesOverflow env.calloc)
      (grants : (c : ℕ) → c < 40000 → env.calloc c entry_size ≡ true) where
    pub ready : (t : Table) → IsValid t → t.count + t.tombstones < max_probe_length → Ready st env t
    ready t v few = record {
      valid = v;
      refuses = refuses;
      granted = λ full. grants (mul_size t.capacity 2) (resize_small t v few full);
      few = few;
    }

-- A capture that differs in its classes and flags only implements the same model.
pub retracked-Implements :
    ⦃rb : Ruby⦄ (st : StTable) (env : Surroundings st) (self : ℕ) (m : Model) (n : ℕ)
    (classes c : st.Table) (w w' : World st) (running : Bool) (paused : ℕ)
    → w'.captures self
      ≡ record (w.captures self) { tracked = c; running = running; paused = paused }
    → paused < 2 ^ 32
    → Implements st env self classes w m n
    → Implements st env self c w' m n
retracked-Implements st env self m n classes c w w' running paused e small i = record {
  table = i.table;
  states = ap (λ (x : Capture st). x.states) e ∙ i.states;
  classes_fixed = ap (λ (x : Capture st). x.tracked) e;
  explicit = ap (λ (x : Capture st). x.track_all) e ∙ i.explicit;
  paused = omega (arith, ap (λ (x : Capture st). x.paused) e, small);
  valid = i.valid;
  reads = i.reads;
  sized = i.sized;
  used = i.used;
  new_count = ap (λ (x : Capture st). x.new_count) e ∙ i.new_count;
  free_count = ap (λ (x : Capture st). x.free_count) e ∙ i.free_count;
}
