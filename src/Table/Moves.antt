-- ===== src/Table/Moves.antt =====
-- `compact` when the garbage collector moves objects: the loops, entry by entry.
use mathlib.Core.Option
use memory_profiler.Base.{
  ℕ, zero, suc, ◌≤◌, ◌<◌, ◌≡◌, refl, ap, false, List, [], ◌∷◌, some, arith, length, map,
}
use native.Mathlib.Decide.{ℕ_discrete}
use memory_profiler.Ruby.{Ruby}
use memory_profiler.Table.Layout.{Entry, object_at}
use memory_profiler.Table.Gc.{any_moved, update_values, collect, move_fields}
use memory_profiler.Table.Slots.{occurrences, scan}
use memory_profiler.Table.Holds.{IsLive}
use memory_profiler.Table.Rebuild.{live_entries}

module _ ⦃rb : Ruby⦄ (location : ℕ → ℕ) where
  -- An entry with all its three words brought up to date.
  abbrev pub move : Entry → Entry
  move e = record {
    object = location e.object;
    klass = location e.klass;
    data_value = location e.data_value;
  }

  pub collect-live_entries :
      (room : ℕ) (es : List Entry)
      → length (live_entries es) ≤ room
      → collect location room es ≡ some (map move (live_entries es))
  unfolding collect live_entries
  collect-live_entries room [] h = refl
  collect-live_entries zero (e ∷ es) h = ground (arith, collect-live_entries zero es)
  collect-live_entries (suc room) (e ∷ es) h =
      ground (arith, collect-live_entries room es, collect-live_entries (suc room) es)

  pub length-update_values : (es : List Entry) → length (update_values location es) ≡ length es
  unfolding update_values
  length-update_values [] = refl
  length-update_values (e ∷ es) = ap suc (length-update_values es)

  pub object_at-update_values :
      (es : List Entry) (i : ℕ) → object_at (update_values location es) i ≡ object_at es i
  unfolding update_values
  object_at-update_values [] i = refl
  object_at-update_values (e ∷ es) zero = ground arith
  object_at-update_values (e ∷ es) (suc i) = object_at-update_values es i

  pub occurrences-update_values :
      (q : ℕ) (es : List Entry) → occurrences q (update_values location es) ≡ occurrences q es
  unfolding update_values occurrences
  occurrences-update_values q [] = refl
  occurrences-update_values q (e ∷ es) = ground (arith, occurrences-update_values q es)

  pub scan-update_values :
      (q : ℕ) (es : List Entry)
      → IsLive q
      → scan q (update_values location es) ≡ Option.map (move_fields location) (scan q es)
  unfolding update_values scan
  scan-update_values q [] ok = refl
  scan-update_values q (e ∷ es) ok = ground (arith, ok.0, ok.1, scan-update_values q es ok)

  -- Where the first pass finds no difference, every key is at its old place.
  pub any_moved-false :
      (q : ℕ) (es : List Entry)
      → IsLive q
      → any_moved location es ≡ false
      → 0 < occurrences q es
      → location q ≡ q
  unfolding any_moved occurrences
  any_moved-false q [] ok still h = elim h [ ]
  any_moved-false q (e ∷ es) ok still h = ground (arith, ok.0, ok.1, any_moved-false q es ok)

  -- Facts on a list of entries whose keys are in `P`, on which the moves keep keys apart.
  module _ (P : ℕ → Type 0) (apart : (a b : ℕ) → P a → P b → location a ≡ location b → a ≡ b) where
    abbrev pub Within : List Entry → Type 0
    Within [] = Unit {0}
    Within (e ∷ es) = P e.object × Within es

    pub occurrences-move :
        (q : ℕ) (es : List Entry)
        → P q
        → Within es
        → occurrences (location q) (map move es) ≡ occurrences q es
    unfolding occurrences
    occurrences-move q [] p w = refl
    occurrences-move q (e ∷ es) p (pe, w) =
        ground (arith, apart e.object q pe p, occurrences-move q es p w)

    pub scan-move :
        (q : ℕ) (es : List Entry)
        → P q
        → Within es
        → scan (location q) (map move es) ≡ Option.map move (scan q es)
    unfolding scan
    scan-move q [] p w = refl
    scan-move q (e ∷ es) p (pe, w) = ground (arith, apart e.object q pe p, scan-move q es p w)

    pub origin :
        (q : ℕ) (es : List Entry)
        → Within es
        → 0 < occurrences q (map move es)
        → (p : ℕ) × P p × (location p ≡ q)
    unfolding occurrences
    origin q [] w h = elim h [ ]
    origin q (e ∷ es) (pe, w) h = elim (ℕ_discrete (location e.object) q) [
      | yes e' ↦ (e.object, pe, e')
      | no n ↦ origin q es w (ground arith)
    ]
