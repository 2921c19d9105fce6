-- ===== src/Table/Compact.antt =====
-- `compact` as a whole: what is read under the new addresses after the garbage collector has moved
-- objects.
use mathlib.Core.Option
use mathlib.Core.Path.{subst₂}
use memory_profiler.Base.{
  ℕ, ◌+◌, ◌≤◌, ◌<◌, ◌≡◌, refl, sym, ap, ◌∙◌, ◌≢◌, Bool, true, List, [], ◌∷◌, none, some, arith,
  length, map, Bool-cases, inl, inr, subst, mul_size, replicate,
}
use native.Mathlib.Decide.{ℕ_discrete, dec_lt}
use memory_profiler.Ruby.{Ruby}
use memory_profiler.Table.Layout.{Entry, Table, zeroed, max_probe_length, entry_size}
use memory_profiler.Table.Operations.{place_all}
use memory_profiler.Table.Gc.{any_moved, compact}
use memory_profiler.Table.Slots.{occurrences, scan, scan-none}
use memory_profiler.Table.Holds.{IsLive, Holds, IsValid}
use memory_profiler.Table.Rebuild.{
  live_entries, live_entries-AllLive, AllLive, Reads, Reads-congr, cleared-Reads, place_all-Reads,
  occurrences-live_entries, scan-live_entries,
}
use memory_profiler.Table.Resize.{length-live, or_else-none}
use memory_profiler.Table.Moves.{
  move, collect-live_entries, Within, occurrences-move, scan-move, origin,
}
use memory_profiler.Table.Relocate.{
  Relocates, length-map, IsKey, within, Compacts, compact_empty, compact_still,
}
    -- The collected entries, which the second loop stores.

module _ ⦃rb : Ruby⦄ where
  module _ {t : Table} (v : IsValid t) (location : ℕ → ℕ) (gc : Relocates location t.entries) where
    collected : List Entry
    collected = map (move location) (live_entries t.entries)

    collected-Within : Within location (IsKey t.entries) gc.apart (live_entries t.entries)
    collected-Within =
        within (live_entries t.entries) t.entries (live_entries-AllLive t.entries)
          (λ q ql h. omega (arith, occurrences-live_entries q t.entries ql)) location gc.apart

    all_live :
        (es : List Entry)
        → Within location (IsKey t.entries) gc.apart es
        → AllLive (map (move location) es)
    all_live [] w = tt
    all_live (e ∷ es) (k, w) = (gc.live e.object k, all_live es w)

    collected_once : (q : ℕ) → IsLive q → occurrences q collected ≤ 1
    unfolding collected
    collected_once q ql =
        let es = live_entries t.entries in
        elim (dec_lt 0 (occurrences q collected)) [
          | no n ↦ omega arith
          | yes k ↦
              let (p, pk, e) = origin location (IsKey t.entries) gc.apart q es collected-Within k in
              subst (λ w. occurrences w collected ≤ 1) e
                (omega (
                  arith,
                  occurrences-move location (IsKey t.entries) gc.apart p es pk collected-Within,
                  occurrences-live_entries p t.entries pk.0,
                  v.once p pk.0,
                ))
        ]

    none_there :
        (q : ℕ) → ((p : ℕ) → IsKey t.entries p → location p ≢ q) → occurrences q collected ≡ 0
    unfolding collected
    none_there q h = elim (dec_lt 0 (occurrences q collected)) [
      | no n ↦ omega arith
      | yes k ↦
          let (p, pk, e) =
            origin location (IsKey t.entries) gc.apart q (live_entries t.entries) collected-Within
              k in
          absurd (h p pk e)
    ]

    rebuilt : Table
    rebuilt =
        place_all collected
          (record t { entries = replicate t.capacity zeroed; count = 0; tombstones = 0 })

    rebuilt-Reads :
        t.count < t.capacity
        → t.count < max_probe_length
        → Reads t.capacity t.count (λ q. scan q collected) rebuilt
    unfolding rebuilt collected
    rebuilt-Reads roomy few =
        let width : 0 + length collected ≡ t.count =
          omega (arith, length-map (live_entries t.entries) (move location), length-live v) in
        let start = cleared-Reads t.capacity v.positive v.fits in
        let built =
          place_all-Reads collected _ t.capacity 0 (λ q. none)
            (all_live (live_entries t.entries) collected-Within) start
            (omega (arith, width), omega (arith, width))
            (λ q ql. (collected_once q ql, λ _. refl)) in
        subst (λ n. Reads t.capacity n (λ q. scan q collected) rebuilt) width
          (Reads-congr t.capacity (0 + length collected)
            (λ q. Option.or_else (scan q collected) none) (λ q. scan q collected) rebuilt built
            (λ q ql. or_else-none (scan q collected)))

    rebuilt-Compacts :
        t.count < t.capacity → t.count < max_probe_length → Compacts v location gc rebuilt
    unfolding collected
    rebuilt-Compacts roomy few =
        let r = rebuilt-Reads roomy few in
        let es = live_entries t.entries in
        record {
          valid =
              subst₂ (λ a b. Holds rebuilt.capacity a b rebuilt.entries) (sym r.count)
                (sym r.tombstones) r.holds;
          capacity = r.capacity;
          count = r.count;
          moved = λ q k.
              r.reads (location q) (gc.live q k)
              ∙ scan-move location (IsKey t.entries) gc.apart q es k collected-Within
              ∙ ap (Option.map (move location)) (scan-live_entries q t.entries k.0);
          gone = λ q ql h. r.reads q ql ∙ scan-none q collected (none_there q h);
        }

    -- On a well-formed table with an empty or deleted slot and fewer than 10000 keys, where `malloc`
    -- grants the temporary array and `rb_gc_location` gives different keys different live addresses:
    -- `compact` writes no entry behind the end of that array, and returns a well-formed table with the
    -- same count that reads at each key's new address its entry with all addresses updated, and
    -- nothing at any other address.
    pub compact-Compacts :
        (malloc : ℕ → Bool)
        → malloc (mul_size t.count entry_size) ≡ true
        → t.count < t.capacity
        → t.count < max_probe_length
        → (r : Table) × (compact location malloc t ≡ some r) × Compacts v location gc r
    unfolding compact rebuilt collected
    compact-Compacts malloc granted roomy few = elim (ℕ_discrete t.count 0) [
      | yes e ↦ (t, ground arith, compact_empty v location gc e)
      | no n ↦ elim (Bool-cases (any_moved location t.entries)) [
        | inr still ↦ (_, ground (arith, still), compact_still v location gc still)
        | inl some_moved ↦ (
          rebuilt,
          ground (
            arith,
            some_moved,
            granted,
            collect-live_entries location t.count t.entries (omega (arith, length-live v)),
          ),
          rebuilt-Compacts roomy few,
        )
      ]
    ]
