-- ===== src/Table/Relocate.antt =====
-- table.c: what a compaction promises, and the compaction of a table in which no object has moved.
use mathlib.Core.Option
use memory_profiler.Base.{
  ℕ, suc, ◌<◌, ◌≡◌, refl, sym, ap, ◌∙◌, ◌≢◌, false, List, [], ◌∷◌, none, some, arith, length, map,
  subst, get_or,
}
use native.Mathlib.Decide.{dec_lt}
use memory_profiler.Ruby.{Ruby}
use memory_profiler.Table.Layout.{Entry, Table, object_at, zeroed, tombstone}
use memory_profiler.Table.Gc.{any_moved, update_values, move_fields}
use memory_profiler.Table.Slots.{
  occurrences, scan, scan-none, occurrences_disjoint, index_of, scan-at,
}
use memory_profiler.Table.Holds.{IsLive, Holds, IsValid, Placed}
use memory_profiler.Table.Rebuild.{AllLive, occurrences-head}
use memory_profiler.Table.Moves.{
  move, length-update_values, object_at-update_values, occurrences-update_values,
  scan-update_values, any_moved-false, Within,
}

pub length-map : (es : List Entry) (f : Entry → Entry) → length (map f es) ≡ length es
length-map [] f = refl
length-map (e ∷ es) f = ap suc (length-map es f)

module _ ⦃rb : Ruby⦄ where
  -- The keys that stand in an array.
  abbrev pub IsKey : List Entry → ℕ → Type 0
  IsKey es q = IsLive q × (0 < occurrences q es)

  -- What the garbage collector promises of `rb_gc_location` on objects that exist: two objects are
  -- not moved to one address, and none is moved to the address zero or to `nil`.
  pub record Relocates (location : ℕ → ℕ) (es : List Entry) : Type 0 where
    pub live : (q : ℕ) → IsKey es q → IsLive (location q)
    pub apart : (a b : ℕ) → IsKey es a → IsKey es b → location a ≡ location b → a ≡ b

  pub within :
      (ls es : List Entry)
      → AllLive ls
      → ((q : ℕ) → IsLive q → 0 < occurrences q ls → 0 < occurrences q es)
      → (location : ℕ → ℕ)
        (apart : (a b : ℕ) → IsKey es a → IsKey es b → location a ≡ location b → a ≡ b)
      → Within location (IsKey es) apart ls
  unfolding occurrences
  within [] es ok sub location apart = tt
  within (e ∷ ls) es (ok, oks) sub location apart = (
    (ok, sub e.object ok (occurrences-head e ls)),
    within ls es oks (λ q ql h. sub q ql (grown q e ls h)) location apart,
  )
    where
      grown :
          (q : ℕ) (e : Entry) (ls : List Entry) → 0 < occurrences q ls → 0 < occurrences q (e ∷ ls)
      grown q e ls h = omega arith

  module _ {t : Table} (v : IsValid t) (location : ℕ → ℕ) (gc : Relocates location t.entries) where
    -- `r` reads under the new address of each key its entry with all three words brought up to
    -- date, and nothing under any other word.
    pub record Compacts (r : Table) : Type 0 where
      pub valid : IsValid r
      pub capacity : r.capacity ≡ t.capacity
      pub count : r.count ≡ t.count
      pub moved :
          (q : ℕ)
          → IsKey t.entries q
          → scan (location q) r.entries ≡ Option.map (move location) (scan q t.entries)
      pub gone :
          (q : ℕ)
          → IsLive q
          → ((p : ℕ) → IsKey t.entries p → location p ≢ q)
          → scan q r.entries ≡ none

    no_keys : t.count ≡ 0 → (q : ℕ) → IsLive q → occurrences q t.entries ≡ 0
    no_keys e q ql = omega (
      arith,
      v.width,
      v.counted,
      v.buried,
      occurrences_disjoint q 0 tombstone t.entries ql.0 (λ z. rb.q_nil_ne_zero (sym z)) ql.1,
    )

    pub compact_empty : t.count ≡ 0 → Compacts t
    compact_empty e = record {
      valid = v;
      capacity = refl;
      count = refl;
      moved = λ q k. absurd (omega (arith, no_keys e q k.0, k.1));
      gone = λ q ql h. scan-none q t.entries (no_keys e q ql);
    }

    same_object : (i : ℕ) → object_at (update_values location t.entries) i ≡ object_at t.entries i
    same_object = object_at-update_values location t.entries

    update_values-Holds : Holds t.capacity t.count t.tombstones (update_values location t.entries)
    update_values-Holds =
        let es = update_values location t.entries in
        record {
          width = length-update_values location t.entries ∙ v.width;
          positive = v.positive;
          fits = v.fits;
          counted = omega (arith, v.counted, occurrences-update_values location 0 t.entries);
          buried = occurrences-update_values location tombstone t.entries ∙ v.buried;
          once = λ q ql. omega (arith, v.once q ql, occurrences-update_values location q t.entries);
          placed = λ j lt live.
              let p = v.placed j lt (subst IsLive (same_object j) live) in
              subst (λ k. Placed es t.capacity k j) (sym (same_object j))
                (record {
                  rounds = p.rounds;
                  short = p.short;
                  near = p.near;
                  arrives = p.arrives;
                  chain = λ m ml z. p.chain m ml (sym (same_object _) ∙ z);
                });
        }

    -- A key's entry in the array.
    scan-key :
        (q : ℕ) → IsKey t.entries q → (e : Entry) × (scan q t.entries ≡ some e) × (e.object ≡ q)
    scan-key q k =
        let (i, lt, at) = index_of q t.entries k.1 in
        (get_or t.entries i zeroed, scan-at q t.entries i (v.once q k.0) lt at, at)

    kept_moved :
        (q : ℕ)
        → IsKey t.entries q
        → any_moved location t.entries ≡ false
        → scan (location q) (update_values location t.entries)
          ≡ Option.map (move location) (scan q t.entries)
    kept_moved q k still =
        let same : location q ≡ q = any_moved-false location q t.entries k.0 still k.1 in
        let (e, there, at) = scan-key q k in
        ap (λ w. scan w (update_values location t.entries)) same
        ∙ scan-update_values location q t.entries k.0
        ∙ ap (Option.map (move_fields location)) there
        ∙ ap
            (λ w.
              some (record {
                object = w;
                klass = location e.klass;
                data_value = location e.data_value;
              }))
            (at ∙ sym same ∙ ap location (sym at))
        ∙ ap (Option.map (move location)) (sym there)

    kept_gone :
        (q : ℕ)
        → IsLive q
        → ((p : ℕ) → IsKey t.entries p → location p ≢ q)
        → any_moved location t.entries ≡ false
        → scan q (update_values location t.entries) ≡ none
    kept_gone q ql h still = elim (dec_lt 0 (occurrences q t.entries)) [
      | yes k ↦ absurd (h q (ql, k) (any_moved-false location q t.entries ql still k))
      | no n ↦
          scan-none q (update_values location t.entries)
            (omega (arith, occurrences-update_values location q t.entries))
    ]

    pub compact_still :
        any_moved location t.entries ≡ false
        → Compacts (record t { entries = update_values location t.entries })
    compact_still still = record {
      valid = update_values-Holds;
      capacity = refl;
      count = refl;
      moved = λ q k. kept_moved q k still;
      gone = λ q ql h. kept_gone q ql h still;
    }
