-- ===== src/Table/Resize.antt =====
-- `resize_table`: what a granted resize keeps, and what a refused one leaves.
use mathlib.Core.Option
use mathlib.Core.Path.{subst₂}
use memory_profiler.Base.{
  ℕ, ◌+◌, ◌*◌, ◌^◌, ◌<◌, ◌≡◌, refl, ◌∙◌, Bool, true, Option, none, some, arith, length, mul_size,
  replicate,
}
use memory_profiler.Ruby.{Ruby}
use memory_profiler.Table.Layout.{Entry, Table, zeroed, max_probe_length, entry_size}
use memory_profiler.Table.Operations.{place_all, resize_table}
use memory_profiler.Table.Slots.{scan}
use memory_profiler.Table.Holds.{IsValid}
use memory_profiler.Table.Rebuild.{
  Reads, Reads-congr, live_entries, live_entries-AllLive, length-live_entries,
  occurrences-live_entries, scan-live_entries, rehash-eq-place_all, cleared-Reads, place_all-Reads,
}

-- What C promises of `calloc`: it grants no request whose size does not fit in a word.
abbrev pub RefusesOverflow : (ℕ → ℕ → Bool) → Type 0
RefusesOverflow calloc = (n size : ℕ) → calloc n size ≡ true → n * size < 2 ^ 64

-- The table that the rehashing loops start from.
abbrev cleared : ℕ → Table
cleared c = record { capacity = c; count = 0; tombstones = 0; entries = replicate c zeroed }

pub or_else-none : (o : Option Entry) → Option.or_else o none ≡ o
unfolding Option.or_else
or_else-none none = refl
or_else-none (some e) = refl

module _ ⦃rb : Ruby⦄ {t : Table} (v : IsValid t) where
  pub length-live : length (live_entries t.entries) ≡ t.count
  length-live = omega (arith, length-live_entries t.entries, v.width, v.counted, v.buried)

module _ ⦃rb : Ruby⦄ {t : Table} (v : IsValid t) (calloc : ℕ → ℕ → Bool) where
  -- On a well-formed table with fewer than 10000 keys, where `calloc` refuses sizes that overflow: a
  -- resize that is granted doubles the array, drops the tombstones, keeps every lookup and leaves the
  -- table well formed.
  pub resize_table-Reads :
      RefusesOverflow calloc
      → calloc (mul_size t.capacity 2) entry_size ≡ true
      → t.count < max_probe_length
      → Reads (t.capacity * 2) t.count (λ q. scan q t.entries) (resize_table calloc t)
  unfolding resize_table
  resize_table-Reads refuses granted few =
      let c : ℕ = mul_size t.capacity 2 in
      let double : c ≡ t.capacity * 2 = omega (arith, v.fits) in
      let es = live_entries t.entries in
      let start =
        cleared-Reads c (omega (arith, v.positive, v.fits)) (refuses c entry_size granted) in
      let built =
        place_all-Reads es (cleared c) c 0 (λ q. none) (live_entries-AllLive t.entries) start
          (
            omega (arith, (length-live v), v.counted, v.positive, double),
            omega (arith, (length-live v)),
          )
          (λ q ql.
            (omega (arith, v.once q ql, occurrences-live_entries q t.entries ql), λ _. refl)) in
      let total : 0 + length es ≡ t.count = omega (arith, (length-live v)) in
      let f : ℕ → Option Entry = λ q. scan q t.entries in
      rw granted (
        rw (rehash-eq-place_all t.entries) (
          subst₂ (λ a n. Reads a n f (place_all es (cleared c))) double total
            (Reads-congr c (0 + length es) (λ q. Option.or_else (scan q es) none) f
              (place_all es (cleared c)) built
              (λ q ql. or_else-none (scan q es) ∙ scan-live_entries q t.entries ql))))
