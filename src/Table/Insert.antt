-- ===== src/Table/Insert.antt =====
-- `insert`: the key that is stored, and the other keys.
use mathlib.Core.Option
use mathlib.Core.Path.{subst₂, ap₂}
use memory_profiler.Base.{
  ℕ, ◌+◌, ◌-◌, ◌%◌, ◌^◌, ◌<◌, ◌≡◌, sym, ap, ◌∙◌, Bool, true, Option, none, some, arith, length,
  subst, mul_size, dec_size, set, get_or, if◌then◌else◌, ◌==◌, Bool-cases, get_or-set_self, inl,
  inr,
}
use memory_profiler.Ruby.{Ruby}
use memory_profiler.Table.Layout.{
  Entry, Table, zeroed, object_at, tombstone, max_probe_length, entry_size,
}
use memory_profiler.Table.Probing.{find_insert_slot}
use memory_profiler.Table.Operations.{resize_table, insert_at, insert, overloaded, lookup}
use memory_profiler.Table.Slots.{occurrences_pos, scan, scan-set, scan-at, scan-none, index_unique}
use memory_profiler.Table.Holds.{IsLive, Holds, IsValid, store-Holds, keep-Holds}
use memory_profiler.Table.Room.{HasRoom, find_insert_slot_lem}
use memory_profiler.Table.Lookup.{lookup_cases}
use memory_profiler.Table.Resize.{RefusesOverflow, resize_table-Reads}

-- The entry that a new key starts with.
abbrev pub blank : ℕ → Entry
blank k = record { object = k; klass = 0; data_value = 0 }

abbrev pub absences : Option Entry → ℕ
absences none = 1
absences (some e) = 0

module _ ⦃rb : Ruby⦄ where
  -- `r` is a table and a pointer to the entry of `k` in it, where `f` was to be read before.
  pub record Inserts (f : ℕ → Option Entry) (count k : ℕ) (r : Table × ℕ) : Type 0 where
    pub valid : IsValid r.0
    pub bound : r.1 < r.0.capacity
    pub at : object_at r.0.entries r.1 ≡ k
    pub counted : r.0.count ≡ count + absences (f k)
    pub reads :
        (q : ℕ)
        → IsLive q
        → scan q r.0.entries ≡ (if q == k then some (Option.get_or (f k) (blank k)) else f q)

  insert_at-Inserts :
      {t : Table} (v : IsValid t) (k : ℕ)
      → IsLive k
      → HasRoom t.capacity t.count t.tombstones
      → Inserts (λ q. scan q t.entries) t.count k (insert_at t k (find_insert_slot t k))
  unfolding insert_at
  insert_at-Inserts {t} v k ok room =
      let i = (find_insert_slot t k).0 in
      elim (find_insert_slot_lem v room k ok) [
        | inl (found, lt, at) ↦
            let e : Entry = record (get_or t.entries i zeroed) { object = k } in
            let there = scan-at k t.entries i (v.once k ok) (omega (arith, v.width)) at in
            let h = keep-Holds v i lt e (subst IsLive (sym at) ok) (sym at) in
            rw found (record {
              valid = h;
              bound = lt;
              at =
                  ap (λ (x : Entry). x.object)
                    (get_or-set_self t.entries i e zeroed (omega (arith, v.width)));
              counted = ground (arith, there);
              reads = λ q ql.
                  scan-set q t.entries i e (omega (arith, v.width)) (v.once q ql) (h.once q ql)
                  ∙ ground (arith, there, at);
            })
        | inr (missed, slot) ↦
            let e : Entry = blank k in
            let inside : i < length t.entries = omega (arith, v.width, slot.bound) in
            let nothing = scan-none k t.entries slot.absent in
            let stored = store-Holds v i slot.bound e ok slot.absent slot.free slot.reached in
            let one_more : t.count + 1 ≡ (t.count + 1) % 2 ^ 64 =
              omega (arith, v.counted, v.fits, room.0) in
            let reused : (if object_at t.entries i == tombstone
                  then t.tombstones - 1
                  else t.tombstones)
                ≡ (if object_at t.entries i == tombstone
                    then dec_size t.tombstones
                    else t.tombstones) =
              ground (
                arith,
                occurrences_pos tombstone t.entries i inside,
                v.buried,
                v.counted,
                v.fits,
              ) in
            let h =
              subst₂ (λ a b. Holds t.capacity a b (set t.entries i e)) one_more reused stored in
            rw missed (record {
              valid = h;
              bound = slot.bound;
              at = ap (λ (x : Entry). x.object) (get_or-set_self t.entries i e zeroed inside);
              counted = ground (arith, nothing, one_more);
              reads = λ q ql.
                  scan-set q t.entries i e inside (v.once q ql) (h.once q ql)
                  ∙ ground (arith, nothing, slot.free, ql.0, ql.1);
            })
      ]

module _ ⦃rb : Ruby⦄ {t : Table} (v : IsValid t) (k : ℕ) (ok : IsLive k) (calloc : ℕ → ℕ → Bool)
    (refuses : RefusesOverflow calloc)
    (granted : overloaded t ≡ true → calloc (mul_size t.capacity 2) entry_size ≡ true)
    (few : t.count + t.tombstones < max_probe_length) where
  grown :
      calloc (mul_size t.capacity 2) entry_size ≡ true
      → Inserts
          (λ q. scan q t.entries)
          t.count
          k
          (let r = resize_table calloc t in insert_at r k (find_insert_slot r k))
  grown yields =
      let r = resize_table calloc t in
      let big = resize_table-Reads v calloc refuses yields (omega arith) in
      let valid : IsValid r =
        subst₂ (λ a b. Holds r.capacity a b r.entries) (sym big.count) (sym big.tombstones)
          big.holds in
      let room : HasRoom r.capacity r.count r.tombstones = (
        omega (arith, big.count, big.tombstones, big.capacity, v.counted, v.positive),
        omega (arith, big.count, big.tombstones),
      ) in
      let done = insert_at-Inserts valid k ok room in
      record {
        valid = done.valid;
        bound = done.bound;
        at = done.at;
        counted = done.counted ∙ ap₂ (λ a o. a + absences o) big.count (big.reads k ok);
        reads = λ q ql.
            done.reads q ql
            ∙ ap₂ (λ o p. if q == k then some (Option.get_or o (blank k)) else p) (big.reads k ok)
                (big.reads q ql);
      }

  -- On a well-formed table with fewer than 10000 slots in use, where `calloc` grants a resize that is
  -- needed: `insert` returns a pointer to the key's entry, which is blank if the key is new, adds one
  -- to the count in that case, changes no other lookup and keeps the table well formed.
  pub insert-Inserts : Inserts (λ q. scan q t.entries) t.count k (insert calloc t k)
  unfolding insert
  insert-Inserts = elim (Bool-cases (overloaded t)) [
    | inl full ↦ rw full (grown (granted full))
    | inr roomy ↦
        let space : t.count + t.tombstones < t.capacity =
          ground (arith, v.positive, v.counted, v.fits) in
        rw roomy (insert_at-Inserts v k ok (space, few))
  ]

  -- On a well-formed table with fewer than 10000 slots in use, where `calloc` grants a resize that
  -- is needed and refuses sizes that overflow: after the insertion of a live key, `lookup` finds
  -- the pointer that `insert` returned.
  pub lookup-insert : let r = insert calloc t k in lookup r.0 k ≡ some r.1
  lookup-insert =
      let r = insert calloc t k in
      let done = insert-Inserts in
      elim (lookup_cases done.valid k ok) [
        | inl (i, e, lt, at, _) ↦
            e
            ∙ ap some (
                index_unique k r.0.entries i r.1 (done.valid.once k ok)
                  (omega (arith, done.valid.width)) (omega (arith, done.valid.width, done.bound)) at
                  done.at)
        | inr (_, _, absent) ↦ absurd (
            omega (
              arith,
              occurrences_pos k r.0.entries r.1 (omega (arith, done.valid.width, done.bound))
                  done.at,
            ))
      ]
