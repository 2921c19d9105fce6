-- ===== src/Table/Delete.antt =====
-- Deletion: by key, by pointer, and what both do to the keys that stay.
use memory_profiler.Base.{
  ℕ, ◌+◌, ◌-◌, ◌%◌, ◌^◌, ◌<◌, ◌≡◌, refl, sym, ◌∙◌, ◌⊎◌, inl, inr, none, some, arith, ◌==◌,
  if◌then◌else◌, subst, set,
}
use mathlib.Core.Path.{subst₂}
use memory_profiler.Ruby.{Ruby}
use memory_profiler.Table.Layout.{Entry, Table, object_at, tombstone}
use memory_profiler.Table.Probing.{find_entry}
use memory_profiler.Table.Operations.{bury, delete, delete_entry, lookup}
use memory_profiler.Table.Slots.{scan, scan-set, scan-none}
use memory_profiler.Table.Holds.{IsLive, Holds, IsValid, bury-Holds, live_pos}
use memory_profiler.Table.Lookup.{find_entry_lem}

module _ ⦃rb : Ruby⦄ {t : Table} (v : IsValid t) where
  -- The table without the key `k`, which was there if `n` is 1.
  pub record Removes (k n : ℕ) (r : Table) : Type 0 where
    pub valid : IsValid r
    pub counted : r.count + n ≡ t.count
    pub used : r.count + r.tombstones ≡ t.count + t.tombstones
    pub reads : (q : ℕ) → IsLive q → scan q r.entries ≡ (if q == k then none else scan q t.entries)

  pub bury-Removes :
      (i : ℕ)
      → i < t.capacity
      → IsLive (object_at t.entries i)
      → Removes (object_at t.entries i) 1 (bury t i)
  bury-Removes i lt ok =
      let e : Entry = record { object = tombstone; klass = 0; data_value = 0 } in
      let pos = live_pos v i lt ok in
      let less : (t.count + (2 ^ 64 - 1)) % 2 ^ 64 ≡ t.count - 1 =
        omega (arith, v.counted, v.fits) in
      let more : (t.tombstones + 1) % 2 ^ 64 ≡ t.tombstones + 1 =
        omega (arith, v.counted, v.fits) in
      let h = bury-Holds v i lt e ok refl in
      record {
        valid = subst₂ (λ a b. Holds t.capacity a b (set t.entries i e)) (sym less) (sym more) h;
        counted = omega arith;
        used = omega arith;
        reads = λ q ql.
            scan-set q t.entries i e (omega (arith, v.width)) (v.once q ql) (h.once q ql)
            ∙ ground (arith, ql.1);
      }

  module _ (k : ℕ) (ok : IsLive k) where
    -- On a well-formed table: `delete` removes the key, subtracts one from the count, changes no other
    -- lookup and keeps the table well formed; or the key is absent and the table is unchanged.
    pub delete-Removes : ((scan k t.entries ≡ none) × (delete t k ≡ t)) ⊎ Removes k 1 (delete t k)
    unfolding delete
    delete-Removes = elim (find_entry_lem v k ok) [
      | inr (missed, absent) ↦ inl (scan-none k t.entries absent, rw missed)
      | inl (found, lt, at) ↦
          let i = (find_entry t.entries t.capacity k).0 in
          inr (
            rw found (
              subst (λ q. Removes q 1 (bury t i)) at
                (bury-Removes i lt (subst IsLive (sym at) ok))))
    ]

    -- On a well-formed table, deleting by the pointer that `lookup` returned for a live key does what
    -- deleting by that key does.
    pub delete_entry-eq-delete : (i : ℕ) → lookup t k ≡ some i → delete_entry t i ≡ delete t k
    unfolding delete delete_entry lookup
    delete_entry-eq-delete i e = ground (arith, find_entry_lem v k ok, ok.0, ok.1)
