-- ===== src/Table/Load.antt =====
-- table.c: how far an insertion fills the array, and how large the array becomes.
use memory_profiler.Base.{
  ℕ, ◌+◌, ◌*◌, ◌≤◌, ◌<◌, ◌≡◌, ◌⊎◌, refl, inl, inr, Bool, true, false, Option, none, some, arith,
  Bool-cases, mul_size, sym,
}
use memory_profiler.Ruby.{Ruby}
use memory_profiler.Table.Layout.{Table, Entry, tombstone, max_probe_length, entry_size}
use memory_profiler.Table.Probing.{find_insert_slot}
use memory_profiler.Table.Operations.{resize_table, insert_at, insert, overloaded}
use memory_profiler.Table.Slots.{occurrences_pos, scan}
use memory_profiler.Table.Holds.{IsLive, Holds, IsValid}
use memory_profiler.Table.Bounds.{find-lt}
use memory_profiler.Table.Resize.{RefusesOverflow, resize_table-Reads}
use memory_profiler.Table.Insert.{absences, insert-Inserts}
use mathlib.Core.Path.{subst₂}

pub absences-le : (o : Option Entry) → absences o ≤ 1
absences-le none = omega arith
absences-le (some e) = omega arith

module _ ⦃rb : Ruby⦄ where
  insert_at-tombstones :
      {t : Table} (v : IsValid t) (k i : ℕ) (found : Bool)
      → i < t.capacity
      → ((insert_at t k (i, found)).0.tombstones ≤ t.tombstones)
        × ((insert_at t k (i, found)).0.capacity ≡ t.capacity)
  unfolding insert_at
  insert_at-tombstones v k i true lt = (omega arith, refl)
  insert_at-tombstones {t} v k i false lt = (
    ground (arith, occurrences_pos tombstone t.entries i, v.buried, v.width, v.counted, v.fits),
    refl,
  )

  module _ {t : Table} (v : IsValid t) (k : ℕ) (ok : IsLive k) (calloc : ℕ → ℕ → Bool)
      (refuses : RefusesOverflow calloc)
      (granted : overloaded t ≡ true → calloc (mul_size t.capacity 2) entry_size ≡ true)
      (few : t.count + t.tombstones < max_probe_length) where
    -- What an insertion leaves: at most one slot more than half of them in use, at most one more in
    -- use than before, and an array no larger than it was or than four times the slots in use.
    pub record Loads (r : Table) : Type 0 where
      pub half : 2 * (r.count + r.tombstones) ≤ r.capacity + 2
      pub one_more : r.count + r.tombstones ≤ t.count + t.tombstones + 1
      pub tight : (r.capacity ≡ t.capacity) ⊎ (r.capacity < 4 * (t.count + t.tombstones))

    roomy-Loads :
        overloaded t ≡ false
        → (let (r, i) = insert_at t k (find_insert_slot t k) in r.count ≤ t.count + 1)
        → Loads (insert_at t k (find_insert_slot t k)).0
    roomy-Loads roomy counted =
        let (i, found) = find_insert_slot t k in
        let (dead, same) = insert_at-tombstones v k i found (find-lt t k v.positive).1 in
        record {
          half = ground (arith, v.counted, v.fits);
          one_more = omega arith;
          tight = inl same;
        }

    grown-Loads :
        overloaded t ≡ true
        → (let r = resize_table calloc t in
            (insert_at r k (find_insert_slot r k)).0.count ≤ t.count + 1)
        → Loads (let r = resize_table calloc t in insert_at r k (find_insert_slot r k)).0
    grown-Loads full counted =
        let r = resize_table calloc t in
        let big = resize_table-Reads v calloc refuses (granted full) (omega arith) in
        let valid : IsValid r =
          subst₂ (λ a b. Holds r.capacity a b r.entries) (sym big.count) (sym big.tombstones)
            big.holds in
        let (i, found) = find_insert_slot r k in
        let (dead, same) = insert_at-tombstones valid k i found (find-lt r k valid.positive).1 in
        let none_dead : r.tombstones ≡ 0 = big.tombstones in
        let double : r.capacity ≡ t.capacity * 2 = big.capacity in
        let crowded : t.capacity < 2 * (t.count + t.tombstones) =
          ground (arith, v.counted, v.fits) in
        record {
          half = omega (arith, v.counted, v.positive);
          one_more = omega arith;
          tight = inr (omega arith);
        }

    -- On a well-formed table with fewer than 10000 slots in use, where `calloc` grants a resize that is
    -- needed and refuses sizes that overflow: after an `insert`, keys and tombstones fill at most half
    -- of the array and one slot, they are at most one more than before, and the array is as large as
    -- before or less than four times as large as the slots that were in use.
    pub insert-Loads : Loads (insert calloc t k).0
    unfolding insert
    insert-Loads =
        let done = insert-Inserts v k ok calloc refuses granted few in
        let counted : (insert calloc t k).0.count ≤ t.count + 1 =
          omega (arith, done.counted, absences-le (scan k t.entries)) in
        elim (Bool-cases (overloaded t)) [
          | inl full ↦ rw full (grown-Loads full (rw full at counted))
          | inr roomy ↦ rw roomy (roomy-Loads roomy (rw roomy at counted))
        ]
