-- ===== src/Capture/Objects.antt =====
-- The object table as capture.c uses it: a sequence of insertions that are filled and of releases by
-- the pointer from a lookup, against a map from addresses to entries.
use mathlib.Core.Option
use memory_profiler.Base.{
  ℕ, suc, ◌+◌, ◌≤◌, ◌<◌, ◌≡◌, sym, ap, ◌∙◌, inl, inr, Bool, true, List, [], ◌∷◌, Option, none, some,
  ◌==◌, if◌then◌else◌, arith, length, subst, mul_size,
}
use memory_profiler.Ruby.{Ruby}
use memory_profiler.Table.Layout.{Table, Entry, new, entry_size, max_probe_length}
use memory_profiler.Table.Operations.{insert, lookup, delete_entry, overloaded}
use memory_profiler.Table.Slots.{scan}
use memory_profiler.Table.Holds.{IsLive, IsValid}
use memory_profiler.Table.Lookup.{entry_at, lookup-eq-scan, lookup_cases}
use memory_profiler.Table.Delete.{delete-Removes, delete_entry-eq-delete}
use memory_profiler.Table.Resize.{RefusesOverflow}
use memory_profiler.Table.Insert.{insert-Inserts}
use memory_profiler.Table.Load.{insert-Loads}
use memory_profiler.Table.New.{new-IsValid}
use memory_profiler.Capture.Process.{fill}
use memory_profiler.Capture.Stores.{fill-Stores}

-- What the processing of events does to the table.
pub data Operation : Type 0 where
  store : ℕ → ℕ → ℕ → Operation
  release : ℕ → Operation

-- The abstract view: a map from addresses to entries.
abbrev pub ObjectMap : Type 0
ObjectMap = ℕ → Option Entry

abbrev pub next_objects : ObjectMap → Operation → ObjectMap
next_objects f (store object klass data_value) q =
    if q == object
    then some (record { object = object; klass = klass; data_value = data_value })
    else f q
next_objects f (release object) q = if q == object then none else f q

pub all_objects : ObjectMap → List Operation → ObjectMap
all_objects f [] = f
all_objects f (o ∷ os) = all_objects (next_objects f o) os

abbrev pub key : Operation → ℕ
key (store object klass data_value) = object
key (release object) = object

module _ ⦃rb : Ruby⦄ where
  abbrev pub Keys : List Operation → Type 0
  Keys [] = Unit {0}
  Keys (o ∷ os) = IsLive (key o) × Keys os

  -- The deletion in `process_freeobj` of the entry that `lookup` found, for a class that is tracked.
  unfoldable pub release_at : Table → Option ℕ → Table
  release_at t none = t
  release_at t (some index) = delete_entry t index

  module _ (calloc : ℕ → ℕ → Bool) where
    unfoldable pub next_table : Table → Operation → Table
    unfolding release_at
    next_table t (store object klass data_value) =
        let (t', index) = insert calloc t object in fill t' index klass data_value
    next_table t (release object) = release_at t (lookup t object)

    unfoldable pub all_tables : Table → List Operation → Table
    all_tables t [] = t
    all_tables t (o ∷ os) = all_tables (next_table t o) os

  -- The table reads as the map, and at most `n` of its slots are in use.
  pub record Represents (t : Table) (f : ObjectMap) (n : ℕ) : Type 0 where
    pub valid : IsValid t
    pub reads : (q : ℕ) → IsLive q → scan q t.entries ≡ f q
    pub used : t.count + t.tombstones ≤ n

  new-tombstones :
      (malloc_grants : Bool) (calloc : ℕ → ℕ → Bool) (initial_capacity : ℕ) (t : Table)
      → new malloc_grants calloc initial_capacity ≡ some t
      → t.tombstones ≡ 0
  unfolding new
  new-tombstones malloc_grants calloc initial_capacity t e = ground arith

  -- A resize with few slots in use is a small one.
  pub resize_small :
      (t : Table)
      → IsValid t
      → t.count + t.tombstones < max_probe_length
      → overloaded t ≡ true
      → mul_size t.capacity 2 < 40000
  resize_small t v few full = ground (arith, v.counted, v.fits)

  module _ (calloc : ℕ → ℕ → Bool) (refuses : RefusesOverflow calloc)
      (grants : (c : ℕ) → c < 40000 → calloc c entry_size ≡ true) where
    store-Represents :
        (t : Table) (f : ObjectMap) (n object klass data_value : ℕ)
        → Represents t f n
        → n < max_probe_length
        → IsLive object
        → Represents
            (next_table calloc t (store object klass data_value))
            (next_objects f (store object klass data_value))
            (suc n)
    unfolding next_table
    store-Represents t f n object klass data_value r small ok =
        let v = r.valid in
        let few : t.count + t.tombstones < max_probe_length = omega (arith, r.used) in
        let granted : overloaded t ≡ true → calloc (mul_size t.capacity 2) entry_size ≡ true =
          λ full. grants (mul_size t.capacity 2) (resize_small t v few full) in
        let done = insert-Inserts v object ok calloc refuses granted few in
        let load = insert-Loads v object ok calloc refuses granted few in
        let s =
          fill-Stores t object klass data_value (insert calloc t object) ok done load.one_more in
        record {
          valid = s.valid;
          reads = λ q ql.
              s.reads q ql
              ∙ ap
                  (λ o.
                    if q == object
                    then some (record { object = object; klass = klass; data_value = data_value })
                    else o)
                  (r.reads q ql);
          used = omega (arith, s.used, r.used);
        }

    release-Represents :
        (t : Table) (f : ObjectMap) (n object : ℕ)
        → Represents t f n
        → IsLive object
        → Represents
            (next_table calloc t (release object))
            (next_objects f (release object))
            (suc n)
    unfolding next_table
    release-Represents t f n object r ok = elim (lookup_cases r.valid object ok) [
      | inr (missed, absent, _) ↦ rw missed (record {
        valid = r.valid;
        reads = λ q ql. r.reads q ql ∙ ground (arith, sym (r.reads object ok) ∙ absent);
        used = omega (arith, r.used);
      })
      | inl (index, at, _, _, there) ↦ rw at (
          subst (λ u. Represents u (next_objects f (release object)) (suc n))
            (sym (delete_entry-eq-delete r.valid object ok index at))
            (elim (delete-Removes r.valid object ok) [
              | inl (absent, _) ↦ absurd (ground (arith, absent, there))
              | inr gone ↦ record {
                valid = gone.valid;
                reads = λ q ql.
                    gone.reads q ql ∙ ap (λ o. if q == object then none else o) (r.reads q ql);
                used = omega (arith, gone.used, r.used);
              }
            ]))
    ]

    Represents-all :
        (ops : List Operation) (t : Table) (f : ObjectMap) (n : ℕ)
        → Represents t f n
        → Keys ops
        → n + length ops ≤ max_probe_length
        → Represents (all_tables calloc t ops) (all_objects f ops) (n + length ops)
    unfolding all_tables all_objects
    Represents-all [] t f n r k le = subst (Represents t f) {x = n} {y = n + 0} (omega arith) r
    Represents-all (store object klass data_value ∷ ops) t f n r (k, ks) le =
        let first = store-Represents t f n object klass data_value r (omega arith) k in
        subst (Represents _ _) {x = suc n + length ops} {y = n + suc (length ops)} (omega arith)
          (Represents-all ops _ _ (suc n) first ks (omega arith))
    Represents-all (release object ∷ ops) t f n r (k, ks) le =
        let first = release-Represents t f n object r k in
        subst (Represents _ _) {x = suc n + length ops} {y = n + suc (length ops)} (omega arith)
          (Represents-all ops _ _ (suc n) first ks (omega arith))

    -- Where `calloc` refuses sizes that overflow and grants arrays of fewer than 40000 entries: after
    -- any sequence of at most 10000 insertions and releases of live addresses from a new table, the
    -- table is well formed, and a lookup of a live address reads what a map from addresses to entries
    -- has after the same sequence.
    pub all_tables-Refines :
        (initial_capacity : ℕ) (t : Table)
        → new true calloc initial_capacity ≡ some t
        → (ops : List Operation) → Keys ops
        → length ops ≤ max_probe_length
        → (q : ℕ) → IsLive q
        → let t' = all_tables calloc t ops in
          IsValid t' × (Option.map (entry_at t') (lookup t' q) ≡ all_objects (λ _. none) ops q)
    all_tables-Refines initial_capacity t made ops keys le q ql =
        let (valid, _, empty, reads) = new-IsValid true calloc initial_capacity t refuses made in
        let start : Represents t (λ _. none) 0 = record {
          valid = valid;
          reads = reads;
          used = omega (arith, new-tombstones true calloc initial_capacity t made);
        } in
        let r = Represents-all ops t (λ _. none) 0 start keys (omega arith) in
        (r.valid, lookup-eq-scan r.valid q ql ∙ r.reads q ql)
