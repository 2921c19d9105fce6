-- ===== src/Capture/Stores.antt =====
-- capture.c: a table in which the entry that `insert` returned has been filled.
use memory_profiler.Base.{
  ℕ, ◌+◌, ◌≤◌, ◌≡◌, refl, sym, ap, ◌∙◌, some, ◌==◌, if◌then◌else◌, arith, get_or, subst,
}
use memory_profiler.Ruby.{Ruby}
use memory_profiler.Table.Layout.{Table, Entry, zeroed}
use memory_profiler.Table.Slots.{scan, scan-set}
use memory_profiler.Table.Holds.{IsLive, IsValid, keep-Holds}
use memory_profiler.Table.Insert.{Inserts, absences}
use memory_profiler.Capture.Process.{fill}

-- The table `t'` is `t` with the entry `e` for its key.
pub record Stores ⦃rb : Ruby⦄ (t : Table) (e : Entry) (t' : Table) : Type 0 where
  pub valid : IsValid t'
  pub counted : t'.count ≡ t.count + absences (scan e.object t.entries)
  pub used : t'.count + t'.tombstones ≤ t.count + t.tombstones + 1
  pub reads :
      (q : ℕ) → IsLive q → scan q t'.entries ≡ (if q == e.object then some e else scan q t.entries)

-- Filling the entry that `insert` gave stores the class and the data for the object.
pub fill-Stores :
    ⦃rb : Ruby⦄ (t : Table) (object klass data_value : ℕ) (r : Table × ℕ)
    → IsLive object
    → Inserts (λ q. scan q t.entries) t.count object r
    → r.0.count + r.0.tombstones ≤ t.count + t.tombstones + 1
    → Stores t
        (record { object = object; klass = klass; data_value = data_value })
        (fill r.0 r.1 klass data_value)
fill-Stores t object klass data_value (u, i) ok d used =
    let e : Entry = record (get_or u.entries i zeroed) { klass = klass; data_value = data_value } in
    let h = keep-Holds d.valid i d.bound e (subst IsLive (sym d.at) ok) refl in
    let same : e ≡ record { object = object; klass = klass; data_value = data_value } =
      ap (λ k. record { object = k; klass = klass; data_value = data_value }) d.at in
    record {
      valid = h;
      counted = d.counted;
      used = used;
      reads = λ q ql.
          scan-set q u.entries i e (omega (arith, d.valid.width, d.bound)) (d.valid.once q ql)
            (h.once q ql)
          ∙ ground (arith, same, d.at, d.reads q ql);
    }
