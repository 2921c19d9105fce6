-- ===== src/Table/Rebuild.antt =====
-- The rehashing loops: what they leave in an array that was cleared.
use mathlib.Core.Option
use memory_profiler.Base.{
  ℕ, ◌+◌, ◌-◌, ◌*◌, ◌^◌, ◌≤◌, ◌<◌, ◌≡◌, refl, ap, ◌∙◌, inl, inr, List, [], ◌∷◌, Option, none, some,
  arith, ◌==◌, Bool-cases, if◌then◌else◌, length, subst, set, replicate, length-replicate,
  get_or-replicate,
}
use memory_profiler.Ruby.{Ruby}
use memory_profiler.Table.Layout.{
  Entry, Table, zeroed, object_at, tombstone, is_occupied, entry_size,
}
use memory_profiler.Table.Probing.{find_entry}
use memory_profiler.Table.Operations.{place, place_all, rehash}
use memory_profiler.Table.Slots.{
  occurrences, scan, scan-set, scan-none, occurrences_of_scan, occurrences-replicate,
  occurrences-replicate_zero,
}
use memory_profiler.Table.Holds.{IsLive, Holds, store-Holds}
use memory_profiler.Table.Room.{HasRoom, find_entry-Fresh}

module _ ⦃rb : Ruby⦄ where
  -- The slots in use, in order: what the loops over an array visit.
  unfoldable pub live_entries : List Entry → List Entry
  live_entries [] = []
  live_entries (e ∷ es) = if is_occupied e.object then e ∷ live_entries es else live_entries es

  abbrev pub AllLive : List Entry → Type 0
  AllLive [] = Unit {0}
  AllLive (e ∷ es) = IsLive e.object × AllLive es

  pub live_entries-AllLive : (es : List Entry) → AllLive (live_entries es)
  unfolding live_entries
  live_entries-AllLive [] = tt
  live_entries-AllLive (e ∷ es) = ground (arith, live_entries-AllLive es)

  pub length-live_entries :
      (es : List Entry)
      → length (live_entries es) + occurrences 0 es + occurrences tombstone es ≡ length es
  unfolding live_entries occurrences
  length-live_entries [] = refl
  length-live_entries (e ∷ es) = ground (arith, rb.q_nil_ne_zero, length-live_entries es)

  pub occurrences-live_entries :
      (q : ℕ) (es : List Entry) → IsLive q → occurrences q (live_entries es) ≡ occurrences q es
  unfolding live_entries occurrences
  occurrences-live_entries q [] ok = refl
  occurrences-live_entries q (e ∷ es) ok = ground (arith, ok.0, ok.1, occurrences-live_entries q es)

  pub scan-live_entries :
      (q : ℕ) (es : List Entry) → IsLive q → scan q (live_entries es) ≡ scan q es
  unfolding live_entries scan
  scan-live_entries q [] ok = refl
  scan-live_entries q (e ∷ es) ok = ground (arith, ok.0, ok.1, scan-live_entries q es)

  pub rehash-eq-place_all :
      (es : List Entry) (t : Table) → rehash es t ≡ place_all (live_entries es) t
  unfolding rehash place_all live_entries
  rehash-eq-place_all [] t = refl
  rehash-eq-place_all (e ∷ es) t = elim (Bool-cases (is_occupied e.object)) [
    | inl p ↦ rw p (rehash-eq-place_all es (place t e))
    | inr p ↦ rw p (rehash-eq-place_all es t)
  ]

  -- A table without tombstones that reads as `f`.
  pub record Reads (c n : ℕ) (f : ℕ → Option Entry) (t : Table) : Type 0 where
    pub capacity : t.capacity ≡ c
    pub count : t.count ≡ n
    pub tombstones : t.tombstones ≡ 0
    pub holds : Holds t.capacity n 0 t.entries
    pub reads : (q : ℕ) → IsLive q → scan q t.entries ≡ f q

  pub cleared-Reads :
      (c : ℕ)
      → 0 < c
      → c * entry_size < 2 ^ 64
      → Reads c 0
          (λ q. none)
          (record { capacity = c; count = 0; tombstones = 0; entries = replicate c zeroed })
  cleared-Reads c pos fits = record {
    capacity = refl;
    count = refl;
    tombstones = refl;
    holds = record {
      width = length-replicate c zeroed;
      positive = pos;
      fits = fits;
      counted = omega (arith, occurrences-replicate_zero c);
      buried = occurrences-replicate tombstone c rb.q_nil_ne_zero;
      once = λ q ok. omega (arith, occurrences-replicate q c ok.0);
      placed =
          λ j lt ok. absurd (ok.0 (ap (λ (x : Entry). x.object) (get_or-replicate c zeroed j)));
    };
    reads = λ q ok. scan-none q (replicate c zeroed) (occurrences-replicate q c ok.0);
  }

  -- One round stores one new key.
  place-Reads :
      (t : Table) (e : Entry) (c n : ℕ) (f : ℕ → Option Entry)
      → IsLive e.object
      → Reads c n f t
      → HasRoom c n 0
      → occurrences e.object t.entries ≡ 0
      → Reads c (n + 1) (λ q. if q == e.object then some e else f q) (place t e)
  unfolding place
  place-Reads t e c n f ok r room fresh =
      let k = e.object in
      let v = r.holds in
      let slot = find_entry-Fresh v (omega (arith, r.capacity, room.0), room.1) k ok fresh in
      let i = (find_entry t.entries t.capacity k).0 in
      let stored = store-Holds v i slot.bound e ok fresh slot.free slot.reached in
      let none_dead : (if object_at t.entries i == tombstone then 0 - 1 else 0) ≡ 0 =
        ground arith in
      let h = subst (λ d. Holds t.capacity (n + 1) d (set t.entries i e)) none_dead stored in
      record {
        capacity = r.capacity;
        count = omega (arith, r.count, v.fits, v.counted);
        tombstones = r.tombstones;
        holds = h;
        reads = λ q ql.
            scan-set q t.entries i e (omega (arith, v.width, slot.bound)) (v.once q ql)
              (h.once q ql)
            ∙ ground (arith, ql.0, ql.1, slot.free, r.reads q ql);
      }

  pub occurrences-head : (e : Entry) (es : List Entry) → 0 < occurrences e.object (e ∷ es)
  unfolding occurrences
  occurrences-head e es = ground arith

  apart-tail :
      (q : ℕ) (e : Entry) (es : List Entry) (o : Option Entry)
      → (occurrences q (e ∷ es) ≤ 1) × (0 < occurrences q (e ∷ es) → o ≡ none)
      → (occurrences q es ≤ 1)
        × (0 < occurrences q es → (if q == e.object then some e else o) ≡ none)
  unfolding occurrences
  apart-tail q e es o h = ground arith

  scan_shift :
      (q : ℕ) (e : Entry) (es : List Entry) (o : Option Entry)
      → occurrences q (e ∷ es) ≤ 1
      → Option.or_else (scan q es) (if q == e.object then some e else o)
        ≡ Option.or_else (scan q (e ∷ es)) o
  unfolding occurrences scan Option.or_else
  scan_shift q e es o h = ground (arith, scan-none q es)

  pub Reads-congr :
      (c n : ℕ) (f g : ℕ → Option Entry) (t : Table)
      → Reads c n f t
      → ((q : ℕ) → IsLive q → f q ≡ g q)
      → Reads c n g t
  Reads-congr c n f g t r h = record {
    capacity = r.capacity;
    count = r.count;
    tombstones = r.tombstones;
    holds = r.holds;
    reads = λ q ql. r.reads q ql ∙ h q ql;
  }

  -- The loop stores all entries, if their keys are new and differ from one another.
  pub place_all-Reads :
      (es : List Entry) (t : Table) (c n : ℕ) (f : ℕ → Option Entry)
      → AllLive es
      → Reads c n f t
      → HasRoom c (n + length es) 0
      → ((q : ℕ) → IsLive q → (occurrences q es ≤ 1) × (0 < occurrences q es → f q ≡ none))
      → Reads c (n + length es) (λ q. Option.or_else (scan q es) (f q)) (place_all es t)
  unfolding place_all scan Option.or_else
  place_all-Reads [] t c n f ok r room apart = let e : n + 0 ≡ n = omega arith in rw e r
  place_all-Reads (e ∷ es) t c n f (ok, oks) r room apart =
      let k = e.object in
      let fresh : occurrences k t.entries ≡ 0 =
        occurrences_of_scan k t.entries (r.reads k ok ∙ (apart k ok).1 (occurrences-head e es)) in
      let one = place-Reads t e c n f ok r (omega (arith, room.0), omega (arith, room.1)) fresh in
      let rest =
        place_all-Reads es (place t e) c (n + 1) (λ q. if q == k then some e else f q) oks one
          (omega (arith, room.0), omega (arith, room.1))
          (λ q ql. apart-tail q e es (f q) (apart q ql)) in
      let total : n + 1 + length es ≡ n + length (e ∷ es) = omega arith in
      subst
        (λ m. Reads c m (λ q. Option.or_else (scan q (e ∷ es)) (f q)) (place_all es (place t e)))
        total
        (Reads-congr c (n + 1 + length es)
          (λ q. Option.or_else (scan q es) (if q == k then some e else f q))
          (λ q. Option.or_else (scan q (e ∷ es)) (f q)) (place_all es (place t e)) rest
          (λ q ql. scan_shift q e es (f q) (apart q ql).0))
