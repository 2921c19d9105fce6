-- ===== src/Table/Slots.antt =====
-- The array of slots read without hashing: how often a word occurs as a key, and the reference
-- lookup by linear scan. Lemmas on single writes to the array.
use memory_profiler.Base.{
  ℕ, zero, suc, ◌+◌, ◌≤◌, ◌<◌, ◌≡◌, refl, ap, ◌≢◌, List, [], ◌∷◌, ◌++◌, Option, none, some, arith,
  ◌==◌, if◌then◌else◌, length, get_or, set, replicate, get_or-set_self, length-set, ◌∙◌,
}
use memory_profiler.Table.Layout.{Entry, zeroed, object_at}
use native.Mathlib.Decide.{ℕ_discrete}

-- How many slots hold the word `q` as their object.
unfoldable pub occurrences : ℕ → List Entry → ℕ
occurrences q [] = 0
occurrences q (e ∷ es) = (if e.object == q then 1 else 0) + occurrences q es

-- The reference lookup: the first slot whose object is `q`.
unfoldable pub scan : ℕ → List Entry → Option Entry
scan q [] = none
scan q (e ∷ es) = if e.object == q then some e else scan q es

pub occurrences-set :
    (q : ℕ) (es : List Entry) (i : ℕ) (e : Entry)
    → i < length es
    → occurrences q (set es i e) + (if object_at es i == q then 1 else 0)
      ≡ occurrences q es + (if e.object == q then 1 else 0)
unfolding occurrences
occurrences-set q [] i e h = elim h [ ]
occurrences-set q (x ∷ es) zero e h = omega arith
occurrences-set q (x ∷ es) (suc i) e h = omega (arith, occurrences-set q es i e (omega arith))

pub occurrences-append :
    (q : ℕ) (xs ys : List Entry) → occurrences q (xs ++ ys) ≡ occurrences q xs + occurrences q ys
unfolding occurrences
occurrences-append q [] ys = omega arith
occurrences-append q (x ∷ xs) ys = omega (arith, occurrences-append q xs ys)

pub occurrences-le-length : (q : ℕ) (es : List Entry) → occurrences q es ≤ length es
unfolding occurrences
occurrences-le-length q [] = omega arith
occurrences-le-length q (x ∷ es) = ground (arith, occurrences-le-length q es)

-- Three different words share the slots among them.
pub occurrences_disjoint :
    (p q r : ℕ) (es : List Entry)
    → p ≢ q
    → q ≢ r
    → p ≢ r
    → occurrences p es + occurrences q es + occurrences r es ≤ length es
unfolding occurrences
occurrences_disjoint p q r [] a b c = omega arith
occurrences_disjoint p q r (x ∷ es) a b c = ground (arith, occurrences_disjoint p q r es a b c)

pub occurrences-replicate_zero : (n : ℕ) → occurrences 0 (replicate n zeroed) ≡ n
unfolding occurrences
occurrences-replicate_zero zero = refl
occurrences-replicate_zero (suc n) = omega (arith, occurrences-replicate_zero n)

pub occurrences-replicate : (q n : ℕ) → q ≢ 0 → occurrences q (replicate n zeroed) ≡ 0
unfolding occurrences
occurrences-replicate q zero h = refl
occurrences-replicate q (suc n) h = ground (arith, occurrences-replicate q n h)

pub occurrences_pos :
    (q : ℕ) (es : List Entry) (i : ℕ) → i < length es → object_at es i ≡ q → 0 < occurrences q es
unfolding occurrences
occurrences_pos q [] i h e = elim h [ ]
occurrences_pos q (x ∷ es) zero h e = ground arith
occurrences_pos q (x ∷ es) (suc i) h e = ground (arith, occurrences_pos q es i (omega arith) e)

-- A word that occurs stands somewhere.
pub index_of :
    (q : ℕ) (es : List Entry)
    → 0 < occurrences q es
    → (i : ℕ) × (i < length es) × (object_at es i ≡ q)
unfolding occurrences
index_of q [] h = elim h [ ]
index_of q (x ∷ es) h = elim (ℕ_discrete x.object q) [
  | yes e ↦ (0, omega arith, e)
  | no n ↦ let (i, b, c) = index_of q es (ground arith) in (suc i, omega arith, c)
]

-- The first empty slot stands behind at most as many slots as are in use.
pub first_empty :
    (es : List Entry)
    → 0 < occurrences 0 es
    → (i : ℕ) × (i + occurrences 0 es ≤ length es) × (object_at es i ≡ 0)
unfolding occurrences
first_empty [] h = elim h [ ]
first_empty (x ∷ es) h = elim (ℕ_discrete x.object 0) [
  | yes e ↦ (0, ground (arith, occurrences-le-length 0 es), e)
  | no n ↦ let (i, a, c) = first_empty es (ground arith) in (suc i, ground arith, c)
]

-- A word that occurs at most once stands at one index.
pub index_unique :
    (q : ℕ) (es : List Entry) (i j : ℕ)
    → occurrences q es ≤ 1
    → i < length es
    → j < length es
    → object_at es i ≡ q
    → object_at es j ≡ q
    → i ≡ j
unfolding occurrences
index_unique q [] i j o hi hj ei ej = elim hi [ ]
index_unique q (x ∷ es) zero zero o hi hj ei ej = refl
index_unique q (x ∷ es) zero (suc j) o hi hj ei ej =
    ground (arith, occurrences_pos q es j (omega arith) ej)
index_unique q (x ∷ es) (suc i) zero o hi hj ei ej =
    ground (arith, occurrences_pos q es i (omega arith) ei)
index_unique q (x ∷ es) (suc i) (suc j) o hi hj ei ej =
    ap suc (index_unique q es i j (ground arith) (omega arith) (omega arith) ei ej)

pub scan-none : (q : ℕ) (es : List Entry) → occurrences q es ≡ 0 → scan q es ≡ none
unfolding occurrences scan
scan-none q [] h = refl
scan-none q (x ∷ es) h = ground (arith, scan-none q es)

pub scan-at :
    (q : ℕ) (es : List Entry) (i : ℕ)
    → occurrences q es ≤ 1
    → i < length es
    → object_at es i ≡ q
    → scan q es ≡ some (get_or es i zeroed)
unfolding occurrences scan
scan-at q [] i o h e = elim h [ ]
scan-at q (x ∷ es) zero o h e = ground arith
scan-at q (x ∷ es) (suc i) o h e =
    ground (arith, occurrences_pos q es i (omega arith) e, scan-at q es i)

pub scan-set_ne :
    (q : ℕ) (es : List Entry) (i : ℕ) (e : Entry)
    → object_at es i ≢ q
    → e.object ≢ q
    → scan q (set es i e) ≡ scan q es
unfolding scan
scan-set_ne q [] i e h k = refl
scan-set_ne q (x ∷ es) zero e h k = ground arith
scan-set_ne q (x ∷ es) (suc i) e h k = ground (arith, scan-set_ne q es i e h k)

pub scan-append_absent :
    (q : ℕ) (xs ys : List Entry) → occurrences q xs ≡ 0 → scan q (xs ++ ys) ≡ scan q ys
unfolding occurrences scan
scan-append_absent q [] ys h = refl
scan-append_absent q (x ∷ xs) ys h = ground (arith, scan-append_absent q xs ys)

-- One write at `i`, for a word that stands at most once before and after.
pub scan-set :
    (q : ℕ) (es : List Entry) (i : ℕ) (e : Entry)
    → i < length es
    → occurrences q es ≤ 1
    → occurrences q (set es i e) ≤ 1
    → scan q (set es i e)
      ≡ (if e.object == q then some e else if object_at es i == q then none else scan q es)
scan-set q es i e h o o' = elim (ℕ_discrete e.object q) [
  | yes p ↦
      let stored : get_or (set es i e) i zeroed ≡ e = get_or-set_self es i e zeroed h in
      let there : object_at (set es i e) i ≡ q = ap (λ (x : Entry). x.object) stored ∙ p in
      scan-at q (set es i e) i o' (omega (arith, length-set {0} es i e)) there
      ∙ ap some stored
      ∙ ground arith
  | no p ↦ elim (ℕ_discrete (object_at es i) q) [
    | yes r ↦ ground (arith, scan-none q (set es i e), occurrences-set q es i e h)
    | no r ↦ ground (arith, scan-set_ne q es i e r p)
  ]
]

pub occurrences_of_scan : (q : ℕ) (es : List Entry) → scan q es ≡ none → occurrences q es ≡ 0
unfolding occurrences scan
occurrences_of_scan q [] h = refl
occurrences_of_scan q (x ∷ es) h = ground (arith, occurrences_of_scan q es)
