-- ===== src/Queue/Grow.antt =====
-- `Memory_Profiler_Queue_resize`: termination and result of the doubling loop, and of the resize.
use memory_profiler.Base.{
  List, Option, none, some, leb, leb→le, ◌==◌, ℕ, zero, suc, ◌*◌, ◌/◌, ◌^◌, ◌≤◌, ◌<◌, ◌≡◌, refl,
  ◌⊎◌, arith, size_max, mul_size, ltb, ltb→lt, if◌then◌else◌, Bool-cases, inl, inr, subst, ap, sym,
  ◌∙◌,
}
use native.Mathlib.Nat.{pow-suc, le-div_iff_mul-le}
use memory_profiler.Queue.{
  Queue, Status, kept, grew, failed, Realloc, KeepsBlock, IsValid, contents, adopt, settle, resize,
  Doubling, reached, overflow, endless, double_loop, default_count, rounds_enough,
}

-- A round that is not the last doubles without wrapping.
no_wrap :
    (element_size n : ℕ)
    → 0 < element_size
    → element_size < 2 ^ 62
    → n ≤ size_max / mul_size 2 element_size
    → n * 2 < 2 ^ 64
no_wrap element_size n pos small h =
    let e : n * mul_size 2 element_size ≤ size_max =
      (le-div_iff_mul-le {k = mul_size 2 element_size} (omega arith)).0 h in
    let d : mul_size 2 element_size ≡ 2 * element_size = omega arith in
    let f : n * (2 * element_size) ≤ size_max = subst (λ w. n * w ≤ size_max) d e in grind arith

module _ (required element_size : ℕ) (pos : 0 < element_size) (small : element_size < 2 ^ 62) where
  -- What the loop returns from `n`: a capacity that suffices and is no larger than needed, or the
  -- overflow.
  abbrev pub Ends : ℕ → Doubling → Type 0
  Ends n (reached m) = (required ≤ m) × (n ≤ m) × (m < 2 ^ 64) × ((m ≡ n) ⊎ (m < 2 * required))
  Ends n overflow = size_max / mul_size 2 element_size < required
  Ends n endless = ⊥

  Ends-double : (n : ℕ) (r : Doubling) → n < required → Ends (n * 2) r → Ends n r
  Ends-double n (reached m) lt (a, b, c, d) = (a, omega arith, c, inr (omega arith))
  Ends-double n overflow lt h = h
  Ends-double n endless lt h = h

  doubled : (n : ℕ) → n ≤ size_max / mul_size 2 element_size → mul_size n 2 ≡ n * 2
  doubled n h = omega (arith, no_wrap element_size n pos small h)

  -- For elements of a size between 1 and `2 ^ 62`, from a capacity that is not 0 and with as many
  -- rounds as it can be doubled within a word, the loop ends: with a capacity that suffices, is a
  -- word, and is the first one or less than twice the required one; or with the overflow, and then
  -- what is required, in twice the element's size, exceeds a word.
  pub double_loop-Ends :
      (rounds n : ℕ)
      → 0 < n
      → n < 2 ^ 64
      → 2 ^ 64 ≤ n * 2 ^ rounds
      → Ends n (double_loop rounds required element_size n)
  unfolding double_loop
  double_loop-Ends zero n nz lt big = absurd (omega arith)
  double_loop-Ends (suc rounds) n nz lt big = elim (Bool-cases (ltb n required)) [
    | inr enough ↦ rw enough (ground arith, omega arith, lt, inl refl)
    | inl less ↦ elim (Bool-cases (ltb (size_max / mul_size 2 element_size) n)) [
      | inl over ↦
          rw (less, over)
            (omega
              (arith, ltb→lt (size_max / mul_size 2 element_size) n over, ltb→lt n required less))
      | inr under ↦
          let two : mul_size n 2 ≡ n * 2 = doubled n (ground arith) in
          let next = mul_size n 2 in
          let split : n * 2 ^ suc rounds ≡ n * 2 * 2 ^ rounds =
            ap (λ w. n * w) (pow-suc 2 rounds) ∙ omega arith in
          let far : 2 ^ 64 ≤ next * 2 ^ rounds =
            subst (λ w. 2 ^ 64 ≤ w * 2 ^ rounds) (sym two) (omega (arith, split)) in
          let rest = double_loop rounds required element_size next in
          rw (less, under)
            (Ends-double n rest (ltb→lt n required less) (
              subst (λ w. Ends w rest) two
                (double_loop-Ends rounds next (omega arith) (omega arith) far)))
    ]
  ]

module _ {ℓ} {A : Type ℓ} (realloc : Realloc A) (law : KeepsBlock realloc) (q : Queue A)
    (v : IsValid q) where
  -- What a resize to `required` returns: nothing is done where the block is large enough; a larger
  -- block holds the old elements and is at most twice as large as needed; a failure changes
  -- nothing.
  pub data Resizes (required : ℕ) : Queue A × Status → Type ℓ where
    enough : required ≤ q.capacity → Resizes required (q, kept)
    larger :
        (r : Queue A)
        → IsValid r
        → required ≤ r.capacity
        → (r.capacity ≡ default_count) ⊎ (r.capacity < 2 * required)
        → r.count ≡ q.count
        → r.element_size ≡ q.element_size
        → contents r ≡ contents q
        → Resizes required (r, grew)
    refused : q.capacity < required → Resizes required (q, failed)

  adopt-Resizes :
      (required m : ℕ)
      → q.capacity < required
      → required ≤ m
      → (m ≡ default_count) ⊎ (m < 2 * required)
      → m * q.element_size < 2 ^ 64
      → (o : Option (List A)) → realloc q.base m ≡ o
      → Resizes required (adopt q m o)
  unfolding adopt
  adopt-Resizes required m more suffices tight fits none e = refused more
  adopt-Resizes required m more suffices tight fits (some ys) e =
      larger (record q { base = ys; capacity = m })
        (record {
          width = law.width q.base ys m e;
          bound = omega (arith, v.bound);
          sized = v.sized;
          small = v.small;
          fits = fits;
        })
        suffices tight refl refl
        (law.prefix q.base ys m q.count e (omega (arith, v.width, v.bound))
          (omega (arith, v.bound)))

  settle-Resizes :
      (required n : ℕ)
      → q.capacity < required
      → (n ≡ default_count) ⊎ (n ≡ q.capacity)
      → (r : Doubling) → Ends required q.element_size (omega arith) v.small n r
      → Resizes required (settle realloc q r)
  unfolding settle
  settle-Resizes required n more start overflow h = refused more
  settle-Resizes required n more start endless h = elim h [ ]
  settle-Resizes required n more start (reached m) (suffices, le, lt, tight) =
      elim (Bool-cases (ltb (size_max / q.element_size) m)) [
        | inl over ↦ rw over (refused more)
        | inr under ↦
            let room : m * q.element_size ≤ size_max =
              (le-div_iff_mul-le {k = q.element_size} (omega arith)).0 (ground arith) in
            rw under (
              adopt-Resizes required m more suffices (ground arith) (omega arith) (realloc q.base m)
                refl)
      ]

  -- For a queue that is well formed and a required capacity that is a word, where `realloc` keeps a
  -- block's prefix: the resize does nothing where the block is large enough; otherwise the new block
  -- suffices, is the default or less than twice as large as required, holds the old elements and
  -- leaves the queue well formed; or the queue is unchanged and the failure is reported.
  pub resize-Resizes :
      (required : ℕ) → required < 2 ^ 64 → Resizes required (resize realloc q required)
  unfolding resize
  resize-Resizes required lt = elim (Bool-cases (leb required q.capacity)) [
    | inl fits ↦ rw fits (enough (leb→le required q.capacity fits))
    | inr more ↦
        let n : ℕ = if q.capacity == 0 then default_count else q.capacity in
        let less : q.capacity < required = ground arith in
        rw more (
          settle-Resizes required n less (ground arith) _ (
            double_loop-Ends required q.element_size (omega arith) v.small rounds_enough n
              (ground arith) (ground arith) (ground arith)))
  ]
