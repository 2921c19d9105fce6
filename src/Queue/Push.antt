-- ===== src/Queue/Push.antt =====
-- `Memory_Profiler_Queue_push`: a first-in first-out queue as its clients see it.
use memory_profiler.Base.{
  ℕ, zero, suc, ◌+◌, ◌%◌, ◌^◌, ◌<◌, ◌≡◌, refl, ap, ◌∙◌, ◌⊎◌, arith, ltb, Bool, true, false,
  Bool-cases, inl, inr, List, [], ◌∷◌, ◌++◌, Option, none, some, take, set, length, length-set,
  add_size,
}
use memory_profiler.Queue.{
  Queue, Status, Realloc, KeepsBlock, IsValid, contents, push, bump, after_resize, resize, write,
}
use memory_profiler.Queue.Grow.{Resizes, enough, larger, refused, resize-Resizes}

take-set {ℓ} :
    {A : Type ℓ} (n : ℕ) (xs : List A) (v : A)
    → n < length xs
    → take (suc n) (set xs n v) ≡ take n xs ++ v ∷ []
take-set zero [] v h = elim h [ ]
take-set zero (x ∷ xs) v h = refl
take-set (suc n) [] v h = elim h [ ]
take-set (suc n) (x ∷ xs) v h = ap (λ l. x ∷ l) (take-set n xs v (omega arith))

IsValid-capacity {ℓ} : {A : Type ℓ} (q : Queue A) → IsValid q → q.capacity + 1 < 2 ^ 64
IsValid-capacity q v = grind arith

module _ {ℓ} {A : Type ℓ} where
  -- The write through the pointer that a push returned; on NULL nothing is written.
  unfoldable pub write_pushed : A → Queue A × Option ℕ → Queue A × Bool
  write_pushed value (queue, none) = (queue, false)
  write_pushed value (queue, some index) = (write queue index value, true)

  module _ (realloc : Realloc A) (law : KeepsBlock realloc) (q : Queue A) (v : IsValid q)
      (value : A) where
    -- The element is the last of the queue, or the queue is full and unchanged.
    abbrev pub Enqueues : Queue A × Bool → Type ℓ
    Enqueues r =
        ((r.1 ≡ true)
          × IsValid r.0
          × (contents r.0 ≡ contents q ++ value ∷ [])
          × (r.0.element_size ≡ q.element_size))
        ⊎ ((r.1 ≡ false) × (r.0 ≡ q) × (q.count ≡ q.capacity))

    bump-Enqueues :
        (r : Queue A)
        → IsValid r
        → r.count < r.capacity
        → contents r ≡ contents q
        → r.element_size ≡ q.element_size
        → Enqueues (write_pushed value (bump r))
    unfolding write_pushed bump write
    bump-Enqueues r w room same size =
        let n : ℕ = r.count in
        let word_count : r.capacity + 1 < 2 ^ 64 = IsValid-capacity r w in
        let more : (n + 1) % 2 ^ 64 ≡ suc n = omega arith in
        inl (
          refl,
          record {
            width = length-set r.base n value ∙ w.width;
            bound = omega arith;
            sized = w.sized;
            small = w.small;
            fits = w.fits;
          },
          ap (λ m. take m (set r.base n value)) more
              ∙ take-set n r.base value (omega (arith, w.width))
              ∙ ap (λ l. l ++ value ∷ []) same,
          size,
        )

    resized :
        (r : Queue A × Status)
        → q.count ≡ q.capacity
        → Resizes realloc law q v (add_size q.count 1) r
        → Enqueues (write_pushed value (after_resize r))
    unfolding after_resize write_pushed
    resized r last (enough h) = absurd (omega (arith, IsValid-capacity q v, h))
    resized r last (refused h) = inr (refl, refl, last)
    resized r last (larger q' w more tight count size same) =
        bump-Enqueues q' w (omega (arith, IsValid-capacity q v, IsValid-capacity q' w)) same size

    -- On a well-formed queue, where `realloc` keeps a block's prefix: a push and the write through its
    -- pointer put the element behind all others and keep the queue well formed; or the pointer is
    -- NULL, and then the queue is full and unchanged.
    pub push-Enqueues : Enqueues (write_pushed value (push realloc q))
    unfolding push
    push-Enqueues = elim (Bool-cases (ltb q.capacity (add_size q.count 1))) [
      | inr room ↦
          rw room (bump-Enqueues q v (ground (arith, IsValid-capacity q v, v.bound)) refl refl)
      | inl crowded ↦
          let last : q.count ≡ q.capacity = ground (arith, v.bound) in
          rw crowded (
            resized (resize realloc q (add_size q.count 1)) last
              (resize-Resizes realloc law q v (add_size q.count 1) (omega arith)))
    ]
