-- ===== src/Queue.antt =====
-- ext/memory/profiler/queue.h: a growing array of elements that are stored directly. A pointer to
-- an element is its index. A block of memory is the list of its elements, so its size in bytes is
-- their number times `element_size`.
pub mod Grow
pub mod Push
mod Tests
use memory_profiler.Base.{
  ℕ, zero, suc, ◌/◌, ◌≤◌, ◌<◌, ◌≡◌, ◌*◌, ◌^◌, Bool, not, List, [], Option, none, some, ltb, leb,
  ◌==◌, if◌then◌else◌, size_max, add_size, mul_size, length, take, set, get_or,
}

pub record Queue {ℓ} (A : Type ℓ) : Type ℓ where
  pub base : List A
  pub capacity : ℕ
  pub count : ℕ
  pub element_size : ℕ

abbrev pub default_count : ℕ
default_count = 128

-- What a resize returns: 0, 1 or -1.
pub data Status : Type 0 where
  kept grew failed : Status

-- How the doubling loop ends: with a capacity, with the overflow that it checks for, or by running
-- out of the rounds that the model gives it.
pub data Doubling : Type 0 where
  reached : ℕ → Doubling
  overflow : Doubling
  endless : Doubling

-- `while (new_capacity < required_capacity)`.
unfoldable pub double_loop : ℕ → ℕ → ℕ → ℕ → Doubling
double_loop zero required_capacity element_size new_capacity = endless
double_loop (suc rounds) required_capacity element_size new_capacity =
    let rest = double_loop rounds required_capacity element_size (mul_size new_capacity 2) in
    if not (ltb new_capacity required_capacity)
    then reached new_capacity
    else if ltb (size_max / mul_size 2 element_size) new_capacity
    then overflow
    else rest

-- A word has 64 bits, so it is doubled 64 times at most.
abbrev pub rounds_enough : ℕ
rounds_enough = 65

-- The C library's `realloc` on a block and a number of elements; `none` is NULL.
abbrev pub Realloc {ℓ} : Type ℓ → Type ℓ
Realloc A = List A → ℕ → Option (List A)

module _ {ℓ} {A : Type ℓ} where
  unfoldable pub initialize : ℕ → Queue A
  initialize element_size = record {
    base = [];
    capacity = 0;
    count = 0;
    element_size = element_size;
  }

  unfoldable pub free : Queue A → Queue A
  free queue = record queue { base = []; capacity = 0; count = 0 }

  unfoldable pub clear : Queue A → Queue A
  clear queue = record queue { count = 0 }

  -- The element at an index, or the default where the code's assertion fails.
  unfoldable pub at : Queue A → ℕ → A → A
  at queue index default =
      if ltb index queue.count then get_or queue.base index default else default

  -- A write through the pointer to an element.
  unfoldable pub write : Queue A → ℕ → A → Queue A
  write queue index value = record queue { base = set queue.base index value }

  -- The elements in use, oldest first.
  abbrev pub contents : Queue A → List A
  contents queue = take queue.count queue.base

  -- What C promises of `realloc`: the block has the size that was asked for, and starts with what
  -- the old one held.
  pub record KeepsBlock (realloc : Realloc A) : Type ℓ where
    pub width : (xs ys : List A) (n : ℕ) → realloc xs n ≡ some ys → length ys ≡ n
    pub prefix :
        (xs ys : List A) (n k : ℕ)
        → realloc xs n ≡ some ys
        → k ≤ length xs
        → k ≤ n
        → take k ys ≡ take k xs

  unfoldable pub adopt : Queue A → ℕ → Option (List A) → Queue A × Status
  adopt queue new_capacity none = (queue, failed)
  adopt queue new_capacity (some new_base) =
      (record queue { base = new_base; capacity = new_capacity }, grew)

  unfoldable pub settle : Realloc A → Queue A → Doubling → Queue A × Status
  unfolding adopt
  settle realloc queue overflow = (queue, failed)
  settle realloc queue endless = (queue, failed)
  settle realloc queue (reached new_capacity) =
      if ltb (size_max / queue.element_size) new_capacity
      then (queue, failed)
      else adopt queue new_capacity (realloc queue.base new_capacity)

  unfoldable pub resize : Realloc A → Queue A → ℕ → Queue A × Status
  unfolding settle
  resize realloc queue required_capacity =
      if leb required_capacity queue.capacity
      then (queue, kept)
      else settle realloc queue (
          double_loop rounds_enough required_capacity queue.element_size
            (if queue.capacity == 0 then default_count else queue.capacity))

  unfoldable pub bump : Queue A → Queue A × Option ℕ
  bump queue = (record queue { count = add_size queue.count 1 }, some queue.count)

  unfoldable pub after_resize : Queue A × Status → Queue A × Option ℕ
  unfolding bump
  after_resize (queue, failed) = (queue, none)
  after_resize (queue, kept) = bump queue
  after_resize (queue, grew) = bump queue

  -- The queue, and a pointer to the new element or NULL.
  unfoldable pub push : Realloc A → Queue A → Queue A × Option ℕ
  unfolding after_resize
  push realloc queue =
      let new_count = add_size queue.count 1 in
      if ltb queue.capacity new_count
      then after_resize (resize realloc queue new_count)
      else bump queue

  pub record IsValid (queue : Queue A) : Type ℓ where
    pub width : length queue.base ≡ queue.capacity
    pub bound : queue.count ≤ queue.capacity
    pub sized : 1 < queue.element_size
    pub small : queue.element_size < 2 ^ 62
    pub fits : queue.capacity * queue.element_size < 2 ^ 64
