-- ===== src/Queue/Tests.antt =====
-- The queue at concrete inputs: numbers in a queue that the first push allocates.
use memory_profiler.Base.{
  ℕ, zero, suc, ◌≤◌, ◌≡◌, refl, sym, ap, ◌∙◌, List, [], ◌∷◌, some, arith, length, take,
}
use mathlib.Core.Option.{some-injective}
use memory_profiler.Queue.{
  Queue, Realloc, KeepsBlock, IsValid, initialize, double_loop, push, resize, reached,
}
use memory_profiler.Queue.Grow.{Ends, Resizes, double_loop-Ends, resize-Resizes}
use memory_profiler.Queue.Push.{write_pushed, Enqueues, push-Enqueues}

-- A block with room for `n` elements: the old ones as far as they fit, then zeros.
pub fitted : List ℕ → ℕ → List ℕ
fitted xs zero = []
fitted [] (suc n) = 0 ∷ fitted [] n
fitted (x ∷ xs) (suc n) = x ∷ fitted xs n

abbrev roomy : Realloc ℕ
roomy xs n = some (fitted xs n)

length-fitted : (xs : List ℕ) (n : ℕ) → length (fitted xs n) ≡ n
unfolding fitted
length-fitted xs zero = refl
length-fitted [] (suc n) = ap suc (length-fitted [] n)
length-fitted (x ∷ xs) (suc n) = ap suc (length-fitted xs n)

take-fitted : (xs : List ℕ) (n k : ℕ) → k ≤ length xs → k ≤ n → take k (fitted xs n) ≡ take k xs
unfolding fitted
take-fitted xs n zero a b = refl
take-fitted xs zero (suc k) a b = absurd (omega arith)
take-fitted [] (suc n) (suc k) a b = absurd (omega arith)
take-fitted (x ∷ xs) (suc n) (suc k) a b =
    ap (λ l. x ∷ l) (take-fitted xs n k (omega arith) (omega arith))

roomy-KeepsBlock : KeepsBlock roomy
roomy-KeepsBlock = record {
  width = λ xs ys n e. ap length (sym (some-injective _ _ e)) ∙ length-fitted xs n;
  prefix = λ xs ys n k e a b. ap (take k) (sym (some-injective _ _ e)) ∙ take-fitted xs n k a b;
}

abbrev numbers : Queue ℕ
numbers = record { base = []; capacity = 0; count = 0; element_size = 8 }

runs_initialize : initialize 8 ≡ numbers
unfolding initialize
runs_initialize = refl

numbers-IsValid : IsValid numbers
numbers-IsValid = record {
  width = refl;
  bound = omega arith;
  sized = omega arith;
  small = omega arith;
  fits = omega arith;
}

double_loop-Ends_example : Ends 300 8 (omega arith) (omega arith) 128 (double_loop 65 300 8 128)
double_loop-Ends_example =
    double_loop-Ends 300 8 (omega arith) (omega arith) 65 128 (omega arith) (omega arith)
      (omega arith)

runs_double_loop : double_loop 65 300 8 128 ≡ reached 512
unfolding double_loop
runs_double_loop = refl

resize-Resizes_example :
    Resizes roomy roomy-KeepsBlock numbers numbers-IsValid 5 (resize roomy numbers 5)
resize-Resizes_example =
    resize-Resizes roomy roomy-KeepsBlock numbers numbers-IsValid 5 (omega arith)

push-Enqueues_example :
    Enqueues roomy roomy-KeepsBlock numbers numbers-IsValid 7 (write_pushed 7 (push roomy numbers))
push-Enqueues_example = push-Enqueues roomy roomy-KeepsBlock numbers numbers-IsValid 7
