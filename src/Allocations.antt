-- ===== src/Allocations.antt =====
-- ext/memory/profiler/allocations.h and allocations.c: the counts of one class. A wrapper `VALUE` is
-- the address of its record in a store, which `Capture` keeps.
use memory_profiler.Base.{ℕ, ◌-◌, ltb, if◌then◌else◌, List, [], ◌∷◌}
use memory_profiler.Ruby.{Ruby}

pub record Allocations : Type 0 where
  pub callback : ℕ
  pub new_count : ℕ
  pub free_count : ℕ

-- The guard against underflow is the source's own; on ℕ it could not be seen otherwise.
unfoldable pub retained_count : Allocations → ℕ
retained_count record_ =
    if ltb record_.new_count record_.free_count then 0 else record_.new_count - record_.free_count

unfoldable pub track : Allocations → ℕ → Allocations
track record_ callback = record record_ { callback = callback }

unfoldable pub mark : Allocations → List ℕ
mark record_ = record_.callback ∷ []

unfoldable pub compact : (ℕ → ℕ) → Allocations → Allocations
compact location record_ = record record_ { callback = location record_.callback }

module _ ⦃rb : Ruby⦄ where
  unfoldable pub clear : Allocations → Allocations
  clear record_ = record record_ { callback = rb.q_nil; new_count = 0; free_count = 0 }

  unfoldable pub allocate : Allocations
  allocate = record { callback = rb.q_nil; new_count = 0; free_count = 0 }
