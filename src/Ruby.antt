-- ===== src/Ruby.antt =====
-- What the extension uses of the Ruby C API without implementing it. A `VALUE` is a 64-bit word.
use mathlib.Core.Option
use memory_profiler.Base.{
  ℕ, Bool, false, ◌≡◌, ◌≢◌, List, [], ◌∷◌, Option, none, some, ◌==◌, if◌then◌else◌,
}

-- `Qnil`. Zero is `Qfalse`, so the two differ.
pub record Ruby : Type 0 where
  pub q_nil : ℕ
  pub q_nil_ne_zero : q_nil ≢ 0

-- The value that a list of pairs has under a key.
abbrev pub assoc : ℕ → List (ℕ × ℕ) → Option ℕ
assoc key [] = none
assoc key ((k, v) ∷ rest) = if key == k then some v else assoc key rest

-- Ruby's `st_table` with numbers as keys: what its documentation promises of the operations that the
-- extension calls. `pairs` is the order in which `st_foreach` visits the entries; the flag from
-- `foreach_with_replace` says that the table was modified meanwhile.
pub record StTable : Type 1 where
  pub Table : Type 0
  pub init_numtable : Table
  pub lookup : Table → ℕ → Option ℕ
  pub insert : Table → ℕ → ℕ → Table
  pub delete : Table → ℕ → Table
  pub pairs : Table → List (ℕ × ℕ)
  pub foreach_with_replace : Table → (ℕ → ℕ) → Table × Bool
  pub lookup-init_numtable : (key : ℕ) → lookup init_numtable key ≡ none
  pub lookup-insert :
      (t : Table) (key value q : ℕ)
      → lookup (insert t key value) q ≡ (if q == key then some value else lookup t q)
  pub lookup-delete :
      (t : Table) (key q : ℕ) → lookup (delete t key) q ≡ (if q == key then none else lookup t q)
  pub lookup-pairs : (t : Table) (key : ℕ) → lookup t key ≡ assoc key (pairs t)
  pub lookup-foreach_with_replace :
      (t : Table) (f : ℕ → ℕ)
      → (foreach_with_replace t f).1 ≡ false
      → (key : ℕ) → lookup (foreach_with_replace t f).0 key ≡ Option.map f (lookup t key)
