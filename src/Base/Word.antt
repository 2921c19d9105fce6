-- ===== src/Base/Word.antt =====
-- `size_t` and the other 64-bit words of an LP64 platform.
use Prim.Native.Nat.{ℕ, ◌+◌, ◌-◌, ◌*◌, ◌%◌, ◌^◌}

abbrev pub word : ℕ
word = 2 ^ 64

abbrev pub size_max : ℕ
size_max = 2 ^ 64 - 1

-- Sums, differences by one and products of unsigned words wrap.
abbrev pub add_size : ℕ → ℕ → ℕ
add_size a b = (a + b) % 2 ^ 64

abbrev pub dec_size : ℕ → ℕ
dec_size a = (a + (2 ^ 64 - 1)) % 2 ^ 64

abbrev pub mul_size : ℕ → ℕ → ℕ
mul_size a b = a * b % 2 ^ 64
