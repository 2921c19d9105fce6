-- ===== src/Address.antt =====
-- ext/memory/profiler/profiler.c: `address_of`, the address of an object in hexadecimal digits. A string
-- is the list of its ASCII characters.
use memory_profiler.Base.{
  ℕ, zero, suc, ◌+◌, ◌-◌, ◌*◌, ◌/◌, ◌%◌, List, [], ◌∷◌, ◌++◌, ltb, if◌then◌else◌, take,
}
mod Digits
mod Tests

-- `char buffer[32]`.
abbrev pub buffer_size : ℕ
buffer_size = 32

unfoldable pub hex_digit : ℕ → ℕ
hex_digit d = if ltb d 10 then 0x30 + d else 0x57 + d

-- The digits of a number in front of others, as `%lx` prints them, with the number of digits that may
-- follow the first.
unfoldable pub hex_digits : ℕ → ℕ → List ℕ → List ℕ
unfolding hex_digit
hex_digits zero n digits = hex_digit n ∷ digits
hex_digits (suc more) n digits =
    let rest = hex_digits more (n / 16) (hex_digit (n % 16) ∷ digits) in
    if ltb n 16 then hex_digit n ∷ digits else rest

-- `snprintf(buffer, size, …)`: what does not fit in front of the terminating zero is cut off.
unfoldable pub snprintf : ℕ → List ℕ → List ℕ
snprintf size characters = take (size - 1) characters

-- `unsigned long` has 64 bits, at most 16 digits.
unfoldable pub address_of : ℕ → List ℕ
unfolding hex_digits snprintf
address_of object = snprintf buffer_size (0x30 ∷ 0x78 ∷ hex_digits 15 object [])
