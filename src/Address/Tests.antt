-- ===== src/Address/Tests.antt =====
-- `address_of` at a concrete address.
use memory_profiler.Base.{◌≤◌, ◌≡◌, refl, [], ◌∷◌, some, arith, length}
use memory_profiler.Address.{hex_digit, hex_digits, snprintf, address_of}
use memory_profiler.Address.Digits.{parse_address, parse-address_of}

runs_address_of : address_of 0x7f0a ≡ 0x30 ∷ 0x78 ∷ 0x37 ∷ 0x66 ∷ 0x30 ∷ 0x61 ∷ []
unfolding address_of snprintf hex_digits hex_digit
runs_address_of = refl

parse-address_of_example :
    (length (address_of 0x7f0a) ≤ 18) × (parse_address (address_of 0x7f0a) ≡ some 0x7f0a)
parse-address_of_example = parse-address_of 0x7f0a (omega arith)
