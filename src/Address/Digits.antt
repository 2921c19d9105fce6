-- ===== src/Address/Digits.antt =====
-- profiler.c: the string that `address_of` returns, read back.
use memory_profiler.Base.{
  ℕ, zero, suc, ◌+◌, ◌-◌, ◌*◌, ◌/◌, ◌%◌, ◌^◌, ◌<◌, ◌≤◌, ◌≡◌, refl, ap, ◌∙◌, List, [], ◌∷◌, ltb,
  if◌then◌else◌, take, Option, none, some, ◌==◌, ◌&&◌, arith, Bool-cases, inl, inr, length,
}
use memory_profiler.Address.{buffer_size, hex_digit, hex_digits, snprintf, address_of}

-- The value of a digit, and of a string of digits after a number.
abbrev pub digit_value : ℕ → ℕ
digit_value character = if ltb character 0x3a then character - 0x30 else character - 0x57

pub number_after : ℕ → List ℕ → ℕ
number_after n [] = n
number_after n (c ∷ cs) = number_after (16 * n + digit_value c) cs

-- The reference: the number that a string of `0x` and hexadecimal digits denotes.
pub parse_address : List ℕ → Option ℕ
parse_address (a ∷ b ∷ digits) =
    if (a == 0x30) && (b == 0x78) then some (number_after 0 digits) else none
parse_address _ = none

-- What `more` digits after the first can print.
printable : ℕ → ℕ
printable zero = 16
printable (suc more) = 16 * printable more

digit_value-hex_digit : (d : ℕ) → d < 16 → digit_value (hex_digit d) ≡ d
unfolding hex_digit
digit_value-hex_digit d lt = ground arith

hex_digits-number :
    (more n : ℕ) (digits : List ℕ)
    → n < printable more
    → number_after 0 (hex_digits more n digits) ≡ number_after n digits
unfolding hex_digits number_after printable
hex_digits-number zero n digits lt =
    ap (λ v. number_after v digits) {x = 16 * 0 + digit_value (hex_digit n)} {y = n}
      (omega (arith, digit_value-hex_digit n lt))
hex_digits-number (suc more) n digits lt = elim (Bool-cases (ltb n 16)) [
  | inl last ↦ rw last (
      ap (λ v. number_after v digits) {x = 16 * 0 + digit_value (hex_digit n)} {y = n}
        (omega (arith, digit_value-hex_digit n (ground (arith, last)))))
  | inr longer ↦ rw longer (
      hex_digits-number more (n / 16) (hex_digit (n % 16) ∷ digits) (omega (arith, lt))
      ∙ ap (λ v. number_after v digits) {x = 16 * (n / 16) + digit_value (hex_digit (n % 16))}
          {y = n} (omega (arith, digit_value-hex_digit (n % 16) (omega arith))))
]

hex_digits-length :
    (more n : ℕ) (digits : List ℕ) → length (hex_digits more n digits) ≤ suc more + length digits
unfolding hex_digits
hex_digits-length zero n digits = omega arith
hex_digits-length (suc more) n digits =
    ground (arith, hex_digits-length more (n / 16) (hex_digit (n % 16) ∷ digits))

take_whole : (n : ℕ) (xs : List ℕ) → length xs ≤ n → take n xs ≡ xs
take_whole zero [] le = refl
take_whole zero (x ∷ xs) le = absurd (omega (arith, le))
take_whole (suc n) [] le = refl
take_whole (suc n) (x ∷ xs) le = ap (λ ys. x ∷ ys) (take_whole n xs (omega (arith, le)))

parse-snprintf :
    (digits : List ℕ) (object : ℕ)
    → length digits ≤ 16
    → number_after 0 digits ≡ object
    → let s = snprintf buffer_size (0x30 ∷ 0x78 ∷ digits) in
      (length s ≤ 18) × (parse_address s ≡ some object)
unfolding snprintf parse_address
parse-snprintf digits object le e =
    let whole : take 29 digits ≡ digits = take_whole 29 digits (omega (arith, le)) in
    rw whole (omega (arith, le), ap some e)

printable_word : printable 15 ≡ 2 ^ 64
unfolding printable
printable_word = refl

-- For a 64-bit word: `address_of` returns a string of at most 18 characters, so that with the
-- terminating zero it fits the buffer of 32, and the number that the string denotes is the address.
pub parse-address_of :
    (object : ℕ)
    → object < 2 ^ 64
    → (length (address_of object) ≤ 18) × (parse_address (address_of object) ≡ some object)
unfolding address_of number_after
parse-address_of object lt =
    parse-snprintf (hex_digits 15 object []) object (hex_digits-length 15 object [])
      (hex_digits-number 15 object [] (omega (arith, lt, printable_word)))
