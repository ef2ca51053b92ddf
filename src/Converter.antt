-- ===== src/Converter.antt =====
-- src/nsc/parse.cpp, src/nsc/format.cpp, src/nsc/converter.cpp and their headers in include/nsc: a
-- 64-bit value that is read and shown in three bases.
pub mod Parse
pub mod Shown
pub mod Grouped
use mathlib.Core.WellFounded.{Acc, WellFounded}
use mathlib.Core.Logic.{dite}
use mathlib.Core.List.{reverse}
use native.Mathlib.Decide.{dec_lt}
use clear_core.Text.{is_space, Text, codes, is_empty}
use clear_core.Text.Numbers.{digit_value, below, to_decimal, to_upper_hex}
use clear_core.Prelude.{
  ℕ, zero, suc, ◌+◌, ◌-◌, ◌*◌, ◌/◌, ◌%◌, ◌^◌, ◌<◌, Bool, true, false, not, ◌&&◌, ◌||◌, Option, none,
  some, List, [], ◌∷◌, ◌++◌, ◌==◌, leb, ltb, if◌then◌else◌, length, arith, refl,
}

-- The check of every character before the number is read.
unfoldable pub is_plain : Text → ℕ → Bool
is_plain [] base = true
is_plain (c ∷ s) base = elim (digit_value c) [
  | none ↦ false
  | some digit ↦ if leb base digit then false else is_plain s base
]

-- The digits that `strtoull` reads from the front, the value behind `n`, and what it leaves.
unfoldable pub read_digits : ℕ → ℕ → Text → ℕ × Text
read_digits base n [] = (n, [])
read_digits base n (c ∷ s) = elim (digit_value c) [
  | none ↦ (n, c ∷ s)
  | some digit ↦ if ltb digit base then read_digits base (n * base + digit) s else (n, c ∷ s)
]

unfoldable pub skip_space : Text → Text
skip_space [] = []
skip_space (c ∷ s) = let rest = skip_space s in if is_space c then rest else c ∷ s

-- A sign, and whether it is a minus.
unfoldable pub skip_sign : Text → Bool × Text
skip_sign [] = (false, [])
skip_sign (c ∷ s) =
    if c == b'-' then (true, s) else if c == b'+' then (false, s) else (false, c ∷ s)

-- The prefix `0x` or `0X` of base 16, where a digit of that base follows it.
unfoldable pub skip_prefix : ℕ → Text → Text
skip_prefix base (a ∷ x ∷ d ∷ s) =
    if base == 16 && (a == b'0' && ((x == b'x' || x == b'X') && is_plain (d ∷ []) 16))
    then d ∷ s
    else a ∷ x ∷ d ∷ s
skip_prefix base s = s

-- `std::stoull` in a base other than 0: the value and how many characters it read; nothing where it
-- throws, since the base is not one of 2 to 36, there is no digit, or the value does not fit 64 bits.
unfoldable pub stoull : Text → ℕ → Option (ℕ × ℕ)
unfolding read_digits skip_space skip_sign skip_prefix
stoull str base =
    let (minus, unsigned) = skip_sign (skip_space str) in
    let digits = skip_prefix base unsigned in
    let (value, rest) = read_digits base 0 digits in
    if ltb base 2 || ltb 36 base
    then none
    else if length rest == length digits
    then none
    else if leb (2 ^ 64) value
    then none
    else some (if minus then (2 ^ 64 - value) % 2 ^ 64 else value, length str - length rest)

unfoldable pub parse_base : Text → ℕ → Option ℕ
unfolding is_plain stoull
parse_base str base =
    if is_empty str
    then none
    else if not (is_plain str base)
    then none
    else elim (stoull str base) [
      | none ↦ none
      | some (value, consumed) ↦ if not (consumed == length str) then none else some value
    ]

-- `value >>= 1` makes a positive value smaller.
abbrev pub half_lt : {n : ℕ} → 0 < n → n / 2 < n
half_lt h = omega arith

-- The loop of `to_binary`: the lowest binary digit is written first.
unfoldable pub binary_loop : (value : ℕ) → Acc ◌<◌ value → Text → Text
binary_loop value (Acc.intro _ smaller) out =
    dite (dec_lt 0 value)
      (λ h.
        binary_loop (value / 2) (smaller (value / 2) (half_lt h)) (out ++ (b'0' + value % 2) ∷ []))
      (λ _. out)

unfoldable pub to_binary : ℕ → Text
to_binary value =
    if value == 0 then b'0' ∷ [] else reverse (binary_loop value (below.apply value) [])

unfoldable pub to_hex : ℕ → Text
unfolding to_upper_hex
to_hex value = to_upper_hex value

-- `while (bits.size() % 4 != 0)` of `group_bits`, for at most this many rounds.
unfoldable pub pad : ℕ → Text → Text
pad zero bits = bits
pad (suc fuel) bits =
    let padded = pad fuel (b'0' ∷ bits) in if length bits % 4 == 0 then bits else padded

-- The second loop, from index `i`.
unfoldable pub spaced : ℕ → Text → Text
spaced i [] = []
spaced i (b ∷ bits) =
    let rest = b ∷ spaced (suc i) bits in if not (i == 0) && i % 4 == 0 then b' ' ∷ rest else rest

-- Three rounds are enough to reach a multiple of four.
unfoldable pub group_bits : ℕ → Text
unfolding to_binary pad spaced
group_bits value = spaced 0 (pad 3 (to_binary value))

pub data Base : Type 0 where
  binary decimal hex : Base

-- The value of the enumerator, which is the radix.
abbrev pub radix : Base → ℕ
radix binary = 2
radix decimal = 10
radix hex = 16

pub record Converter : Type 0 where
  pub value : ℕ

unfoldable pub update : Converter → Text → Base → Converter × Bool
unfolding parse_base
update c text base = elim (parse_base text (radix base)) [
  | some v ↦ (record { value = v }, true)
  | none ↦ (c, false)
]

unfoldable pub as_text : Converter → Base → Text
unfolding to_binary to_hex to_decimal
as_text c binary = to_binary c.value
as_text c decimal = to_decimal c.value
as_text c hex = to_hex c.value

unfoldable pub as_bits : Converter → Text
unfolding group_bits
as_bits c = group_bits c.value
