-- ===== src/Text/Numbers.antt =====
-- `std::from_chars`, `std::to_string` and the value of a digit.
use Prim.Native.Nat.{◌<◌}
use mathlib.Core.WellFounded.{Acc, WellFounded}
use mathlib.Core.Logic.{dite}
use native.Mathlib.Decide.{dec_lt}
use native.Mathlib.Nat.{div-lt_self}
use clear_core.Text.{Text, to_lower}
use clear_core.Prelude.{
  ℕ, zero, suc, ◌+◌, ◌-◌, ◌*◌, ◌/◌, ◌%◌, ◌^◌, ◌&&◌, Option, none, some, [], ◌∷◌, ◌==◌, leb, ltb,
  if◌then◌else◌, ℤ, pos, negsuc, arith, length, map,
}

-- The value of an alphanumeric digit character.
unfoldable pub digit_value : ℕ → Option ℕ
digit_value c =
    if leb b'0' c && leb c b'9'
    then some (c - b'0')
    else if leb b'a' c && leb c b'z'
    then some (c - b'a' + 10)
    else if leb b'A' c && leb c b'Z'
    then some (c - b'A' + 10)
    else none

-- The digit that a character is in this base, if it is one.
unfoldable pub digit_in : ℕ → ℕ → Option ℕ
unfolding digit_value
digit_in base c = elim (digit_value c) [
  | none ↦ none
  | some d ↦ if ltb d base then some d else none
]

-- The number that digits of a base spell behind `n`; nothing if one is no digit of the base.
unfoldable pub digits_from : ℕ → ℕ → Text → Option ℕ
unfolding digit_in
digits_from base n [] = some n
digits_from base n (c ∷ s) = elim (digit_in base c) [
  | none ↦ none
  | some d ↦ digits_from base (n * base + d) s
]

-- The digits of a whole text, of which there is one at least.
unfoldable pub whole_number : ℕ → Text → Option ℕ
unfolding digits_from
whole_number base [] = none
whole_number base (c ∷ s) = digits_from base 0 (c ∷ s)

-- `std::from_chars` into a `uint32_t`, when it has to read the whole text and succeed.
unfoldable pub uint32_from_chars : ℕ → Text → Option ℕ
unfolding whole_number
uint32_from_chars base s = elim (whole_number base s) [
  | none ↦ none
  | some n ↦ if ltb n (2 ^ 32) then some n else none
]

-- The negative of a magnitude, in the range of an `int32_t`.
abbrev pub negative_int32 : ℕ → Option ℤ
negative_int32 n =
    if n == 0 then some (pos 0) else if leb n (2 ^ 31) then some (negsuc (n - 1)) else none

-- The same into an `int32_t`, in base ten: a minus sign is read, a plus sign is not.
unfoldable pub int32_from_chars : Text → Option ℤ
unfolding whole_number
int32_from_chars [] = none
int32_from_chars (c ∷ s) =
    if c == b'-'
    then elim (whole_number 10 s) [ none ↦ none | some n ↦ negative_int32 n ]
    else elim (whole_number 10 (c ∷ s)) [
      | none ↦ none
      | some n ↦ if ltb n (2 ^ 31) then some (pos n) else none
    ]

acc_below : (k n : ℕ) → n < k → Acc ◌<◌ n
acc_below zero n h = absurd (omega arith)
acc_below (suc k) n h = Acc.intro n λ m lt. acc_below k m (omega arith)

unfoldable pub below : WellFounded ◌<◌
unfolding acc_below
below = record { apply = λ n. acc_below (suc n) n (omega arith) }

-- The character of a digit, in capitals.
abbrev pub digit_char : ℕ → ℕ
digit_char d = if ltb d 10 then b'0' + d else b'A' + d - 10

abbrev pub quotient_lt : (base : ℕ) {n : ℕ} → 1 < base → 0 < n → n / base < n
quotient_lt base wide h = div-lt_self h wide

-- The digits of a positive number, highest first, in front of `out`.
unfoldable pub digit_loop : (base : ℕ) → 1 < base → (n : ℕ) → Acc ◌<◌ n → Text → Text
digit_loop base wide n (Acc.intro _ smaller) out =
    dite (dec_lt 0 n)
      (λ h.
        digit_loop base wide (n / base) (smaller (n / base) (quotient_lt base wide h))
          (digit_char (n % base) ∷ out))
      (λ _. out)

-- A number in a base, with no leading zeros.
unfoldable pub number_text : (base : ℕ) → 1 < base → ℕ → Text
number_text base wide n = if n == 0 then b'0' ∷ [] else digit_loop base wide n (below.apply n) []

abbrev pub decimal_wide : 1 < 10
decimal_wide = omega arith

abbrev pub hex_wide : 1 < 16
hex_wide = omega arith

-- `std::to_string` of an unsigned number.
unfoldable pub to_decimal : ℕ → Text
unfolding number_text
to_decimal n = number_text 10 decimal_wide n

-- `std::format("{:X}", n)`.
unfoldable pub to_upper_hex : ℕ → Text
unfolding number_text
to_upper_hex n = number_text 16 hex_wide n

-- `std::to_string` of a signed number, and `{:+d}`.
unfoldable pub signed_text : ℤ → Text
unfolding to_decimal
signed_text (pos n) = to_decimal n
signed_text (negsuc n) = b'-' ∷ to_decimal (suc n)

unfoldable pub plus_text : ℤ → Text
unfolding to_decimal
plus_text (pos n) = b'+' ∷ to_decimal n
plus_text (negsuc n) = b'-' ∷ to_decimal (suc n)

-- A character, this many times, in front of a text.
unfoldable pub filled : ℕ → ℕ → Text → Text
filled c zero s = s
filled c (suc n) s = c ∷ filled c n s

-- Zeros in front, up to a width.
unfoldable pub zero_filled : ℕ → Text → Text
unfolding filled
zero_filled width s = filled b'0' (width - length s) s

unfoldable pub to_lower_hex : ℕ → Text
unfolding to_upper_hex
to_lower_hex n = map to_lower (to_upper_hex n)
