-- ===== src/Text/Digits.antt =====
-- Reading a number back from its digits.
use mathlib.Core.Logic.{dite}
use mathlib.Core.List.{cons-ne-nil}
use native.Mathlib.Decide.{dec_lt}
use clear_core.Text.{Text}
use native.Mathlib.Nat.{mod-lt, div-add-mod}
use mathlib.Core.WellFounded.{Acc}
use clear_core.Prelude.{
  refl, ◌+◌, ◌*◌, ◌/◌, ◌%◌, ℕ, ◌<◌, ◌≤◌, ◌/◌, ◌≡◌, some, ◌%◌, arith, ◌∷◌, Bool-cases, ap, ◌==◌, inl,
  inr, [], ◌∙◌, All, ◌≢◌, sym,
}
use clear_core.Text.Numbers.{
  digit_in, digits_from, digit_loop, number_text, digit_char, quotient_lt, below, whole_number,
  to_decimal, decimal_wide,
}

pub digit_in-digit_char :
    (base d : ℕ) → d < base → base ≤ 36 → digit_in base (digit_char d) ≡ some d
unfolding digit_in
digit_in-digit_char base d small fits = ground arith

-- Reading the last digit of `n` behind the digits before it gives `n`.
last_digit :
    (base n : ℕ) (out : Text)
    → 1 < base
    → base ≤ 36
    → digits_from base (n / base) (digit_char (n % base) ∷ out) ≡ digits_from base n out
unfolding digits_from
last_digit base n out wide fits =
    rw (digit_in-digit_char base (n % base) (mod-lt n (omega arith)) fits, digits_from)
      (ap (λ (k : ℕ). digits_from base k out) (omega (arith, div-add-mod n base)))

digits_from-digit_loop :
    (base : ℕ) (wide : 1 < base) (n : ℕ) (w : Acc ◌<◌ n) (out : Text)
    → base ≤ 36
    → digits_from base 0 (digit_loop base wide n w out) ≡ digits_from base n out
unfolding digit_loop
digits_from-digit_loop base wide n (Acc.intro _ smaller) out fits =
    elim (dec_lt 0 n)
      as (λ d.
        digits_from base 0 (
          dite d
            (λ h.
              digit_loop base wide (n / base) (smaller (n / base) (quotient_lt base wide h))
                (digit_char (n % base) ∷ out))
            (λ _. out))
        ≡ digits_from base n out) [
          | yes h ↦
              digits_from-digit_loop base wide (n / base)
                (smaller (n / base) (quotient_lt base wide h)) (digit_char (n % base) ∷ out) fits
              ∙ last_digit base n out wide fits
          | no h ↦ ap (λ (k : ℕ). digits_from base k out) (omega arith)
        ]

-- The digits of a number spell it.
pub digits_from-number_text :
    (base : ℕ) (wide : 1 < base) (n : ℕ)
    → base ≤ 36
    → digits_from base 0 (number_text base wide n) ≡ some n
unfolding number_text digits_from
digits_from-number_text base wide n fits = elim (Bool-cases (n == 0)) [
  | inl e ↦
      let zero_value : 0 * base + 0 ≡ n = ground arith in
      rw e (rw (digit_in-digit_char base 0 (omega arith) fits, digits_from) (ap some zero_value))
  | inr e ↦ rw e (digits_from-digit_loop base wide n (below.apply n) [] fits)
]

nil-digits : (base : ℕ) (s : Text) {n : ℕ} → s ≡ [] → digits_from base 0 s ≡ some n → n ≡ 0
unfolding digits_from
nil-digits base [] e h = ground arith
nil-digits base (c ∷ s) e h = absurd (cons-ne-nil c s e)

zero-number_text :
    (base : ℕ) (wide : 1 < base) (n : ℕ) → n ≡ 0 → number_text base wide n ≡ b'0' ∷ []
unfolding number_text
zero-number_text base wide n e = rw e refl

pub whole_number-digits :
    (base : ℕ) (s : Text) → s ≢ [] → whole_number base s ≡ digits_from base 0 s
unfolding whole_number
whole_number-digits base [] h = absurd (h refl)
whole_number-digits base (c ∷ s) h = refl

module _ (base : ℕ) (wide : 1 < base) (n : ℕ) (fits : base ≤ 36) where
  pub number_text-ne-nil : number_text base wide n ≢ []
  number_text-ne-nil h =
      let e =
        nil-digits base (number_text base wide n) h (digits_from-number_text base wide n fits) in
      cons-ne-nil b'0' [] (sym (zero-number_text base wide n e) ∙ h)

  pub whole_number-number_text : whole_number base (number_text base wide n) ≡ some n
  whole_number-number_text =
      whole_number-digits base (number_text base wide n) number_text-ne-nil
      ∙ digits_from-number_text base wide n fits

-- What holds of the characters of a base's digits holds throughout a number in that base.
module _ (P : ℕ → Type 0) (base : ℕ) (wide : 1 < base)
    (digits : (d : ℕ) → d < base → P (digit_char d)) where
  digit_loop-All :
      (n : ℕ) (w : Acc ◌<◌ n) (out : Text) → All P out → All P (digit_loop base wide n w out)
  unfolding digit_loop
  digit_loop-All n (Acc.intro _ smaller) out all =
      elim (dec_lt 0 n)
        as (λ d. All P (
          dite d
            (λ h.
              digit_loop base wide (n / base) (smaller (n / base) (quotient_lt base wide h))
                (digit_char (n % base) ∷ out))
            (λ _. out))) [
              | yes h ↦
                  digit_loop-All (n / base) (smaller (n / base) (quotient_lt base wide h))
                    (digit_char (n % base) ∷ out) (digits (n % base) (mod-lt n (omega arith)), all)
              | no h ↦ all
            ]

  pub number_text-All : (n : ℕ) → All P (number_text base wide n)
  unfolding number_text
  number_text-All n = elim (Bool-cases (n == 0)) [
    | inl e ↦ rw e (digits 0 (omega arith), tt)
    | inr e ↦ rw e (digit_loop-All n (below.apply n) [] tt)
  ]

-- A digit or a capital letter.
abbrev pub IsDigitChar : ℕ → Type 0
IsDigitChar c = (b'0' ≤ c) × (c ≤ b'Z')

pub number_text-IsDigitChar :
    (base : ℕ) (wide : 1 < base) (n : ℕ) → base ≤ 36 → All IsDigitChar (number_text base wide n)
number_text-IsDigitChar base wide n fits =
    number_text-All IsDigitChar base wide (λ d h. (ground arith, ground arith)) n

-- A decimal digit.
abbrev pub IsDecimalChar : ℕ → Type 0
IsDecimalChar c = (b'0' ≤ c) × (c ≤ b'9')

pub to_decimal-IsDecimalChar : (n : ℕ) → All IsDecimalChar (to_decimal n)
unfolding to_decimal
to_decimal-IsDecimalChar n =
    number_text-All IsDecimalChar 10 decimal_wide (λ d h. (ground arith, ground arith)) n
