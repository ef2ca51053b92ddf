-- ===== src/Converter/Shown.antt =====
-- What a value is shown as is read back to that value.
use mathlib.Core.Logic.{dite}
use native.Mathlib.Decide.{dec_lt}
use mathlib.Core.List.{reverse}
use clear_core.Text.{Text}
use mathlib.Core.WellFounded.{Acc}
use mathlib.Core.List.{reverse, reverse-append}
use clear_core.Prelude.{
  refl, [], ◌∷◌, ℕ, ◌<◌, arith, ◌^◌, ◌≡◌, ◌≤◌, some, true, ◌/◌, ◌++◌, ◌+◌, ◌%◌, ◌∙◌, ap,
}
use clear_core.Converter.{
  binary_loop, to_binary, to_hex, parse_base, Converter, update, as_text, radix, Base, binary,
  decimal, hex, half_lt,
}
use clear_core.Converter.Parse.{parse_base-plain_number, plain_number-some}
use clear_core.Text.Numbers.{
  number_text, digit_loop, quotient_lt, to_decimal, to_upper_hex, below, decimal_wide, hex_wide,
  digit_char,
}
use clear_core.Text.Digits.{whole_number-number_text}

abbrev pub binary_wide : 1 < 2
binary_wide = omega arith

-- The loop of `to_binary` writes the digits of the number backwards.
reverse-binary_loop :
    (n : ℕ) (w w' : Acc ◌<◌ n) (out : Text)
    → reverse (binary_loop n w out) ≡ digit_loop 2 binary_wide n w' (reverse out)
unfolding binary_loop digit_loop
reverse-binary_loop n (Acc.intro _ smaller) (Acc.intro _ smaller') out =
    elim (dec_lt 0 n)
      as (λ d.
        reverse (
          dite d
            (λ h. binary_loop (n / 2) (smaller (n / 2) (half_lt h)) (out ++ (b'0' + n % 2) ∷ []))
            (λ _. out))
        ≡ dite d
            (λ h.
              digit_loop 2 binary_wide (n / 2) (smaller' (n / 2) (quotient_lt 2 binary_wide h))
                (digit_char (n % 2) ∷ reverse out))
            (λ _. reverse out)) [
              | yes h ↦
                  let back : reverse (out ++ (b'0' + n % 2) ∷ [])
                      ≡ digit_char (n % 2) ∷ reverse out =
                    reverse-append out ((b'0' + n % 2) ∷ [])
                    ∙ ap (λ (d : ℕ). d ∷ reverse out) (ground arith) in
                  reverse-binary_loop (n / 2) (smaller (n / 2) (half_lt h))
                    (smaller' (n / 2) (quotient_lt 2 binary_wide h)) (out ++ (b'0' + n % 2) ∷ [])
                  ∙ ap
                      (digit_loop 2 binary_wide (n / 2)
                        (smaller' (n / 2) (quotient_lt 2 binary_wide h)))
                      back
              | no h ↦ refl
            ]

pub to_binary-number_text : (n : ℕ) → to_binary n ≡ number_text 2 binary_wide n
unfolding to_binary number_text
to_binary-number_text n = rw (reverse-binary_loop n (below.apply n) (below.apply n) []) refl

parse_base-number_text :
    (base : ℕ) (wide : 1 < base) (n : ℕ)
    → base ≤ 36
    → n < 2 ^ 64
    → parse_base (number_text base wide n) base ≡ some n
parse_base-number_text base wide n fits small =
    let s = number_text base wide n in
    parse_base-plain_number s base wide fits
    ∙ plain_number-some s base (whole_number-number_text base wide n fits)
    ∙ ground arith

shown_value :
    (c : Converter) (b : Base)
    → c.value < 2 ^ 64
    → parse_base (as_text c b) (radix b) ≡ some c.value
unfolding as_text to_hex to_decimal to_upper_hex
shown_value c binary small =
    rw (to_binary-number_text c.value)
      (parse_base-number_text 2 binary_wide c.value (omega arith) small)
shown_value c decimal small = parse_base-number_text 10 decimal_wide c.value (omega arith) small
shown_value c hex small = parse_base-number_text 16 hex_wide c.value (omega arith) small

-- A converter, whatever it held before, that reads in a base what another with a 64-bit value shows
-- in that base accepts the text and holds that value.
pub update-as_text :
    (c d : Converter) (b : Base)
    → c.value < 2 ^ 64
    → update d (as_text c b) b ≡ (record { value = c.value }, true)
unfolding update
update-as_text c d b small = rw (shown_value c b small, update) refl
