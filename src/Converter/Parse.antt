-- ===== src/Converter/Parse.antt =====
-- `parse_base` accepts exactly the plain numbers of its base: what `std::stoull` would let through,
-- signs, whitespace and prefixes, never reaches it.
use clear_core.Text.{is_space, Text}
use clear_core.Prelude.{
  refl, [], ◌∷◌, ℕ, Option, ◌≡◌, Bool-cases, false, true, inr, none, some, Option-cases,
  if◌then◌else◌, inl, arith, ltb, leb, ◌^◌, ◌*◌, ◌+◌, ◌==◌, ◌≤◌, ◌&&◌, ◌||◌, sym,
}
use clear_core.Converter.{is_plain, read_digits, skip_space, skip_sign, skip_prefix, parse_base}
use clear_core.Text.Numbers.{digit_value, digit_in, digits_from, whole_number}

-- On plain digits of the base, reading from the front stops only at the end.
read_digits-IsPlain :
    (s : Text) (base n : ℕ)
    → is_plain s base ≡ true
    → (digits_from base n s ≡ some (read_digits base n s).0) × ((read_digits base n s).1 ≡ [])
unfolding is_plain read_digits digits_from digit_in
read_digits-IsPlain [] base n h = (refl, refl)
read_digits-IsPlain (c ∷ s) base n h = elim (Option-cases (digit_value c)) [
  | inl e ↦ absurd (ground arith)
  | inr (d, e) ↦ elim (Bool-cases (leb base d)) [
    | inl g ↦ absurd (ground arith)
    | inr g ↦
        let ih = read_digits-IsPlain s base (n * base + d) (ground arith) in
        let g' : ltb d base ≡ true = ground arith in rw (e, g', digits_from, read_digits) ih
  ]
]

digits_from-plain : (s : Text) (base n : ℕ) → is_plain s base ≡ false → digits_from base n s ≡ none
unfolding is_plain digits_from digit_in
digits_from-plain [] base n h = cc
digits_from-plain (c ∷ s) base n h = elim (Option-cases (digit_value c)) [
  | inl e ↦ ground arith
  | inr (d, e) ↦ elim (Bool-cases (leb base d)) [
    | inl g ↦ ground arith
    | inr g ↦ let ih = digits_from-plain s base (n * base + d) (ground arith) in ground arith
  ]
]

plain-head :
    (c : ℕ) (s : Text) (base : ℕ)
    → is_plain (c ∷ s) base ≡ true
    → (is_space c ≡ false) × ((c == b'-') ≡ false) × ((c == b'+') ≡ false)
unfolding is_plain digit_value
plain-head c s base h = ground arith

-- In base 16, `x` is no digit.
plain-no_prefix :
    (c x : ℕ) (s : Text) (base : ℕ)
    → is_plain (c ∷ x ∷ s) base ≡ true
    → (base == 16 && (x == b'x' || x == b'X')) ≡ false
unfolding is_plain digit_value
plain-no_prefix c x s base h = ground arith

-- A plain number starts with no space, sign or prefix.
plain-skips :
    (c : ℕ) (s : Text) (base : ℕ)
    → is_plain (c ∷ s) base ≡ true
    → skip_sign (skip_space (c ∷ s)) ≡ (false, c ∷ s)
unfolding skip_sign skip_space
plain-skips c s base h = let (e1, e2, e3) = plain-head c s base h in rw (e1, e2, e3) refl

plain-keeps :
    (c : ℕ) (s : Text) (base : ℕ) → is_plain (c ∷ s) base ≡ true → skip_prefix base (c ∷ s) ≡ c ∷ s
unfolding skip_prefix
plain-keeps c [] base h = refl
plain-keeps c (x ∷ []) base h = refl
plain-keeps c (x ∷ d ∷ s) base h = ground (arith, plain-no_prefix c x (d ∷ s) base h)

-- The reference: a text of one or more digits of the base, whose value fits 64 bits.
unfoldable pub plain_number : Text → ℕ → Option ℕ
plain_number s base = elim (whole_number base s) [
  | none ↦ none
  | some n ↦ if ltb n (2 ^ 64) then some n else none
]

pub plain_number-some :
    (s : Text) (base : ℕ) {n : ℕ}
    → whole_number base s ≡ some n
    → plain_number s base ≡ (if ltb n (2 ^ 64) then some n else none)
unfolding plain_number
plain_number-some s base h = rw (h, plain_number) refl

plain_number-none : (s : Text) (base : ℕ) → whole_number base s ≡ none → plain_number s base ≡ none
unfolding plain_number
plain_number-none s base h = rw (h, plain_number) refl

-- For every text and every base from 2 to 36, `parse_base` reads a non-empty text of digits of that
-- base whose value is below 2 ^ 64, to that value, and refuses every other.
pub parse_base-plain_number :
    (s : Text) (base : ℕ) → 2 ≤ base → base ≤ 36 → parse_base s base ≡ plain_number s base
unfolding parse_base plain_number whole_number
parse_base-plain_number [] base low high = refl
parse_base-plain_number (c ∷ s) base low high = elim (Bool-cases (is_plain (c ∷ s) base)) [
  | inr e ↦ rw (e) (sym (plain_number-none (c ∷ s) base (digits_from-plain (c ∷ s) base 0 e)))
  | inl e ↦
      let (value, at_end) = read_digits-IsPlain (c ∷ s) base 0 e in
      rw (e, plain-skips c s base e, plain-keeps c s base e)
        (ground (arith, plain_number-some (c ∷ s) base value, at_end))
]
