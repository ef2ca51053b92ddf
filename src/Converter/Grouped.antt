-- ===== src/Converter/Grouped.antt =====
-- The grouped display is in nibbles and still spells the value.
use clear_core.Text.{Text}
use clear_core.Prelude.{
  zero, suc, refl, [], ◌∷◌, ℕ, if◌then◌else◌, length, suc, ◌-◌, ◌≡◌, if_both, some, ◌%◌, ◌*◌, ◌==◌,
  ◌⊎◌, All, Bool-cases, ◌≤◌, Option-cases, arith, inl, inr, ◌+◌, false, ◌∙◌, ap, ◌<◌, ◌/◌, ◌≢◌,
}
use clear_core.Converter.{pad, spaced, group_bits, to_binary}
use clear_core.Converter.Shown.{to_binary-number_text, binary_wide}
use clear_core.Text.Digits.{number_text-ne-nil}
use clear_core.Text.Numbers.{digit_in, digits_from, digit_value}
use clear_core.Text.Digits.{digits_from-number_text}

abbrev pub IsBit : ℕ → Type 0
IsBit c = (c ≡ b'0') ⊎ (c ≡ b'1')

-- One or more groups of four binary digits with single spaces between them.
pub data InNibbles : Text → Type 0 where
  one_nibble :
      (a b c d : ℕ) → IsBit a → IsBit b → IsBit c → IsBit d → InNibbles (a ∷ b ∷ c ∷ d ∷ [])
  next_nibble :
      (a b c d : ℕ) (rest : Text)
      → IsBit a
      → IsBit b
      → IsBit c
      → IsBit d
      → InNibbles rest
      → InNibbles (a ∷ b ∷ c ∷ d ∷ b' ' ∷ rest)

abbrev pub without_spaces : Text → Text
without_spaces [] = []
without_spaces (c ∷ s) = if c == b' ' then without_spaces s else c ∷ without_spaces s

digit_in-IsBit : (c d : ℕ) → digit_in 2 c ≡ some d → IsBit c
unfolding digit_in digit_value
digit_in-IsBit c d h = elim (Bool-cases (c == b'0')) [
  | inl e ↦ inl (ground arith)
  | inr e ↦ inr (ground arith)
]

digits_from-IsBit : (s : Text) (k : ℕ) {n : ℕ} → digits_from 2 k s ≡ some n → All IsBit s
unfolding digits_from
digits_from-IsBit [] k h = tt
digits_from-IsBit (c ∷ s) k {n} h = elim (Option-cases (digit_in 2 c)) [
  | inl e ↦ absurd (ground arith)
  | inr (d, e) ↦ (digit_in-IsBit c d e, digits_from-IsBit s (k * 2 + d) {n = n} (ground arith))
]

-- A zero in front changes nothing.
pad-digits : (fuel : ℕ) (s : Text) → digits_from 2 0 (pad fuel s) ≡ digits_from 2 0 s
unfolding pad digits_from digit_in digit_value
pad-digits zero s = refl
pad-digits (suc fuel) s =
    if_both (λ (t : Text). digits_from 2 0 t ≡ digits_from 2 0 s) (length s % 4 == 0) refl
      (pad-digits fuel (b'0' ∷ s))

-- As many rounds as are missing to the next multiple of four reach it.
pad-length :
    (fuel : ℕ) (s : Text)
    → (4 - length s % 4) % 4 ≤ fuel
    → (length (pad fuel s) % 4 ≡ 0) × (length s ≤ length (pad fuel s))
unfolding pad
pad-length zero s h = (omega arith, omega arith)
pad-length (suc fuel) s h = elim (Bool-cases (length s % 4 == 0)) [
  | inl e ↦ rw e (ground arith, omega arith)
  | inr e ↦
      let (done, longer) = pad-length fuel (b'0' ∷ s) (ground arith) in rw e (done, omega arith)
]

-- The body of the display from a multiple of four on.
abbrev led : ℕ → Text → Text
led zero body = body
led (suc j) body = b' ' ∷ body

spaced-nibble :
    (j a b c d : ℕ) (s : Text)
    → spaced (4 * j) (a ∷ b ∷ c ∷ d ∷ s) ≡ led j (a ∷ b ∷ c ∷ d ∷ spaced (4 * suc j) s)
unfolding spaced
spaced-nibble zero a b c d s = refl
spaced-nibble (suc j) a b c d s = ground arith

not_space : (c : ℕ) → IsBit c → (c == b' ') ≡ false
not_space c (inl e) = rw e refl
not_space c (inr e) = rw e refl

spaced-InNibbles :
    (k j : ℕ) (s : Text)
    → length s ≡ 4 * suc k
    → All IsBit s
    → (body : Text) × (spaced (4 * j) s ≡ led j body) × InNibbles body × (without_spaces body ≡ s)
unfolding spaced
spaced-InNibbles zero j (a ∷ b ∷ c ∷ d ∷ []) h (ha, (hb, (hc, (hd, _)))) = (
  a ∷ b ∷ c ∷ d ∷ [],
  spaced-nibble j a b c d [],
  InNibbles.one_nibble a b c d ha hb hc hd,
  rw (not_space a ha, not_space b hb, not_space c hc, not_space d hd) refl,
)
spaced-InNibbles (suc k) j (a ∷ b ∷ c ∷ d ∷ s) h (ha, (hb, (hc, (hd, all)))) =
    let (body, e, nibbles, kept) = spaced-InNibbles k (suc j) s (omega arith) all in
    (
      a ∷ b ∷ c ∷ d ∷ b' ' ∷ body,
      spaced-nibble j a b c d s ∙ ap (λ (t : Text). led j (a ∷ b ∷ c ∷ d ∷ t)) e,
      InNibbles.next_nibble a b c d body ha hb hc hd nibbles,
      rw (not_space a ha, not_space b hb, not_space c hc, not_space d hd, kept) refl,
    )
spaced-InNibbles k j s h all = absurd (omega arith)

0-lt-length : (s : Text) → s ≢ [] → 0 < length s
0-lt-length [] h = absurd (h refl)
0-lt-length (c ∷ s) h = omega arith

to_binary-ne-nil : (n : ℕ) → to_binary n ≢ []
to_binary-ne-nil n = rw (to_binary-number_text n) (number_text-ne-nil 2 binary_wide n (omega arith))

-- The grouped display of any value consists of groups of four binary digits with a space between
-- them, and the digits without the spaces spell the value in base two.
pub group_bits-InNibbles :
    (n : ℕ) → InNibbles (group_bits n) × (digits_from 2 0 (without_spaces (group_bits n)) ≡ some n)
unfolding group_bits
group_bits-InNibbles n =
    let s = pad 3 (to_binary n) in
    let spelled : digits_from 2 0 s ≡ some n =
      pad-digits 3 (to_binary n)
      ∙ rw (to_binary-number_text n) (digits_from-number_text 2 binary_wide n (omega arith)) in
    let (fours, longer) = pad-length 3 (to_binary n) (omega arith) in
    let some_digits : 0 < length s =
      omega (arith, longer, 0-lt-length (to_binary n) (to_binary-ne-nil n)) in
    let (body, e, nibbles, kept) =
      spaced-InNibbles (length s / 4 - 1) 0 s (omega arith) (digits_from-IsBit s 0 spelled) in
    rw e (nibbles, rw kept spelled)
