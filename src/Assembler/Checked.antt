-- ===== src/Assembler/Checked.antt =====
-- What the operand checks of a branch of pass 2 have found when it encodes: registers below 32, and
-- immediates that keep their value in 16 bits.
use Prim.Native.String.{String}
use clear_core.Text.Numbers.{int32_from_chars}
use clear_core.Text.{Text, is_digit, find, take, drop}
use clear_core.Text.Laws.{AllEntries, lookup-AllEntries}
use clear_core.Prelude.{
  true, false, [], ◌∷◌, refl, ◌<◌, ℕ, ◌≡◌, arith, some, Option-cases, ◌∷◌, Bool-cases, inl, inr,
  ◌==◌, Bool, ℤ, ltb_ℤ, not, ◌-ℤ◌, false, pos, signed32, ◌%◌, ◌||◌, unsigned32, ◌^◌, negsuc, ◌+◌,
  if◌then◌else◌, ◌-◌, ◌∙◌, ap,
}
use clear_core.Decoder.{sign_extend}
use clear_core.Assembler.Operands.{
  parse_reg, parse_imm, reg_map, reg_name, fits_simm16, fits_uimm16, jump_target_max,
  parse_mem_operand,
}
use clear_core.Assembler.Instructions.{Encoded, word, regs1, reg_or, imm_or, imm16, err}
use clear_core.Assembler.Meaning.{Lands}

reg_map-lt : AllEntries (λ _ (v : ℕ). v < 32) reg_map
reg_map-lt = omega arith

reg_name-lt : (s : Text) {r : ℕ} → reg_name s ≡ some r → r < 32
unfolding reg_name
reg_name-lt [] h = lookup-AllEntries (λ _ (v : ℕ). v < 32) [] reg_map reg_map-lt h
reg_name-lt (c ∷ s) h = elim (Bool-cases (is_digit c)) [
  | inl e ↦ elim (Option-cases (int32_from_chars (c ∷ s))) [
    | inl n ↦ absurd (ground arith)
    | inr (v, n) ↦ ground arith
  ]
  | inr e ↦ lookup-AllEntries (λ _ (v : ℕ). v < 32) (c ∷ s) reg_map reg_map-lt (ground arith)
]

pub parse_reg-lt : (s : Text) {r : ℕ} → parse_reg s ≡ some r → r < 32
unfolding parse_reg
parse_reg-lt [] h = cc
parse_reg-lt (c ∷ s) h = elim (Bool-cases (c == b'$')) [
  | inl e ↦ reg_name-lt s (ground arith)
  | inr e ↦ absurd (ground arith)
]

pub regs1_then :
    {P : Type 0} (a : Text) (next : ℕ → Encoded) {w : ℕ}
    → regs1 a next ≡ word w
    → ((r : ℕ) → parse_reg a ≡ some r → r < 32 → next r ≡ word w → P)
    → P
regs1_then a next h go = elim (Option-cases (parse_reg a)) [
  | inl e ↦ absurd (ground arith)
  | inr (r, e) ↦ go r e (parse_reg-lt a e) (ground arith)
]

pub reg_or_then :
    {P : Type 0} (a : Text) (next : ℕ → Encoded) {w : ℕ}
    → reg_or a next ≡ word w
    → ((r : ℕ) → parse_reg a ≡ some r → r < 32 → next r ≡ word w → P)
    → P
reg_or_then a next h go = elim (Option-cases (parse_reg a)) [
  | inl e ↦ absurd (ground arith)
  | inr (r, e) ↦ go r e (parse_reg-lt a e) (ground arith)
]

pub imm_or_then :
    {P : Type 0} (a : Text) (next : ℤ → Encoded) {w : ℕ}
    → imm_or a next ≡ word w
    → ((r : ℤ) → parse_imm a ≡ some r → next r ≡ word w → P)
    → P
imm_or_then a next h go = elim (Option-cases (parse_imm a)) [
  | inl e ↦ absurd (ground arith)
  | inr (r, e) ↦ go r e (ground arith)
]

-- A test that guards a word has not been met.
pub guard_then :
    {P : Type 0} (b : Bool) (msg : String) (v : ℕ) {w : ℕ}
    → (if b then err msg else word v) ≡ word w
    → (b ≡ false → v ≡ w → P)
    → P
guard_then true msg v h go = absurd (cc)
guard_then false msg v h go = go refl (cc)

pub fits_uimm16-imm16 :
    (v : ℤ) → not (fits_uimm16 v) ≡ false → (v ≡ pos (imm16 v)) × (imm16 v < 2 ^ 16)
unfolding fits_uimm16
fits_uimm16-imm16 (pos n) h = ground arith
fits_uimm16-imm16 (negsuc n) h = absurd (ground arith)

pub fits_simm16-imm16 :
    (v : ℤ) → not (fits_simm16 v) ≡ false → (sign_extend (imm16 v) ≡ v) × (imm16 v < 2 ^ 16)
unfolding fits_simm16 sign_extend
fits_simm16-imm16 (pos n) h = ground arith
fits_simm16-imm16 (negsuc n) h = ground arith

pub amount-lt :
    (v : ℤ)
    → (ltb_ℤ v (pos 0) || ltb_ℤ (pos 31) v) ≡ false
    → (v ≡ pos (unsigned32 v % 2 ^ 8)) × (unsigned32 v % 2 ^ 8 < 32)
amount-lt (pos n) h = ground arith
amount-lt (negsuc n) h = absurd (ground arith)

pub target-lt :
    (v : ℤ)
    → (ltb_ℤ v (pos 0) || ltb_ℤ (pos jump_target_max) v) ≡ false
    → (v ≡ pos (unsigned32 v)) × (unsigned32 v < 2 ^ 26)
target-lt (pos n) h = ground arith
target-lt (negsuc n) h = absurd (ground arith)

-- The distance to a label, as an immediate, takes the branch there.
pub label-Lands :
    (idx t imm : ℕ)
    → sign_extend imm ≡ signed32 (t % 2 ^ 32) -ℤ signed32 ((idx + 1) % 2 ^ 32)
    → Lands idx imm t
unfolding ◌-ℤ◌
label-Lands idx t imm e base = rw e (ground arith)

pub parse_mem_operand-lt : (s : Text) {v : ℤ} {r : ℕ} → parse_mem_operand s ≡ some (v, r) → r < 32
unfolding parse_mem_operand
parse_mem_operand-lt s {v} {r} h = elim (Option-cases (find b'(' s)) [
  | inl e ↦ absurd (ground arith)
  | inr (lp, e) ↦ elim (Option-cases (find b')' s)) [
    | inl e' ↦ absurd (ground arith)
    | inr (rp, e') ↦ elim (Option-cases (parse_imm (take s lp))) [
      | inl p ↦ absurd (ground arith)
      | inr (imm, p) ↦ elim (Option-cases (parse_reg (take (drop s (lp + 1)) (rp - lp - 1)))) [
        | inl q ↦ absurd (ground arith)
        | inr (reg, q) ↦
            parse_reg-lt (take (drop s (lp + 1)) (rp - lp - 1)) (q ∙ ap some (ground arith))
      ]
    ]
  ]
]
