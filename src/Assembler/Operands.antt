-- ===== src/Assembler/Operands.antt =====
-- Registers, immediates and memory operands of src/nsc_qt/assembler.cpp, and their ranges.
use clear_core.Text.{Text, codes, lookup, find, take, drop, is_digit}
use clear_core.Text.Numbers.{uint32_from_chars, int32_from_chars}
use clear_core.Prelude.{
  ℕ, ◌+◌, ◌-◌, Bool, ◌&&◌, ◌||◌, Option, none, some, List, [], ◌∷◌, ◌==◌, ltb, if◌then◌else◌, ℤ,
  pos, negsuc, ltb_ℤ, signed32, unsigned32, sub32, not,
}

abbrev pub reg_map : List (Text × ℕ)
reg_map =
    (codes "zero", 0)
    ∷ (codes "at", 1)
    ∷ (codes "v0", 2)
    ∷ (codes "v1", 3)
    ∷ (codes "a0", 4)
    ∷ (codes "a1", 5)
    ∷ (codes "a2", 6)
    ∷ (codes "a3", 7)
    ∷ (codes "t0", 8)
    ∷ (codes "t1", 9)
    ∷ (codes "t2", 10)
    ∷ (codes "t3", 11)
    ∷ (codes "t4", 12)
    ∷ (codes "t5", 13)
    ∷ (codes "t6", 14)
    ∷ (codes "t7", 15)
    ∷ (codes "s0", 16)
    ∷ (codes "s1", 17)
    ∷ (codes "s2", 18)
    ∷ (codes "s3", 19)
    ∷ (codes "s4", 20)
    ∷ (codes "s5", 21)
    ∷ (codes "s6", 22)
    ∷ (codes "s7", 23)
    ∷ (codes "t8", 24)
    ∷ (codes "t9", 25)
    ∷ (codes "k0", 26)
    ∷ (codes "k1", 27)
    ∷ (codes "gp", 28)
    ∷ (codes "sp", 29)
    ∷ (codes "fp", 30)
    ∷ (codes "ra", 31)
    ∷ []

-- `n >= 0 && n < 32` on the number read.
abbrev pub reg_number : ℤ → Option ℕ
reg_number (pos n) = if ltb n 32 then some n else none
reg_number (negsuc _) = none

-- The part of `parse_reg` behind the `$`.
unfoldable pub reg_name : Text → Option ℕ
reg_name [] = lookup [] reg_map
reg_name (c ∷ s) =
    if is_digit c
    then elim (int32_from_chars (c ∷ s)) [ none ↦ none | some n ↦ reg_number n ]
    else lookup (c ∷ s) reg_map

unfoldable pub parse_reg : Text → Option ℕ
unfolding reg_name
parse_reg [] = none
parse_reg (c ∷ name) = if c == b'$' then reg_name name else none

-- The magnitude: behind `0x` or `0X` with a digit after it in base 16, and else in base ten.
unfoldable pub imm_magnitude : Text → Option ℤ
imm_magnitude (a ∷ x ∷ d ∷ s) =
    if a == b'0' && (x == b'x' || x == b'X')
    then elim (uint32_from_chars 16 (d ∷ s)) [ none ↦ none | some u ↦ some (signed32 u) ]
    else int32_from_chars (a ∷ x ∷ d ∷ s)
imm_magnitude s = int32_from_chars s

-- Negated as an unsigned number.
unfoldable pub negate : ℤ → ℤ
negate v = signed32 (sub32 0 (unsigned32 v))

unfoldable pub parse_imm : Text → Option ℤ
unfolding imm_magnitude negate
parse_imm [] = none
parse_imm (c ∷ s) =
    if c == b'-'
    then elim (imm_magnitude s) [ none ↦ none | some v ↦ some (negate v) ]
    else imm_magnitude (c ∷ s)

-- The two parts, cut at the first `(` and the first `)`.
unfoldable pub mem_parts : Text → ℕ → ℕ → Option (ℤ × ℕ)
mem_parts tok lp rp = elim (parse_imm (take tok lp)) [
  | none ↦ none
  | some imm ↦ elim (parse_reg (take (drop tok (lp + 1)) (rp - lp - 1))) [
    | none ↦ none
    | some reg ↦ some (imm, reg)
  ]
]

unfoldable pub parse_mem_operand : Text → Option (ℤ × ℕ)
unfolding mem_parts
parse_mem_operand tok = elim (find b'(' tok) [
  | none ↦ none
  | some lp ↦ elim (find b')' tok) [
    | none ↦ none
    | some rp ↦ if ltb rp lp then none else mem_parts tok lp rp
  ]
]

abbrev pub simm16_min : ℤ
simm16_min = negsuc 32767

abbrev pub simm16_max : ℤ
simm16_max = pos 32767

abbrev pub uimm16_max : ℤ
uimm16_max = pos 0xffff

abbrev pub jump_target_max : ℕ
jump_target_max = 0x03ffffff

abbrev pub leb_ℤ : ℤ → ℤ → Bool
leb_ℤ a b = not (ltb_ℤ b a)

unfoldable pub fits_simm16 : ℤ → Bool
fits_simm16 v = leb_ℤ simm16_min v && leb_ℤ v simm16_max

unfoldable pub fits_uimm16 : ℤ → Bool
fits_uimm16 v = leb_ℤ (pos 0) v && leb_ℤ v uimm16_max
