-- ===== src/Assembler/Instructions.antt =====
-- The branches of pass 2 of src/nsc_qt/assembler.cpp: each kind of instruction from its operands, and
-- the tables of mnemonics.
use Prim.Native.String.{String}
use clear_core.Assembler.Operands.{
  parse_reg, parse_imm, parse_mem_operand, fits_simm16, fits_uimm16, jump_target_max,
}
use clear_core.Assembler.Encoders.{enc_r, enc_i, enc_j}
use clear_core.Text.{Text, codes, same, lookup}
use clear_core.Prelude.{
  ℕ, ◌+◌, Bool, Option, none, some, List, [], ◌∷◌, ◌++◌, ◌||◌, not, if◌then◌else◌, ℤ, pos, ◌-ℤ◌,
  ltb_ℤ, ◌%◌, ◌^◌, unsigned32, ltb, signed32,
}

-- The word of a line, or the message that ends the assembly.
pub data Encoded : Type 0 where
  word : ℕ → Encoded
  refused : Text → Encoded

abbrev pub err : String → Encoded
err s = refused (codes s)

abbrev pub Table : Type 0
Table = List (Text × ℕ)

abbrev pub r3_map : Table
r3_map =
    (codes "add", 0x20)
    ∷ (codes "addu", 0x21)
    ∷ (codes "sub", 0x22)
    ∷ (codes "subu", 0x23)
    ∷ (codes "and", 0x24)
    ∷ (codes "or", 0x25)
    ∷ (codes "xor", 0x26)
    ∷ (codes "nor", 0x27)
    ∷ (codes "slt", 0x2a)
    ∷ (codes "sltu", 0x2b)
    ∷ []

abbrev pub shift_map : Table
shift_map = (codes "sll", 0x00) ∷ (codes "srl", 0x02) ∷ (codes "sra", 0x03) ∷ []

abbrev pub v_shift_map : Table
v_shift_map = (codes "sllv", 0x04) ∷ (codes "srlv", 0x06) ∷ []

abbrev pub i_arith_map : Table
i_arith_map =
    (codes "addi", 0x08)
    ∷ (codes "addiu", 0x09)
    ∷ (codes "slti", 0x0a)
    ∷ (codes "sltiu", 0x0b)
    ∷ (codes "andi", 0x0c)
    ∷ (codes "ori", 0x0d)
    ∷ (codes "xori", 0x0e)
    ∷ []

abbrev pub mem_map : Table
mem_map = (codes "lw", 0x23) ∷ (codes "lbu", 0x24) ∷ (codes "lhu", 0x25) ∷ (codes "sw", 0x2b) ∷ []

abbrev pub branch_map : Table
branch_map = (codes "beq", 0x04) ∷ (codes "bne", 0x05) ∷ []

abbrev pub jump_map : Table
jump_map = (codes "j", 0x02) ∷ (codes "jal", 0x03) ∷ []

unfoldable pub zero_extends_imm : Text → Bool
zero_extends_imm mn = same mn (codes "andi") || same mn (codes "ori") || same mn (codes "xori")

-- The checks of `std::optional` results that the branches make before they go on.
abbrev pub regs1 : Text → (ℕ → Encoded) → Encoded
regs1 a next = elim (parse_reg a) [ none ↦ err "bad register" | some r ↦ next r ]

abbrev pub regs2 : Text → Text → (ℕ → ℕ → Encoded) → Encoded
regs2 a b next = regs1 a (λ x. regs1 b (next x))

abbrev pub regs3 : Text → Text → Text → (ℕ → ℕ → ℕ → Encoded) → Encoded
regs3 a b c next = regs1 a (λ x. regs2 b c (next x))

abbrev pub reg_or : Text → (ℕ → Encoded) → Encoded
reg_or a next = elim (parse_reg a) [ none ↦ err "bad operands" | some r ↦ next r ]

abbrev pub imm_or : Text → (ℤ → Encoded) → Encoded
imm_or a next = elim (parse_imm a) [ none ↦ err "bad operands" | some v ↦ next v ]

unfoldable pub encode_r3 : ℕ → List Text → Encoded
encode_r3 funct (a ∷ b ∷ c ∷ []) = regs3 a b c (λ rd rs rt. word (enc_r rs rt rd 0 funct))
encode_r3 funct _ = err "expected $rd, $rs, $rt"

unfoldable pub encode_shift : ℕ → List Text → Encoded
encode_shift funct (a ∷ b ∷ c ∷ []) = reg_or a (λ rd. reg_or b (λ rt. imm_or c (λ imm.
    if ltb_ℤ imm (pos 0) || ltb_ℤ (pos 31) imm
    then err "shift amount out of range"
    else word (enc_r 0 rt rd (unsigned32 imm % 2 ^ 8) funct))))
encode_shift funct _ = err "expected $rd, $rt, shamt"

unfoldable pub encode_v_shift : ℕ → List Text → Encoded
encode_v_shift funct (a ∷ b ∷ c ∷ []) = regs3 a b c (λ rd rt rs. word (enc_r rs rt rd 0 funct))
encode_v_shift funct _ = err "expected $rd, $rt, $rs"

unfoldable pub encode_jr : List Text → Encoded
encode_jr (a ∷ []) = regs1 a (λ rs. word (enc_r rs 0 0 0 0x08))
encode_jr _ = err "expected $rs"

unfoldable pub encode_jalr : List Text → Encoded
encode_jalr (a ∷ b ∷ []) = regs2 a b (λ rd rs. word (enc_r rs 0 rd 0 0x09))
encode_jalr _ = err "expected $rd, $rs"

-- `static_cast<uint16_t>` of an `int32_t`.
abbrev pub imm16 : ℤ → ℕ
imm16 v = unsigned32 v % 2 ^ 16

unfoldable pub encode_i_arith : Bool → ℕ → List Text → Encoded
encode_i_arith zero_extends op (a ∷ b ∷ c ∷ []) = reg_or a (λ rt. reg_or b (λ rs. imm_or c (λ imm.
    if zero_extends
    then (if not (fits_uimm16 imm)
        then err "immediate out of range (0 to 65535)"
        else word (enc_i op rs rt (imm16 imm)))
    else if not (fits_simm16 imm)
    then err "immediate out of range (-32768 to 32767)"
    else word (enc_i op rs rt (imm16 imm)))))
encode_i_arith zero_extends op _ = err "expected $rt, $rs, imm"

unfoldable pub encode_lui : List Text → Encoded
encode_lui (a ∷ b ∷ []) = reg_or a (λ rt. imm_or b (λ imm.
    if not (fits_uimm16 imm)
    then err "immediate out of range (0 to 65535)"
    else word (enc_i 0x0f 0 rt (imm16 imm))))
encode_lui _ = err "expected $rt, imm"

-- The rest of the memory branch, once its register is read.
abbrev pub mem_word : ℕ → Text → ℕ → Encoded
mem_word op b rt = elim (parse_mem_operand b) [
  | none ↦ err "expected imm($rs)"
  | some (imm, rs) ↦
      if not (fits_simm16 imm)
      then err "offset out of range (-32768 to 32767)"
      else word (enc_i op rs rt (imm16 imm))
]

unfoldable pub encode_mem : ℕ → List Text → Encoded
encode_mem op (a ∷ b ∷ []) = regs1 a (mem_word op b)
encode_mem op _ = err "expected $rt, imm($rs)"

abbrev pub undefined_label : Text → Encoded
undefined_label name = refused (codes "undefined label '" ++ name ++ codes "'")

-- A number, or the distance from the instruction after this one to a label.
unfoldable pub branch_offset : Table → ℕ → Text → Option ℤ
branch_offset labels idx name = elim (parse_imm name) [
  | some v ↦ some v
  | none ↦ elim (lookup name labels) [
    | none ↦ none
    | some target ↦ some (signed32 (target % 2 ^ 32) -ℤ signed32 ((idx + 1) % 2 ^ 32))
  ]
]

-- The rest of the branch-instruction branch, once its registers are read.
abbrev pub branch_word : Table → ℕ → ℕ → Text → ℕ → ℕ → Encoded
branch_word labels idx op c rs rt = elim (branch_offset labels idx c) [
  | none ↦ undefined_label c
  | some offset ↦
      if not (fits_simm16 offset)
      then err "branch offset out of range (-32768 to 32767 instructions)"
      else word (enc_i op rs rt (imm16 offset))
]

unfoldable pub encode_branch : Table → ℕ → ℕ → List Text → Encoded
encode_branch labels idx op (a ∷ b ∷ c ∷ []) = regs2 a b (branch_word labels idx op c)
encode_branch labels idx op _ = err "expected $rs, $rt, label"

abbrev pub jump_range : Encoded
jump_range = err "jump target out of range (0 to 0x3FFFFFF)"

unfoldable pub encode_jump : Table → ℕ → List Text → Encoded
encode_jump labels op (a ∷ []) = elim (parse_imm a) [
  | some v ↦
      if ltb_ℤ v (pos 0) || ltb_ℤ (pos jump_target_max) v
      then jump_range
      else word (enc_j op (unsigned32 v))
  | none ↦ elim (lookup a labels) [
    | none ↦ undefined_label a
    | some target ↦ if ltb jump_target_max target then jump_range else word (enc_j op target)
  ]
]
encode_jump labels op _ = err "expected target"
