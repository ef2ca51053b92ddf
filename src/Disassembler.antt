-- ===== src/Disassembler.antt =====
-- src/mips/disassembler.cpp, include/mips/disassembler.h: instructions as assembly text, and
-- include/nsc_qt/instr_format.h, the text of a raw word.
pub mod Listed
pub mod Operands
pub mod Shapes
pub mod Encoded
use clear_core.Decoder.{
  DecodedInstr, InstrFormat, Opcode, FunctCode, Fields, RFields, IFields, r_fields, i_fields,
  j_fields, mnemonic, sign_extend, decode,
}
use clear_core.Registers.{register_abi_name}
use clear_core.Text.{Text, codes, to_lower}
use clear_core.Text.Numbers.{to_decimal, to_upper_hex, signed_text, plus_text, zero_filled}
use clear_core.Prelude.{
  ℕ, ◌+◌, Option, none, some, [], ◌∷◌, ◌++◌, map, bit_and, bit_or, add32, shl32,
}

unfoldable pub lower_mnemonic : DecodedInstr → Text
lower_mnemonic d = map to_lower (codes (mnemonic d))

-- A register with its dollar sign.
unfoldable pub reg_text : ℕ → Text
reg_text r = b'$' ∷ codes (register_abi_name r)

abbrev pub comma : Text
comma = b',' ∷ b' ' ∷ []

abbrev pub operands2 : Text → Text → Text → Text
operands2 mn a b = mn ++ (b' ' ∷ (a ++ (comma ++ b)))

abbrev pub operands3 : Text → Text → Text → Text → Text
operands3 mn a b c = mn ++ (b' ' ∷ (a ++ (comma ++ (b ++ (comma ++ c)))))

-- The switch on `funct`.
unfoldable pub r_text : Text → FunctCode → RFields → Text
unfolding reg_text
r_text mn FunctCode.sll r = operands3 mn (reg_text r.rd) (reg_text r.rt) (to_decimal r.shamt)
r_text mn FunctCode.srl r = operands3 mn (reg_text r.rd) (reg_text r.rt) (to_decimal r.shamt)
r_text mn FunctCode.sra r = operands3 mn (reg_text r.rd) (reg_text r.rt) (to_decimal r.shamt)
r_text mn FunctCode.sllv r = operands3 mn (reg_text r.rd) (reg_text r.rt) (reg_text r.rs)
r_text mn FunctCode.srlv r = operands3 mn (reg_text r.rd) (reg_text r.rt) (reg_text r.rs)
r_text mn FunctCode.jr r = mn ++ (b' ' ∷ reg_text r.rs)
r_text mn FunctCode.jalr r = operands2 mn (reg_text r.rd) (reg_text r.rs)
r_text mn _ r = operands3 mn (reg_text r.rd) (reg_text r.rs) (reg_text r.rt)

abbrev pub mem_operands : Text → IFields → Text
mem_operands mn i =
    operands2 mn (reg_text i.rt)
      (signed_text (sign_extend i.imm) ++ (b'(' ∷ (reg_text i.rs ++ b')' ∷ [])))

-- The switch on the opcode of an I-format word.
unfoldable pub i_text : Text → Opcode → IFields → Text
unfolding reg_text sign_extend
i_text mn Opcode.lw i = mem_operands mn i
i_text mn Opcode.lbu i = mem_operands mn i
i_text mn Opcode.lhu i = mem_operands mn i
i_text mn Opcode.sw i = mem_operands mn i
i_text mn Opcode.lui i =
    operands2 mn (reg_text i.rt) (b'0' ∷ b'x' ∷ zero_filled 4 (to_upper_hex i.imm))
i_text mn Opcode.beq i =
    operands3 mn (reg_text i.rs) (reg_text i.rt) (plus_text (sign_extend i.imm))
i_text mn Opcode.bne i =
    operands3 mn (reg_text i.rs) (reg_text i.rt) (plus_text (sign_extend i.imm))
i_text mn _ i = operands3 mn (reg_text i.rt) (reg_text i.rs) (plus_text (sign_extend i.imm))

abbrev pub jump_address : ℕ → ℕ → ℕ
jump_address pc target = bit_or (bit_and (add32 pc 4) 0xf000_0000) (shl32 target 2)

-- The branches on the format. A field of another format, which `std::get` throws on, is caught.
unfoldable pub format_text : DecodedInstr → ℕ → InstrFormat → Fields → Text
unfolding lower_mnemonic r_text i_text
format_text d pc InstrFormat.r (r_fields r) = r_text (lower_mnemonic d) r.funct r
format_text d pc InstrFormat.i (i_fields i) = i_text (lower_mnemonic d) d.opcode i
format_text d pc InstrFormat.j (j_fields j) =
    lower_mnemonic d
    ++ (b' ' ∷ b'0' ∷ b'x' ∷ zero_filled 8 (to_upper_hex (jump_address pc j.target)))
format_text d pc InstrFormat.unknown _ = lower_mnemonic d ++ codes " ???"
format_text d pc _ _ = codes "???"

unfoldable pub to_text : DecodedInstr → ℕ → Text
unfolding format_text
to_text d pc = format_text d pc d.format d.fields

-- `format_instr`.
unfoldable pub format_instr : ℕ → ℕ → Text
unfolding to_text
format_instr raw pc = elim (decode raw) [ none ↦ codes "(?/?)" | some d ↦ to_text d pc ]
