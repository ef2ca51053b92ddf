-- ===== src/Decoder.antt =====
-- include/mips/decoder.h and src/mips/decoder.cpp: a 32-bit word to a decoded instruction.
-- `std::get` throws when a word's format is not the one asked for; the accessors below are then
-- all zero.
mod Codes
pub mod Laws
pub mod Encodable
pub mod Encode
pub mod Names
pub use Codes.{InstrFormat, Opcode, FunctCode, opcode_number, funct_number, is_opcode, is_funct}
unfoldable pub use Codes.{to_opcode, to_funct}
use Prim.Native.String.{String}
use clear_core.Prelude.{
  ℕ, ◌+◌, ◌-◌, ◌*◌, ◌/◌, ◌%◌, ◌^◌, Bool, true, false, not, ◌&&◌, Option, none, some, bit_and, ◌==◌,
  if◌then◌else◌, shr, ℤ, signed16,
}

pub record RFields : Type 0 where
  pub rs : ℕ
  pub rt : ℕ
  pub rd : ℕ
  pub shamt : ℕ
  pub funct : FunctCode

pub record IFields : Type 0 where
  pub rs : ℕ
  pub rt : ℕ
  pub imm : ℕ

pub record JFields : Type 0 where
  pub target : ℕ

-- The `std::variant`.
pub data Fields : Type 0 where
  r_fields : RFields → Fields
  i_fields : IFields → Fields
  j_fields : JFields → Fields

pub record DecodedInstr : Type 0 where
  pub raw : ℕ
  pub opcode : Opcode
  pub format : InstrFormat
  pub fields : Fields

abbrev pub no_r : RFields
no_r = record { rs = 0; rt = 0; rd = 0; shamt = 0; funct = FunctCode.sll }

-- A value-initialised instruction.
abbrev pub no_instr : DecodedInstr
no_instr = record {
  raw = 0;
  opcode = Opcode.special;
  format = InstrFormat.unknown;
  fields = r_fields no_r;
}

abbrev pub get_r : DecodedInstr → RFields
get_r d = elim d.fields [ r_fields f ↦ f | i_fields _ ↦ no_r | j_fields _ ↦ no_r ]

abbrev pub get_i : DecodedInstr → IFields
get_i d =
    let none_i : IFields = record { rs = 0; rt = 0; imm = 0 } in
    elim d.fields [ r_fields _ ↦ none_i | i_fields f ↦ f | j_fields _ ↦ none_i ]

abbrev pub get_j : DecodedInstr → JFields
get_j d =
    let none_j : JFields = record { target = 0 } in
    elim d.fields [ r_fields _ ↦ none_j | i_fields _ ↦ none_j | j_fields f ↦ f ]

-- Bits [hi:lo] of a word.
unfoldable pub bits : ℕ → ℕ → ℕ → ℕ
bits word hi lo = bit_and (shr word lo) (2 ^ (hi - lo + 1) - 1)

unfoldable pub implemented_special : FunctCode → Bool
implemented_special FunctCode.eret = false
implemented_special (FunctCode.unlisted n) = false
implemented_special _ = true

unfoldable pub format_of : Opcode → InstrFormat
format_of Opcode.special = InstrFormat.r
format_of Opcode.cop0 = InstrFormat.r
format_of Opcode.j = InstrFormat.j
format_of Opcode.jal = InstrFormat.j
format_of (Opcode.unlisted n) = InstrFormat.unknown
format_of _ = InstrFormat.i

-- The cases of `decode`'s second switch.
unfoldable pub decode_as : ℕ → Opcode → InstrFormat → Option DecodedInstr
unfolding implemented_special
decode_as instr raw_op InstrFormat.unknown = none
decode_as instr raw_op InstrFormat.r =
    let funct = to_funct (bits instr 5 0) in
    let is_cop0 = is_opcode raw_op Opcode.cop0 in
    if not is_cop0 && not (implemented_special funct)
    then none
    else some (record {
      raw = instr;
      opcode = raw_op;
      format = InstrFormat.r;
      fields = r_fields (record {
        rs = bits instr 25 21;
        rt = bits instr 20 16;
        rd = bits instr 15 11;
        shamt = if is_cop0 then 0 else bits instr 10 6;
        funct = funct;
      });
    })
decode_as instr raw_op InstrFormat.i = some (record {
  raw = instr;
  opcode = raw_op;
  format = InstrFormat.i;
  fields =
      i_fields (record { rs = bits instr 25 21; rt = bits instr 20 16; imm = bits instr 15 0 });
})
decode_as instr raw_op InstrFormat.j = some (record {
  raw = instr;
  opcode = raw_op;
  format = InstrFormat.j;
  fields = j_fields (record { target = bits instr 25 0 });
})

unfoldable pub decode : ℕ → Option DecodedInstr
unfolding decode_as format_of
decode instr =
    let raw_op = to_opcode (bits instr 31 26) in decode_as instr raw_op (format_of raw_op)

-- The switch on `funct` of `mnemonic`.
abbrev pub funct_mnemonic : FunctCode → String
funct_mnemonic FunctCode.add = "ADD"
funct_mnemonic FunctCode.addu = "ADDU"
funct_mnemonic FunctCode.sub = "SUB"
funct_mnemonic FunctCode.subu = "SUBU"
funct_mnemonic FunctCode.and = "AND"
funct_mnemonic FunctCode.or = "OR"
funct_mnemonic FunctCode.xor = "XOR"
funct_mnemonic FunctCode.nor = "NOR"
funct_mnemonic FunctCode.slt = "SLT"
funct_mnemonic FunctCode.sltu = "SLTU"
funct_mnemonic FunctCode.sll = "SLL"
funct_mnemonic FunctCode.srl = "SRL"
funct_mnemonic FunctCode.sra = "SRA"
funct_mnemonic FunctCode.sllv = "SLLV"
funct_mnemonic FunctCode.srlv = "SRLV"
funct_mnemonic FunctCode.jr = "JR"
funct_mnemonic FunctCode.jalr = "JALR"
funct_mnemonic FunctCode.syscall = "SYSCALL"
funct_mnemonic FunctCode.break = "BREAK"
funct_mnemonic _ = "???"

-- The switch on `opcode` of `mnemonic`.
abbrev pub opcode_mnemonic : Opcode → String
opcode_mnemonic Opcode.j = "J"
opcode_mnemonic Opcode.jal = "JAL"
opcode_mnemonic Opcode.beq = "BEQ"
opcode_mnemonic Opcode.bne = "BNE"
opcode_mnemonic Opcode.addi = "ADDI"
opcode_mnemonic Opcode.addiu = "ADDIU"
opcode_mnemonic Opcode.slti = "SLTI"
opcode_mnemonic Opcode.sltiu = "SLTIU"
opcode_mnemonic Opcode.andi = "ANDI"
opcode_mnemonic Opcode.ori = "ORI"
opcode_mnemonic Opcode.xori = "XORI"
opcode_mnemonic Opcode.lui = "LUI"
opcode_mnemonic Opcode.lw = "LW"
opcode_mnemonic Opcode.lbu = "LBU"
opcode_mnemonic Opcode.lhu = "LHU"
opcode_mnemonic Opcode.sw = "SW"
opcode_mnemonic _ = "???"

abbrev pub is_r : InstrFormat → Bool
is_r InstrFormat.r = true
is_r _ = false

unfoldable pub mnemonic : DecodedInstr → String
mnemonic d =
    if is_r d.format
    then funct_mnemonic (get_r d).funct
    else if is_opcode d.opcode Opcode.cop0
    then (if (get_r d).rs == 0x00
        then "MFC0"
        else if (get_r d).rs == 0x04
        then "MTC0"
        else if (get_r d).rs == 0x10 && is_funct (get_r d).funct FunctCode.eret
        then "ERET"
        else "COP0")
    else opcode_mnemonic d.opcode

unfoldable pub sign_extend : ℕ → ℤ
sign_extend imm = signed16 imm
