-- ===== src/Decoder/Codes.antt =====
-- include/mips/decoder.h: the instruction formats and the two enumerations of codes. An enumeration
-- over `uint8_t` may hold a value that it does not list (`unlisted`).
use clear_core.Prelude.{ℕ, Bool, ◌==◌, if◌then◌else◌}

pub data InstrFormat : Type 0 where
  r i j unknown : InstrFormat

pub data Opcode : Type 0 where
  special j jal beq bne addi addiu slti sltiu andi ori xori lui cop0 lw lbu lhu sw : Opcode
  unlisted : ℕ → Opcode

pub data FunctCode : Type 0 where
  sll srl sra sllv srlv jr jalr syscall break add addu sub subu and or xor nor : FunctCode
  slt sltu eret : FunctCode
  unlisted : ℕ → FunctCode

-- `static_cast<Opcode>`.
unfoldable pub to_opcode : ℕ → Opcode
to_opcode n =
    if n == 0x00
    then Opcode.special
    else if n == 0x02
    then Opcode.j
    else if n == 0x03
    then Opcode.jal
    else if n == 0x04
    then Opcode.beq
    else if n == 0x05
    then Opcode.bne
    else if n == 0x08
    then Opcode.addi
    else if n == 0x09
    then Opcode.addiu
    else if n == 0x0a
    then Opcode.slti
    else if n == 0x0b
    then Opcode.sltiu
    else if n == 0x0c
    then Opcode.andi
    else if n == 0x0d
    then Opcode.ori
    else if n == 0x0e
    then Opcode.xori
    else if n == 0x0f
    then Opcode.lui
    else if n == 0x10
    then Opcode.cop0
    else if n == 0x23
    then Opcode.lw
    else if n == 0x24
    then Opcode.lbu
    else if n == 0x25
    then Opcode.lhu
    else if n == 0x2b
    then Opcode.sw
    else Opcode.unlisted n

-- `static_cast<FunctCode>`.
unfoldable pub to_funct : ℕ → FunctCode
to_funct n =
    if n == 0x00
    then FunctCode.sll
    else if n == 0x02
    then FunctCode.srl
    else if n == 0x03
    then FunctCode.sra
    else if n == 0x04
    then FunctCode.sllv
    else if n == 0x06
    then FunctCode.srlv
    else if n == 0x08
    then FunctCode.jr
    else if n == 0x09
    then FunctCode.jalr
    else if n == 0x0c
    then FunctCode.syscall
    else if n == 0x0d
    then FunctCode.break
    else if n == 0x18
    then FunctCode.eret
    else if n == 0x20
    then FunctCode.add
    else if n == 0x21
    then FunctCode.addu
    else if n == 0x22
    then FunctCode.sub
    else if n == 0x23
    then FunctCode.subu
    else if n == 0x24
    then FunctCode.and
    else if n == 0x25
    then FunctCode.or
    else if n == 0x26
    then FunctCode.xor
    else if n == 0x27
    then FunctCode.nor
    else if n == 0x2a
    then FunctCode.slt
    else if n == 0x2b
    then FunctCode.sltu
    else FunctCode.unlisted n

-- The number that an enumerator is.
abbrev pub opcode_number : Opcode → ℕ
opcode_number Opcode.special = 0x00
opcode_number Opcode.j = 0x02
opcode_number Opcode.jal = 0x03
opcode_number Opcode.beq = 0x04
opcode_number Opcode.bne = 0x05
opcode_number Opcode.addi = 0x08
opcode_number Opcode.addiu = 0x09
opcode_number Opcode.slti = 0x0a
opcode_number Opcode.sltiu = 0x0b
opcode_number Opcode.andi = 0x0c
opcode_number Opcode.ori = 0x0d
opcode_number Opcode.xori = 0x0e
opcode_number Opcode.lui = 0x0f
opcode_number Opcode.cop0 = 0x10
opcode_number Opcode.lw = 0x23
opcode_number Opcode.lbu = 0x24
opcode_number Opcode.lhu = 0x25
opcode_number Opcode.sw = 0x2b
opcode_number (Opcode.unlisted n) = n

abbrev pub funct_number : FunctCode → ℕ
funct_number FunctCode.sll = 0x00
funct_number FunctCode.srl = 0x02
funct_number FunctCode.sra = 0x03
funct_number FunctCode.sllv = 0x04
funct_number FunctCode.srlv = 0x06
funct_number FunctCode.jr = 0x08
funct_number FunctCode.jalr = 0x09
funct_number FunctCode.syscall = 0x0c
funct_number FunctCode.break = 0x0d
funct_number FunctCode.eret = 0x18
funct_number FunctCode.add = 0x20
funct_number FunctCode.addu = 0x21
funct_number FunctCode.sub = 0x22
funct_number FunctCode.subu = 0x23
funct_number FunctCode.and = 0x24
funct_number FunctCode.or = 0x25
funct_number FunctCode.xor = 0x26
funct_number FunctCode.nor = 0x27
funct_number FunctCode.slt = 0x2a
funct_number FunctCode.sltu = 0x2b
funct_number (FunctCode.unlisted n) = n

-- `==` on the enumerations.
abbrev pub is_opcode : Opcode → Opcode → Bool
is_opcode a b = opcode_number a == opcode_number b

abbrev pub is_funct : FunctCode → FunctCode → Bool
is_funct a b = funct_number a == funct_number b
