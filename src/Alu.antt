-- ===== src/Alu.antt =====
-- include/mips/alu.h and src/mips/alu.cpp: the ALU control block and the ALU.
pub mod Laws
use clear_core.Decoder.{DecodedInstr, InstrFormat, Opcode, FunctCode, get_r}
use clear_core.Prelude.{
  ℕ, ◌+◌, ◌-◌, ◌*◌, ◌/◌, ◌%◌, ◌^◌, Bool, true, false, Option, none, some, bit_and, bit_or, bit_xor,
  ltb, ◌==◌, if◌then◌else◌, not32, add32, sub32, shl32, shr, low_bits, signed32, unsigned32, shr_ℤ,
  ltb_ℤ,
}

pub data AluOp : Type 0 where
  add addu sub subu and or xor nor slt sltu sll srl sra lui pass_a : AluOp

pub record AluResult : Type 0 where
  pub value : ℕ
  pub zero_flag : Bool
  pub overflow : Bool
  pub negative : Bool

unfoldable pub r_type_op : FunctCode → Option AluOp
r_type_op FunctCode.add = some AluOp.add
r_type_op FunctCode.addu = some AluOp.addu
r_type_op FunctCode.sub = some AluOp.sub
r_type_op FunctCode.subu = some AluOp.subu
r_type_op FunctCode.and = some AluOp.and
r_type_op FunctCode.or = some AluOp.or
r_type_op FunctCode.xor = some AluOp.xor
r_type_op FunctCode.nor = some AluOp.nor
r_type_op FunctCode.slt = some AluOp.slt
r_type_op FunctCode.sltu = some AluOp.sltu
r_type_op FunctCode.sll = some AluOp.sll
r_type_op FunctCode.sllv = some AluOp.sll
r_type_op FunctCode.srl = some AluOp.srl
r_type_op FunctCode.srlv = some AluOp.srl
r_type_op FunctCode.sra = some AluOp.sra
r_type_op FunctCode.jr = some AluOp.pass_a
r_type_op FunctCode.jalr = some AluOp.pass_a
r_type_op _ = none

unfoldable pub i_type_op : Opcode → Option AluOp
i_type_op Opcode.addi = some AluOp.add
i_type_op Opcode.addiu = some AluOp.addu
i_type_op Opcode.slti = some AluOp.slt
i_type_op Opcode.sltiu = some AluOp.sltu
i_type_op Opcode.andi = some AluOp.and
i_type_op Opcode.ori = some AluOp.or
i_type_op Opcode.xori = some AluOp.xor
i_type_op Opcode.lui = some AluOp.lui
i_type_op Opcode.lw = some AluOp.addu
i_type_op Opcode.lbu = some AluOp.addu
i_type_op Opcode.lhu = some AluOp.addu
i_type_op Opcode.sw = some AluOp.addu
i_type_op Opcode.beq = some AluOp.subu
i_type_op Opcode.bne = some AluOp.subu
i_type_op _ = none

unfoldable pub control : DecodedInstr → Option AluOp
unfolding r_type_op i_type_op
control d = elim d.format [
  | InstrFormat.r ↦ r_type_op (get_r d).funct
  | InstrFormat.i ↦ i_type_op d.opcode
  | InstrFormat.j ↦ none
  | InstrFormat.unknown ↦ none
]

-- `static_cast<bool>` of a number.
abbrev pub to_bool : ℕ → Bool
to_bool n = if n == 0 then false else true

unfoldable pub overflow_add : ℕ → ℕ → ℕ → Bool
overflow_add a b r = to_bool (shr (bit_and (not32 (bit_xor a b)) (bit_xor a r)) 31)

unfoldable pub overflow_sub : ℕ → ℕ → ℕ → Bool
overflow_sub a b r = to_bool (shr (bit_and (bit_xor a b) (bit_xor a r)) 31)

-- The switch of `execute`: the value, and the overflow that only `ADD` and `SUB` compute.
unfoldable pub compute : AluOp → ℕ → ℕ → ℕ → ℕ × Bool
compute AluOp.add a b shamt = let value = add32 a b in (value, overflow_add a b value)
compute AluOp.addu a b shamt = (add32 a b, false)
compute AluOp.sub a b shamt = let value = sub32 a b in (value, overflow_sub a b value)
compute AluOp.subu a b shamt = (sub32 a b, false)
compute AluOp.and a b shamt = (bit_and a b, false)
compute AluOp.or a b shamt = (bit_or a b, false)
compute AluOp.xor a b shamt = (bit_xor a b, false)
compute AluOp.nor a b shamt = (not32 (bit_or a b), false)
compute AluOp.slt a b shamt = (if ltb_ℤ (signed32 a) (signed32 b) then 1 else 0, false)
compute AluOp.sltu a b shamt = (if ltb a b then 1 else 0, false)
compute AluOp.sll a b shamt = (shl32 b (low_bits shamt 5), false)
compute AluOp.srl a b shamt = (shr b (low_bits shamt 5), false)
compute AluOp.sra a b shamt = (unsigned32 (shr_ℤ (signed32 b) (low_bits shamt 5)), false)
compute AluOp.lui a b shamt = (shl32 b 16, false)
compute AluOp.pass_a a b shamt = (a, false)

unfoldable pub execute : AluOp → ℕ → ℕ → ℕ → AluResult
unfolding compute
execute op a b shamt =
    let (value, overflow) = compute op a b shamt in
    record {
      value = value;
      zero_flag = value == 0;
      overflow = overflow;
      negative = to_bool (shr value 31);
    }
