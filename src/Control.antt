-- ===== src/Control.antt =====
-- `derive_control` of src/mips/single_cycle_cpu.cpp: the control word of an instruction.
pub mod Laws
use clear_core.Decoder.{DecodedInstr, InstrFormat, Opcode, FunctCode, get_r, is_opcode}
use clear_core.Processor.{Control, Ext, no_control}
use clear_core.Prelude.{true, if◌then◌else◌}

unfoldable pub r_type_control : Opcode → FunctCode → Control
r_type_control op funct = if is_opcode op Opcode.cop0 then no_control else elim funct [
  | FunctCode.jr ↦ no_control
  | FunctCode.jalr ↦ record no_control { reg_write = true }
  | FunctCode.syscall ↦ no_control
  | FunctCode.break ↦ no_control
  | _ ↦ record no_control { reg_write = true; reg_dst = true }
]

abbrev alu_immediate : Ext → Control
alu_immediate e = record no_control { reg_write = true; alu_src = true; ext = e }

abbrev load : Control
load = record no_control {
  reg_write = true;
  mem_read = true;
  mem_to_reg = true;
  alu_src = true;
  ext = Ext.sign;
}

unfoldable pub i_type_control : Opcode → Control
i_type_control Opcode.addi = alu_immediate Ext.sign
i_type_control Opcode.addiu = alu_immediate Ext.sign
i_type_control Opcode.slti = alu_immediate Ext.sign
i_type_control Opcode.sltiu = alu_immediate Ext.sign
i_type_control Opcode.andi = alu_immediate Ext.zero
i_type_control Opcode.ori = alu_immediate Ext.zero
i_type_control Opcode.xori = alu_immediate Ext.zero
i_type_control Opcode.lui = alu_immediate Ext.zero
i_type_control Opcode.lw = load
i_type_control Opcode.lbu = load
i_type_control Opcode.lhu = load
i_type_control Opcode.sw = record no_control { mem_write = true; alu_src = true; ext = Ext.sign }
i_type_control Opcode.beq = record no_control { branch = true; ext = Ext.sign }
i_type_control Opcode.bne = record no_control { branch = true; ext = Ext.sign }
i_type_control _ = no_control

unfoldable pub derive_control : DecodedInstr → Control
unfolding r_type_control i_type_control
derive_control d = elim d.format [
  | InstrFormat.r ↦ r_type_control d.opcode (get_r d).funct
  | InstrFormat.i ↦ i_type_control d.opcode
  | InstrFormat.j ↦
      if is_opcode d.opcode Opcode.jal
      then record no_control { jump = true; reg_write = true }
      else record no_control { jump = true }
  | InstrFormat.unknown ↦ no_control
]
