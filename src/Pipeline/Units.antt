-- ===== src/Pipeline/Units.antt =====
-- include/mips/pipeline_units.h and src/mips/pipeline_units.cpp: the hazard-detection and the
-- forwarding unit, as functions of the pipeline registers. A register index of -1 is `none`.
use clear_core.Control.{derive_control}
use clear_core.Decoder.{
  DecodedInstr, InstrFormat, Opcode, FunctCode, get_r, get_i, is_opcode, is_r, decode,
}
use clear_core.Pipeline.Regs.{IfId, IdEx, ExMem, MemWb}
use clear_core.Prelude.{ℕ, Bool, false, not, ◌&&◌, ◌||◌, Option, none, some, ◌==◌, if◌then◌else◌}

pub record SourceRegisters : Type 0 where
  pub a : Option ℕ
  pub b : Option ℕ

-- The switch on funct for R-format words.
abbrev pub r_sources : FunctCode → ℕ → ℕ → SourceRegisters
r_sources FunctCode.sll rs rt = record { a = none; b = some rt }
r_sources FunctCode.srl rs rt = record { a = none; b = some rt }
r_sources FunctCode.sra rs rt = record { a = none; b = some rt }
r_sources FunctCode.jr rs rt = record { a = some rs; b = none }
r_sources FunctCode.jalr rs rt = record { a = some rs; b = none }
r_sources _ rs rt = record { a = some rs; b = some rt }

-- The switch on the opcode for I-format words.
abbrev pub i_sources : Opcode → ℕ → ℕ → SourceRegisters
i_sources Opcode.lui rs rt = record { a = none; b = none }
i_sources Opcode.sw rs rt = record { a = some rs; b = some rt }
i_sources Opcode.beq rs rt = record { a = some rs; b = some rt }
i_sources Opcode.bne rs rt = record { a = some rs; b = some rt }
i_sources _ rs rt = record { a = some rs; b = none }

abbrev pub format_sources : InstrFormat → DecodedInstr → SourceRegisters
format_sources InstrFormat.r d = r_sources (get_r d).funct (get_r d).rs (get_r d).rt
format_sources InstrFormat.i d = i_sources d.opcode (get_i d).rs (get_i d).rt
format_sources _ d = record { a = none; b = none }

unfoldable pub source_registers : DecodedInstr → SourceRegisters
source_registers d =
    if is_opcode d.opcode Opcode.cop0
    then record { a = none; b = if (get_r d).rs == 0x04 then some (get_r d).rt else none }
    else format_sources d.format d

unfoldable pub destination_register : DecodedInstr → Option ℕ
destination_register d =
    if is_opcode d.opcode Opcode.cop0
    then (if (get_r d).rs == 0x00 then some (get_r d).rt else none)
    else if is_opcode d.opcode Opcode.jal
    then some 31
    else if not (derive_control d).reg_write
    then none
    else some (if is_r d.format then (get_r d).rd else (get_i d).rt)

-- `load_dst == src` for an index that may be -1.
abbrev pub is_index : ℕ → Option ℕ → Bool
is_index n none = false
is_index n (some k) = n == k

-- `load_use_hazard` on the decoded instruction in ID.
abbrev pub reads_index : ℕ → Option DecodedInstr → Bool
reads_index load_dst none = false
reads_index load_dst (some d) =
    let src = source_registers d in
    not (load_dst == 0) && (is_index load_dst src.a || is_index load_dst src.b)

unfoldable pub load_use_hazard : IdEx → IfId → Bool
load_use_hazard in_ex in_id =
    if not in_ex.valid || not in_ex.ctrl.mem_read || not in_id.valid || in_id.fetch_fault
    then false
    else reads_index in_ex.rt (decode in_id.instr)

pub record ForwardingPaths : Type 0 where
  pub ex_mem_a : Bool
  pub ex_mem_b : Bool
  pub mem_wb_a : Bool
  pub mem_wb_b : Bool

abbrev pub no_paths : ForwardingPaths
no_paths = record { ex_mem_a = false; ex_mem_b = false; mem_wb_a = false; mem_wb_b = false }

pub record ExOperands : Type 0 where
  pub a : ℕ
  pub b : ℕ
  pub paths : ForwardingPaths

-- The value that WB writes.
abbrev pub wb_val : MemWb → ℕ
wb_val mem_wb = if mem_wb.ctrl.mem_to_reg then mem_wb.mem_val else mem_wb.alu_val

-- Whether EX/MEM holds a result that can be forwarded, and whether MEM/WB does.
abbrev pub ex_mem_forwards : ExMem → Bool
ex_mem_forwards ex_mem =
    ex_mem.valid && ex_mem.ctrl.reg_write && not ex_mem.ctrl.mem_read && not (ex_mem.write_reg == 0)

abbrev pub mem_wb_forwards : MemWb → Bool
mem_wb_forwards mem_wb = mem_wb.valid && mem_wb.ctrl.reg_write && not (mem_wb.write_reg == 0)

unfoldable pub forward_operands : IdEx → ExMem → MemWb → ExOperands
forward_operands in_ex ex_mem mem_wb =
    let ex_a = ex_mem_forwards ex_mem && ex_mem.write_reg == in_ex.rs in
    let ex_b = ex_mem_forwards ex_mem && ex_mem.write_reg == in_ex.rt in
    let wb_a = mem_wb_forwards mem_wb && mem_wb.write_reg == in_ex.rs && not ex_a in
    let wb_b = mem_wb_forwards mem_wb && mem_wb.write_reg == in_ex.rt && not ex_b in
    record {
      a = if wb_a then wb_val mem_wb else if ex_a then ex_mem.alu.value else in_ex.rs_val;
      b = if wb_b then wb_val mem_wb else if ex_b then ex_mem.alu.value else in_ex.rt_val;
      paths = record { ex_mem_a = ex_a; ex_mem_b = ex_b; mem_wb_a = wb_a; mem_wb_b = wb_b };
    }
