-- ===== src/Tests/Machines.antt =====
-- The single-cycle and the pipelined machine on concrete states.
use clear_core.Alu.{r_type_op}
use clear_core.Prelude.{ℕ, refl, arith, ◌≡◌, ◌≢◌, ◌∷◌, [], List, true, false, if◌then◌else◌, ◌==◌}
use clear_core.Memory
use clear_core.Registers
use clear_core.Alu
use clear_core.Cp0
use clear_core.Cp0.{ExceptionCode}
use clear_core.Decoder
use clear_core.Decoder.{
  DecodedInstr, Opcode, FunctCode, InstrFormat, decode, i_fields, j_fields, to_opcode, to_funct,
  bits, format_of, implemented_special,
}
use clear_core.Processor.{StepResult, Control, no_control, run}
use clear_core.Control.{derive_control, r_type_control}
use clear_core.SingleCycle
use clear_core.SingleCycle.Total.{step-ne-fault}
use clear_core.Pipeline
use clear_core.Pipeline.Destination.{written_by, holding, ex_run-destination}
use clear_core.Pipeline.Sources.{IsSame, operands_of, ex_run-source}
use clear_core.Pipeline.Units.{ExOperands, no_paths, destination_register}
use clear_core.Pipeline.Stages.{ex_run, memory_store}
use clear_core.Decoder.{r_fields}
use clear_core.Pipeline.Alone.{alone, effect_of}
use clear_core.Pipeline.Agreement.{alone-step}
use clear_core.Pipeline.Regs.{
  IdEx, ExMem, MemWb, no_if_id, no_id_ex, no_ex_mem, no_mem_wb, no_alu, IfId,
}
use clear_core.DataMemory.{load_data}
use clear_core.Pipeline.Units.{forward_operands, load_use_hazard, is_index, source_registers}
use clear_core.Pipeline.Stages.{Trap, write_back, memory_access, fetch, decode_stage, execute}
use clear_core.Pipeline.Forwarding.{filled, handed, forward_operands-refines}
use clear_core.Pipeline.Precise.{IsPrecise, step-IsPrecise, stall_once}
use clear_core.Pipeline.PreciseEx.{IsPreciseEx, step-IsPreciseEx}
use clear_core.Pipeline.Spin.{fetch-is_halt}

abbrev writes : Control
writes = record no_control { reg_write = true }

-- An ALU instruction in MEM that writes 5 to register 8, an older one in WB that writes 7 to register
-- 9, and an instruction in EX that reads both.
abbrev in_mem : ExMem
in_mem = record no_ex_mem {
  ctrl = writes;
  alu = record no_alu { value = 5 };
  write_reg = 8;
  valid = true;
}

abbrev in_wb : MemWb
in_wb = record no_mem_wb { ctrl = writes; alu_val = 7; write_reg = 9; valid = true }

abbrev in_ex : IdEx
in_ex = record no_id_ex { rs = 8; rt = 9; valid = true }

abbrev small_memory : Memory.Memory
small_memory = record { size = 16; bytes = λ _. 0 }

forward_test :
    ((forward_operands in_ex in_mem in_wb).a ≡ 5) × ((forward_operands in_ex in_mem in_wb).b ≡ 7)
unfolding forward_operands
forward_test = (refl, refl)

-- add $t0, $t1, $t2 in EX, and add $t2, $t0, $t1 in ID.
abbrev first_word : IfId
first_word = record no_if_id { instr = 0x012a_4020; valid = true }

abbrev second_word : IfId
second_word = record no_if_id { instr = 0x0109_5020; valid = true }

abbrev second_decoded : DecodedInstr
second_decoded = record {
  raw = 0x0109_5020;
  opcode = Opcode.special;
  format = InstrFormat.r;
  fields = r_fields (record { rs = 8; rt = 9; rd = 10; shamt = 0; funct = FunctCode.add });
}

abbrev first_handed : ExMem
first_handed = handed Cp0.fresh (filled Registers.fresh first_word) in_mem in_wb

forward_operands-refines_example :
    let older =
      (write_back
        (write_back Registers.fresh no_control in_wb).0
        writes
        (memory_access small_memory first_handed).1.next).0 in
    ((forward_operands (filled Registers.fresh second_word) first_handed in_wb).a
      ≡ Registers.read older 8)
    × ((forward_operands (filled Registers.fresh second_word) first_handed in_wb).b
        ≡ Registers.read older 9)
unfolding memory_access decode decode_stage execute load_use_hazard source_registers to_opcode bits
    to_funct ex_run derive_control Alu.control Alu.execute Registers.fresh Registers.read
    forward_operands Alu.overflow_add Alu.compute format_of implemented_special Decoder.decode_as
    r_type_op r_type_control write_back memory_store
forward_operands-refines_example =
    forward_operands-refines Cp0.fresh Registers.fresh Registers.fresh no_control writes
      small_memory second_word first_word in_mem in_wb in_wb {d = second_decoded} refl refl refl
      (omega arith) refl refl

-- A load from address 2 in MEM, which is not aligned.
abbrev bad_load : ExMem
bad_load = record no_ex_mem {
  pc = 0x40;
  ctrl = record no_control { mem_read = true; mem_to_reg = true; reg_write = true };
  alu = record no_alu { value = 2 };
  write_reg = 8;
  opcode = Opcode.lw;
  valid = true;
}

abbrev trapping : Pipeline.Cpu
trapping = record (Pipeline.create 16) { ex_mem = bad_load; pc = 0x4c }

abbrev load_trap : Trap
load_trap = record { code = ExceptionCode.ad_el; pc = 0x40; bad_addr = 2 }

step-IsPrecise_example : IsPrecise trapping (Pipeline.step trapping).0 (Pipeline.step trapping).1
unfolding memory_access load_data Memory.read_word
step-IsPrecise_example = step-IsPrecise trapping load_trap refl

abbrev syscall_decoded : DecodedInstr
syscall_decoded = record {
  raw = 12;
  opcode = Opcode.special;
  format = InstrFormat.r;
  fields = r_fields (record { rs = 0; rt = 0; rd = 0; shamt = 0; funct = FunctCode.syscall });
}

-- SYSCALL in EX at 0x44, behind a load in MEM that reads address 4.
abbrev calling : Pipeline.Cpu
calling = record (Pipeline.create 16) {
  ex_mem = record bad_load { alu = record no_alu { value = 4 } };
  id_ex = record no_id_ex { pc = 0x44; decoded = syscall_decoded; valid = true };
  pc = 0x4c;
}

abbrev call_trap : Trap
call_trap = record { code = ExceptionCode.sys; pc = 0x44; bad_addr = 0 }

step-IsPreciseEx_example : IsPreciseEx calling (Pipeline.step calling).0 (Pipeline.step calling).1
unfolding memory_access load_data Memory.read_word execute ex_run Pipeline.create Memory.create
step-IsPreciseEx_example = step-IsPreciseEx calling call_trap refl refl

-- lw $t1, 0($zero) in EX, and add $t0, $t1, $t2 in ID.
abbrev load_use : Pipeline.Cpu
load_use = record (Pipeline.create 16) {
  id_ex = record no_id_ex {
    ctrl = record no_control { mem_read = true; reg_write = true };
    rt = 9;
    valid = true;
  };
  if_id = record no_if_id { instr = 0x012a_4020; valid = true };
}

stall_once_example :
    load_use_hazard (Pipeline.step load_use).0.id_ex (Pipeline.step load_use).0.if_id ≡ false
unfolding load_use_hazard decode to_opcode bits to_funct source_registers
stall_once_example = stall_once load_use refl

-- j 0, at address 0.
abbrev spin_memory : Memory.Memory
spin_memory = record { size = 4; bytes = Memory.put (λ _. 0) 3 8 }

abbrev spin_decoded : DecodedInstr
spin_decoded = record {
  raw = 0x0800_0000;
  opcode = Opcode.j;
  format = InstrFormat.j;
  fields = j_fields (record { target = 0 });
}

fetch-is_halt_example :
    (fetch spin_memory 0).is_halt
    ≡ is_index 0 (decode_stage Registers.fresh (fetch spin_memory 0)).jump
unfolding Memory.read_word decode to_opcode bits
fetch-is_halt_example =
    fetch-is_halt Registers.fresh spin_memory 0 0x0800_0000 {d = spin_decoded} refl refl

step-ne-fault_example : (SingleCycle.step (SingleCycle.create 16)).1 ≢ StepResult.fault
step-ne-fault_example = step-ne-fault (SingleCycle.create 16)

-- addi $t0, $zero, 5; j 4
abbrev program : List ℕ
program = 0x2008_0005 ∷ 0x0800_0001 ∷ []

abbrev loaded : SingleCycle.Cpu
loaded = record (SingleCycle.create 16) {
  mem = Memory.load_loop (Memory.create 16) 0 0 program;
  pc = 0;
}

alone-step_example :
    alone loaded.regs loaded.mem loaded.cp0 loaded.pc ≡ effect_of (SingleCycle.step loaded)
alone-step_example = alone-step loaded (omega arith)

-- sll $t0, $t2, 3 reads no first operand.
abbrev shift_decoded : DecodedInstr
shift_decoded = record {
  raw = 0x000a_40c0;
  opcode = Opcode.special;
  format = InstrFormat.r;
  fields = r_fields (record { rs = 0; rt = 10; rd = 8; shamt = 3; funct = FunctCode.sll });
}

abbrev operands : ℕ → ℕ → ExOperands
operands a b = record { a = a; b = b; paths = no_paths }

ex_run-destination_example :
    written_by (ex_run Cp0.fresh (holding in_ex shift_decoded) (operands 1 2)).next
    ≡ destination_register shift_decoded
unfolding decode to_opcode bits to_funct ex_run Alu.control Alu.execute derive_control
ex_run-destination_example =
    ex_run-destination Cp0.fresh in_ex (operands 1 2) 0x000a_40c0 {d = shift_decoded} refl refl

-- The contents differ in every register but $t2, which the shift reads.
abbrev other_registers : ℕ → ℕ
other_registers r = if r == 10 then 2 else 9

ex_run-source_example :
    IsSame
      (ex_run Cp0.fresh (holding in_ex shift_decoded) (operands_of shift_decoded (λ r. 2) no_paths))
      (ex_run Cp0.fresh
        (holding in_ex shift_decoded)
        (operands_of shift_decoded other_registers no_paths))
unfolding decode to_opcode bits to_funct source_registers
ex_run-source_example =
    ex_run-source Cp0.fresh in_ex (λ r. 2) other_registers no_paths no_paths 0x000a_40c0
      {d = shift_decoded} refl tt refl

-- What both machines make of the program: they halt with 5 in `$t0`.
single_cycle_runs :
    ((run SingleCycle.step 9 loaded).1 ≡ StepResult.halt)
    × (Registers.read (run SingleCycle.step 9 loaded).0.regs 8 ≡ 5)
    × ((run SingleCycle.step 9 loaded).0.pc ≡ 4)
unfolding run SingleCycle.step SingleCycle.create Memory.read_word Memory.load_loop
    Memory.write_word Memory.create decode to_opcode bits Alu.control Alu.execute Alu.overflow_add
    Registers.read derive_control Decoder.sign_extend Registers.write
single_cycle_runs = (refl, refl, refl)

abbrev piped : Pipeline.Cpu
piped = record (Pipeline.create 16) {
  mem = Memory.load_loop (Memory.create 16) 0 0 program;
  pc = 0;
}

pipeline_runs :
    ((run Pipeline.step 9 piped).1 ≡ StepResult.halt)
    × (Registers.read (run Pipeline.step 9 piped).0.regs 8 ≡ 5)
unfolding run Pipeline.step memory_access Pipeline.create execute write_back load_use_hazard fetch
    decode_stage forward_operands Memory.read_word Memory.load_loop Memory.write_word Memory.create
    decode to_opcode bits Alu.control Alu.execute Alu.overflow_add Registers.read derive_control
    Decoder.sign_extend Registers.write
pipeline_runs = (refl, refl)
