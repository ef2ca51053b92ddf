-- ===== src/SingleCycle.antt =====
-- include/mips/single_cycle_cpu.h and src/mips/single_cycle_cpu.cpp: one instruction a step.
-- Logging changes no state and is left out.
pub mod Invariant
pub mod Total
pub mod Reach
pub mod Restart
use clear_core.Memory
use clear_core.Memory.{Memory}
use clear_core.Registers
use clear_core.Registers.{RegisterFile}
use clear_core.Cp0
use clear_core.Cp0.{Cp0, ExceptionCode}
use clear_core.Alu
use clear_core.Alu.{AluResult}
use clear_core.DataMemory.{load_data, store_data}
use clear_core.Decoder.{
  DecodedInstr, InstrFormat, Opcode, FunctCode, IFields, get_r, get_i, get_j, is_opcode, is_funct,
  decode, sign_extend,
}
use clear_core.Control.{derive_control}
use clear_core.Processor.{StepResult, Control, Ext, PipelineState, no_control, no_pipeline_state}
use clear_core.Prelude.{
  ℕ, ◌+◌, ◌-◌, ◌*◌, ◌%◌, ◌^◌, Bool, true, false, not, ◌&&◌, ◌||◌, Option, none, some, List, bit_and,
  bit_or, ◌==◌, if◌then◌else◌, add32, sub32, shl32, low_bits, unsigned32,
}

pub record Cpu : Type 0 where
  pub regs : RegisterFile
  pub mem : Memory
  pub cp0 : Cp0
  pub pc : ℕ
  pub hi : ℕ
  pub lo : ℕ
  pub ctrl : Control
  pub cycle : ℕ
  pub ps : PipelineState

unfoldable pub create : ℕ → Cpu
create mem_bytes = record {
  regs = Registers.fresh;
  mem = Memory.create mem_bytes;
  cp0 = Cp0.fresh;
  pc = 0;
  hi = 0;
  lo = 0;
  ctrl = no_control;
  cycle = 0;
  ps = no_pipeline_state;
}

unfoldable pub raise : Cpu → ExceptionCode → ℕ → ℕ → Cpu × StepResult
raise cpu code faulting_pc bad_addr =
    let (cp0', vector) = Cp0.raise cpu.cp0 code faulting_pc bad_addr in
    (record cpu { cp0 = cp0'; pc = vector }, StepResult.exception)

-- What `exec_rtype` and `exec_itype` leave: the processor, the returned flag, `next_pc` and `exc`.
pub record Executed : Type 0 where
  pub cpu : Cpu
  pub returned : Bool
  pub next_pc : ℕ
  pub exc : StepResult

abbrev pub done : Cpu → ℕ → Executed
done cpu next_pc = record { cpu = cpu; returned = true; next_pc = next_pc; exc = StepResult.ok }

abbrev pub internal_error : Cpu → ℕ → Executed
internal_error cpu next_pc = record {
  cpu = cpu;
  returned = false;
  next_pc = next_pc;
  exc = StepResult.ok;
}

abbrev pub trapped : Cpu × StepResult → ℕ → Executed
trapped (cpu, r) next_pc = record { cpu = cpu; returned = true; next_pc = next_pc; exc = r }

-- `exec_rtype` on COP0 words.
unfoldable pub exec_cop0 : Cpu → DecodedInstr → ℕ → Executed
exec_cop0 cpu d next_pc =
    let r = get_r d in
    if r.rs == 0x00
    then done (record cpu { regs = Registers.write cpu.regs r.rt (Cp0.read cpu.cp0 r.rd) }) next_pc
    else if r.rs == 0x04
    then done (record cpu { cp0 = Cp0.write cpu.cp0 r.rd (Registers.read cpu.regs r.rt) }) next_pc
    else if r.rs == 0x10 && is_funct r.funct FunctCode.eret
    then (let (cp0', target) = Cp0.eret cpu.cp0 in done (record cpu { cp0 = cp0' }) target)
    else done cpu next_pc

-- The end of `exec_rtype`: an operation of the ALU on two registers.
unfoldable pub exec_ralu : Cpu → DecodedInstr → ℕ → ℕ → Executed
exec_ralu cpu d pc4 next_pc = elim (Alu.control d) [
  | none ↦ internal_error cpu next_pc
  | some op ↦
      let r = get_r d in
      let a = Registers.read cpu.regs r.rs in
      let b = Registers.read cpu.regs r.rt in
      let shamt =
        if is_funct r.funct FunctCode.sllv || is_funct r.funct FunctCode.srlv
        then low_bits a 5
        else r.shamt in
      let res = Alu.execute op a b shamt in
      if res.overflow && (is_funct r.funct FunctCode.add || is_funct r.funct FunctCode.sub)
      then trapped (raise cpu ExceptionCode.ov (sub32 pc4 4) 0) next_pc
      else done (record cpu { regs = Registers.write cpu.regs r.rd res.value }) next_pc
]

unfoldable pub exec_rtype : Cpu → DecodedInstr → ℕ → ℕ → Executed
unfolding exec_cop0 exec_ralu
exec_rtype cpu d pc4 next_pc =
    let r = get_r d in
    if is_opcode d.opcode Opcode.cop0
    then exec_cop0 cpu d next_pc
    else if is_funct r.funct FunctCode.syscall
    then trapped (raise cpu ExceptionCode.sys (sub32 pc4 4) 0) next_pc
    else if is_funct r.funct FunctCode.break
    then trapped (raise cpu ExceptionCode.bp (sub32 pc4 4) 0) next_pc
    else if is_funct r.funct FunctCode.jr
    then done cpu (Registers.read cpu.regs r.rs)
    else if is_funct r.funct FunctCode.jalr
    then (let target = Registers.read cpu.regs r.rs in
        done (record cpu { regs = Registers.write cpu.regs r.rd pc4 }) target)
    else exec_ralu cpu d pc4 next_pc

-- The target of a taken branch.
abbrev pub branch_target : ℕ → ℕ → ℕ
branch_target pc4 imm = add32 pc4 (shl32 (unsigned32 (sign_extend imm)) 2)

unfoldable pub exec_branch : Cpu → DecodedInstr → ℕ → ℕ → Executed
exec_branch cpu d pc4 next_pc = elim (Alu.control d) [
  | none ↦ internal_error cpu next_pc
  | some op ↦
      let i = get_i d in
      let res = Alu.execute op (Registers.read cpu.regs i.rs) (Registers.read cpu.regs i.rt) 0 in
      let taken = if is_opcode d.opcode Opcode.beq then res.zero_flag else not res.zero_flag in
      done cpu (if taken then branch_target pc4 i.imm else next_pc)
]

-- The immediate as the control word extends it.
abbrev pub extended : Ext → ℕ → ℕ
extended Ext.sign imm = unsigned32 (sign_extend imm)
extended Ext.zero imm = imm

unfoldable pub exec_load : Cpu → DecodedInstr → ℕ → ℕ → ℕ → Executed
exec_load cpu d addr pc4 next_pc = elim (load_data cpu.mem d.opcode addr) [
  | none ↦ trapped (raise cpu ExceptionCode.ad_el (sub32 pc4 4) addr) next_pc
  | some loaded ↦ done (record cpu { regs = Registers.write cpu.regs (get_i d).rt loaded }) next_pc
]

unfoldable pub exec_store : Cpu → DecodedInstr → ℕ → ℕ → ℕ → ℕ → Executed
exec_store cpu d addr rt_val pc4 next_pc =
    let (mem', stored) = store_data cpu.mem d.opcode addr rt_val in
    let cpu' = record cpu { mem = mem' } in
    if stored
    then done cpu' next_pc
    else trapped (raise cpu' ExceptionCode.ad_es (sub32 pc4 4) addr) next_pc

-- `exec_itype` after the ALU: memory access and write-back.
unfoldable pub exec_imem : Cpu → DecodedInstr → AluResult → ℕ → ℕ → ℕ → Executed
unfolding exec_load exec_store
exec_imem cpu d res rt_val pc4 next_pc =
    if cpu.ctrl.mem_read
    then exec_load cpu d res.value pc4 next_pc
    else if cpu.ctrl.mem_write
    then exec_store cpu d res.value rt_val pc4 next_pc
    else done (record cpu { regs = Registers.write cpu.regs (get_i d).rt res.value }) next_pc

-- What the ALU gives for an instruction with an immediate.
abbrev pub ialu_result : Cpu → DecodedInstr → Alu.AluOp → AluResult
ialu_result cpu d op =
    let i = get_i d in Alu.execute op (Registers.read cpu.regs i.rs) (extended cpu.ctrl.ext i.imm) 0

-- `exec_itype` on all but branches.
unfoldable pub exec_ialu : Cpu → DecodedInstr → ℕ → ℕ → Executed
unfolding exec_imem
exec_ialu cpu d pc4 next_pc = elim (Alu.control d) [
  | none ↦ internal_error cpu next_pc
  | some op ↦
      let i = get_i d in
      let rs_val = Registers.read cpu.regs i.rs in
      let rt_val = Registers.read cpu.regs i.rt in
      let res = Alu.execute op rs_val (extended cpu.ctrl.ext i.imm) 0 in
      if res.overflow && is_opcode d.opcode Opcode.addi
      then trapped (raise cpu ExceptionCode.ov (sub32 pc4 4) 0) next_pc
      else exec_imem cpu d res rt_val pc4 next_pc
]

unfoldable pub exec_itype : Cpu → DecodedInstr → ℕ → ℕ → Executed
unfolding exec_branch exec_ialu
exec_itype cpu d pc4 next_pc =
    if is_opcode d.opcode Opcode.beq || is_opcode d.opcode Opcode.bne
    then exec_branch cpu d pc4 next_pc
    else exec_ialu cpu d pc4 next_pc

abbrev pub ra : ℕ
ra = 31

-- `{ PC[31:28], target, 2'b00 }`.
abbrev pub jump_target : ℕ → ℕ → ℕ
jump_target pc4 target = bit_or (bit_and pc4 0xf000_0000) (shl32 target 2)

-- The switch on the format.
unfoldable pub dispatch_as : InstrFormat → Cpu → DecodedInstr → ℕ → Executed
unfolding exec_rtype exec_itype
dispatch_as InstrFormat.j cpu d pc4 =
    let cpu' =
      if is_opcode d.opcode Opcode.jal
      then record cpu { regs = Registers.write cpu.regs ra pc4 }
      else cpu in
    done cpu' (jump_target pc4 (get_j d).target)
dispatch_as InstrFormat.r cpu d pc4 = exec_rtype cpu d pc4 pc4
dispatch_as InstrFormat.i cpu d pc4 = exec_itype cpu d pc4 pc4
dispatch_as InstrFormat.unknown cpu d pc4 = trapped (raise cpu ExceptionCode.ri cpu.pc 0) pc4

unfoldable pub dispatch : Cpu → DecodedInstr → ℕ → Executed
unfolding dispatch_as
dispatch cpu d pc4 = dispatch_as d.format cpu d pc4

-- The end of `step`: an instruction that completed retires and moves the program counter on.
abbrev pub retire : ℕ → Cpu → ℕ → Cpu × StepResult
retire cur_pc cpu next_pc = (
  record cpu { pc = next_pc; ps = record (cpu.ps) { retired = true } },
  if next_pc == cur_pc then StepResult.halt else StepResult.ok,
)

unfoldable pub conclude : StepResult → ℕ → Cpu → ℕ → Cpu × StepResult
conclude StepResult.exception cur_pc cpu next_pc = (cpu, StepResult.exception)
conclude _ cur_pc cpu next_pc = retire cur_pc cpu next_pc

unfoldable pub finish : ℕ → Executed → Cpu × StepResult
unfolding conclude
finish cur_pc e =
    if not e.returned then (e.cpu, StepResult.fault) else conclude e.exc cur_pc e.cpu e.next_pc

-- The snapshot of a single-cycle machine: its one stage is shown as `EX`.
abbrev pub ex_snapshot : ℕ → ℕ → ℕ → PipelineState
ex_snapshot cur_pc raw cycle = record no_pipeline_state {
  stage_ex = record {
    name = "EX";
    valid = true;
    stalled = false;
    flushed = false;
    pc = cur_pc;
    raw = raw;
  };
  cycle = cycle;
}

-- `step` once the word is fetched and decoded.
unfoldable pub step_decoded : Cpu → ℕ → DecodedInstr → Cpu × StepResult
unfolding dispatch finish
step_decoded cpu fetched d =
    let cpu' = record cpu { ctrl = derive_control d; ps = ex_snapshot cpu.pc fetched cpu.cycle } in
    finish cpu.pc (dispatch cpu' d (add32 cpu.pc 4))

-- `step` once the word is fetched.
unfoldable pub step_fetched : Cpu → ℕ → Cpu × StepResult
unfolding step_decoded
step_fetched cpu fetched = elim (decode fetched) [
  | none ↦ raise cpu ExceptionCode.ri cpu.pc 0
  | some d ↦ step_decoded cpu fetched d
]

unfoldable pub step : Cpu → Cpu × StepResult
unfolding step_fetched
step before =
    let cpu = record before { cycle = before.cycle + 1 } in
    elim (Memory.read_word cpu.mem cpu.pc) [
      | none ↦ raise cpu ExceptionCode.ad_el cpu.pc cpu.pc
      | some fetched ↦ step_fetched cpu fetched
    ]

-- `none` is a violation of the alignment that `load_words` expects.
unfoldable pub load_program : Cpu → List ℕ → ℕ → Option (Cpu × Bool)
load_program cpu words addr = elim (Memory.load_words cpu.mem addr words) [
  | none ↦ none
  | some (mem', loaded) ↦
      some
        (if loaded then record cpu { mem = mem'; pc = addr } else record cpu { mem = mem' }, loaded)
]

unfoldable pub reset : Cpu → Bool → Cpu
reset cpu clear_memory = record {
  regs = Registers.reset cpu.regs;
  mem = if clear_memory then Memory.reset cpu.mem else cpu.mem;
  cp0 = Cp0.reset cpu.cp0;
  pc = 0;
  hi = 0;
  lo = 0;
  ctrl = no_control;
  cycle = 0;
  ps = no_pipeline_state;
}
