-- ===== src/Pipeline/Stages.antt =====
-- src/mips/pipelined_cpu.cpp: the five stages. EX, ID and IF change no state and return an outcome.
use clear_core.Memory
use clear_core.Registers
use clear_core.Registers.{RegisterFile}
use clear_core.Memory.{Memory}
use clear_core.Cp0
use clear_core.Cp0.{Cp0, ExceptionCode}
use clear_core.Alu
use clear_core.Alu.{AluOp, AluResult}
use clear_core.Control.{derive_control}
use clear_core.DataMemory.{load_data, store_data}
use clear_core.Decoder.{
  DecodedInstr, InstrFormat, Opcode, FunctCode, get_r, get_i, get_j, is_opcode, is_funct, is_r,
  decode, to_opcode, no_instr,
}
use clear_core.Processor.{Control}
use clear_core.Pipeline.Regs.{
  IfId, IdEx, ExMem, MemWb, no_if_id, no_id_ex, no_ex_mem, no_mem_wb, no_alu,
}
use clear_core.Pipeline.Units.{ForwardingPaths, ExOperands, no_paths, forward_operands, wb_val}
use clear_core.SingleCycle.{extended, branch_target, jump_target}
use clear_core.Prelude.{
  ℕ, Bool, true, false, not, ◌&&◌, ◌||◌, Option, none, some, ◌==◌, if◌then◌else◌, add32, shr,
  low_bits,
}

pub record Trap : Type 0 where
  pub code : ExceptionCode
  pub pc : ℕ
  pub bad_addr : ℕ

pub record MemOutcome : Type 0 where
  pub next : MemWb
  pub trap : Option Trap

pub record Mtc0Write : Type 0 where
  pub reg : ℕ
  pub value : ℕ

pub record ExOutcome : Type 0 where
  pub next : ExMem
  pub trap : Option Trap
  pub redirect : Option ℕ
  pub eret : Bool
  pub mtc0 : Option Mtc0Write
  pub forwarded : ForwardingPaths

pub record IdOutcome : Type 0 where
  pub next : IdEx
  pub jump : Option ℕ

abbrev pub no_ex : ExOutcome
no_ex = record {
  next = no_ex_mem;
  trap = none;
  redirect = none;
  eret = false;
  mtc0 = none;
  forwarded = no_paths;
}

abbrev pub no_id : IdOutcome
no_id = record { next = no_id_ex; jump = none }

-- WB: the register file after the stage, the control word it commits, and whether a halt retired.
unfoldable pub write_back : RegisterFile → Control → MemWb → RegisterFile × Control × Bool
write_back regs ctrl in_wb = if not in_wb.valid then (regs, ctrl, false) else (
  if in_wb.ctrl.reg_write && not (in_wb.write_reg == 0)
      then Registers.write regs in_wb.write_reg (wb_val in_wb)
      else regs,
  in_wb.ctrl,
  in_wb.is_halt,
)

-- What MEM passes on of an instruction that does not trap.
abbrev pub passed_on : ExMem → ℕ → MemWb
passed_on in_mem loaded = record {
  pc = in_mem.pc;
  raw = in_mem.raw;
  ctrl = in_mem.ctrl;
  alu_val = in_mem.alu.value;
  mem_val = loaded;
  write_reg = in_mem.write_reg;
  valid = true;
  is_halt = in_mem.is_halt;
}

abbrev pub mem_trap : ExceptionCode → ExMem → MemOutcome
mem_trap code in_mem = record {
  next = no_mem_wb;
  trap = some (record { code = code; pc = in_mem.pc; bad_addr = in_mem.alu.value });
}

-- The second half of MEM: the store.
unfoldable pub memory_store : Memory → ExMem → ℕ → Memory × MemOutcome
memory_store mem in_mem loaded =
    let passed : MemOutcome = record { next = passed_on in_mem loaded; trap = none } in
    if in_mem.ctrl.mem_write
    then (let (mem', stored) = store_data mem in_mem.opcode in_mem.alu.value in_mem.rt_val in
        (mem', if stored then passed else mem_trap ExceptionCode.ad_es in_mem))
    else (mem, passed)

-- MEM, on the result of its load.
unfoldable pub memory_load : Memory → ExMem → Option ℕ → Memory × MemOutcome
unfolding memory_store
memory_load mem in_mem none = (mem, mem_trap ExceptionCode.ad_el in_mem)
memory_load mem in_mem (some loaded) = memory_store mem in_mem loaded

unfoldable pub memory_access : Memory → ExMem → Memory × MemOutcome
unfolding memory_load
memory_access mem in_mem =
    if not in_mem.valid
    then (mem, record { next = no_mem_wb; trap = none })
    else if in_mem.ctrl.mem_read
    then memory_load mem in_mem (load_data mem in_mem.opcode in_mem.alu.value)
    else memory_store mem in_mem 0

-- The fields of EX/MEM that every instruction fills.
abbrev pub ex_common : IdEx → ExOperands → ExMem
ex_common in_ex ops = record {
  pc = in_ex.pc;
  raw = in_ex.decoded.raw;
  ctrl = in_ex.ctrl;
  alu = no_alu;
  rt_val = ops.b;
  write_reg = 0;
  opcode = in_ex.decoded.opcode;
  valid = true;
  is_halt = in_ex.is_halt;
}

abbrev pub ex_passes : ExOperands → ExMem → ExOutcome
ex_passes ops next = record no_ex { next = next; forwarded = ops.paths }

abbrev pub ex_traps : ExOperands → ExceptionCode → ℕ → ExOutcome
ex_traps ops code pc = record no_ex {
  trap = some (record { code = code; pc = pc; bad_addr = 0 });
  forwarded = ops.paths;
}

abbrev pub with_value : ExMem → ℕ → ℕ → ExMem
with_value next value write_reg = record next {
  alu = record no_alu { value = value };
  write_reg = write_reg;
}

-- J and JAL in EX.
unfoldable pub ex_jump : IdEx → ExOperands → ExOutcome
ex_jump in_ex ops =
    let next = ex_common in_ex ops in
    ex_passes ops
      (if is_opcode in_ex.decoded.opcode Opcode.jal then with_value next in_ex.pc4 31 else next)

-- BEQ and BNE in EX.
unfoldable pub ex_branch : IdEx → ExOperands → ExOutcome
ex_branch in_ex ops =
    let dec = in_ex.decoded in
    let cmp = Alu.execute AluOp.subu ops.a ops.b 0 in
    let taken = if is_opcode dec.opcode Opcode.beq then cmp.zero_flag else not cmp.zero_flag in
    record (ex_passes ops (ex_common in_ex ops)) {
      redirect = if taken then some (branch_target in_ex.pc4 (get_i dec).imm) else none;
    }

-- JR and JALR in EX.
unfoldable pub ex_register_jump : IdEx → ExOperands → ExOutcome
ex_register_jump in_ex ops =
    let next = ex_common in_ex ops in
    let r = get_r in_ex.decoded in
    record (ex_passes ops
      (if is_funct r.funct FunctCode.jalr then with_value next in_ex.pc4 r.rd else next)) {
        redirect = some ops.a;
      }

-- MFC0, MTC0, ERET and the other coprocessor words in EX.
unfoldable pub ex_cop0 : Cp0 → IdEx → ExOperands → ExOutcome
ex_cop0 cp0 in_ex ops =
    let next = ex_common in_ex ops in
    let r = get_r in_ex.decoded in
    if r.rs == 0x00
    then ex_passes ops (record (with_value next (Cp0.read cp0 r.rd) r.rt) {
      ctrl = record (in_ex.ctrl) { reg_write = true };
    })
    else if r.rs == 0x04
    then record (ex_passes ops next) { mtc0 = some (record { reg = r.rd; value = ops.b }) }
    else if r.rs == 0x10 && is_funct r.funct FunctCode.eret
    then record (ex_passes ops next) { eret = true; redirect = some cp0.epc }
    else ex_passes ops next

abbrev pub is_i : InstrFormat → Bool
is_i InstrFormat.i = true
is_i _ = false

abbrev pub is_j : InstrFormat → Bool
is_j InstrFormat.j = true
is_j _ = false

-- The shift amount and the second operand of the ALU.
abbrev pub ex_shamt : DecodedInstr → ExOperands → ℕ
ex_shamt dec ops =
    if is_r dec.format
    then (if is_funct (get_r dec).funct FunctCode.sllv || is_funct (get_r dec).funct FunctCode.srlv
        then low_bits ops.a 5
        else (get_r dec).shamt)
    else 0

abbrev pub ex_alu_b : IdEx → ExOperands → ℕ
ex_alu_b in_ex ops =
    if in_ex.ctrl.alu_src && is_i in_ex.decoded.format
    then extended in_ex.ctrl.ext (get_i in_ex.decoded).imm
    else ops.b

-- `ADD`, `SUB` and `ADDI`: the operations that trap on overflow.
abbrev pub is_signed_op : DecodedInstr → Bool
is_signed_op dec =
    let funct = if is_r dec.format then (get_r dec).funct else FunctCode.sll in
    (is_funct funct FunctCode.add || is_funct funct FunctCode.sub)
    || is_opcode dec.opcode Opcode.addi

abbrev pub ex_write_reg : IdEx → ℕ
ex_write_reg in_ex =
    let dec = in_ex.decoded in
    if in_ex.ctrl.reg_dst && is_r dec.format
    then (get_r dec).rd
    else if is_i dec.format
    then (get_i dec).rt
    else 0

-- The other instructions in EX: the ALU.
unfoldable pub ex_alu : IdEx → ExOperands → Option AluOp → ExOutcome
ex_alu in_ex ops none = ex_traps ops ExceptionCode.ri in_ex.pc
ex_alu in_ex ops (some op) =
    let res = Alu.execute op ops.a (ex_alu_b in_ex ops) (ex_shamt in_ex.decoded ops) in
    if res.overflow && is_signed_op in_ex.decoded
    then ex_traps ops ExceptionCode.ov in_ex.pc
    else ex_passes ops (record (ex_common in_ex ops) { alu = res; write_reg = ex_write_reg in_ex })

-- EX on an instruction without an early trap.
unfoldable pub ex_run : Cp0 → IdEx → ExOperands → ExOutcome
unfolding ex_jump ex_branch ex_register_jump ex_cop0 ex_alu
ex_run cp0 in_ex ops =
    let dec = in_ex.decoded in
    let funct = (get_r dec).funct in
    let special = is_opcode dec.opcode Opcode.special in
    if is_j dec.format
    then ex_jump in_ex ops
    else if is_i dec.format && (is_opcode dec.opcode Opcode.beq || is_opcode dec.opcode Opcode.bne)
    then ex_branch in_ex ops
    else if special && (is_funct funct FunctCode.jr || is_funct funct FunctCode.jalr)
    then ex_register_jump in_ex ops
    else if special && (is_funct funct FunctCode.syscall || is_funct funct FunctCode.break)
    then ex_traps ops
        (if is_funct funct FunctCode.syscall then ExceptionCode.sys else ExceptionCode.bp) in_ex.pc
    else if is_opcode dec.opcode Opcode.cop0
    then ex_cop0 cp0 in_ex ops
    else ex_alu in_ex ops (Alu.control dec)

-- A trap that IF or ID recorded is raised in EX.
abbrev pub early : IdEx → ExceptionCode → ExOutcome
early in_ex ExceptionCode.ad_el = record no_ex {
  trap = some (record { code = ExceptionCode.ad_el; pc = in_ex.pc; bad_addr = in_ex.pc });
}
early in_ex code = record no_ex {
  trap = some (record { code = code; pc = in_ex.pc; bad_addr = 0 });
}

unfoldable pub execute : Cp0 → IdEx → ExMem → MemWb → ExOutcome
unfolding ex_run
execute cp0 in_ex ex_mem mem_wb = if not in_ex.valid then no_ex else elim in_ex.early_trap [
  | some code ↦ early in_ex code
  | none ↦ ex_run cp0 in_ex (forward_operands in_ex ex_mem mem_wb)
]

-- The two register indices that ID reads.
abbrev pub id_indices : DecodedInstr → ℕ × ℕ
id_indices dec = elim dec.format [
  | InstrFormat.r ↦ ((get_r dec).rs, (get_r dec).rt)
  | InstrFormat.i ↦ ((get_i dec).rs, (get_i dec).rt)
  | _ ↦ (0, 0)
]

abbrev pub id_common : IfId → IdEx
id_common in_id = record no_id_ex { valid = true; pc = in_id.pc; pc4 = in_id.pc4 }

-- ID on the decoded word.
unfoldable pub id_decoded : RegisterFile → IfId → Option DecodedInstr → IdOutcome
id_decoded regs in_id none = record {
  next = record (id_common in_id) {
    early_trap = some ExceptionCode.ri;
    decoded = record no_instr { raw = in_id.instr };
  };
  jump = none;
}
id_decoded regs in_id (some dec) =
    let (rs, rt) = id_indices dec in
    record {
      next = record (id_common in_id) {
        ctrl = derive_control dec;
        decoded = dec;
        rs_val = Registers.read regs rs;
        rt_val = Registers.read regs rt;
        rs = rs;
        rt = rt;
        is_halt = in_id.is_halt;
      };
      jump = if is_j dec.format then some (jump_target in_id.pc4 (get_j dec).target) else none;
    }

unfoldable pub decode_stage : RegisterFile → IfId → IdOutcome
unfolding id_decoded
decode_stage regs in_id =
    if in_id.fetch_fault
    then record {
      next = record (id_common in_id) { early_trap = some ExceptionCode.ad_el };
      jump = none;
    }
    else id_decoded regs in_id (decode in_id.instr)

-- A jump to itself, seen at IF.
unfoldable pub spins : ℕ → ℕ → Bool
spins pc word =
    let raw_op = to_opcode (low_bits (shr word 26) 6) in
    (is_opcode raw_op Opcode.j || is_opcode raw_op Opcode.jal)
    && jump_target (add32 pc 4) (low_bits word 26) == pc

unfoldable pub fetch : Memory → ℕ → IfId
unfolding spins
fetch mem pc =
    let next = record no_if_id { valid = true; pc = pc; pc4 = add32 pc 4 } in
    elim (Memory.read_word mem pc) [
      | none ↦ record next { fetch_fault = true }
      | some word ↦ record next { instr = word; is_halt = spins pc word }
    ]
