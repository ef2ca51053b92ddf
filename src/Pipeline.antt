-- ===== src/Pipeline.antt =====
-- include/mips/pipelined_cpu.h and src/mips/pipelined_cpu.cpp: one clock cycle of the five-stage
-- machine. The stages are in `Stages`, their registers in `Regs`, the hazard and forwarding units in
-- `Units`. Logging changes no state and is left out.
pub mod Regs
pub mod Units
pub mod Stages
pub mod Forwarding
pub mod Precise
pub mod PreciseEx
pub mod Spin
pub mod Destination
pub mod Sources
pub mod Loads
pub mod Alone
pub mod Agreement
pub mod Restart
use clear_core.Memory
use clear_core.Memory.{Memory}
use clear_core.Registers
use clear_core.Registers.{RegisterFile}
use clear_core.Cp0
use clear_core.Cp0.{Cp0, ExceptionCode, exception_number}
use clear_core.Processor.{
  StepResult, StageSnapshot, PipelineState, Control, no_control, no_pipeline_state,
}
use clear_core.Prelude.{
  ℕ, ◌+◌, Bool, true, false, not, ◌&&◌, ◌||◌, Option, none, some, List, ◌==◌, if◌then◌else◌, add32,
}
use Prim.Native.String.{String}
use Regs.{IfId, IdEx, ExMem, MemWb, no_if_id, no_id_ex, no_ex_mem, no_mem_wb}
use Units.{load_use_hazard}
use Stages.{
  Trap, MemOutcome, ExOutcome, IdOutcome, Mtc0Write, no_ex, no_id, write_back, memory_access,
  execute, decode_stage, fetch,
}

pub record Cpu : Type 0 where
  pub regs : RegisterFile
  pub mem : Memory
  pub cp0 : Cp0
  pub pc : ℕ
  pub hi : ℕ
  pub lo : ℕ
  pub ctrl : Control
  pub cycle : ℕ
  pub ps : PipelineState
  pub if_id : IfId
  pub id_ex : IdEx
  pub ex_mem : ExMem
  pub mem_wb : MemWb

unfoldable pub create : ℕ → Cpu
create mem_bytes = record {
  regs = Registers.fresh;
  mem = Memory.create mem_bytes;
  cp0 = Cp0.fresh;
  pc = 0;
  hi = 0;
  lo = 0;
  ctrl = no_control;
  cycle = 0;
  ps = no_pipeline_state;
  if_id = no_if_id;
  id_ex = no_id_ex;
  ex_mem = no_ex_mem;
  mem_wb = no_mem_wb;
}

abbrev pub has_value {ℓ} : {A : Type ℓ} → Option A → Bool
has_value none = false
has_value (some a) = true

-- The oldest trap of the cycle: that of MEM before that of EX.
abbrev pub oldest_trap : Option Trap → Option Trap → Option Trap
oldest_trap none ex_trap = ex_trap
oldest_trap (some t) ex_trap = some t

abbrev pub apply_mtc0 : Cp0 → Option Mtc0Write → Cp0
apply_mtc0 cp0 none = cp0
apply_mtc0 cp0 (some w) = Cp0.write cp0 w.reg w.value

-- What a cycle's traps and redirects decide: the coprocessor after it, the target of a two-stage
-- flush, and the result.
pub record Resolution : Type 0 where
  pub cp0 : Cp0
  pub target : Option ℕ
  pub result : StepResult

unfoldable pub resolve : Cp0 → Bool → Option Trap → ExOutcome → Resolution
resolve cp0 halted none ex =
    let written = apply_mtc0 cp0 ex.mtc0 in
    record {
      cp0 = if ex.eret then (Cp0.eret written).0 else written;
      target = ex.redirect;
      result = if halted then StepResult.halt else StepResult.ok;
    }
resolve cp0 halted (some trap) ex =
    let (cp0', vector) = Cp0.raise cp0 trap.code trap.pc trap.bad_addr in
    record { cp0 = cp0'; target = some vector; result = StepResult.exception }

-- The registers that IF and ID fill, and the program counter.
pub record FrontEnd : Type 0 where
  pub new_if : IfId
  pub new_id : IdEx
  pub next_pc : ℕ

-- The flushes and the stall, in the order of their priority: EX, then ID, then the load-use stall.
unfoldable pub front_end : Option ℕ → Option ℕ → Bool → ℕ → IfId → IfId → IdEx → FrontEnd
front_end (some target) jump stall pc cur_if fetched next_id = record {
  new_if = no_if_id;
  new_id = no_id_ex;
  next_pc = target;
}
front_end none (some target) stall pc cur_if fetched next_id = record {
  new_if = no_if_id;
  new_id = next_id;
  next_pc = target;
}
front_end none none stall pc cur_if fetched next_id =
    if stall
    then record { new_if = cur_if; new_id = no_id_ex; next_pc = pc }
    else record { new_if = fetched; new_id = next_id; next_pc = add32 pc 4 }

abbrev pub snapshot : String → Bool → Bool → Bool → ℕ → ℕ → StageSnapshot
snapshot name valid stalled flushed pc raw = record {
  name = name;
  valid = valid;
  stalled = stalled;
  flushed = flushed;
  pc = pc;
  raw = raw;
}

abbrev pub is_fetch_trap : Option ExceptionCode → Bool
is_fetch_trap none = false
is_fetch_trap (some code) = exception_number code == exception_number ExceptionCode.ad_el

-- The stages of one cycle, oldest first: what each of them read and gave.
pub record Cycle : Type 0 where
  pub regs : RegisterFile
  pub ctrl : Control
  pub halted : Bool
  pub mem : Memory
  pub mem_out : MemOutcome
  pub ex_out : ExOutcome
  pub stall : Bool
  pub id_out : IdOutcome
  pub fetched : IfId

unfoldable pub run_stages : Cpu → Cycle
run_stages c =
    let (regs', ctrl', halted) = write_back c.regs c.ctrl c.mem_wb in
    let (mem', mem_out) = memory_access c.mem c.ex_mem in
    let ex_out =
      if has_value mem_out.trap then no_ex else execute c.cp0 c.id_ex c.ex_mem c.mem_wb in
    let stall = load_use_hazard c.id_ex c.if_id in
    let ex_flushes = has_value mem_out.trap || has_value ex_out.trap || has_value ex_out.redirect in
    record {
      regs = regs';
      ctrl = ctrl';
      halted = halted;
      mem = mem';
      mem_out = mem_out;
      ex_out = ex_out;
      stall = stall;
      id_out =
          if stall || ex_flushes || not c.if_id.valid then no_id else decode_stage regs' c.if_id;
      fetched = if stall || ex_flushes then no_if_id else fetch mem' c.pc;
    }

-- The view that the front ends are given of the cycle.
unfoldable pub observe : Cpu → Cycle → Bool → IfId → ℕ → PipelineState
observe c y flush_from_ex new_if cycle = record {
  stage_if =
      snapshot "IF" (new_if.valid && not new_if.fetch_fault) y.stall
        (flush_from_ex || has_value y.id_out.jump) new_if.pc new_if.instr;
  stage_id =
      snapshot "ID" (c.if_id.valid && not c.if_id.fetch_fault) y.stall flush_from_ex c.if_id.pc
        c.if_id.instr;
  stage_ex =
      snapshot "EX" (c.id_ex.valid && not (is_fetch_trap c.id_ex.early_trap)) false false c.id_ex.pc
        c.id_ex.decoded.raw;
  stage_mem = snapshot "MEM" c.ex_mem.valid false false c.ex_mem.pc c.ex_mem.raw;
  stage_wb = snapshot "WB" c.mem_wb.valid false false c.mem_wb.pc c.mem_wb.raw;
  fwd_ex_to_ex_a = y.ex_out.forwarded.ex_mem_a;
  fwd_ex_to_ex_b = y.ex_out.forwarded.ex_mem_b;
  fwd_mem_to_ex_a = y.ex_out.forwarded.mem_wb_a;
  fwd_mem_to_ex_b = y.ex_out.forwarded.mem_wb_b;
  load_stall = y.stall;
  branch_flush = flush_from_ex;
  retired = c.mem_wb.valid;
  cycle = cycle;
}

-- The end of `step`: the resolution and the commit.
unfoldable pub commit : Cpu → Cycle → Cpu × StepResult
unfolding resolve front_end observe
commit c y =
    let res = resolve c.cp0 y.halted (oldest_trap y.mem_out.trap y.ex_out.trap) y.ex_out in
    let front = front_end res.target y.id_out.jump y.stall c.pc c.if_id y.fetched y.id_out.next in
    (
      record {
        regs = y.regs;
        mem = y.mem;
        cp0 = res.cp0;
        pc = front.next_pc;
        hi = c.hi;
        lo = c.lo;
        ctrl = y.ctrl;
        cycle = c.cycle + 1;
        ps = observe c y (has_value res.target) front.new_if (c.cycle + 1);
        if_id = front.new_if;
        id_ex = front.new_id;
        ex_mem = y.ex_out.next;
        mem_wb = y.mem_out.next;
      },
      res.result,
    )

unfoldable pub step : Cpu → Cpu × StepResult
unfolding run_stages commit
step c = commit c (run_stages c)

-- `none` is a violation of the alignment that `load_words` expects.
unfoldable pub load_program : Cpu → List ℕ → ℕ → Option (Cpu × Bool)
load_program cpu words addr = elim (Memory.load_words cpu.mem addr words) [
  | none ↦ none
  | some (mem', loaded) ↦
      some
        (if loaded then record cpu { mem = mem'; pc = addr } else record cpu { mem = mem' }, loaded)
]

unfoldable pub reset : Cpu → Bool → Cpu
reset cpu clear_memory = record {
  regs = Registers.reset cpu.regs;
  mem = if clear_memory then Memory.reset cpu.mem else cpu.mem;
  cp0 = Cp0.reset cpu.cp0;
  pc = 0;
  hi = 0;
  lo = 0;
  ctrl = no_control;
  cycle = 0;
  ps = no_pipeline_state;
  if_id = no_if_id;
  id_ex = no_id_ex;
  ex_mem = no_ex_mem;
  mem_wb = no_mem_wb;
}
