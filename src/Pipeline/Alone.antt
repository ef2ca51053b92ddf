-- ===== src/Pipeline/Alone.antt =====
-- One instruction alone in the stages of src/mips/pipelined_cpu.cpp, with bubbles before and after it,
-- and what the program can see of it.
pub mod Instructions
use clear_core.Decoder.Laws.{HasFields, IsImplemented, decode-IsDecoded}
use clear_core.DataMemory.{load_data, store_data}
use clear_core.Control.{derive_control}
use clear_core.Pipeline.Units.{forward_operands, wb_val}
use clear_core.Decoder.{
  DecodedInstr, FunctCode, Opcode, InstrFormat, r_fields, implemented_special, format_of, is_funct,
  i_fields, j_fields, sign_extend, Fields, get_r, decode,
}
use clear_core.Memory
use clear_core.Registers
use clear_core.Cp0
use clear_core.Alu
use clear_core.SingleCycle
use clear_core.Memory.{Memory, read_word}
use clear_core.Registers.{RegisterFile}
use clear_core.Cp0.{Cp0}
use clear_core.Processor.{StepResult, Control, no_control, PipelineState}
use clear_core.Pipeline.{resolve, oldest_trap}
use clear_core.Pipeline.Regs.{IfId, IdEx, ExMem, MemWb, no_ex_mem, no_mem_wb, no_if_id}
use clear_core.Pipeline.Stages.{
  ExOutcome, fetch, decode_stage, execute, memory_access, write_back, id_decoded, ex_run, spins,
  IdOutcome,
}
use clear_core.Prelude.{
  not, ◌==◌, Bool-cases, inl, inr, sub32, ◌<◌, ◌^◌, arith, ℕ, refl, Bool, true, false, Option, none,
  some, add32, ◌≡◌, if◌then◌else◌, ◌&&◌, unsigned32, Option-cases, sym, ◌+◌, ◌∙◌,
}

-- What the program can see of an instruction.
pub record Effect : Type 0 where
  pub regs : RegisterFile
  pub mem : Memory
  pub cp0 : Cp0
  pub pc : ℕ
  pub trapped : Bool

abbrev pub is_exception : StepResult → Bool
is_exception StepResult.exception = true
is_exception _ = false

abbrev pub effect_of : SingleCycle.Cpu × StepResult → Effect
effect_of (c, r) = record {
  regs = c.regs;
  mem = c.mem;
  cp0 = c.cp0;
  pc = c.pc;
  trapped = is_exception r;
}

-- The address after an instruction: the target of EX, else that of ID, else the next word.
abbrev pub next_address : Option ℕ → Option ℕ → ℕ → ℕ
next_address (some target) jump pc = target
next_address none (some target) pc = target
next_address none none pc = add32 pc 4

-- MEM, WB and the resolution of traps, for what EX gave.
unfoldable pub settle : RegisterFile → Memory → Cp0 → ℕ → Option ℕ → ExOutcome → Effect
settle regs mem cp0 pc jump ex =
    let (mem', out) = memory_access mem ex.next in
    let res = resolve cp0 false (oldest_trap out.trap ex.trap) ex in
    record {
      regs = (write_back regs no_control out.next).0;
      mem = mem';
      cp0 = res.cp0;
      pc = next_address res.target jump pc;
      trapped = is_exception res.result;
    }

-- EX, MEM and WB on what ID gave, with bubbles before and after it.
unfoldable pub after_id : RegisterFile → Memory → Cp0 → ℕ → IdOutcome → Effect
unfolding settle
after_id regs mem cp0 pc id =
    settle regs mem cp0 pc id.jump (execute cp0 id.next no_ex_mem no_mem_wb)

-- The five stages on the instruction at `pc` alone.
unfoldable pub alone : RegisterFile → Memory → Cp0 → ℕ → Effect
unfolding after_id
alone regs mem cp0 pc = after_id regs mem cp0 pc (decode_stage regs (fetch mem pc))

-- WB's test for register 0 is of no use: the register file ignores such writes.
pub write_guarded :
    (regs : RegisterFile) (i v : ℕ)
    → (if not (i == 0) then Registers.write regs i v else regs) ≡ Registers.write regs i v
unfolding Registers.write
write_guarded regs i v = elim (Bool-cases (i == 0)) [ inl e ↦ rw e refl | inr e ↦ rw e refl ]

pub completes : (b : Bool) → is_exception (if b then StepResult.halt else StepResult.ok) ≡ false
completes true = refl
completes false = refl

-- The address of the instruction, from the next one.
pub sub32-add32 : (pc : ℕ) → pc < 2 ^ 32 → sub32 (add32 pc 4) 4 ≡ pc
sub32-add32 pc h = omega arith

-- What IF hands on of the word at `pc`.
abbrev pub fetched_at : ℕ → ℕ → IfId
fetched_at pc word = record no_if_id {
  valid = true;
  pc = pc;
  pc4 = add32 pc 4;
  instr = word;
  is_halt = spins pc word;
}

-- ID, EX, MEM and WB on a decoded instruction.
unfoldable pub later_stages : SingleCycle.Cpu → DecodedInstr → Effect
unfolding settle
later_stages c d =
    let id = id_decoded c.regs (fetched_at c.pc d.raw) (some d) in
    let next = id.next in
    settle c.regs c.mem c.cp0 c.pc id.jump
      (ex_run c.cp0 next (forward_operands next no_ex_mem no_mem_wb))

-- The two machines agree on a decoded instruction.
pub record Agrees (c : SingleCycle.Cpu) (d : DecodedInstr) : Type 0 where
  pub same :
      (ps : PipelineState)
      → effect_of (
          SingleCycle.finish c.pc (
            SingleCycle.dispatch_as d.format
              (record c { ctrl = derive_control d; ps = ps })
              d
              (add32 c.pc 4)))
        ≡ later_stages c d
