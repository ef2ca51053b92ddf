-- ===== src/Pipeline/Regs.antt =====
-- include/mips/pipeline_regs.h: the four registers between the stages. An empty register is a
-- bubble.
use clear_core.Alu.{AluResult}
use clear_core.Cp0.{ExceptionCode}
use clear_core.Decoder.{DecodedInstr, Opcode, no_instr}
use clear_core.Processor.{Control, no_control}
use clear_core.Prelude.{ℕ, Bool, false, Option, none}

pub record IfId : Type 0 where
  pub pc : ℕ
  pub pc4 : ℕ
  pub instr : ℕ
  pub valid : Bool
  pub is_halt : Bool
  pub fetch_fault : Bool

pub record IdEx : Type 0 where
  pub pc : ℕ
  pub pc4 : ℕ
  pub ctrl : Control
  pub decoded : DecodedInstr
  pub rs_val : ℕ
  pub rt_val : ℕ
  pub rs : ℕ
  pub rt : ℕ
  pub valid : Bool
  pub is_halt : Bool
  pub early_trap : Option ExceptionCode

pub record ExMem : Type 0 where
  pub pc : ℕ
  pub raw : ℕ
  pub ctrl : Control
  pub alu : AluResult
  pub rt_val : ℕ
  pub write_reg : ℕ
  pub opcode : Opcode
  pub valid : Bool
  pub is_halt : Bool

pub record MemWb : Type 0 where
  pub pc : ℕ
  pub raw : ℕ
  pub ctrl : Control
  pub alu_val : ℕ
  pub mem_val : ℕ
  pub write_reg : ℕ
  pub valid : Bool
  pub is_halt : Bool

abbrev pub no_if_id : IfId
no_if_id = record {
  pc = 0;
  pc4 = 0;
  instr = 0;
  valid = false;
  is_halt = false;
  fetch_fault = false;
}

abbrev pub no_id_ex : IdEx
no_id_ex = record {
  pc = 0;
  pc4 = 0;
  ctrl = no_control;
  decoded = no_instr;
  rs_val = 0;
  rt_val = 0;
  rs = 0;
  rt = 0;
  valid = false;
  is_halt = false;
  early_trap = none;
}

abbrev pub no_alu : AluResult
no_alu = record { value = 0; zero_flag = false; overflow = false; negative = false }

abbrev pub no_ex_mem : ExMem
no_ex_mem = record {
  pc = 0;
  raw = 0;
  ctrl = no_control;
  alu = no_alu;
  rt_val = 0;
  write_reg = 0;
  opcode = Opcode.special;
  valid = false;
  is_halt = false;
}

abbrev pub no_mem_wb : MemWb
no_mem_wb = record {
  pc = 0;
  raw = 0;
  ctrl = no_control;
  alu_val = 0;
  mem_val = 0;
  write_reg = 0;
  valid = false;
  is_halt = false;
}
