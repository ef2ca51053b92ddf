-- ===== src/Processor.antt =====
-- include/isa/processor.h and the control word of include/mips/processor.h: what every backend
-- shows to the front ends, and the default loop over `step`.
pub mod Run
pub mod Backend
use Prim.Native.String.{String}
use clear_core.Prelude.{ℕ, Bool, false}

pub data StepResult : Type 0 where
  ok exception fault halt : StepResult

pub record StageSnapshot : Type 0 where
  pub name : String
  pub valid : Bool
  pub stalled : Bool
  pub flushed : Bool
  pub pc : ℕ
  pub raw : ℕ

abbrev pub no_snapshot : StageSnapshot
no_snapshot = record { name = ""; valid = false; stalled = false; flushed = false; pc = 0; raw = 0 }

-- The array of five stages, a field for each index.
pub record PipelineState : Type 0 where
  pub stage_if : StageSnapshot
  pub stage_id : StageSnapshot
  pub stage_ex : StageSnapshot
  pub stage_mem : StageSnapshot
  pub stage_wb : StageSnapshot
  pub fwd_ex_to_ex_a : Bool
  pub fwd_ex_to_ex_b : Bool
  pub fwd_mem_to_ex_a : Bool
  pub fwd_mem_to_ex_b : Bool
  pub load_stall : Bool
  pub branch_flush : Bool
  pub retired : Bool
  pub cycle : ℕ

abbrev pub no_pipeline_state : PipelineState
no_pipeline_state = record {
  stage_if = no_snapshot;
  stage_id = no_snapshot;
  stage_ex = no_snapshot;
  stage_mem = no_snapshot;
  stage_wb = no_snapshot;
  fwd_ex_to_ex_a = false;
  fwd_ex_to_ex_b = false;
  fwd_mem_to_ex_a = false;
  fwd_mem_to_ex_b = false;
  load_stall = false;
  branch_flush = false;
  retired = false;
  cycle = 0;
}

pub data Ext : Type 0 where
  sign zero : Ext

pub record Control : Type 0 where
  pub reg_write : Bool
  pub mem_read : Bool
  pub mem_write : Bool
  pub mem_to_reg : Bool
  pub alu_src : Bool
  pub reg_dst : Bool
  pub branch : Bool
  pub jump : Bool
  pub ext : Ext

abbrev pub no_control : Control
no_control = record {
  reg_write = false;
  mem_read = false;
  mem_write = false;
  mem_to_reg = false;
  alu_src = false;
  reg_dst = false;
  branch = false;
  jump = false;
  ext = Ext.sign;
}

-- The default `run` of a backend whose state is `S`.
module _ {S : Type 0} (step : S → S × StepResult) where
  unfoldable pub run : ℕ → S → S × StepResult
  run ℕ.zero s = (s, StepResult.ok)
  run (ℕ.suc left) s =
      let (s', r) = step s in
      let rest = run left s' in
      elim r [
        | StepResult.ok ↦ rest
        | StepResult.exception ↦ (s', StepResult.exception)
        | StepResult.fault ↦ (s', StepResult.fault)
        | StepResult.halt ↦ (s', StepResult.halt)
      ]
