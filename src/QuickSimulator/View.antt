-- ===== src/QuickSimulator/View.antt =====
-- What the Qt Quick front end shows of the registers and of the stages, as
-- src/nsc_quick/quick_simulator.cpp builds it.
use clear_core.Processor.{PipelineState, StageSnapshot}
use clear_core.QuickSimulator.Trace.{hex32, disasm}
use clear_core.Registers.{RegisterFile, register_abi_name}
use clear_core.Text.{Text, codes}
use clear_core.Text.Numbers.{signed_text}
use clear_core.Prelude.{
  ℕ, Bool, false, Option, none, some, [], ◌∷◌, ◌==◌, leb, if◌then◌else◌, signed32,
}

-- `RegisterModel`.
pub record RegisterModel : Type 0 where
  pub values : ℕ → ℕ
  pub last_written : Option ℕ

unfoldable pub reset_all : RegisterModel → RegisterModel
reset_all m = record { values = λ _. 0; last_written = none }

unfoldable pub refresh : RegisterFile → RegisterModel → RegisterModel
refresh r m = record { values = r.raw; last_written = r.last_written }

-- The roles of `data`.
pub data Role : Type 0 where
  number name hex dec changed : Role

-- What a `QVariant` of the model holds.
pub data Variant : Type 0 where
  nothing : Variant
  an_int : ℕ → Variant
  a_string : Text → Variant
  a_bool : Bool → Variant

-- The rows at the index; `none` is an index that is not valid.
unfoldable pub data_at : RegisterModel → Option ℕ → Role → Variant
data_at m none role = nothing
data_at m (some i) role = if leb 32 i then nothing else elim role [
  | number ↦ an_int i
  | name ↦ a_string (b'$' ∷ codes (register_abi_name i))
  | hex ↦ a_string (hex32 (m.values i))
  | dec ↦ a_string (signed_text (signed32 (m.values i)))
  | changed ↦ a_bool (elim m.last_written [ none ↦ false | some r ↦ i == r ])
]

pub record StageView : Type 0 where
  pub name : Text
  pub valid : Bool
  pub stalled : Bool
  pub flushed : Bool
  pub pc : Text
  pub text : Text

pub record Hazards : Type 0 where
  pub fwd_ex_a : Bool
  pub fwd_ex_b : Bool
  pub fwd_mem_a : Bool
  pub fwd_mem_b : Bool
  pub load_stall : Bool
  pub branch_flush : Bool

abbrev pub no_instruction : Text
no_instruction = 0xe2 ∷ 0x80 ∷ 0x94 ∷ []

unfoldable pub view_stage : StageSnapshot → StageView
view_stage s = record {
  name = codes s.name;
  valid = s.valid;
  stalled = s.stalled;
  flushed = s.flushed;
  pc = if s.valid then hex32 s.pc else [];
  text =
      if s.valid
      then disasm s.raw s.pc
      else if s.stalled
      then codes "bubble (stall)"
      else if s.flushed
      then codes "bubble (flush)"
      else no_instruction;
}

unfoldable pub view_hazards : PipelineState → Hazards
view_hazards ps = record {
  fwd_ex_a = ps.fwd_ex_to_ex_a;
  fwd_ex_b = ps.fwd_ex_to_ex_b;
  fwd_mem_a = ps.fwd_mem_to_ex_a;
  fwd_mem_b = ps.fwd_mem_to_ex_b;
  load_stall = ps.load_stall;
  branch_flush = ps.branch_flush;
}
