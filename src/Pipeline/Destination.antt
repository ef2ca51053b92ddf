-- ===== src/Pipeline/Destination.antt =====
-- The register that `destination_register` predicts against the one that EX selects.
use clear_core.Prelude.{ℕ, arith, ◌≡◌, none, some, Option, if◌then◌else◌, sym}
use clear_core.Alu
use clear_core.Cp0.{Cp0}
use clear_core.Control.{derive_control}
use clear_core.Decoder.{
  DecodedInstr, InstrFormat, Opcode, FunctCode, Fields, r_fields, i_fields, j_fields, decode,
  format_of, implemented_special, get_r,
}
use clear_core.Decoder.Laws.{HasFields, IsImplemented, decode-IsDecoded}
use clear_core.Pipeline.Regs.{IdEx, ExMem}
use clear_core.Pipeline.Units.{ExOperands, destination_register}
use clear_core.Pipeline.Stages.{ex_run, ex_alu}

-- The register that an instruction leaving EX writes in WB.
abbrev pub written_by : ExMem → Option ℕ
written_by e = if e.ctrl.reg_write then some e.write_reg else none

-- ID/EX as ID fills it for a decoded instruction.
abbrev pub holding : IdEx → DecodedInstr → IdEx
holding in_ex d = record in_ex { ctrl = derive_control d; decoded = d }

module _ (cp0 : Cp0) (in_ex : IdEx) (ops : ExOperands) where
  -- EX on a decoded instruction, where it does not trap, selects the predicted register.
  abbrev Predicts : DecodedInstr → Type 0
  Predicts d =
      (ex_run cp0 (holding in_ex d) ops).trap ≡ none
      → written_by (ex_run cp0 (holding in_ex d) ops).next ≡ destination_register d

  module _ (raw : ℕ) where
    r_type-Predicts :
        (op : Opcode) (rs rt rd shamt : ℕ) (funct : FunctCode)
        → format_of op ≡ InstrFormat.r
        → IsImplemented op funct
        → Predicts (record {
          raw = raw;
          opcode = op;
          format = InstrFormat.r;
          fields = r_fields (record { rs = rs; rt = rt; rd = rd; shamt = shamt; funct = funct });
        })
    unfolding ex_run destination_register derive_control Alu.control ex_alu implemented_special
        format_of
    r_type-Predicts Opcode.special rs rt rd shamt FunctCode.eret f h t = ground arith
    r_type-Predicts Opcode.special rs rt rd shamt funct f h t = ground arith
    r_type-Predicts Opcode.cop0 rs rt rd shamt funct f h t = ground arith
    r_type-Predicts op rs rt rd shamt funct f h t = ground arith

    i_type-Predicts :
        (op : Opcode) (rs rt imm : ℕ)
        → format_of op ≡ InstrFormat.i
        → Predicts (record {
          raw = raw;
          opcode = op;
          format = InstrFormat.i;
          fields = i_fields (record { rs = rs; rt = rt; imm = imm });
        })
    unfolding ex_run destination_register derive_control Alu.control ex_alu format_of
    i_type-Predicts op rs rt imm f t = ground arith

    j_type-Predicts :
        (op : Opcode) (target : ℕ)
        → format_of op ≡ InstrFormat.j
        → Predicts (record {
          raw = raw;
          opcode = op;
          format = InstrFormat.j;
          fields = j_fields (record { target = target });
        })
    unfolding ex_run destination_register derive_control format_of
    j_type-Predicts op target f t = ground arith

    decoded-Predicts :
        (op : Opcode) (fmt : InstrFormat) (fields : Fields)
        → fmt ≡ format_of op
        → HasFields fmt fields
        → IsImplemented op
            (get_r (record { raw = raw; opcode = op; format = fmt; fields = fields })).funct
        → Predicts (record { raw = raw; opcode = op; format = fmt; fields = fields })
    decoded-Predicts op InstrFormat.r (r_fields f) e h i =
        r_type-Predicts op f.rs f.rt f.rd f.shamt f.funct (sym e) i
    decoded-Predicts op InstrFormat.i (i_fields f) e h i =
        i_type-Predicts op f.rs f.rt f.imm (sym e)
    decoded-Predicts op InstrFormat.j (j_fields f) e h i = j_type-Predicts op f.target (sym e)
    decoded-Predicts op fmt fields e h i = absurd (ground arith)

-- The register that `destination_register` names for a decoded instruction, or that it names none,
-- is what EX hands on to WB, whatever its operands, unless the instruction traps in EX.
pub ex_run-destination :
    (cp0 : Cp0) (in_ex : IdEx) (ops : ExOperands) (w : ℕ) {d : DecodedInstr}
    → decode w ≡ some d
    → (ex_run cp0 (holding in_ex d) ops).trap ≡ none
    → written_by (ex_run cp0 (holding in_ex d) ops).next ≡ destination_register d
ex_run-destination cp0 in_ex ops w {d} h t =
    let is = decode-IsDecoded w h in
    decoded-Predicts cp0 in_ex ops d.raw d.opcode d.format d.fields is.same_format is.has_fields
      is.is_implemented t
