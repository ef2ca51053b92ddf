-- ===== src/Pipeline/Sources.antt =====
-- The registers that `source_registers` names against the operands that EX uses.
use clear_core.Prelude.{ℕ, arith, ◌≡◌, none, some, Option, if◌then◌else◌, sym}
use clear_core.Alu
use clear_core.Cp0.{Cp0}
use clear_core.Control.{derive_control}
use clear_core.Decoder.{
  DecodedInstr, InstrFormat, Opcode, FunctCode, Fields, r_fields, i_fields, j_fields, decode,
  format_of, implemented_special, get_r,
}
use clear_core.Decoder.Laws.{HasFields, IsImplemented, decode-IsDecoded}
use clear_core.Pipeline.Regs.{IdEx}
use clear_core.Pipeline.Units.{ExOperands, ForwardingPaths, source_registers}
use clear_core.Pipeline.Stages.{ExOutcome, ex_run, ex_alu, id_indices}
use clear_core.Pipeline.Destination.{holding}

-- Two contents of the registers that agree on the register, if one is named.
abbrev pub SameOn : Option ℕ → (ℕ → ℕ) → (ℕ → ℕ) → Type 0
SameOn none x y = Unit
SameOn (some r) x y = x r ≡ y r

-- The operands that ID takes for an instruction from these contents.
abbrev pub operands_of : DecodedInstr → (ℕ → ℕ) → ForwardingPaths → ExOperands
operands_of d x paths = record { a = x (id_indices d).0; b = x (id_indices d).1; paths = paths }

-- What EX decides is the same: the trap, the redirect, the access to the coprocessor, and what goes on
-- to MEM, of which the data to store counts for a store only.
pub record IsSame (o o' : ExOutcome) : Type 0 where
  pub same_trap : o.trap ≡ o'.trap
  pub same_redirect : o.redirect ≡ o'.redirect
  pub same_eret : o.eret ≡ o'.eret
  pub same_mtc0 : o.mtc0 ≡ o'.mtc0
  pub same_ctrl : o.next.ctrl ≡ o'.next.ctrl
  pub same_alu : o.next.alu ≡ o'.next.alu
  pub same_dest : o.next.write_reg ≡ o'.next.write_reg
  pub same_valid : o.next.valid ≡ o'.next.valid
  pub same_data :
      (if o.next.ctrl.mem_write then o.next.rt_val else 0)
      ≡ (if o'.next.ctrl.mem_write then o'.next.rt_val else 0)

module _ (cp0 : Cp0) (in_ex : IdEx) (x y : ℕ → ℕ) (p q : ForwardingPaths) where
  -- EX gives the same for contents that agree on the registers read.
  abbrev Independent : DecodedInstr → Type 0
  Independent d =
      SameOn (source_registers d).a x y
      → SameOn (source_registers d).b x y
      → IsSame (ex_run cp0 (holding in_ex d) (operands_of d x p))
          (ex_run cp0 (holding in_ex d) (operands_of d y q))

  module _ (raw : ℕ) where
    r_type-Independent :
        (op : Opcode) (rs rt rd shamt : ℕ) (funct : FunctCode)
        → format_of op ≡ InstrFormat.r
        → IsImplemented op funct
        → Independent (record {
          raw = raw;
          opcode = op;
          format = InstrFormat.r;
          fields = r_fields (record { rs = rs; rt = rt; rd = rd; shamt = shamt; funct = funct });
        })
    unfolding ex_run source_registers Alu.execute derive_control Alu.control ex_alu
        implemented_special format_of
    r_type-Independent Opcode.special rs rt rd shamt FunctCode.eret f h s t = ground arith
    r_type-Independent Opcode.special rs rt rd shamt funct f h s t = ground arith
    r_type-Independent Opcode.cop0 rs rt rd shamt funct f h s t = ground arith
    r_type-Independent op rs rt rd shamt funct f h s t = ground arith

    i_type-Independent :
        (op : Opcode) (rs rt imm : ℕ)
        → format_of op ≡ InstrFormat.i
        → Independent (record {
          raw = raw;
          opcode = op;
          format = InstrFormat.i;
          fields = i_fields (record { rs = rs; rt = rt; imm = imm });
        })
    unfolding ex_run source_registers Alu.execute derive_control Alu.control ex_alu format_of
    i_type-Independent op rs rt imm f s t = ground arith

    j_type-Independent :
        (op : Opcode) (target : ℕ)
        → format_of op ≡ InstrFormat.j
        → Independent (record {
          raw = raw;
          opcode = op;
          format = InstrFormat.j;
          fields = j_fields (record { target = target });
        })
    unfolding ex_run source_registers Alu.execute derive_control format_of
    j_type-Independent op target f s t = ground arith

    decoded-Independent :
        (op : Opcode) (fmt : InstrFormat) (fields : Fields)
        → fmt ≡ format_of op
        → HasFields fmt fields
        → IsImplemented op
            (get_r (record { raw = raw; opcode = op; format = fmt; fields = fields })).funct
        → Independent (record { raw = raw; opcode = op; format = fmt; fields = fields })
    decoded-Independent op InstrFormat.r (r_fields f) e h i =
        r_type-Independent op f.rs f.rt f.rd f.shamt f.funct (sym e) i
    decoded-Independent op InstrFormat.i (i_fields f) e h i =
        i_type-Independent op f.rs f.rt f.imm (sym e)
    decoded-Independent op InstrFormat.j (j_fields f) e h i = j_type-Independent op f.target (sym e)
    decoded-Independent op fmt fields e h i = absurd (ground arith)

-- EX depends on no register that `source_registers` leaves out: for any two contents of the register
-- file that agree on the registers it names, a decoded instruction gives the same on the operands that
-- ID takes from either.
pub ex_run-source :
    (cp0 : Cp0) (in_ex : IdEx) (x y : ℕ → ℕ) (p q : ForwardingPaths) (w : ℕ) {d : DecodedInstr}
    → decode w ≡ some d
    → SameOn (source_registers d).a x y
    → SameOn (source_registers d).b x y
    → IsSame
        (ex_run cp0 (holding in_ex d) (operands_of d x p))
        (ex_run cp0 (holding in_ex d) (operands_of d y q))
ex_run-source cp0 in_ex x y p q w {d} h s t =
    let is = decode-IsDecoded w h in
    decoded-Independent cp0 in_ex x y p q d.raw d.opcode d.format d.fields is.same_format
      is.has_fields is.is_implemented s t
