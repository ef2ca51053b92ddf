-- ===== src/Pipeline/Loads.antt =====
-- What EX hands on of an instruction that ID filled in: the destination of a load, and the control
-- word.
use clear_core.Alu
use clear_core.Cp0.{Cp0, ExceptionCode}
use clear_core.Control.{derive_control}
use clear_core.Decoder.{
  DecodedInstr, InstrFormat, Opcode, FunctCode, Fields, r_fields, i_fields, j_fields, decode,
  format_of, is_opcode,
}
use clear_core.Decoder.Laws.{HasFields, decode-IsDecoded}
use clear_core.Pipeline.Destination.{holding}
use clear_core.Pipeline.Regs.{IfId, IdEx, ExMem, MemWb, no_ex_mem}
use clear_core.Pipeline.Stages.{
  ex_run, ex_alu, id_indices, decode_stage, execute, id_decoded, early, IdOutcome,
}
use clear_core.Pipeline.Units.{
  ExOperands, source_registers, forward_operands, i_sources, r_sources, SourceRegisters,
}
use clear_core.Registers.{RegisterFile}
use clear_core.Prelude.{ℕ, arith, ◌≡◌, ◌<◌, none, some, true, sym, Option, refl, if_both, ◌==◌}

-- What goes on to MEM of an instruction `d` in EX: a load has the destination that ID read as its
-- second index, it writes back from memory exactly if it reads memory, and the index is one.
pub record IsHanded (d : DecodedInstr) (e : ExMem) : Type 0 where
  pub loads : e.ctrl.mem_read ≡ true → (derive_control d).mem_read ≡ true
  pub load_dest : e.ctrl.mem_read ≡ true → e.write_reg ≡ (id_indices d).1
  pub from_memory : e.ctrl.mem_to_reg ≡ e.ctrl.mem_read
  pub small_dest : e.write_reg < 32

module _ (cp0 : Cp0) (in_ex : IdEx) (ops : ExOperands) where
  abbrev Hands : DecodedInstr → Type 0
  Hands d = IsHanded d (ex_run cp0 (holding in_ex d) ops).next

  module _ (raw : ℕ) where
    r_type-Hands :
        (op : Opcode) (rs rt rd shamt : ℕ) (funct : FunctCode)
        → format_of op ≡ InstrFormat.r
        → rt < 32
        → rd < 32
        → Hands (record {
          raw = raw;
          opcode = op;
          format = InstrFormat.r;
          fields = r_fields (record { rs = rs; rt = rt; rd = rd; shamt = shamt; funct = funct });
        })
    unfolding ex_run derive_control Alu.control ex_alu format_of
    r_type-Hands op rs rt rd shamt funct f s t = record {
      loads = ground arith;
      load_dest = ground arith;
      from_memory = ground arith;
      small_dest = ground arith;
    }

    i_type-Hands :
        (op : Opcode) (rs rt imm : ℕ)
        → format_of op ≡ InstrFormat.i
        → rt < 32
        → Hands (record {
          raw = raw;
          opcode = op;
          format = InstrFormat.i;
          fields = i_fields (record { rs = rs; rt = rt; imm = imm });
        })
    unfolding ex_run derive_control Alu.control ex_alu format_of
    i_type-Hands op rs rt imm f s = record {
      loads = ground arith;
      load_dest = ground arith;
      from_memory = ground arith;
      small_dest = ground arith;
    }

    j_type-Hands :
        (op : Opcode) (target : ℕ)
        → format_of op ≡ InstrFormat.j
        → Hands (record {
          raw = raw;
          opcode = op;
          format = InstrFormat.j;
          fields = j_fields (record { target = target });
        })
    unfolding ex_run derive_control format_of
    j_type-Hands op target f = record {
      loads = ground arith;
      load_dest = ground arith;
      from_memory = ground arith;
      small_dest = ground arith;
    }

    decoded-Hands :
        (op : Opcode) (fmt : InstrFormat) (fields : Fields)
        → fmt ≡ format_of op
        → HasFields fmt fields
        → Hands (record { raw = raw; opcode = op; format = fmt; fields = fields })
    decoded-Hands op InstrFormat.r (r_fields f) e h =
        r_type-Hands op f.rs f.rt f.rd f.shamt f.funct (sym e) h.1 h.2
    decoded-Hands op InstrFormat.i (i_fields f) e h = i_type-Hands op f.rs f.rt f.imm (sym e) h.1
    decoded-Hands op InstrFormat.j (j_fields f) e h = j_type-Hands op f.target (sym e)
    decoded-Hands op fmt fields e h = absurd (ground arith)

-- Index `r` is the one named, if one is.
abbrev pub Names : Option ℕ → ℕ → Type 0
Names none r = Unit
Names (some k) r = k ≡ r

r_sources-Names :
    (f : FunctCode) (rs rt : ℕ) → Names (r_sources f rs rt).a rs × Names (r_sources f rs rt).b rt
r_sources-Names FunctCode.sll rs rt = (tt, refl)
r_sources-Names FunctCode.srl rs rt = (tt, refl)
r_sources-Names FunctCode.sra rs rt = (tt, refl)
r_sources-Names FunctCode.jr rs rt = (refl, tt)
r_sources-Names FunctCode.jalr rs rt = (refl, tt)
r_sources-Names f rs rt = (refl, refl)

i_sources-Names :
    (op : Opcode) (rs rt : ℕ) → Names (i_sources op rs rt).a rs × Names (i_sources op rs rt).b rt
i_sources-Names Opcode.lui rs rt = (tt, tt)
i_sources-Names Opcode.sw rs rt = (refl, refl)
i_sources-Names Opcode.beq rs rt = (refl, refl)
i_sources-Names Opcode.bne rs rt = (refl, refl)
i_sources-Names op rs rt = (refl, tt)

-- The registers that the hazard unit names are among those that ID reads.
abbrev AreRead : DecodedInstr → Type 0
AreRead d =
    Names (source_registers d).a (id_indices d).0 × Names (source_registers d).b (id_indices d).1

fields-AreRead :
    (raw : ℕ) (op : Opcode) (fmt : InstrFormat) (fields : Fields)
    → HasFields fmt fields
    → AreRead (record { raw = raw; opcode = op; format = fmt; fields = fields })
unfolding source_registers
fields-AreRead raw op InstrFormat.r (r_fields f) h =
    if_both {A = SourceRegisters} (λ s. Names s.a f.rs × Names s.b f.rt) (is_opcode op Opcode.cop0)
      (tt, if_both {A = Option ℕ} (λ o. Names o f.rt) (f.rs == 4) refl tt)
      (r_sources-Names f.funct f.rs f.rt)
fields-AreRead raw op InstrFormat.i (i_fields f) h =
    if_both {A = SourceRegisters} (λ s. Names s.a f.rs × Names s.b f.rt) (is_opcode op Opcode.cop0)
      (tt, tt) (i_sources-Names op f.rs f.rt)
fields-AreRead raw op InstrFormat.j (j_fields f) h =
    if_both {A = SourceRegisters} (λ s. Names s.a 0 × Names s.b 0) (is_opcode op Opcode.cop0)
      (tt, tt) (tt, tt)
fields-AreRead raw op fmt fields h = absurd (ground arith)

pub decode-AreRead :
    (w : ℕ) {d : DecodedInstr}
    → decode w ≡ some d
    → Names (source_registers d).a (id_indices d).0 × Names (source_registers d).b (id_indices d).1
decode-AreRead w {d} h =
    fields-AreRead d.raw d.opcode d.format d.fields (decode-IsDecoded w h).has_fields

-- What EX hands on of what ID filled in, against what the hazard unit saw in EX.
pub record IsAfter (before : IdEx) (e : ExMem) : Type 0 where
  pub was_valid : e.valid ≡ true → before.valid ≡ true
  pub was_load : e.valid ≡ true → e.ctrl.mem_read ≡ true → before.ctrl.mem_read ≡ true
  pub same_dest : e.valid ≡ true → e.ctrl.mem_read ≡ true → e.write_reg ≡ before.rt
  pub from_memory : e.ctrl.mem_to_reg ≡ e.ctrl.mem_read
  pub small_dest : e.write_reg < 32

bubble-IsAfter : (before : IdEx) → IsAfter before no_ex_mem
bubble-IsAfter before = record {
  was_valid = λ v. cc;
  was_load = λ v. cc;
  same_dest = λ v. cc;
  from_memory = refl;
  small_dest = omega arith;
}

early-IsAfter : (before : IdEx) (code : ExceptionCode) → IsAfter before (early before code).next
early-IsAfter before ExceptionCode.ad_el = bubble-IsAfter before
early-IsAfter before code = bubble-IsAfter before

id_decoded-IsAfter :
    (cp0 : Cp0) (regs : RegisterFile) (f : IfId) (o : Option DecodedInstr) (e : ExMem) (w : MemWb)
    → decode f.instr ≡ o
    → IsAfter (id_decoded regs f o).next (execute cp0 (id_decoded regs f o).next e w).next
unfolding id_decoded execute
id_decoded-IsAfter cp0 regs f none e w h = bubble-IsAfter _
id_decoded-IsAfter cp0 regs f (some d) e w h =
    let is = decode-IsDecoded f.instr h in
    let in_ex = (id_decoded regs f (some d)).next in
    let k =
      decoded-Hands cp0 in_ex (forward_operands in_ex e w) d.raw d.opcode d.format d.fields
        is.same_format is.has_fields in
    record {
      was_valid = λ v. refl;
      was_load = λ v. k.loads;
      same_dest = λ v. k.load_dest;
      from_memory = k.from_memory;
      small_dest = k.small_dest;
    }

pub decode_stage-IsAfter :
    (cp0 : Cp0) (regs : RegisterFile) (f : IfId) (e : ExMem) (w : MemWb)
    → IsAfter (decode_stage regs f).next (execute cp0 (decode_stage regs f).next e w).next
unfolding decode_stage execute
decode_stage-IsAfter cp0 regs f e w =
    if_both {A = IdOutcome} (λ o. IsAfter o.next (execute cp0 o.next e w).next) f.fetch_fault
      (bubble-IsAfter _) (id_decoded-IsAfter cp0 regs f (decode f.instr) e w refl)

pub id_indices-lt :
    (w : ℕ) {d : DecodedInstr}
    → decode w ≡ some d
    → ((id_indices d).0 < 32) × ((id_indices d).1 < 32)
id_indices-lt w {d} h = fields-lt d.format d.fields (decode-IsDecoded w h).has_fields
  where
    fields-lt :
        (fmt : InstrFormat) (fields : Fields)
        → HasFields fmt fields
        → let d' : DecodedInstr = record d { format = fmt; fields = fields } in
          ((id_indices d').0 < 32) × ((id_indices d').1 < 32)
    fields-lt InstrFormat.r (r_fields f) k = (k.0, k.1)
    fields-lt InstrFormat.i (i_fields f) k = (k.0, k.1)
    fields-lt InstrFormat.j (j_fields f) k = (omega arith, omega arith)
    fields-lt fmt fields k = absurd (ground arith)
