-- ===== src/Pipeline/Alone/Instructions.antt =====
-- The instructions one by one: both machines leave the same.
use clear_core.Decoder.Laws.{HasFields, IsImplemented}
use clear_core.DataMemory.{load_data, store_data}
use clear_core.Control.{derive_control}
use clear_core.Pipeline.Units.{forward_operands}
use clear_core.Decoder.{
  FunctCode, Opcode, InstrFormat, r_fields, implemented_special, format_of, is_funct, i_fields,
  j_fields, sign_extend, Fields, get_r,
}
use clear_core.Registers
use clear_core.Cp0
use clear_core.Alu
use clear_core.SingleCycle
use clear_core.Registers.{RegisterFile}
use clear_core.Cp0.{Cp0}
use clear_core.Pipeline.{resolve}
use clear_core.Pipeline.Stages.{memory_access, write_back, id_decoded, ex_run}
use clear_core.Prelude.{
  ◌==◌, Bool-cases, inl, inr, sub32, arith, ℕ, refl, true, add32, ◌≡◌, ◌&&◌, unsigned32,
  Option-cases, sym,
}
use clear_core.Pipeline.Alone.{settle, later_stages, write_guarded, completes, Agrees}

module _ (c : SingleCycle.Cpu) (back : sub32 (add32 c.pc 4) 4 ≡ c.pc) (raw : ℕ) where
  special-Agrees :
      (rs rt rd shamt : ℕ) (funct : FunctCode)
      → implemented_special funct ≡ true
      → Agrees c (record {
        raw = raw;
        opcode = Opcode.special;
        format = InstrFormat.r;
        fields = r_fields (record { rs = rs; rt = rt; rd = rd; shamt = shamt; funct = funct });
      })
  unfolding settle later_stages SingleCycle.finish SingleCycle.dispatch_as id_decoded ex_run
      forward_operands resolve memory_access derive_control Alu.control Alu.execute
      SingleCycle.raise write_back implemented_special
  special-Agrees rs rt rd shamt FunctCode.eret h = ground arith
  special-Agrees rs rt rd shamt (FunctCode.unlisted n) h = ground arith
  special-Agrees rs rt rd shamt FunctCode.jr h = record { same = λ ps. rw completes refl }
  special-Agrees rs rt rd shamt FunctCode.syscall h = record { same = λ ps. rw back refl }
  special-Agrees rs rt rd shamt FunctCode.break h = record { same = λ ps. rw back refl }
  special-Agrees rs rt rd shamt FunctCode.add h = record {
    same = λ ps.
        elim (Bool-cases
          (Alu.execute Alu.AluOp.add (Registers.read c.regs rs) (Registers.read c.regs rt)
            shamt).overflow) [
              | inl e ↦ rw (e, back) refl
              | inr e ↦ rw (e, write_guarded, completes) refl
            ];
  }
  special-Agrees rs rt rd shamt FunctCode.sub h = record {
    same = λ ps.
        elim (Bool-cases
          (Alu.execute Alu.AluOp.sub (Registers.read c.regs rs) (Registers.read c.regs rt)
            shamt).overflow) [
              | inl e ↦ rw (e, back) refl
              | inr e ↦ rw (e, write_guarded, completes) refl
            ];
  }
  special-Agrees rs rt rd shamt funct h = record { same = λ ps. rw (write_guarded, completes) refl }

  cop0-Agrees :
      (rs rt rd shamt : ℕ) (funct : FunctCode)
      → Agrees c (record {
        raw = raw;
        opcode = Opcode.cop0;
        format = InstrFormat.r;
        fields = r_fields (record { rs = rs; rt = rt; rd = rd; shamt = shamt; funct = funct });
      })
  unfolding settle later_stages SingleCycle.finish SingleCycle.dispatch_as id_decoded ex_run
      forward_operands resolve memory_access derive_control write_back Cp0.eret
  cop0-Agrees rs rt rd shamt funct = record {
    same = λ ps. elim (Bool-cases (rs == 0)) [
      | inl e ↦ rw (e, write_guarded, completes) refl
      | inr e ↦ elim (Bool-cases (rs == 4)) [
        | inl f ↦ rw (e, f, completes) refl
        | inr f ↦ elim (Bool-cases (rs == 16 && is_funct funct FunctCode.eret)) [
          | inl g ↦ rw (e, f, g, completes) refl
          | inr g ↦ rw (e, f, g, completes) refl
        ]
      ]
    ];
  }

  -- The address of a load or a store.
  abbrev address : ℕ → ℕ → ℕ
  address rs imm = add32 (Registers.read c.regs rs) (unsigned32 (sign_extend imm))

  i_type-Agrees :
      (rs rt imm : ℕ) (op : Opcode)
      → format_of op ≡ InstrFormat.i
      → Agrees c (record {
        raw = raw;
        opcode = op;
        format = InstrFormat.i;
        fields = i_fields (record { rs = rs; rt = rt; imm = imm });
      })
  unfolding settle later_stages SingleCycle.finish SingleCycle.dispatch_as id_decoded ex_run
      forward_operands resolve memory_access derive_control Alu.control Alu.execute
      SingleCycle.raise write_back format_of
  i_type-Agrees rs rt imm Opcode.special h = ground arith
  i_type-Agrees rs rt imm Opcode.cop0 h = ground arith
  i_type-Agrees rs rt imm Opcode.j h = ground arith
  i_type-Agrees rs rt imm Opcode.jal h = ground arith
  i_type-Agrees rs rt imm (Opcode.unlisted n) h = ground arith
  i_type-Agrees rs rt imm Opcode.beq h = record {
    same = λ ps.
        elim (Bool-cases
          (Alu.execute Alu.AluOp.subu (Registers.read c.regs rs) (Registers.read c.regs rt)
            0).zero_flag) [ inl e ↦ rw (e, completes) refl | inr e ↦ rw (e, completes) refl ];
  }
  i_type-Agrees rs rt imm Opcode.bne h = record {
    same = λ ps.
        elim (Bool-cases
          (Alu.execute Alu.AluOp.subu (Registers.read c.regs rs) (Registers.read c.regs rt)
            0).zero_flag) [ inl e ↦ rw (e, completes) refl | inr e ↦ rw (e, completes) refl ];
  }
  i_type-Agrees rs rt imm Opcode.addi h = record {
    same = λ ps.
        elim (Bool-cases
          (Alu.execute Alu.AluOp.add (Registers.read c.regs rs) (unsigned32 (sign_extend imm))
            0).overflow) [
              | inl e ↦ rw (e, back) refl
              | inr e ↦ rw (e, write_guarded, completes) refl
            ];
  }
  i_type-Agrees rs rt imm Opcode.lw h = record {
    same = λ ps. elim (Option-cases (load_data c.mem Opcode.lw (address rs imm))) [
      | inl e ↦ rw (e, SingleCycle.exec_load) (rw back refl)
      | inr (v, e) ↦ rw (e, SingleCycle.exec_load) (rw (write_guarded, completes) refl)
    ];
  }
  i_type-Agrees rs rt imm Opcode.lbu h = record {
    same = λ ps. elim (Option-cases (load_data c.mem Opcode.lbu (address rs imm))) [
      | inl e ↦ rw (e, SingleCycle.exec_load) (rw back refl)
      | inr (v, e) ↦ rw (e, SingleCycle.exec_load) (rw (write_guarded, completes) refl)
    ];
  }
  i_type-Agrees rs rt imm Opcode.lhu h = record {
    same = λ ps. elim (Option-cases (load_data c.mem Opcode.lhu (address rs imm))) [
      | inl e ↦ rw (e, SingleCycle.exec_load) (rw back refl)
      | inr (v, e) ↦ rw (e, SingleCycle.exec_load) (rw (write_guarded, completes) refl)
    ];
  }
  i_type-Agrees rs rt imm Opcode.sw h = record {
    same = λ ps.
        elim (Bool-cases
          (store_data c.mem Opcode.sw (address rs imm) (Registers.read c.regs rt)).1) [
            | inl e ↦ rw (e, completes) refl
            | inr e ↦ rw (e, back) refl
          ];
  }
  i_type-Agrees rs rt imm op h = record { same = λ ps. rw (write_guarded, completes) refl }

  j_type-Agrees :
      (target : ℕ) (op : Opcode)
      → format_of op ≡ InstrFormat.j
      → Agrees c (record {
        raw = raw;
        opcode = op;
        format = InstrFormat.j;
        fields = j_fields (record { target = target });
      })
  unfolding settle later_stages SingleCycle.finish SingleCycle.dispatch_as id_decoded ex_run
      forward_operands resolve memory_access derive_control write_back format_of
  j_type-Agrees target Opcode.j h = record { same = λ ps. rw completes refl }
  j_type-Agrees target Opcode.jal h = record { same = λ ps. rw completes refl }
  j_type-Agrees target op h = ground arith

  pub decoded-Agrees :
      (op : Opcode) (fmt : InstrFormat) (fields : Fields)
      → fmt ≡ format_of op
      → HasFields fmt fields
      → IsImplemented op
          (get_r (record { raw = raw; opcode = op; format = fmt; fields = fields })).funct
      → Agrees c (record { raw = raw; opcode = op; format = fmt; fields = fields })
  unfolding format_of
  decoded-Agrees Opcode.special InstrFormat.r (r_fields f) e h i =
      special-Agrees f.rs f.rt f.rd f.shamt f.funct i
  decoded-Agrees Opcode.cop0 InstrFormat.r (r_fields f) e h i =
      cop0-Agrees f.rs f.rt f.rd f.shamt f.funct
  decoded-Agrees op InstrFormat.r (r_fields f) e h i = absurd (ground arith)
  decoded-Agrees op InstrFormat.i (i_fields f) e h i = i_type-Agrees f.rs f.rt f.imm op (sym e)
  decoded-Agrees op InstrFormat.j (j_fields f) e h i = j_type-Agrees f.target op (sym e)
  decoded-Agrees op fmt fields e h i = absurd (ground arith)
