-- ===== src/SingleCycle/Total.antt =====
-- A step never ends in the internal error that the code allows for.
use clear_core.Alu.{AluResult}
use clear_core.Processor.{StepResult}
use clear_core.Decoder.Laws.{IsImplemented, IsDecoded, decode-IsDecoded}
use clear_core.Decoder.{
  DecodedInstr, format_of, implemented_special, FunctCode, Opcode, InstrFormat, is_funct, get_r,
  is_opcode, decode, get_i,
}
use clear_core.Memory
use clear_core.Registers
use clear_core.Alu
use clear_core.SingleCycle.{
  raise, Cpu, Executed, step, exec_cop0, exec_ralu, exec_itype, exec_rtype, conclude, dispatch_as,
  exec_branch, exec_ialu, exec_imem, exec_load, step_fetched, exec_store, step_decoded, finish,
  ialu_result,
}
use clear_core.Prelude.{
  ℕ, refl, arith, ◌≡◌, true, ◌≢◌, none, Option-cases, false, inl, inr, sym, ◌∙◌, add32,
}

r_type_op-ne-none :
    (f : FunctCode)
    → implemented_special f ≡ true
    → is_funct f FunctCode.syscall ≡ false
    → is_funct f FunctCode.break ≡ false
    → Alu.r_type_op f ≢ none
unfolding Alu.r_type_op implemented_special
r_type_op-ne-none FunctCode.sll h p q = ground arith
r_type_op-ne-none f h p q = ground arith

i_type_op-ne-none : (op : Opcode) → format_of op ≡ InstrFormat.i → Alu.i_type_op op ≢ none
unfolding Alu.i_type_op format_of
i_type_op-ne-none Opcode.addi h = ground arith
i_type_op-ne-none op h = ground arith

control_of_r :
    (d : DecodedInstr) → d.format ≡ InstrFormat.r → Alu.control d ≡ Alu.r_type_op (get_r d).funct
unfolding Alu.control
control_of_r d f = rw f refl

control_of_i :
    (d : DecodedInstr) → d.format ≡ InstrFormat.i → Alu.control d ≡ Alu.i_type_op d.opcode
unfolding Alu.control
control_of_i d f = rw f refl

module _ (c : Cpu) (d : DecodedInstr) (pc4 next_pc : ℕ) where
  exec_cop0-returned : (exec_cop0 c d next_pc).returned ≡ true
  unfolding exec_cop0
  exec_cop0-returned = ground arith

  exec_ralu-returned : Alu.control d ≢ none → (exec_ralu c d pc4 next_pc).returned ≡ true
  unfolding exec_ralu
  exec_ralu-returned h = elim (Option-cases (Alu.control d)) [
    | inl e ↦ absurd (h e)
    | inr (op, e) ↦ rw (e, exec_ralu) (ground arith)
  ]

  exec_rtype-returned :
      d.format ≡ InstrFormat.r
      → (is_opcode d.opcode Opcode.cop0 ≡ false → implemented_special (get_r d).funct ≡ true)
      → (exec_rtype c d pc4 next_pc).returned ≡ true
  unfolding exec_rtype
  exec_rtype-returned f h = ground (
    arith,
    exec_cop0-returned,
    exec_ralu-returned,
    r_type_op-ne-none (get_r d).funct,
    control_of_r d f,
  )

  exec_branch-returned : Alu.control d ≢ none → (exec_branch c d pc4 next_pc).returned ≡ true
  unfolding exec_branch
  exec_branch-returned h = elim (Option-cases (Alu.control d)) [
    | inl e ↦ absurd (h e)
    | inr (op, e) ↦ rw (e, exec_branch) refl
  ]

  exec_load-returned : (addr : ℕ) → (exec_load c d addr pc4 next_pc).returned ≡ true
  unfolding exec_load
  exec_load-returned addr = ground arith

  exec_imem-returned :
      (res : AluResult) (rt_val : ℕ) → (exec_imem c d res rt_val pc4 next_pc).returned ≡ true
  unfolding exec_imem exec_store
  exec_imem-returned res rt_val = ground (arith, exec_load-returned res.value)

  exec_ialu-returned : Alu.control d ≢ none → (exec_ialu c d pc4 next_pc).returned ≡ true
  unfolding exec_ialu
  exec_ialu-returned h = elim (Option-cases (Alu.control d)) [
    | inl e ↦ absurd (h e)
    | inr (op, e) ↦
        rw (e, exec_ialu)
          (ground
            (arith, exec_imem-returned (ialu_result c d op) (Registers.read c.regs (get_i d).rt)))
  ]

  exec_itype-returned : Alu.control d ≢ none → (exec_itype c d pc4 next_pc).returned ≡ true
  unfolding exec_itype
  exec_itype-returned h = ground (arith, exec_branch-returned h, exec_ialu-returned h)

special-IsImplemented :
    (op : Opcode) (f : FunctCode)
    → format_of op ≡ InstrFormat.r
    → IsImplemented op f
    → is_opcode op Opcode.cop0 ≡ false
    → implemented_special f ≡ true
unfolding format_of
special-IsImplemented Opcode.special f e h n = h
special-IsImplemented op f e h n = ground arith

dispatch_as-returned :
    (w : ℕ) (c : Cpu) (d : DecodedInstr) (f : InstrFormat) (pc4 : ℕ)
    → IsDecoded w d
    → d.format ≡ f
    → (dispatch_as f c d pc4).returned ≡ true
unfolding dispatch_as
dispatch_as-returned w c d InstrFormat.j pc4 h e = refl
dispatch_as-returned w c d InstrFormat.unknown pc4 h e = refl
dispatch_as-returned w c d InstrFormat.r pc4 h e =
    exec_rtype-returned c d pc4 pc4 e
      (special-IsImplemented d.opcode (get_r d).funct (sym h.same_format ∙ e) h.is_implemented)
dispatch_as-returned w c d InstrFormat.i pc4 h e =
    exec_itype-returned c d pc4 pc4
      (rw (control_of_i d e) (i_type_op-ne-none d.opcode (sym h.same_format ∙ e)))

conclude-ne-fault :
    (r : StepResult) (cur_pc : ℕ) (c : Cpu) (next_pc : ℕ)
    → (conclude r cur_pc c next_pc).1 ≢ StepResult.fault
unfolding conclude
conclude-ne-fault StepResult.exception cur_pc c next_pc = ground arith
conclude-ne-fault r cur_pc c next_pc = ground arith

finish-ne-fault :
    (cur_pc : ℕ) (e : Executed) → e.returned ≡ true → (finish cur_pc e).1 ≢ StepResult.fault
unfolding finish
finish-ne-fault cur_pc e h = rw h (conclude-ne-fault e.exc cur_pc e.cpu e.next_pc)

step_fetched-ne-fault : (c : Cpu) (w : ℕ) → (step_fetched c w).1 ≢ StepResult.fault
unfolding step_fetched step_decoded raise
step_fetched-ne-fault c w = elim (Option-cases (decode w)) [
  | inl e ↦ rw (e, step_fetched) (ground arith)
  | inr (d, e) ↦
      rw (e, step_fetched)
        (finish-ne-fault c.pc _
          (dispatch_as-returned w _ d d.format (add32 c.pc 4) (decode-IsDecoded w e) refl))
]

-- No step of the single-cycle machine returns `Fault`, whatever its memory and registers hold.
pub step-ne-fault : (c : Cpu) → (step c).1 ≢ StepResult.fault
unfolding step raise
step-ne-fault c = elim (Option-cases (Memory.read_word c.mem c.pc)) [
  | inl e ↦ rw (e, step) (ground arith)
  | inr (w, e) ↦ rw (e, step) (step_fetched-ne-fault _ w)
]
