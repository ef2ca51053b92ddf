-- ===== src/Pipeline/PreciseEx.antt =====
-- A cycle in which the instruction in EX traps.
use clear_core.Decoder.{get_r, is_opcode, Opcode, is_funct}
use clear_core.Alu
use clear_core.Alu.{AluOp}
use clear_core.Cp0
use clear_core.Cp0.{Cp0, ExceptionCode}
use clear_core.Pipeline.{Cpu, step, commit, run_stages, is_fetch_trap}
use clear_core.Pipeline.Precise.{step-IsTrapped, if_swap}
use clear_core.Pipeline.Regs.{IdEx, ExMem, MemWb, no_if_id, no_id_ex, no_ex_mem}
use clear_core.Pipeline.Stages.{
  Trap, ExOutcome, memory_access, write_back, execute, ex_run, ex_jump, ex_branch, ex_register_jump,
  ex_cop0, ex_alu, early, ex_alu_b, ex_traps, ex_shamt, is_signed_op, is_j, is_i,
}
use clear_core.Decoder.{FunctCode}
use clear_core.Pipeline.Units.{ExOperands, forward_operands}
use clear_core.Processor.{StepResult}
use clear_core.Prelude.{
  arith, refl, ◌≡◌, Option, none, some, if_both, not, if◌then◌else◌, ◌&&◌, ◌||◌,
}

-- What EX leaves of an instruction that traps in it: nothing goes on to MEM, the trap is at its
-- address, and only a failed fetch carries an address.
record IsStopped (in_ex : IdEx) (o : ExOutcome) (t : Trap) : Type 0 where
  bubble : o.next ≡ no_ex_mem
  same_pc : t.pc ≡ in_ex.pc
  same_address : t.bad_addr ≡ (if is_fetch_trap in_ex.early_trap then in_ex.pc else 0)

abbrev Stops : IdEx → ExOutcome → Type 0
Stops in_ex o = (t : Trap) → o.trap ≡ some t → IsStopped in_ex o t

early-Stops :
    (in_ex : IdEx) (code : ExceptionCode)
    → in_ex.early_trap ≡ some code
    → Stops in_ex (early in_ex code)
early-Stops in_ex ExceptionCode.ad_el e t h = record {
  bubble = refl;
  same_pc = ground arith;
  same_address = rw e (ground arith);
}
early-Stops in_ex code e t h = record {
  bubble = refl;
  same_pc = ground arith;
  same_address = rw e (ground arith);
}

module _ (in_ex : IdEx) (ops : ExOperands) (e : in_ex.early_trap ≡ none) where
  -- A trap of the instruction itself.
  ex_traps-Stops : (code : ExceptionCode) → Stops in_ex (ex_traps ops code in_ex.pc)
  ex_traps-Stops code t h = record {
    bubble = refl;
    same_pc = ground arith;
    same_address = rw e (ground arith);
  }

  ex_alu-Stops : (o : Option AluOp) → Stops in_ex (ex_alu in_ex ops o)
  unfolding ex_alu
  ex_alu-Stops none = ex_traps-Stops ExceptionCode.ri
  ex_alu-Stops (some op) =
      let res = Alu.execute op ops.a (ex_alu_b in_ex ops) (ex_shamt in_ex.decoded ops) in
      if_both {A = ExOutcome} (Stops in_ex) (res.overflow && is_signed_op in_ex.decoded)
        (ex_traps-Stops ExceptionCode.ov) (λ t h. absurd (cc h))

  ex_cop0-Stops : (cp0 : Cp0) → Stops in_ex (ex_cop0 cp0 in_ex ops)
  unfolding ex_cop0
  ex_cop0-Stops cp0 t h = absurd (ground arith)

  ex_run-Stops : (cp0 : Cp0) → Stops in_ex (ex_run cp0 in_ex ops)
  unfolding ex_run ex_jump ex_branch ex_register_jump
  ex_run-Stops cp0 =
      let dec = in_ex.decoded in
      let funct = (get_r dec).funct in
      let special = is_opcode dec.opcode Opcode.special in
      if_both {A = ExOutcome} (Stops in_ex) (is_j dec.format) (λ t h. absurd (cc h))
        (if_both {A = ExOutcome} (Stops in_ex)
          (is_i dec.format && (is_opcode dec.opcode Opcode.beq || is_opcode dec.opcode Opcode.bne))
          (λ t h. absurd (cc h))
          (if_both {A = ExOutcome} (Stops in_ex)
            (special && (is_funct funct FunctCode.jr || is_funct funct FunctCode.jalr))
            (λ t h. absurd (cc h))
            (if_both {A = ExOutcome} (Stops in_ex)
              (special && (is_funct funct FunctCode.syscall || is_funct funct FunctCode.break))
              (ex_traps-Stops _)
              (if_both {A = ExOutcome} (Stops in_ex) (is_opcode dec.opcode Opcode.cop0)
                (ex_cop0-Stops cp0) (ex_alu-Stops (Alu.control dec))))))

-- EX on a valid instruction, with or without an early trap.
valid-Stops :
    (cp0 : Cp0) (in_ex : IdEx) (ops : ExOperands) (o : Option ExceptionCode)
    → in_ex.early_trap ≡ o
    → Stops in_ex (elim o [ some code ↦ early in_ex code | none ↦ ex_run cp0 in_ex ops ])
valid-Stops cp0 in_ex ops none e = ex_run-Stops in_ex ops e cp0
valid-Stops cp0 in_ex ops (some code) e = early-Stops in_ex code e

execute-Stops :
    (cp0 : Cp0) (in_ex : IdEx) (e : ExMem) (w : MemWb) → Stops in_ex (execute cp0 in_ex e w)
unfolding execute
execute-Stops cp0 in_ex e w =
    if_both {A = ExOutcome} (Stops in_ex) (not in_ex.valid) (λ t h. absurd (cc h))
      (valid-Stops cp0 in_ex (forward_operands in_ex e w) in_ex.early_trap refl)

-- A precise trap of the instruction in EX: the older ones in WB and MEM complete, and nothing of it or
-- of a younger instruction is kept.
pub record IsPreciseEx (c : Cpu) (after : Cpu) (r : StepResult) : Type 0 where
  pub older_completes : after.regs ≡ (write_back c.regs c.ctrl c.mem_wb).0
  pub memory_completes : after.mem ≡ (memory_access c.mem c.ex_mem).0
  pub passed : after.mem_wb ≡ (memory_access c.mem c.ex_mem).1.next
  pub no_trapping : after.ex_mem ≡ no_ex_mem
  pub no_decoded : after.id_ex ≡ no_id_ex
  pub no_fetched : after.if_id ≡ no_if_id
  pub result : r ≡ StepResult.exception
  pub vectored : after.pc ≡ 0x8000_0180
  pub epc_set : after.cp0.epc ≡ (if Cp0.in_exception c.cp0 then c.cp0.epc else c.id_ex.pc)
  pub address_set :
      after.cp0.bad_vaddr ≡ (if is_fetch_trap c.id_ex.early_trap then c.id_ex.pc else 0)

-- A cycle in which the instruction in EX traps and the one in MEM does not is precise: the older
-- instructions in WB and MEM complete, neither the trapping instruction nor the two behind it reach a
-- later stage, the result is `Exception` at the vector, `EPC` gets its address unless an exception was
-- already being handled, and `BadVAddr` gets its address if its fetch failed, and 0 otherwise.
pub step-IsPreciseEx :
    (c : Cpu) (t : Trap)
    → (memory_access c.mem c.ex_mem).1.trap ≡ none
    → (execute c.cp0 c.id_ex c.ex_mem c.mem_wb).trap ≡ some t
    → IsPreciseEx c (step c).0 (step c).1
unfolding step commit run_stages Cp0.raise
step-IsPreciseEx c t m h =
    let u = execute-Stops c.cp0 c.id_ex c.ex_mem c.mem_wb t h in
    let taken = step-IsTrapped c t (rw m h) in
    record {
      older_completes = refl;
      memory_completes = refl;
      passed = refl;
      no_trapping = rw m u.bubble;
      no_decoded = taken.no_decoded;
      no_fetched = taken.no_fetched;
      result = taken.result;
      vectored = taken.vectored;
      epc_set =
          rw taken.entered (rw u.same_pc (if_swap (Cp0.in_exception c.cp0) c.id_ex.pc c.cp0.epc));
      address_set = rw taken.entered u.same_address;
    }
