-- ===== src/SingleCycle/Restart.antt =====
-- The single-cycle machine behind the interface: a reset undoes every step and every load.
use clear_core.Memory.Load.{load_words-size}
use clear_core.Control.{derive_control}
use clear_core.Text.{codes}
use clear_core.DataMemory.Laws.{store_data-size}
use clear_core.Processor.{StepResult}
use clear_core.Decoder.{DecodedInstr, InstrFormat, decode, get_i}
use clear_core.Processor.Backend.{Backend, IsRestartable, SameLoad}
use clear_core.Cp0.{ExceptionCode, exception_name}
use clear_core.Prelude.{
  List, ℕ, ◌≡◌, Bool, Option-cases, true, ◌+◌, arith, if_both, some, inl, inr, add32, not, refl,
}
use clear_core.Memory
use clear_core.Registers
use clear_core.Cp0
use clear_core.Alu
use clear_core.SingleCycle.{
  Cpu, Executed, raise, exec_cop0, exec_ralu, exec_rtype, done, exec_branch, exec_imem, exec_itype,
  exec_load, exec_store, exec_ialu, finish, conclude, dispatch_as, step, step_fetched, step_decoded,
  load_program, reset, ex_snapshot, ialu_result,
}

-- The length of the memory and the count of cycles, which no part of a step but its start changes.
abbrev Keeps : ℕ → ℕ → Cpu → Type 0
Keeps size cycle c = (c.mem.size ≡ size) × (c.cycle ≡ cycle)

module _ (size cycle : ℕ) where
  raise-Keeps :
      (c : Cpu) (code : ExceptionCode) (pc bad : ℕ)
      → Keeps size cycle c
      → Keeps size cycle (raise c code pc bad).0
  unfolding raise
  raise-Keeps c code pc bad k = k

  abbrev Goes : Executed → Type 0
  Goes e = Keeps size cycle e.cpu

  module _ (c : Cpu) (k : Keeps size cycle c) (d : DecodedInstr) where
    exec_cop0-Goes : (next_pc : ℕ) → Goes (exec_cop0 c d next_pc)
    unfolding exec_cop0
    exec_cop0-Goes next_pc = ground arith

    exec_ralu-Goes : (pc4 next_pc : ℕ) → Goes (exec_ralu c d pc4 next_pc)
    unfolding exec_ralu raise
    exec_ralu-Goes pc4 next_pc = ground arith

    exec_rtype-Goes : (pc4 next_pc : ℕ) → Goes (exec_rtype c d pc4 next_pc)
    unfolding exec_rtype raise
    exec_rtype-Goes pc4 next_pc = ground (arith, exec_cop0-Goes next_pc, exec_ralu-Goes pc4 next_pc)

    exec_branch-Goes : (pc4 next_pc : ℕ) → Goes (exec_branch c d pc4 next_pc)
    unfolding exec_branch
    exec_branch-Goes pc4 next_pc = ground arith

    exec_load-Goes : (addr pc4 next_pc : ℕ) → Goes (exec_load c d addr pc4 next_pc)
    unfolding exec_load raise
    exec_load-Goes addr pc4 next_pc = ground arith

    exec_store-Goes : (addr rt_val pc4 next_pc : ℕ) → Goes (exec_store c d addr rt_val pc4 next_pc)
    unfolding exec_store raise
    exec_store-Goes addr rt_val pc4 next_pc =
        ground (arith, store_data-size c.mem d.opcode addr rt_val)

    exec_ialu-Goes : (pc4 next_pc : ℕ) → Goes (exec_ialu c d pc4 next_pc)
    unfolding exec_ialu exec_imem raise
    exec_ialu-Goes pc4 next_pc = elim (Option-cases (Alu.control d)) [
      | inl e ↦ rw (e, exec_ialu) k
      | inr (op, e) ↦
          rw (e, exec_ialu)
            (let res = ialu_result c d op in
              let rt_val = Registers.read c.regs (get_i d).rt in
              ground (
                arith,
                exec_load-Goes res.value pc4 next_pc,
                exec_store-Goes res.value rt_val pc4 next_pc,
              ))
    ]

    dispatch_as-Goes : (f : InstrFormat) (pc4 : ℕ) → Goes (dispatch_as f c d pc4)
    unfolding dispatch_as exec_itype raise
    dispatch_as-Goes InstrFormat.j pc4 = ground arith
    dispatch_as-Goes InstrFormat.r pc4 = exec_rtype-Goes pc4 pc4
    dispatch_as-Goes InstrFormat.i pc4 =
        ground (arith, exec_branch-Goes pc4 pc4, exec_ialu-Goes pc4 pc4)
    dispatch_as-Goes InstrFormat.unknown pc4 = k

  conclude-Keeps :
      (r : StepResult) (cur_pc : ℕ) (c : Cpu) (next_pc : ℕ)
      → Keeps size cycle c
      → Keeps size cycle (conclude r cur_pc c next_pc).0
  unfolding conclude
  conclude-Keeps StepResult.exception cur_pc c next_pc k = k
  conclude-Keeps r cur_pc c next_pc k = k

  step_fetched-Keeps :
      (c : Cpu) (w : ℕ) → Keeps size cycle c → Keeps size cycle (step_fetched c w).0
  unfolding step_fetched step_decoded finish raise
  step_fetched-Keeps c w k = elim (Option-cases (decode w)) [
    | inl e ↦ rw (e, step_fetched) k
    | inr (d, e) ↦
        let c' = record c { ctrl = derive_control d; ps = ex_snapshot c.pc w c.cycle } in
        let out = dispatch_as d.format c' d (add32 c.pc 4) in
        let kept = dispatch_as-Goes c' k d d.format (add32 c.pc 4) in
        rw (e, step_fetched)
          (if_both {A = Cpu × StepResult} (λ p. Keeps size cycle p.0) (not out.returned) kept
            (conclude-Keeps out.exc c.pc out.cpu out.next_pc kept))
  ]

-- A step keeps the length of the memory and counts a cycle.
pub step-keeps : (c : Cpu) → ((step c).0.mem.size ≡ c.mem.size) × ((step c).0.cycle ≡ c.cycle + 1)
unfolding step raise
step-keeps c = elim (Option-cases (Memory.read_word c.mem c.pc)) [
  | inl e ↦ rw (e, step) (refl, refl)
  | inr (w, e) ↦
      rw (e, step)
        (step_fetched-Keeps c.mem.size (c.cycle + 1) (record c { cycle = c.cycle + 1 }) w
          (refl, refl))
]

-- The machine with no last exception named.
abbrev pub forget : Cpu → Cpu
forget c = record c { cp0 = record (c.cp0) { last_exc = ExceptionCode.ri } }

-- A reset that clears the memory keeps its length, and the name of the last exception.
reset_size :
    (c c' : Cpu) → c'.mem.size ≡ c.mem.size → forget (reset c' true) ≡ forget (reset c true)
unfolding reset Memory.reset Registers.reset Cp0.reset
reset_size c c' e = ground arith

load_program-keeps :
    (c c' : Cpu) (words : List ℕ) (addr : ℕ) (done : Bool)
    → load_program c words addr ≡ some (c', done)
    → (c'.mem.size ≡ c.mem.size) × (c'.cycle ≡ c.cycle)
unfolding load_program
load_program-keeps c c' words addr done h =
    elim (Option-cases (Memory.load_words c.mem addr words)) [
      | inl e ↦ absurd (cc (rw (e, load_program) at h))
      | inr (r, e) ↦
          let same = load_words-size c.mem r.0 addr words r.1 e in
          let h' = rw (e, load_program) at h in ground (arith, same)
    ]

load_program-SameLoad :
    (c d : Cpu) (words : List ℕ) (addr : ℕ)
    → forget c ≡ forget d
    → SameLoad forget (load_program c words addr) (load_program d words addr)
unfolding load_program
load_program-SameLoad c d words addr h =
    let same : d.mem ≡ c.mem = ground arith in
    elim (Option-cases (Memory.load_words c.mem addr words)) [
      | inl e ↦ rw (same, load_program) (rw (e, load_program) tt)
      | inr (r, e) ↦ rw (same, load_program) (rw (e, load_program) (ground arith, refl))
    ]

-- The single-cycle machine as the front ends see it.
unfoldable pub single_cycle : Backend Cpu
single_cycle = record {
  load_program = load_program;
  step = step;
  reset = λ c. reset c true;
  pc = λ c. c.pc;
  cycle_count = λ c. c.cycle;
  pipeline_state = λ c. c.ps;
  trap = λ c. (codes (exception_name (c.cp0.last_exc)), c.cp0.epc);
}

-- What a front end relies on holds of it.
pub single_cycle-IsRestartable : IsRestartable single_cycle forget
unfolding single_cycle reset Memory.reset
single_cycle-IsRestartable = record {
  reset_step = λ c. reset_size c (step c).0 (step-keeps c).0;
  reset_reset = λ c. reset_size c (reset c true) refl;
  reset_load =
      λ c c' words addr done h. reset_size c c' (load_program-keeps c c' words addr done h).0;
  forget_load = load_program-SameLoad;
  count_step = λ c. (step-keeps c).1;
  count_reset = λ c. refl;
  count_load = λ c c' words addr done h. (load_program-keeps c c' words addr done h).1;
}
