-- ===== src/SingleCycle/Reach.antt =====
-- The machine from power-on: a program is loaded, and `run` goes through it.
use clear_core.Prelude.{
  ℕ, arith, ◌≡◌, ◌≢◌, ◌<◌, ◌^◌, List, some, Bool, if_both, Option-cases, inl, inr, if◌then◌else◌,
}
use clear_core.Memory
use clear_core.Registers
use clear_core.Cp0
use clear_core.Memory.Load.{load_words-IsMemory}
use clear_core.Processor.{StepResult, run}
use clear_core.Processor.Run.{run-preserves, run-result}
use clear_core.SingleCycle.{Cpu, create, load_program, step, reset}
use clear_core.SingleCycle.Invariant.{IsCpu, step-IsCpu}
use clear_core.SingleCycle.Total.{step-ne-fault}

pub create-IsCpu : (size : ℕ) → IsCpu (create size)
unfolding create Memory.create Registers.fresh
create-IsCpu size = record {
  regs_fit = λ j. omega arith;
  mem_bytes = λ a. omega arith;
  cp0_fits = record {
    status_fits = omega arith;
    cause_fits = omega arith;
    epc_fits = omega arith;
    bad_vaddr_fits = omega arith;
  };
  pc_fits = omega arith;
}

pub load_program-IsCpu :
    (c : Cpu) (words : List ℕ) (addr : ℕ) {c' : Cpu} {done : Bool}
    → IsCpu c
    → addr < 2 ^ 32
    → load_program c words addr ≡ some (c', done)
    → IsCpu c'
unfolding load_program
load_program-IsCpu c words addr {c'} v h =
    elim (Option-cases (Memory.load_words c.mem addr words)) [
      | inl e ↦ rw (e, load_program) (λ none_is. cc)
      | inr ((m, b), e) ↦
          let loaded = record c { mem = m; pc = addr } in
          let refused = record c { mem = m } in
          rw (e, load_program)
            (λ same.
              let q : (if b then loaded else refused) ≡ c' = cc in
              rw (← q) (
                if_both {A = Cpu} IsCpu b
                  (with_memory m addr (load_words-IsMemory c.mem addr words v.mem_bytes e) h)
                  (with_memory m c.pc (load_words-IsMemory c.mem addr words v.mem_bytes e)
                    v.pc_fits)))
    ]
  where
    with_memory :
        (m : Memory.Memory) (pc : ℕ)
        → Memory.IsMemory m
        → pc < 2 ^ 32
        → IsCpu (record c { mem = m; pc = pc })
    with_memory m pc hm hp = record {
      regs_fit = v.regs_fit;
      mem_bytes = hm;
      cp0_fits = v.cp0_fits;
      pc_fits = hp;
    }

-- `reset` leaves a machine within its widths, whatever it was.
pub reset-IsCpu : (c : Cpu) (clear_memory : Bool) → IsCpu c → IsCpu (reset c clear_memory)
unfolding reset Memory.reset Cp0.reset Registers.reset
reset-IsCpu c clear_memory v = record {
  regs_fit = λ j. omega arith;
  mem_bytes =
      if_both {A = Memory.Memory} Memory.IsMemory clear_memory (λ a. omega arith) v.mem_bytes;
  cp0_fits = record {
    status_fits = omega arith;
    cause_fits = omega arith;
    epc_fits = omega arith;
    bad_vaddr_fits = omega arith;
  };
  pc_fits = omega arith;
}

-- A program that is loaded into a new machine of any size runs for any number of steps with every
-- word, byte and address within its width, and never to an internal error.
pub run-IsCpu :
    (size n : ℕ) (words : List ℕ) (addr : ℕ) {c : Cpu} {done : Bool}
    → addr < 2 ^ 32
    → load_program (create size) words addr ≡ some (c, done)
    → IsCpu (run step n c).0 × ((run step n c).1 ≢ StepResult.fault)
run-IsCpu size n words addr {c} h e = (
  run-preserves step IsCpu n _ step-IsCpu
      (load_program-IsCpu (create size) words addr (create-IsCpu size) h e),
  run-result step (λ r. r ≢ StepResult.fault) n c (ground arith) step-ne-fault,
)
