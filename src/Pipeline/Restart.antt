-- ===== src/Pipeline/Restart.antt =====
-- The pipeline behind the interface: a reset undoes every cycle and every load.
use clear_core.Memory.Load.{load_words-size}
use clear_core.DataMemory.Laws.{store_data-size}
use clear_core.DataMemory.{load_data}
use clear_core.Text.{codes}
use clear_core.Memory.{Memory}
use clear_core.Processor.Backend.{Backend, IsRestartable, SameLoad}
use clear_core.Cp0.{ExceptionCode, exception_name}
use clear_core.Prelude.{List, ◌≡◌, true, ℕ, ◌+◌, Bool, arith, Option-cases, refl, some, inl, inr}
use clear_core.Memory
use clear_core.Registers
use clear_core.Cp0
use clear_core.Pipeline.Regs.{ExMem}
use clear_core.Pipeline.Stages.{memory_access, memory_load, memory_store}
use clear_core.Pipeline.{Cpu, step, reset, load_program, run_stages, commit}

memory_access-size : (m : Memory) (e : ExMem) → (memory_access m e).0.size ≡ m.size
unfolding memory_access memory_load memory_store
memory_access-size m e = ground (
  arith,
  Option-cases (load_data m e.opcode e.alu.value),
  store_data-size m e.opcode e.alu.value e.rt_val,
)

-- A cycle keeps the length of the memory and is counted.
step-keeps : (c : Cpu) → ((step c).0.mem.size ≡ c.mem.size) × ((step c).0.cycle ≡ c.cycle + 1)
unfolding step run_stages commit
step-keeps c = (memory_access-size c.mem c.ex_mem, refl)

-- The machine with no last exception named.
abbrev pub forget : Cpu → Cpu
forget c = record c { cp0 = record (c.cp0) { last_exc = ExceptionCode.ri } }

-- A reset that clears the memory keeps its length, and the name of the last exception.
reset_size :
    (c c' : Cpu) → c'.mem.size ≡ c.mem.size → forget (reset c' true) ≡ forget (reset c true)
unfolding reset Memory.reset Registers.reset Cp0.reset
reset_size c c' e = ground arith

load_program-keeps :
    (c c' : Cpu) (words : List ℕ) (addr : ℕ) (done : Bool)
    → load_program c words addr ≡ some (c', done)
    → (c'.mem.size ≡ c.mem.size) × (c'.cycle ≡ c.cycle)
unfolding load_program
load_program-keeps c c' words addr done h =
    elim (Option-cases (Memory.load_words c.mem addr words)) [
      | inl e ↦ absurd (cc (rw (e, load_program) at h))
      | inr (r, e) ↦
          let same = load_words-size c.mem r.0 addr words r.1 e in
          let h' = rw (e, load_program) at h in ground (arith, same)
    ]

load_program-SameLoad :
    (c d : Cpu) (words : List ℕ) (addr : ℕ)
    → forget c ≡ forget d
    → SameLoad forget (load_program c words addr) (load_program d words addr)
unfolding load_program
load_program-SameLoad c d words addr h =
    let same : d.mem ≡ c.mem = ground arith in
    elim (Option-cases (Memory.load_words c.mem addr words)) [
      | inl e ↦ rw (same, load_program) (rw (e, load_program) tt)
      | inr (r, e) ↦ rw (same, load_program) (rw (e, load_program) (ground arith, refl))
    ]

-- The pipeline as the front ends see it.
unfoldable pub pipelined : Backend Cpu
pipelined = record {
  load_program = load_program;
  step = step;
  reset = λ c. reset c true;
  pc = λ c. c.pc;
  cycle_count = λ c. c.cycle;
  pipeline_state = λ c. c.ps;
  trap = λ c. (codes (exception_name c.cp0.last_exc), c.cp0.epc);
}

-- What a front end relies on holds of it.
pub pipelined-IsRestartable : IsRestartable pipelined forget
unfolding pipelined reset Memory.reset
pipelined-IsRestartable = record {
  reset_step = λ c. reset_size c (step c).0 (step-keeps c).0;
  reset_reset = λ c. reset_size c (reset c true) refl;
  reset_load =
      λ c c' words addr done h. reset_size c c' (load_program-keeps c c' words addr done h).0;
  forget_load = load_program-SameLoad;
  count_step = λ c. (step-keeps c).1;
  count_reset = λ c. refl;
  count_load = λ c c' words addr done h. (load_program-keeps c c' words addr done h).1;
}
