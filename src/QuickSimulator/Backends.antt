-- ===== src/QuickSimulator/Backends.antt =====
-- `makeProcessor` of src/nsc_quick/quick_simulator.cpp: a processor of either model.
use clear_core.Cp0.{exception_name}
use clear_core.Memory.{Memory}
use clear_core.Registers.{RegisterFile}
use clear_core.SingleCycle
use clear_core.SingleCycle.Restart as Single
use clear_core.Pipeline.Restart as Piped
use clear_core.Pipeline
use clear_core.SingleCycle.Restart.{single_cycle, single_cycle-IsRestartable}
use clear_core.Pipeline.Restart.{pipelined, pipelined-IsRestartable}
use clear_core.Processor.{StepResult, PipelineState}
use clear_core.Processor.Backend.{Backend, IsRestartable, SameLoad}
use clear_core.Text.{Text, codes, same}
use clear_core.Prelude.{
  ℕ, Bool, Option, none, some, List, if◌then◌else◌, ◌^◌, ◌≡◌, ap, true, arith, ◌+◌,
}

pub data Machine : Type 0 where
  single : SingleCycle.Cpu → Machine
  five_stage : Pipeline.Cpu → Machine

abbrev pub memory_size : ℕ
memory_size = 2 ^ 20

unfoldable pub make_processor : Text → Machine
make_processor model =
    if same model (codes "single")
    then single (SingleCycle.create memory_size)
    else five_stage (Pipeline.create memory_size)

unfoldable pub regs : Machine → RegisterFile
regs (single c) = c.regs
regs (five_stage c) = c.regs

unfoldable pub mem : Machine → Memory
mem (single c) = c.mem
mem (five_stage c) = c.mem

abbrev pub wrapped {ℓ} : {A B : Type ℓ} → (A → B) → Option (A × Bool) → Option (B × Bool)
wrapped f none = none
wrapped f (some (a, done)) = some (f a, done)

-- The virtual calls.
abbrev pub load_program : Machine → List ℕ → ℕ → Option (Machine × Bool)
load_program (single c) words addr = wrapped single (SingleCycle.load_program c words addr)
load_program (five_stage c) words addr = wrapped five_stage (Pipeline.load_program c words addr)

abbrev pub step : Machine → Machine × StepResult
step (single c) = let (c', r) = SingleCycle.step c in (single c', r)
step (five_stage c) = let (c', r) = Pipeline.step c in (five_stage c', r)

abbrev pub reset : Machine → Machine
reset (single c) = single (SingleCycle.reset c true)
reset (five_stage c) = five_stage (Pipeline.reset c true)

unfoldable pub pc : Machine → ℕ
pc (single c) = c.pc
pc (five_stage c) = c.pc

unfoldable pub cycle_count : Machine → ℕ
cycle_count (single c) = c.cycle
cycle_count (five_stage c) = c.cycle

unfoldable pub pipeline_state : Machine → PipelineState
pipeline_state (single c) = c.ps
pipeline_state (five_stage c) = c.ps

unfoldable pub trap : Machine → Text × ℕ
trap (single c) = (codes (exception_name c.cp0.last_exc), c.cp0.epc)
trap (five_stage c) = (codes (exception_name c.cp0.last_exc), c.cp0.epc)

unfoldable pub machine : Backend Machine
machine = record {
  load_program = load_program;
  step = step;
  reset = reset;
  pc = pc;
  cycle_count = cycle_count;
  pipeline_state = pipeline_state;
  trap = trap;
}

-- Either machine with no last exception named.
unfoldable pub forget : Machine → Machine
forget (single c) = single (Single.forget c)
forget (five_stage c) = five_stage (Piped.forget c)

SameLoad-wrapped :
    {S : Type 0} (f : S → S) (g : S → Machine)
    → ((s t : S) → f s ≡ f t → forget (g s) ≡ forget (g t))
    → (o p : Option (S × Bool)) → SameLoad f o p
    → SameLoad forget (wrapped g o) (wrapped g p)
SameLoad-wrapped f g h none none e = tt
SameLoad-wrapped f g h none (some p) e = absurd e
SameLoad-wrapped f g h (some o) none e = absurd e
SameLoad-wrapped f g h (some (s, d)) (some (t, d')) e = (h s t e.0, e.1)

-- A load that `wrapped` shows is one of the machine inside.
pub wrapped-some :
    {S : Type 0} (g : S → Machine) (o : Option (S × Bool)) (m : Machine) (done : Bool)
    → wrapped g o ≡ some (m, done)
    → (s : S) × (o ≡ some (s, done)) × (m ≡ g s)
wrapped-some g none m done e = absurd (cc e)
wrapped-some g (some (s, d)) m done e = (s, ground arith, ground arith)

inside_single : SingleCycle.Cpu → Machine → SingleCycle.Cpu
inside_single d (single c) = c
inside_single d (five_stage c) = d

forget_single :
    (c d : SingleCycle.Cpu)
    → forget (single c) ≡ forget (single d)
    → Single.forget c ≡ Single.forget d
unfolding forget inside_single
forget_single c d e = ap (inside_single c) e

inside_five : Pipeline.Cpu → Machine → Pipeline.Cpu
inside_five d (single c) = d
inside_five d (five_stage c) = c

forget_five :
    (c d : Pipeline.Cpu)
    → forget (five_stage c) ≡ forget (five_stage d)
    → Piped.forget c ≡ Piped.forget d
unfolding forget inside_five
forget_five c d e = ap (inside_five c) e

machine-forget_load :
    (s t : Machine) (words : List ℕ) (addr : ℕ)
    → forget s ≡ forget t
    → SameLoad forget (load_program s words addr) (load_program t words addr)
unfolding forget single_cycle pipelined
machine-forget_load (single c) (single d) words addr e =
    SameLoad-wrapped Single.forget single (λ s t h. ap single h)
      (SingleCycle.load_program c words addr) (SingleCycle.load_program d words addr)
      (single_cycle-IsRestartable.forget_load c d words addr (forget_single c d e))
machine-forget_load (single c) (five_stage d) words addr e = absurd (cc e)
machine-forget_load (five_stage c) (single d) words addr e = absurd (cc e)
machine-forget_load (five_stage c) (five_stage d) words addr e =
    SameLoad-wrapped Piped.forget five_stage (λ s t h. ap five_stage h)
      (Pipeline.load_program c words addr) (Pipeline.load_program d words addr)
      (pipelined-IsRestartable.forget_load c d words addr (forget_five c d e))

-- A load as the machine inside does it.
machine-load :
    (s s' : Machine) (words : List ℕ) (addr : ℕ) (done : Bool)
    → load_program s words addr ≡ some (s', done)
    → (forget (reset s') ≡ forget (reset s)) × (cycle_count s' ≡ cycle_count s)
unfolding forget cycle_count single_cycle pipelined
machine-load (single c) s' words addr done e =
    let (c', loads, same) = wrapped-some single (SingleCycle.load_program c words addr) s' done e in
    rw same (
      ap single (single_cycle-IsRestartable.reset_load c c' words addr done loads),
      single_cycle-IsRestartable.count_load c c' words addr done loads,
    )
machine-load (five_stage c) s' words addr done e =
    let (c', loads, same) =
      wrapped-some five_stage (Pipeline.load_program c words addr) s' done e in
    rw same (
      ap five_stage (pipelined-IsRestartable.reset_load c c' words addr done loads),
      pipelined-IsRestartable.count_load c c' words addr done loads,
    )

machine-step :
    (s : Machine)
    → (forget (reset (step s).0) ≡ forget (reset s)) × (cycle_count (step s).0 ≡ cycle_count s + 1)
unfolding forget cycle_count single_cycle pipelined
machine-step (single c) =
    (ap single (single_cycle-IsRestartable.reset_step c), single_cycle-IsRestartable.count_step c)
machine-step (five_stage c) =
    (ap five_stage (pipelined-IsRestartable.reset_step c), pipelined-IsRestartable.count_step c)

machine-reset :
    (s : Machine) → (forget (reset (reset s)) ≡ forget (reset s)) × (cycle_count (reset s) ≡ 0)
unfolding forget cycle_count single_cycle pipelined
machine-reset (single c) =
    (ap single (single_cycle-IsRestartable.reset_reset c), single_cycle-IsRestartable.count_reset c)
machine-reset (five_stage c) =
    (ap five_stage (pipelined-IsRestartable.reset_reset c), pipelined-IsRestartable.count_reset c)

-- What a front end relies on holds of either machine.
pub machine-IsRestartable : IsRestartable machine forget
unfolding machine
machine-IsRestartable = record {
  reset_step = λ s. (machine-step s).0;
  reset_reset = λ s. (machine-reset s).0;
  reset_load = λ s s' words addr done e. (machine-load s s' words addr done e).0;
  forget_load = machine-forget_load;
  count_step = λ s. (machine-step s).1;
  count_reset = λ s. (machine-reset s).1;
  count_load = λ s s' words addr done e. (machine-load s s' words addr done e).1;
}
