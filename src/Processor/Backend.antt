-- ===== src/Processor/Backend.antt =====
-- include/isa/processor.h: the operations of `IProcessor` that a front end calls, and what it
-- relies on when it empties a machine and loads a program again.
use clear_core.Text.{Text}
use clear_core.Processor.{StepResult, PipelineState}
use clear_core.Prelude.{ℕ, ◌+◌, ◌≡◌, Bool, Option, none, some, List}

-- The virtual functions. `reset` clears the memory too; `none` of `load_program` is a violation of
-- what it expects. `trap` is the name and address of the last exception that a MIPS machine shows.
pub record Backend (S : Type 0) : Type 0 where
  pub load_program : S → List ℕ → ℕ → Option (S × Bool)
  pub step : S → S × StepResult
  pub reset : S → S
  pub pc : S → ℕ
  pub cycle_count : S → ℕ
  pub pipeline_state : S → PipelineState
  pub trap : S → Text × ℕ

-- Two loads that end the program both, or give machines that differ in what `forget` takes away only.
abbrev pub SameLoad : {S : Type 0} → (S → S) → Option (S × Bool) → Option (S × Bool) → Type 0
SameLoad forget none none = Unit
SameLoad forget (some (s, done)) (some (t, done')) = (forget s ≡ forget t) × (done ≡ done')
SameLoad forget _ _ = ⊥

-- A reset makes a machine forget its program and its run, but perhaps for what `forget` takes away
-- from it, which no load looks at; and only resets and steps move the count of its cycles.
pub record IsRestartable {S : Type 0} (b : Backend S) (forget : S → S) : Type 0 where
  pub reset_step : (s : S) → forget (b.reset (b.step s).0) ≡ forget (b.reset s)
  pub reset_reset : (s : S) → forget (b.reset (b.reset s)) ≡ forget (b.reset s)
  pub reset_load :
      (s s' : S) (words : List ℕ) (addr : ℕ) (done : Bool)
      → b.load_program s words addr ≡ some (s', done)
      → forget (b.reset s') ≡ forget (b.reset s)
  pub forget_load :
      (s t : S) (words : List ℕ) (addr : ℕ)
      → forget s ≡ forget t
      → SameLoad forget (b.load_program s words addr) (b.load_program t words addr)
  pub count_step : (s : S) → b.cycle_count (b.step s).0 ≡ b.cycle_count s + 1
  pub count_reset : (s : S) → b.cycle_count (b.reset s) ≡ 0
  pub count_load :
      (s s' : S) (words : List ℕ) (addr : ℕ) (done : Bool)
      → b.load_program s words addr ≡ some (s', done)
      → b.cycle_count s' ≡ b.cycle_count s
