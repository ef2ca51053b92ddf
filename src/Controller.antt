-- ===== src/Controller.antt =====
-- src/nsc_qt/simulator_controller.cpp, include/nsc_qt/simulator_controller.h: the object that steps a
-- processor for both graphical front ends, keeps statistics and breakpoints, and sends signals.
-- Its timer is whether it is active and its interval; that of Qt calls `on_run_timer` while active.
pub mod Consistent
pub mod Restart
pub mod Runs
use clear_core.Text.{Text}
use clear_core.Processor.{StepResult, PipelineState}
use clear_core.Processor.Backend.{Backend}
use clear_core.Prelude.{
  ℕ, zero, suc, ◌+◌, ◌-◌, ◌*◌, ◌%◌, ◌^◌, min, Bool, true, false, not, ◌&&◌, ◌||◌, Option, none,
  some, List, [], ◌∷◌, ◌++◌, ◌==◌, if◌then◌else◌, length, ℤ, pos, negsuc,
}

pub record SimulatorStatistics : Type 0 where
  pub cycles_executed : ℕ
  pub instructions_retired : ℕ
  pub data_hazards : ℕ
  pub control_hazards : ℕ
  pub forwarding_events : ℕ
  pub stalls : ℕ
  pub flushes : ℕ

abbrev pub no_statistics : SimulatorStatistics
no_statistics = record {
  cycles_executed = 0;
  instructions_retired = 0;
  data_hazards = 0;
  control_hazards = 0;
  forwarding_events = 0;
  stalls = 0;
  flushes = 0;
}

pub record LoadedProgram : Type 0 where
  pub words : List ℕ
  pub addr : ℕ

pub record Timer : Type 0 where
  pub active : Bool
  pub interval : ℕ

-- Breakpoints are the addresses of the set, each once.
pub record Controller (S : Type 0) : Type 0 where
  pub processor : S
  pub breakpoints : List ℕ
  pub stats : SimulatorStatistics
  pub loaded : Option LoadedProgram
  pub run_timer : Timer

pub data Signal : Type 0 where
  cycle_executed : ℕ → Signal
  pipeline_state_changed : PipelineState → Signal
  statistics_updated : SimulatorStatistics → Signal
  program_loaded : ℕ → Signal
  halted : Signal
  faulted : Signal
  exception_raised : ℕ → Text → Signal
  breakpoint_hit : ℕ → Signal

-- `++` on a 64-bit counter, where the cycle counts there.
abbrev pub count_if : Bool → ℕ → ℕ
count_if counts n = if counts then (n + 1) % 2 ^ 64 else n

abbrev pub forwards : PipelineState → Bool
forwards ps = ps.fwd_ex_to_ex_a || (ps.fwd_ex_to_ex_b || (ps.fwd_mem_to_ex_a || ps.fwd_mem_to_ex_b))

unfoldable pub accumulate_stats : PipelineState → SimulatorStatistics → SimulatorStatistics
accumulate_stats ps stats = record {
  cycles_executed = count_if true stats.cycles_executed;
  instructions_retired = count_if ps.retired stats.instructions_retired;
  data_hazards = count_if ps.load_stall stats.data_hazards;
  control_hazards = count_if ps.branch_flush stats.control_hazards;
  forwarding_events = count_if (forwards ps) stats.forwarding_events;
  stalls = count_if ps.load_stall stats.stalls;
  flushes = count_if ps.branch_flush stats.flushes;
}

-- `std::unordered_set::count`, `insert` and `erase`.
unfoldable pub contains : ℕ → List ℕ → Bool
contains a [] = false
contains a (x ∷ xs) = x == a || contains a xs

unfoldable pub erase : ℕ → List ℕ → List ℕ
erase a [] = []
erase a (x ∷ xs) = let rest = erase a xs in if x == a then rest else x ∷ rest

unfoldable pub insert : ℕ → List ℕ → List ℕ
insert a xs = if contains a xs then xs else a ∷ xs

-- Not `Ok`.
abbrev pub stops : StepResult → Bool
stops StepResult.ok = false
stops StepResult.exception = true
stops StepResult.fault = true
stops StepResult.halt = true

-- `(100 - std::clamp(speed, 0, 100)) * 5`.
unfoldable pub interval_of : ℤ → ℕ
interval_of (pos speed) = (100 - min speed 100) * 5
interval_of (negsuc n) = 500

module _ {S : Type 0} where
  unfoldable pub stop : Controller S → Controller S
  stop c = record c { run_timer = record (c.run_timer) { active = false } }

  unfoldable pub run : Controller S → Controller S
  run c = record c { run_timer = record (c.run_timer) { active = true } }

  unfoldable pub is_running : Controller S → Bool
  is_running c = c.run_timer.active

  unfoldable pub set_breakpoint : ℕ → Controller S → Controller S
  set_breakpoint pc c = record c { breakpoints = insert pc c.breakpoints }

  unfoldable pub clear_breakpoint : ℕ → Controller S → Controller S
  clear_breakpoint pc c = record c { breakpoints = erase pc c.breakpoints }

  unfoldable pub has_breakpoint : ℕ → Controller S → Bool
  has_breakpoint pc c = contains pc c.breakpoints

  unfoldable pub set_execution_speed : ℤ → Controller S → Controller S
  set_execution_speed speed c = record c {
    run_timer = record (c.run_timer) { interval = interval_of speed };
  }

-- What a front end does between a load and a reset: it steps, runs, stops, lets the timer run out,
-- adds and removes breakpoints, and sets the speed.
pub data Use : Type 0 where
  stepping running stopping timing_out : Use
  adding removing : ℕ → Use
  pacing : ℤ → Use

module _ {S : Type 0} (b : Backend S) where
  unfoldable pub create : S → Controller S
  create processor = record {
    processor = processor;
    breakpoints = [];
    stats = no_statistics;
    loaded = none;
    run_timer = record { active = false; interval = 0 };
  }

  -- The emptied machine of `loadProgram` and `reset`, before the program is loaded.
  unfoldable pub emptied : Controller S → Controller S
  unfolding stop
  emptied c = record (stop c) { processor = b.reset c.processor; stats = no_statistics }

  abbrev pub state_of : Controller S → Signal
  state_of c = pipeline_state_changed (b.pipeline_state c.processor)

  -- The controller, the signals it sends and what it returns; `none` ends the program.
  unfoldable pub load_program :
      Controller S → List ℕ → ℕ → Option (Controller S × List Signal × Bool)
  unfolding emptied
  load_program c words addr =
      let c' = record (emptied c) { loaded = none } in
      elim (b.load_program c'.processor words addr) [
        | none ↦ none
        | some (s, true) ↦
            let c'' = record c' {
              processor = s;
              loaded = some (record { words = words; addr = addr });
            } in
            some (c'', program_loaded (length words) ∷ state_of c'' ∷ [], true)
        | some (s, false) ↦
            let c'' = record c' { processor = s } in some (c'', state_of c'' ∷ [], false)
      ]

  -- The program that `reset` loads again.
  unfoldable pub reload : Option LoadedProgram → Controller S → Option (Controller S)
  reload none c = some c
  reload (some p) c = elim (b.load_program c.processor p.words p.addr) [
    | none ↦ none
    | some (s, true) ↦ some (record c { processor = s })
    | some (s, false) ↦ some (record c { processor = s; loaded = none })
  ]

  unfoldable pub reset : Controller S → Option (Controller S × List Signal)
  unfolding emptied reload
  reset c = elim (reload c.loaded (emptied c)) [
    | none ↦ none
    | some c' ↦ some (c', state_of c' ∷ statistics_updated c'.stats ∷ [])
  ]

  -- The processor's step and the statistics.
  unfoldable pub advance : Controller S → Controller S × StepResult
  unfolding accumulate_stats
  advance c =
      let (s, result) = b.step c.processor in
      (record c { processor = s; stats = accumulate_stats (b.pipeline_state s) c.stats }, result)

  -- The step ended on a breakpoint.
  unfoldable pub is_hit : Controller S → StepResult → Bool
  is_hit c result = not (stops result) && contains (b.pc c.processor) c.breakpoints

  unfoldable pub stop_if_due : Controller S → StepResult → Controller S
  unfolding is_hit stop
  stop_if_due c result = if stops result || is_hit c result then stop c else c

  -- The updates of a fast run are sent every 5000 cycles only.
  unfoldable pub is_throttled : Controller S → Bool
  is_throttled c =
      c.run_timer.active
      && (c.run_timer.interval == 0 && not ((b.cycle_count c.processor % 2 ^ 64) % 5000 == 0))

  unfoldable pub updates : Controller S → StepResult → List Signal
  unfolding is_throttled is_hit
  updates c result =
      if not (is_throttled c) || (stops result || is_hit c result)
      then cycle_executed (b.cycle_count c.processor % 2 ^ 64)
        ∷ state_of c
        ∷ statistics_updated c.stats
        ∷ []
      else []

  unfoldable pub last_signal : Controller S → StepResult → List Signal
  unfolding is_hit
  last_signal c StepResult.halt = halted ∷ []
  last_signal c StepResult.fault = faulted ∷ []
  last_signal c StepResult.exception =
      let (name, epc) = b.trap c.processor in exception_raised epc name ∷ []
  last_signal c StepResult.ok =
      if is_hit c StepResult.ok then breakpoint_hit (b.pc c.processor) ∷ [] else []

  unfoldable pub do_step : Controller S → Controller S × List Signal
  unfolding advance stop_if_due updates last_signal
  do_step c =
      let (stepped, result) = advance c in
      let c' = stop_if_due stepped result in (c', updates c' result ++ last_signal c' result)

  unfoldable pub step_cycle : Controller S → Controller S × List Signal
  unfolding do_step
  step_cycle c = do_step c

  -- A timeout of the timer, which an inactive one does not have.
  unfoldable pub on_run_timer : Controller S → Controller S × List Signal
  unfolding do_step
  on_run_timer c = if c.run_timer.active then do_step c else (c, [])

  -- This many timeouts.
  unfoldable pub timeouts : ℕ → Controller S → Controller S
  unfolding on_run_timer
  timeouts zero c = c
  timeouts (suc n) c = timeouts n (on_run_timer c).0

  unfoldable pub perform : Use → Controller S → Controller S
  unfolding do_step on_run_timer stop run set_breakpoint clear_breakpoint set_execution_speed
  perform stepping c = (do_step c).0
  perform running c = run c
  perform stopping c = stop c
  perform timing_out c = (on_run_timer c).0
  perform (adding pc) c = set_breakpoint pc c
  perform (removing pc) c = clear_breakpoint pc c
  perform (pacing speed) c = set_execution_speed speed c

  unfoldable pub perform_all : List Use → Controller S → Controller S
  unfolding perform
  perform_all [] c = c
  perform_all (u ∷ us) c = perform_all us (perform u c)
