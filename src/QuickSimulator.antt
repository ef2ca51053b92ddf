-- ===== src/QuickSimulator.antt =====
-- src/nsc_quick/quick_simulator.cpp, include/nsc_quick/quick_simulator.h: what the Qt Quick front end
-- keeps and does. The controller's signals are handled in the order in which they are sent. The
-- notifications to QML, which change nothing here, are left out.
pub mod Backends
pub mod Trace
pub mod View
pub mod Dump
pub mod Signals
pub mod Loaded
pub mod Restart
pub mod Grid
pub mod Paced
pub mod Coherent
pub mod Session
pub mod Stepped
use Backends.{Machine, machine, make_processor}
use Trace.{TraceRow, TraceView, append_trace, view_row, hex32}
use View.{RegisterModel, StageView, Hazards, reset_all, refresh, view_stage, view_hazards}
use Dump.{rows_from}
use clear_core.Assembler
use clear_core.Controller
use clear_core.Controller.{
  Controller, SimulatorStatistics, Signal, no_statistics, cycle_executed, pipeline_state_changed,
  statistics_updated, program_loaded, halted, faulted, exception_raised, breakpoint_hit,
}
use clear_core.Memory.{Memory, read_byte}
use clear_core.Processor.{PipelineState, StageSnapshot}
use clear_core.Registers.{RegisterFile}
use clear_core.Text.{Text, codes, same, starts_with, is_empty}
use clear_core.Text.Numbers.{to_decimal, to_lower_hex, zero_filled}
use clear_core.Prelude.{
  ℕ, zero, suc, ◌+◌, ◌-◌, ◌*◌, ◌%◌, ◌^◌, Bool, true, false, not, ◌&&◌, ◌||◌, Option, none, some,
  List, [], ◌∷◌, ◌++◌, map, ◌==◌, leb, ltb, if◌then◌else◌, length, ℤ, pos, negsuc, add32,
}

pub record QuickSimulator : Type 0 where
  pub ctl : Controller Machine
  pub reg_model : RegisterModel
  pub stages : List StageView
  pub hazards : Option Hazards
  pub stats : SimulatorStatistics
  pub trace : List TraceRow
  pub trace_rows_cache : List TraceView
  pub last_program : List ℕ
  pub status : Text
  pub model : Text
  pub speed : ℕ
  pub program_loaded : Bool

abbrev pub stages_of : PipelineState → List StageSnapshot
stages_of ps = ps.stage_if ∷ ps.stage_id ∷ ps.stage_ex ∷ ps.stage_mem ∷ ps.stage_wb ∷ []

-- `appendTrace`, with the cache that it rebuilds.
unfoldable pub append_to_trace : PipelineState → QuickSimulator → QuickSimulator
append_to_trace ps q = elim (append_trace ps (stages_of ps) q.trace) [
  | none ↦ q
  | some rows ↦ record q { trace = rows; trace_rows_cache = map view_row rows }
]

unfoldable pub on_pipeline : PipelineState → QuickSimulator → QuickSimulator
unfolding append_to_trace
on_pipeline ps q = append_to_trace ps (record q {
  stages = map view_stage (stages_of ps);
  hazards = some (view_hazards ps);
  reg_model = refresh (Backends.regs q.ctl.processor) q.reg_model;
})

unfoldable pub set_status : Text → QuickSimulator → QuickSimulator
set_status s q = record q { status = s }

-- What `connectController` connects.
unfoldable pub handle : Signal → QuickSimulator → QuickSimulator
unfolding on_pipeline set_status
handle (pipeline_state_changed ps) q = on_pipeline ps q
handle (statistics_updated s) q = record q { stats = s }
handle halted q = set_status (codes "Halted") q
handle faulted q = set_status (codes "Faulted") q
handle (exception_raised epc name) q =
    set_status (codes "Exception " ++ (name ++ (codes " @ " ++ hex32 epc))) q
handle (breakpoint_hit pc) q = set_status (codes "Breakpoint @ " ++ hex32 pc) q
handle _ q = q

unfoldable pub handle_all : List Signal → QuickSimulator → QuickSimulator
unfolding handle
handle_all [] q = q
handle_all (s ∷ signals) q = handle_all signals (handle s q)

-- The caches that a reset, a load and a new model empty.
unfoldable pub emptied : QuickSimulator → QuickSimulator
emptied q = record q {
  stats = no_statistics;
  trace = [];
  trace_rows_cache = [];
  reg_model = reset_all q.reg_model;
}

abbrev pub too_large : Text
too_large = codes "Program too large for memory."

-- `none` ends the program: the words are loaded against what `load_words` expects.
unfoldable pub load_last : QuickSimulator → Option QuickSimulator
unfolding handle_all
load_last q = elim (Controller.load_program machine q.ctl q.last_program 0) [
  | none ↦ none
  | some (ctl, sent, done) ↦
      some (record (handle_all sent (record q { ctl = ctl })) { program_loaded = done })
]

unfoldable pub rebuild_controller : QuickSimulator → Option QuickSimulator
unfolding emptied load_last set_status
rebuild_controller q =
    let ctl =
      Controller.set_execution_speed (pos q.speed)
        (Controller.create machine (make_processor q.model)) in
    let q' = record (emptied (record q { ctl = ctl })) { stages = []; hazards = none } in
    elim (if is_empty q'.last_program then some q' else load_last q') [
      | none ↦ none
      | some q'' ↦ some (set_status (codes "Idle") q'')
    ]

-- The constructor; the controller of `start` is replaced at once.
unfoldable pub start : QuickSimulator
start = record {
  ctl = Controller.create machine (make_processor (codes "pipelined"));
  reg_model = record { values = λ _. 0; last_written = none };
  stages = [];
  hazards = none;
  stats = no_statistics;
  trace = [];
  trace_rows_cache = [];
  last_program = [];
  status = codes "Idle";
  model = codes "pipelined";
  speed = 60;
  program_loaded = false;
}

unfoldable pub create : Option QuickSimulator
create = rebuild_controller start

-- After a manual step: an idle simulator, or one on a breakpoint, is paused.
unfoldable pub paused : QuickSimulator → QuickSimulator
paused q =
    if same q.status (codes "Idle") || starts_with (codes "Breakpoint") q.status
    then set_status (codes "Paused") q
    else q

unfoldable pub step : QuickSimulator → QuickSimulator
unfolding handle_all paused
step q =
    if not q.program_loaded
    then q
    else (let (ctl, sent) = Controller.step_cycle machine q.ctl in
        paused (handle_all sent (record q { ctl = ctl })))

unfoldable pub run_pause : QuickSimulator → QuickSimulator
run_pause q =
    if not q.program_loaded
    then q
    else if Controller.is_running q.ctl
    then set_status (codes "Paused") (record q { ctl = Controller.stop q.ctl })
    else set_status (codes "Running") (record q { ctl = Controller.run q.ctl })

-- A timeout of the controller's timer.
unfoldable pub time_out : QuickSimulator → QuickSimulator
unfolding handle_all
time_out q =
    let (ctl, sent) = Controller.on_run_timer machine q.ctl in
    handle_all sent (record q { ctl = ctl })

unfoldable pub reset : QuickSimulator → Option QuickSimulator
unfolding emptied handle_all
reset q =
    let q' = record (emptied (record q { ctl = Controller.stop q.ctl })) {
      stages = [];
      hazards = none;
    } in
    elim (Controller.reset machine q'.ctl) [
      | none ↦ none
      | some (ctl, sent) ↦
          some (set_status (codes "Idle") (handle_all sent (record q' { ctl = ctl })))
    ]

-- The simulator and the message, empty on success.
unfoldable pub loaded_message : QuickSimulator → QuickSimulator × Text
loaded_message q = if not q.program_loaded then (set_status too_large q, too_large) else (
  set_status (codes "Loaded " ++ (to_decimal (length q.last_program) ++ codes " instructions")) q,
  [],
)

unfoldable pub assemble_and_load : Text → QuickSimulator → Option (QuickSimulator × Text)
unfolding load_last emptied loaded_message handle_all
assemble_and_load source q =
    let result = Assembler.assemble source in
    elim result.error [
      | some msg ↦ some (q, msg)
      | none ↦ elim (Controller.reset machine (Controller.stop q.ctl)) [
        | none ↦ none
        | some (ctl, sent) ↦
            let q' = record (handle_all sent (record q { ctl = ctl })) {
              last_program = result.words;
            } in
            elim (load_last q') [ none ↦ none | some q'' ↦ some (loaded_message (emptied q'')) ]
      ]
    ]

unfoldable pub toggle_breakpoint : ℕ → QuickSimulator → QuickSimulator
toggle_breakpoint pc q =
    if Controller.has_breakpoint pc q.ctl
    then record q { ctl = Controller.clear_breakpoint pc q.ctl }
    else record q { ctl = Controller.set_breakpoint pc q.ctl }

-- `std::clamp(s, 0, 100)`.
abbrev pub clamped : ℤ → ℕ
clamped (pos n) = if ltb 100 n then 100 else n
clamped (negsuc n) = 0

unfoldable pub set_speed : ℤ → QuickSimulator → QuickSimulator
set_speed s q =
    let speed = clamped s in
    if speed == q.speed
    then q
    else record q { speed = speed; ctl = Controller.set_execution_speed (pos speed) q.ctl }

unfoldable pub set_model : Text → QuickSimulator → Option QuickSimulator
unfolding rebuild_controller
set_model m q =
    if same m q.model || (not (same m (codes "pipelined")) && not (same m (codes "single")))
    then some q
    else rebuild_controller (record q { model = m })

unfoldable pub memory_rows : ℕ → ℕ → QuickSimulator → List Text
unfolding rows_from
memory_rows base rows q = rows_from (Backends.mem q.ctl.processor) (base - base % 16) rows
