-- ===== src/Tests/FrontEnds.antt =====
-- Concrete runs of the disassembler, the controller and the Qt Quick front end, and an instance of
-- each theorem about them that has hypotheses.
use clear_core.PipelineDiagram.Fetched.{IsFetched, Some}
use clear_core.PipelineDiagram.Window.{IsDiagram, InWindow, is_active, update_diagram-InWindow}
use clear_core.PipelineDiagram.{PipelineDiagram, update_diagram}
use clear_core.PipelineEvents.Repeats.{update_cycle-again}
use clear_core.PipelineEvents.{EventLog, update_cycle}
use native.Mathlib.Decide.{dec_lt}
use clear_core.Registers.{fresh}
use clear_core.Memory.{read_half}
use clear_core.Memory.{read_byte}
use clear_core.Memory.{load_loop}
use clear_core.Memory.{in_bounds}
use clear_core.Decoder.{sign_extend}
use clear_core.Decoder.{implemented_special}
use clear_core.Decoder.{format_of}
use clear_core.Decoder.{decode_as}
use clear_core.DataMemory.{store_data}
use clear_core.DataMemory.{load_data}
use clear_core.Cp0.{write}
use clear_core.Cp0.{read}
use clear_core.Cp0.{raise}
use clear_core.Cp0.{in_exception}
use clear_core.Cp0.{exception_name}
use clear_core.Cp0.{eret}
use clear_core.Control.{r_type_control}
use clear_core.Control.{i_type_control}
use clear_core.Control.{derive_control}
use clear_core.Alu.{r_type_op}
use clear_core.Alu.{overflow_sub}
use clear_core.Alu.{overflow_add}
use clear_core.Alu.{i_type_op}
use clear_core.Alu.{execute}
use clear_core.Alu.{control}
use clear_core.Alu.{compute}
use clear_core.Memory.{write_word}
use clear_core.Memory.{read_word}
use clear_core.Memory.{create}
use clear_core.Memory.{load_words}
use clear_core.Text.Numbers.{below}
use clear_core.Text.Numbers.{digit_loop}
use clear_core.Text.Numbers.{plus_text}
use clear_core.Registers.{register_abi_name}
use clear_core.Decoder.{mnemonic}
use clear_core.Decoder.{to_funct}
use clear_core.Decoder.{bits}
use clear_core.Decoder.{to_opcode}
use clear_core.Assembler.{assemble}
use clear_core.Controller
use clear_core.Controller.{Controller, Use, perform, perform_all, timeouts}
use clear_core.Controller.Consistent.{IsConsistent, Reach, Reach-IsConsistent}
use clear_core.Controller.Restart.{reset-load_program}
use clear_core.Controller.Runs.{timeouts-run, watched}
use clear_core.Decoder.{decode}
use clear_core.Disassembler.{format_instr}
use clear_core.Disassembler.Listed.{assemble-format_instr}
use clear_core.Processor.{run, PipelineState}
use clear_core.SingleCycle
use clear_core.SingleCycle.Restart.{single_cycle, single_cycle-IsRestartable, forget}
use clear_core.Text.{codes}
use clear_core.Prelude.{◌≡◌, refl, ◌∷◌, [], none, some, List, ℕ, arith, not, false, true, All, ◌⊎◌}

-- add $t0, $t1, $t2
shown_add : format_instr 0x012A4020 0 ≡ codes "add $t0, $t1, $t2"
unfolding format_instr decode to_opcode bits to_funct mnemonic register_abi_name
shown_add = refl

shown_branch : format_instr 0x1500fffe 8 ≡ codes "bne $t0, $zero, -2"
unfolding format_instr decode to_opcode bits mnemonic register_abi_name plus_text digit_loop below
    dec_lt
shown_branch = refl

assemble-format_instr_example :
    assemble (format_instr 0x012A4020 0) ≡ record { words = 0x012A4020 ∷ []; error = none }
unfolding decode to_opcode bits to_funct
assemble-format_instr_example = assemble-format_instr 0x012A4020 0 (omega arith) refl refl

-- Two instructions in a new single-cycle machine: addiu $t0, $zero, 3; addiu $t0, $t0, 1.
abbrev two_words : List ℕ
two_words = 0x24080003 ∷ 0x25080001 ∷ []

abbrev new_controller : Controller SingleCycle.Cpu
new_controller = Controller.create single_cycle (SingleCycle.create 16)

Reach-IsConsistent_example :
    IsConsistent single_cycle (perform single_cycle Use.stepping new_controller)
unfolding single_cycle SingleCycle.create
Reach-IsConsistent_example =
    Reach-IsConsistent single_cycle forget single_cycle-IsRestartable (SingleCycle.create 16)
      (perform single_cycle Use.stepping new_controller) refl
      (Reach.uses Use.stepping Reach.created)

abbrev loaded_controller : Controller SingleCycle.Cpu
loaded_controller = elim (Controller.load_program single_cycle new_controller two_words 0) [
  | none ↦ new_controller
  | some (c, sent, done) ↦ c
]

reset-load_program_example :
    (after : Controller SingleCycle.Cpu) × (Controller.reset single_cycle
        (perform_all single_cycle (Use.stepping ∷ Use.stopping ∷ []) loaded_controller)
      ≡ some (
        after,
        Controller.state_of single_cycle after
            ∷ Controller.statistics_updated Controller.no_statistics
            ∷ [],
      ))
    × (forget after.processor ≡ forget loaded_controller.processor)
    × (after.loaded ≡ some (record { words = two_words; addr = 0 }))
    × (after.stats ≡ Controller.no_statistics)
    × (after.run_timer.active ≡ false)
unfolding Controller.load_program single_cycle SingleCycle.load_program load_words SingleCycle.reset
    clear_core.Memory.reset Controller.create SingleCycle.create create
reset-load_program_example =
    reset-load_program single_cycle forget single_cycle-IsRestartable new_controller
      loaded_controller two_words 0
      (Controller.program_loaded 2 ∷ Controller.state_of single_cycle loaded_controller ∷ [])
      (Use.stepping ∷ Use.stopping ∷ []) refl

-- It runs, with a breakpoint behind its first instruction.
abbrev running_controller : Controller SingleCycle.Cpu
running_controller = Controller.run (Controller.set_breakpoint 4 loaded_controller)

timeouts-run_example :
    ((timeouts single_cycle 3 running_controller).processor
      ≡ (run (watched single_cycle (4 ∷ [])) 3 running_controller.processor).0)
    × ((timeouts single_cycle 3 running_controller).run_timer.active
        ≡ not (
            Controller.stops
              (run (watched single_cycle (4 ∷ [])) 3 running_controller.processor).1))
unfolding Controller.load_program Controller.run Controller.set_breakpoint Controller.insert
    Controller.contains single_cycle SingleCycle.load_program clear_core.Memory.load_words watched
    run SingleCycle.reset clear_core.Memory.reset Controller.create SingleCycle.step
    SingleCycle.create clear_core.Memory.create
timeouts-run_example = timeouts-run single_cycle 3 running_controller refl

three_timeouts :
    ((timeouts single_cycle 3 running_controller).processor.pc ≡ 4)
    × ((timeouts single_cycle 3 running_controller).processor.regs.raw 8 ≡ 3)
unfolding Controller.load_program timeouts Controller.run single_cycle SingleCycle.step read_word
    Controller.set_breakpoint SingleCycle.load_program load_words SingleCycle.reset
    clear_core.Memory.reset Controller.create SingleCycle.create create write_word decode to_opcode
    bits compute control execute i_type_op overflow_add overflow_sub r_type_op derive_control
    i_type_control r_type_control Controller.accumulate_stats Controller.advance Controller.contains
    Controller.do_step Controller.emptied Controller.insert Controller.is_hit
    Controller.is_throttled Controller.last_signal Controller.on_run_timer Controller.stop
    Controller.stop_if_due Controller.updates eret exception_name in_exception raise read
    clear_core.Cp0.reset write load_data store_data to_funct decode_as format_of implemented_special
    sign_extend in_bounds load_loop read_byte read_half fresh clear_core.Registers.read
    clear_core.Registers.reset clear_core.Registers.write SingleCycle.conclude SingleCycle.dispatch
    SingleCycle.dispatch_as SingleCycle.exec_branch SingleCycle.exec_cop0 SingleCycle.exec_ialu
    SingleCycle.exec_imem SingleCycle.exec_itype SingleCycle.exec_load SingleCycle.exec_ralu
    SingleCycle.exec_rtype SingleCycle.exec_store SingleCycle.finish SingleCycle.raise
    SingleCycle.step_decoded SingleCycle.step_fetched
three_timeouts = (refl, refl)

-- A load-use stall of lw $t1, 0($zero) in EX that lasts two cycles is one entry.
abbrev stalled : PipelineState
stalled = record (SingleCycle.create 4).ps {
  cycle = 7;
  load_stall = true;
  stage_if = record (SingleCycle.create 4).ps.stage_if { valid = true; pc = 8; raw = 0 };
  stage_ex = record (SingleCycle.create 4).ps.stage_ex { valid = true; raw = 0x8c09_0000 };
}

abbrev no_events : EventLog
no_events = record { list = []; count = 0; recent = [] }

update_cycle-again_example :
    (update_cycle (record stalled { cycle = 8 }) (update_cycle stalled no_events)).list
    ≡ (update_cycle stalled no_events).list
update_cycle-again_example = update_cycle-again stalled no_events

one_entry : (update_cycle stalled no_events).count ≡ 1
unfolding update_cycle SingleCycle.create
one_entry = refl

abbrev no_diagram : PipelineDiagram
no_diagram = record { rows = []; last_shown = 0; dirty = false }

update_diagram-InWindow_example :
    IsDiagram (update_diagram true stalled no_diagram)
    × All (InWindow 7) (update_diagram true stalled no_diagram).rows
    × ((is_active stalled.stage_if ≡ false)
        ⊎ Some (IsFetched stalled.stage_if.pc 7) (update_diagram true stalled no_diagram).rows)
update_diagram-InWindow_example = update_diagram-InWindow true stalled no_diagram (omega arith) tt
