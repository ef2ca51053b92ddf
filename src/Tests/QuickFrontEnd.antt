-- ===== src/Tests/QuickFrontEnd.antt =====
-- Concrete runs of the Qt Quick front end, and an instance of each theorem about it.
use clear_core.Alu.{execute}
use clear_core.Alu.{control}
use clear_core.Decoder.{to_funct}
use clear_core.Decoder.{bits}
use clear_core.Decoder.{to_opcode}
use clear_core.Decoder.{decode}
use clear_core.Text.{same}
use clear_core.Text.{find}
use clear_core.Text.{get_lines}
use clear_core.Assembler.Lines.{scan_lines}
use clear_core.Assembler.{assemble, AssemblerResult}
use clear_core.Controller
use clear_core.Pipeline
use clear_core.SingleCycle
use clear_core.Memory
use clear_core.Memory.{load_words, load_loop, in_bounds, write_word, create}
use clear_core.QuickSimulator.Trace.{append_trace}
use clear_core.Text.Numbers.{to_decimal}
use clear_core.QuickSimulator.Backends.{make_processor}
use clear_core.QuickSimulator
use clear_core.QuickSimulator.{QuickSimulator, start, assemble_and_load, toggle_breakpoint, reset}
use clear_core.QuickSimulator.Backends
use clear_core.QuickSimulator.Backends.{machine, forget}
use clear_core.QuickSimulator.Coherent.{IsCoherent}
use clear_core.QuickSimulator.Restart.{Action, act, act_all, reset-assemble_and_load}
use clear_core.QuickSimulator.Session.{Session, Session-IsCoherent}
use clear_core.QuickSimulator.Stepped.{step-is_hit}
use clear_core.Text.{Text, codes}
use clear_core.Prelude.{◌≡◌, refl, ◌∷◌, [], none, some, true, ap, false}

abbrev source : Text
source = codes "nop\n"

source_words : assemble source ≡ record { words = 0 ∷ []; error = none }
unfolding assemble scan_lines get_lines find same
source_words = refl

source-IsAssembled : (assemble source).error ≡ none
source-IsAssembled = ap (λ (r : AssemblerResult). r.error) source_words

abbrev loaded : QuickSimulator
loaded = elim (assemble_and_load source start) [ none ↦ start | some (q, message) ↦ q ]

loaded-IsLoaded : assemble_and_load source start ≡ some (loaded, [])
unfolding assemble_and_load assemble scan_lines get_lines find same Controller.reset start
    Controller.create Controller.emptied Controller.stop Controller.reload QuickSimulator.handle_all
    QuickSimulator.handle QuickSimulator.on_pipeline QuickSimulator.append_to_trace append_trace
    QuickSimulator.load_last Controller.load_program machine Pipeline.load_program load_words
    load_loop in_bounds write_word Pipeline.create create Pipeline.reset Memory.reset
    QuickSimulator.loaded_message QuickSimulator.set_status make_processor QuickSimulator.emptied
    to_decimal Backends.pipeline_state
loaded-IsLoaded = refl

-- The new front end, as its constructor leaves it.
abbrev created : QuickSimulator
created = elim QuickSimulator.create [ none ↦ start | some q ↦ q ]

Session-IsCoherent_example : IsCoherent (act Action.running (act (Action.toggling 4) created))
unfolding QuickSimulator.create QuickSimulator.rebuild_controller start
Session-IsCoherent_example =
    Session-IsCoherent (act Action.running (act (Action.toggling 4) created))
      (Session.acts Action.running (Session.acts (Action.toggling 4) (Session.created refl)))

reset-assemble_and_load_example :
    (after : QuickSimulator) × (reset (act_all (Action.stepping ∷ Action.running ∷ []) loaded)
      ≡ some after)
    × (forget after.ctl.processor ≡ forget loaded.ctl.processor)
    × (after.reg_model.values ≡ (Backends.regs after.ctl.processor).raw)
    × (after.stats ≡ Controller.no_statistics)
    × (after.status ≡ codes "Idle")
    × (Controller.is_running after.ctl ≡ false)
reset-assemble_and_load_example =
    reset-assemble_and_load source start loaded (Action.stepping ∷ Action.running ∷ [])
      source-IsAssembled loaded-IsLoaded

-- A single-cycle machine before the instruction of a breakpoint.
abbrev before_breakpoint : QuickSimulator
before_breakpoint =
    let ctl = Controller.create machine (Backends.single (SingleCycle.create 16)) in
    record start { ctl = Controller.set_breakpoint 4 ctl; program_loaded = true }

step-is_hit_example :
    ((QuickSimulator.step before_breakpoint).status ≡ codes "Paused")
    × (Controller.is_running (QuickSimulator.step before_breakpoint).ctl ≡ false)
unfolding Controller.is_hit Controller.advance machine Controller.set_breakpoint Controller.create
    SingleCycle.step Memory.read_word SingleCycle.create create decode to_opcode bits to_funct
    control execute Controller.contains Controller.insert Backends.pc
step-is_hit_example = step-is_hit before_breakpoint refl refl
