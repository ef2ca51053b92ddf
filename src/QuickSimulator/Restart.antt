-- ===== src/QuickSimulator/Restart.antt =====
-- `reset` of the front end after a program was assembled and loaded.
use clear_core.QuickSimulator.Loaded.{assemble_and_load-done}
use clear_core.QuickSimulator.Trace.{append_trace}
use clear_core.Processor.{PipelineState}
use clear_core.Assembler
use clear_core.Controller
use clear_core.Controller.{Use, perform_all, no_statistics}
use clear_core.Controller.Restart.{reset-load_program}
use clear_core.QuickSimulator.{
  QuickSimulator, step, run_pause, time_out, toggle_breakpoint, set_speed, reset, assemble_and_load,
  emptied, handle_all, paused, set_status, clamped, append_to_trace, handle, on_pipeline, stages_of,
}
use clear_core.QuickSimulator.View.{refresh, RegisterModel}
use clear_core.QuickSimulator.Backends
use clear_core.QuickSimulator.Backends.{forget, machine, machine-IsRestartable, Machine}
use clear_core.QuickSimulator.Signals.{handle_all-Keeps, Keeps}
use clear_core.Text.{Text, codes}
use clear_core.Prelude.{
  List, [], ◌∷◌, ◌≡◌, refl, ◌∙◌, arith, Option-cases, inl, inr, ap, ℕ, ℤ, if_both, ◌++◌, not, sym,
  ◌==◌, pos, none, some, false,
}

-- What the user, and the timer, do between a load and a reset.
pub data Action : Type 0 where
  stepping running timing_out : Action
  toggling : ℕ → Action
  pacing : ℤ → Action

unfoldable pub act : Action → QuickSimulator → QuickSimulator
unfolding step run_pause time_out toggle_breakpoint set_speed
act stepping q = step q
act running q = run_pause q
act timing_out q = time_out q
act (toggling pc) q = toggle_breakpoint pc q
act (pacing speed) q = set_speed speed q

unfoldable pub act_all : List Action → QuickSimulator → QuickSimulator
unfolding act
act_all [] q = q
act_all (a ∷ actions) q = act_all actions (act a q)

-- An action makes some use of the controller and keeps the program.
pub record IsUse (q q' : QuickSimulator) : Type 0 where
  pub uses : List Use
  pub used : q'.ctl ≡ perform_all machine uses q.ctl
  pub model_kept : q'.model ≡ q.model
  pub last_kept : q'.last_program ≡ q.last_program

pub paused-Keeps : (q : QuickSimulator) → Keeps q (paused q)
unfolding paused set_status
paused-Keeps q = ground arith

self-IsUse : (q : QuickSimulator) → IsUse q q
unfolding perform_all
self-IsUse q = record { uses = []; used = refl; model_kept = refl; last_kept = refl }

step-IsUse : (q : QuickSimulator) → IsUse q (step q)
unfolding step perform_all Controller.perform Controller.step_cycle
step-IsUse q = if_both {A = QuickSimulator} (IsUse q) (not q.program_loaded) (self-IsUse q) (
    let (ctl, sent) = Controller.step_cycle machine q.ctl in
    let q' = handle_all sent (record q { ctl = ctl }) in
    let shown = paused-Keeps q' in
    let handled = handle_all-Keeps sent (record q { ctl = ctl }) in
    record {
      uses = Use.stepping ∷ [];
      used = shown.0 ∙ handled.0;
      model_kept = shown.2 ∙ handled.2;
      last_kept = shown.3 ∙ handled.3;
    })

time_out-IsUse : (q : QuickSimulator) → IsUse q (time_out q)
unfolding time_out perform_all Controller.perform
time_out-IsUse q =
    let (ctl, sent) = Controller.on_run_timer machine q.ctl in
    let handled = handle_all-Keeps sent (record q { ctl = ctl }) in
    record {
      uses = Use.timing_out ∷ [];
      used = handled.0;
      model_kept = handled.2;
      last_kept = handled.3;
    }

-- One use of the controller.
one_use :
    (q q' : QuickSimulator) (u : Use)
    → q'.ctl ≡ Controller.perform machine u q.ctl
    → q'.model ≡ q.model
    → q'.last_program ≡ q.last_program
    → IsUse q q'
unfolding perform_all
one_use q q' u e m l = record { uses = u ∷ []; used = e; model_kept = m; last_kept = l }

act-IsUse : (a : Action) (q : QuickSimulator) → IsUse q (act a q)
unfolding act run_pause toggle_breakpoint set_speed set_status Controller.perform
act-IsUse stepping q = step-IsUse q
act-IsUse timing_out q = time_out-IsUse q
act-IsUse running q = if_both {A = QuickSimulator} (IsUse q) (not q.program_loaded) (self-IsUse q) (
    if_both {A = QuickSimulator} (IsUse q) (Controller.is_running q.ctl)
      (one_use q _ Use.stopping refl refl refl) (one_use q _ Use.running refl refl refl))
act-IsUse (toggling pc) q =
    if_both {A = QuickSimulator} (IsUse q) (Controller.has_breakpoint pc q.ctl)
      (one_use q _ (Use.removing pc) refl refl refl) (one_use q _ (Use.adding pc) refl refl refl)
act-IsUse (pacing speed) q =
    if_both {A = QuickSimulator} (IsUse q) (clamped speed == q.speed) (self-IsUse q)
      (one_use q _ (Use.pacing (pos (clamped speed))) refl refl refl)

perform_all-append :
    (us vs : List Use) (c : Controller.Controller Machine)
    → perform_all machine (us ++ vs) c ≡ perform_all machine vs (perform_all machine us c)
unfolding perform_all
perform_all-append [] vs c = refl
perform_all-append (u ∷ us) vs c = perform_all-append us vs (Controller.perform machine u c)

act_all-IsUse : (actions : List Action) (q : QuickSimulator) → IsUse q (act_all actions q)
unfolding act_all
act_all-IsUse [] q = self-IsUse q
act_all-IsUse (a ∷ actions) q =
    let first = act-IsUse a q in
    let rest = act_all-IsUse actions (act a q) in
    record {
      uses = first.uses ++ rest.uses;
      used =
          rest.used
          ∙ ap (perform_all machine rest.uses) first.used
          ∙ sym (perform_all-append first.uses rest.uses q.ctl);
      model_kept = rest.model_kept ∙ first.model_kept;
      last_kept = rest.last_kept ∙ first.last_kept;
    }

append_to_trace-reg_model :
    (ps : PipelineState) (q : QuickSimulator) → (append_to_trace ps q).reg_model ≡ q.reg_model
unfolding append_to_trace
append_to_trace-reg_model ps q = elim (Option-cases (append_trace ps (stages_of ps) q.trace)) [
  | inl e ↦ rw (e, append_to_trace) refl
  | inr (rows, e) ↦ rw (e, append_to_trace) refl
]

-- What the signals of a reset show.
handle_all-reg_model :
    (ps : PipelineState) (s : Controller.SimulatorStatistics) (q : QuickSimulator)
    → let shown =
        handle_all
          (Controller.pipeline_state_changed ps ∷ Controller.statistics_updated s ∷ [])
          q in
      (shown.reg_model.values ≡ (Backends.regs q.ctl.processor).raw) × (shown.stats ≡ s)
unfolding handle_all handle on_pipeline refresh
handle_all-reg_model ps s q =
    (ap (λ (m : RegisterModel). m.values) (append_to_trace-reg_model ps _), refl)

-- The controller that a reset stops first.
stopped :
    (loaded q : QuickSimulator) (u : IsUse loaded q)
    → Controller.stop q.ctl ≡ perform_all machine (u.uses ++ Use.stopping ∷ []) loaded.ctl
unfolding perform_all Controller.perform
stopped loaded q u =
    ap Controller.stop u.used ∙ sym (perform_all-append u.uses (Use.stopping ∷ []) loaded.ctl)

-- After a source that assembles was loaded, whatever the user steps, runs and pauses, the breakpoints
-- toggled and the speeds chosen on the way, a reset succeeds and brings the processor back to what it
-- was right after the load, but for the name of its last exception; it shows the registers of that
-- processor, zero statistics and the status "Idle", and nothing runs.
pub reset-assemble_and_load :
    (source : Text) (q loaded : QuickSimulator) (actions : List Action)
    → (Assembler.assemble source).error ≡ none
    → assemble_and_load source q ≡ some (loaded, [])
    → (after : QuickSimulator) × (reset (act_all actions loaded) ≡ some after)
      × (forget after.ctl.processor ≡ forget loaded.ctl.processor)
      × (after.reg_model.values ≡ (Backends.regs after.ctl.processor).raw)
      × (after.stats ≡ no_statistics)
      × (after.status ≡ codes "Idle")
      × (Controller.is_running after.ctl ≡ false)
unfolding reset emptied set_status Controller.is_running
reset-assemble_and_load source q loaded actions ok e =
    let (c, sent, load) = assemble_and_load-done source q loaded ok e in
    let q' = act_all actions loaded in
    let u = act_all-IsUse actions loaded in
    let words = (Assembler.assemble source).words in
    let (after, resets, same, kept, zeros, off) =
      reset-load_program machine forget machine-IsRestartable c loaded.ctl words 0 sent
        (u.uses ++ Use.stopping ∷ []) load in
    let r = ap (Controller.reset machine) (stopped loaded q' u) ∙ resets in
    let blank = record (emptied (record q' { ctl = after })) { stages = []; hazards = none } in
    let signals : List Controller.Signal =
      Controller.state_of machine after ∷ Controller.statistics_updated no_statistics ∷ [] in
    let shown = handle_all signals blank in
    let (values, stats) =
      handle_all-reg_model (machine.pipeline_state after.processor) no_statistics blank in
    let ctl : shown.ctl ≡ after = (handle_all-Keeps signals blank).0 in
    (
      set_status (codes "Idle") shown,
      rw (r, reset) refl,
      ap (λ (d : Controller.Controller Machine). forget d.processor) ctl ∙ same,
      values
          ∙ sym (ap (λ (d : Controller.Controller Machine). (Backends.regs d.processor).raw) ctl),
      stats,
      refl,
      ap Controller.is_running ctl ∙ off,
    )
