-- ===== src/QuickSimulator/Signals.antt =====
-- The handlers of the controller's signals change what is shown only.
use clear_core.Controller.{Signal}
use clear_core.Processor.{PipelineState}
use clear_core.QuickSimulator.{
  QuickSimulator, handle, handle_all, on_pipeline, append_to_trace, set_status, stages_of,
}
use clear_core.QuickSimulator.Trace.{append_trace}
use clear_core.Prelude.{List, [], ◌∷◌, ◌≡◌, refl, ◌∙◌, Option-cases, inl, inr}

-- The fields that are not shown, or that only the user sets.
abbrev pub Keeps : QuickSimulator → QuickSimulator → Type 0
Keeps q q' =
    (q'.ctl ≡ q.ctl)
    × (q'.speed ≡ q.speed)
    × (q'.model ≡ q.model)
    × (q'.last_program ≡ q.last_program)
    × (q'.program_loaded ≡ q.program_loaded)

append_to_trace-Keeps : (ps : PipelineState) (q : QuickSimulator) → Keeps q (append_to_trace ps q)
unfolding append_to_trace
append_to_trace-Keeps ps q = elim (Option-cases (append_trace ps (stages_of ps) q.trace)) [
  | inl e ↦ rw (e, append_to_trace) (refl, refl, refl, refl, refl)
  | inr (rows, e) ↦ rw (e, append_to_trace) (refl, refl, refl, refl, refl)
]

pub handle-Keeps : (s : Signal) (q : QuickSimulator) → Keeps q (handle s q)
unfolding handle on_pipeline set_status
handle-Keeps (Signal.pipeline_state_changed ps) q = append_to_trace-Keeps ps _
handle-Keeps s q = (refl, refl, refl, refl, refl)

pub handle_all-Keeps : (sent : List Signal) (q : QuickSimulator) → Keeps q (handle_all sent q)
unfolding handle_all
handle_all-Keeps [] q = (refl, refl, refl, refl, refl)
handle_all-Keeps (s ∷ sent) q =
    let (a, b, c, d, e) = handle-Keeps s q in
    let (a', b', c', d', e') = handle_all-Keeps sent (handle s q) in
    (a' ∙ a, b' ∙ b, c' ∙ c, d' ∙ d, e' ∙ e)
