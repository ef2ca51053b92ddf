-- ===== src/QuickSimulator/Grid.antt =====
-- The trace grid stays bounded, and what QML shows of it is what is kept.
use clear_core.Controller.{Signal}
use clear_core.Processor.{PipelineState, StageSnapshot}
use clear_core.QuickSimulator.{
  QuickSimulator, handle, handle_all, on_pipeline, append_to_trace, set_status, stages_of,
}
use clear_core.QuickSimulator.Trace.{append_trace, view_row, TraceRow, add_row, mark, new_row}
use clear_core.Text.{drop}
use clear_core.Prelude.{
  List, [], ◌∷◌, ◌≡◌, refl, arith, Option-cases, inl, inr, map, ℕ, ◌≤◌, length, length-snoc, some,
  ap, ◌++◌, ◌-◌, suc,
}

abbrev pub IsGrid : QuickSimulator → Type 0
IsGrid q = (q.trace_rows_cache ≡ map view_row q.trace) × (length q.trace ≤ 256)

length-map : {A B : Type 0} (f : A → B) (xs : List A) → length (map f xs) ≡ length xs
length-map f [] = refl
length-map f (x ∷ xs) = ap suc (length-map f xs)

drop_first : (rows : List TraceRow) → length (drop rows 1) ≡ length rows - 1
drop_first [] = refl
drop_first (r ∷ []) = refl
drop_first (r ∷ s ∷ rows) = omega arith

length-add_row :
    (s : StageSnapshot) (cycle : ℕ) (rows : List TraceRow)
    → length rows ≤ 256
    → length (add_row s cycle rows) ≤ 256
unfolding add_row
length-add_row s cycle rows h =
    ground (arith, length-snoc rows (new_row s cycle), drop_first (rows ++ new_row s cycle ∷ []))

append_trace-length :
    (ps : PipelineState) (stages : List StageSnapshot) (rows rows' : List TraceRow)
    → length rows ≤ 256
    → append_trace ps stages rows ≡ some rows'
    → length rows' ≤ 256
unfolding append_trace
append_trace-length ps stages rows rows' h e =
    let added = length-add_row ps.stage_if ps.cycle rows h in
    let same = length-map (mark ps stages) (add_row ps.stage_if ps.cycle rows) in
    ground (arith, added, same)

append_to_trace-IsGrid :
    (ps : PipelineState) (q : QuickSimulator) → IsGrid q → IsGrid (append_to_trace ps q)
unfolding append_to_trace
append_to_trace-IsGrid ps q g = elim (Option-cases (append_trace ps (stages_of ps) q.trace)) [
  | inl e ↦ rw (e, append_to_trace) g
  | inr (rows, e) ↦
      rw (e, append_to_trace) (refl, append_trace-length ps (stages_of ps) q.trace rows g.1 e)
]

pub handle_all-IsGrid :
    (sent : List Signal) (q : QuickSimulator) → IsGrid q → IsGrid (handle_all sent q)
unfolding handle_all handle on_pipeline set_status
handle_all-IsGrid [] q g = g
handle_all-IsGrid (Signal.pipeline_state_changed ps ∷ sent) q g =
    handle_all-IsGrid sent _ (append_to_trace-IsGrid ps _ g)
handle_all-IsGrid (s ∷ sent) q g = handle_all-IsGrid sent (handle s q) g
