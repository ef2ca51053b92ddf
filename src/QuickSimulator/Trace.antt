-- ===== src/QuickSimulator/Trace.antt =====
-- The trace grid of src/nsc_quick/quick_simulator.cpp.
use clear_core.Decoder.{decode}
use clear_core.Disassembler.{to_text}
use clear_core.Processor.{PipelineState, StageSnapshot}
use clear_core.Text.{Text, codes, same, drop}
use clear_core.Text.Numbers.{to_lower_hex, zero_filled}
use clear_core.Prelude.{
  ℕ, suc, ◌-◌, Bool, ◌&&◌, ◌||◌, Option, none, some, List, [], ◌∷◌, ◌++◌, map, ◌==◌, leb, ltb,
  if◌then◌else◌, length,
}

unfoldable pub hex32 : ℕ → Text
hex32 v = b'0' ∷ b'x' ∷ zero_filled 8 (to_lower_hex v)

unfoldable pub disasm : ℕ → ℕ → Text
disasm raw pc = elim (decode raw) [ some d ↦ to_text d pc | none ↦ codes ".word " ++ hex32 raw ]

pub record TraceRow : Type 0 where
  pub pc : ℕ
  pub start_cycle : ℕ
  pub cells : List Text
  pub label : Text

-- A row as QML sees it.
pub record TraceView : Type 0 where
  pub label : Text
  pub start : ℕ
  pub cells : List Text

abbrev pub view_row : TraceRow → TraceView
view_row r = record { label = r.label; start = r.start_cycle; cells = r.cells }

abbrev pub trace_max_rows : ℕ
trace_max_rows = 256

abbrev pub trace_max_cycles : ℕ
trace_max_cycles = 512

abbrev pub no_tag : Text
no_tag = codes "  "

unfoldable pub new_row : StageSnapshot → ℕ → TraceRow
new_row s cycle = record {
  pc = s.pc;
  start_cycle = cycle;
  cells = [];
  label = hex32 s.pc ++ (codes "  " ++ disasm s.raw s.pc);
}

-- The row of an instruction that entered the pipeline; the oldest row gives way.
unfoldable pub add_row : StageSnapshot → ℕ → List TraceRow → List TraceRow
unfolding new_row
add_row s cycle rows =
    if s.valid
    then (let rows' = rows ++ new_row s cycle ∷ [] in
        if ltb trace_max_rows (length rows') then drop rows' 1 else rows')
    else rows

-- The row is this young in a cycle.
abbrev pub is_younger : ℕ → TraceRow → ℕ → Bool
is_younger age row cycle = leb row.start_cycle cycle && ltb (cycle - row.start_cycle) age

-- The loop over the stages, from stage `s` on.
unfoldable pub tag_from : TraceRow → ℕ → ℕ → List StageSnapshot → Text → Text
tag_from row cycle s [] tag = tag
tag_from row cycle s (st ∷ stages) tag = tag_from row cycle (suc s) stages (
    if st.valid && (st.pc == row.pc && is_younger 16 row cycle)
    then (if s == cycle - row.start_cycle || same tag no_tag then codes st.name else tag)
    else tag)

unfoldable pub mark : PipelineState → List StageSnapshot → TraceRow → TraceRow
unfolding tag_from
mark ps stages row =
    let tag = tag_from row ps.cycle 0 stages no_tag in
    let shown =
      if ps.load_stall && (same tag no_tag && is_younger 8 row ps.cycle) then codes "**" else tag in
    record row { cells = row.cells ++ shown ∷ [] }

-- The rows after a cycle; nothing past the last cycle that is kept.
unfoldable pub append_trace :
    PipelineState → List StageSnapshot → List TraceRow → Option (List TraceRow)
unfolding add_row mark
append_trace ps stages rows =
    if ltb trace_max_cycles ps.cycle
    then none
    else some (map (mark ps stages) (add_row ps.stage_if ps.cycle rows))
