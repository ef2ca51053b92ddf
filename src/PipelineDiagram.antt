-- ===== src/PipelineDiagram.antt =====
-- src/nsc_qt/widgets/pipeline_trace_widget.cpp, include/nsc_qt/widgets/pipeline_trace_widget.h: the
-- diagram of instructions and cycles. Colours and fonts are left out; a stage is a place of the row's
-- cycles, and a cell shows its name.
pub mod Fetched
pub mod Window
use clear_core.Decoder.{decode, mnemonic}
use clear_core.Processor.{PipelineState, StageSnapshot}
use clear_core.Text.{Text, codes}
use clear_core.Text.Numbers.{to_decimal, to_lower_hex, zero_filled}
use clear_core.Prelude.{
  ℕ, zero, suc, ◌+◌, ◌-◌, ◌%◌, ◌^◌, Bool, true, false, not, ◌&&◌, ◌||◌, Option, none, some, List,
  [], ◌∷◌, ◌++◌, map, ◌==◌, leb, ltb, if◌then◌else◌, length,
}

abbrev pub max_cycles : ℕ
max_cycles = 20

-- The cycles of the five stages, 0 for one that was not seen.
pub record InstrRow : Type 0 where
  pub pc : ℕ
  pub raw : ℕ
  pub cycle_in_stage : ℕ → ℕ

unfoldable pub short_mnemonic : ℕ → Text
short_mnemonic raw =
    if raw == 0
    then codes "nop"
    else elim (decode raw) [ none ↦ codes "???" | some d ↦ codes (mnemonic d) ]

-- The last stage below this one.
unfoldable pub last_below : ℕ → InstrRow → Option ℕ
last_below zero r = none
last_below (suc s) r = let rest = last_below s r in if r.cycle_in_stage s == 0 then rest else some s

unfoldable pub last_stage : InstrRow → Option ℕ
unfolding last_below
last_stage r = last_below 5 r

unfoldable pub last_cycle : InstrRow → ℕ
unfolding last_stage
last_cycle r = elim (last_stage r) [ none ↦ 0 | some s ↦ r.cycle_in_stage s ]

-- The rows, the cycle of the last snapshot, and whether the table is yet to be drawn.
pub record PipelineDiagram : Type 0 where
  pub rows : List InstrRow
  pub last_shown : ℕ
  pub dirty : Bool

-- The row was last seen in the stage before `s`, -1 being none.
unfoldable pub is_before : Option ℕ → ℕ → Bool
is_before none s = s == 0
is_before (some t) s = suc t == s

-- The row that an instruction in stage `s` goes on with: the latest of those that fit, the first of
-- equals. `best` is its place and its cycle.
unfoldable pub find_row :
    StageSnapshot → ℕ → ℕ → ℕ → List InstrRow → Option (ℕ × ℕ) → Option (ℕ × ℕ)
unfolding last_stage last_cycle is_before
find_row snap s cycle i [] best = best
find_row snap s cycle i (r ∷ rows) best =
    let fits = r.pc == snap.pc && (is_before (last_stage r) s && ltb (last_cycle r) cycle) in
    let better : Bool = elim best [ none ↦ true | some (j, c) ↦ ltb c (last_cycle r) ] in
    find_row snap s cycle (suc i) rows (if fits && better then some (i, last_cycle r) else best)

abbrev pub seen_in : ℕ → ℕ → InstrRow → InstrRow
seen_in s cycle r = record r { cycle_in_stage = λ t. if t == s then cycle else r.cycle_in_stage t }

unfoldable pub update_at : ℕ → ℕ → ℕ → List InstrRow → List InstrRow
update_at i s cycle [] = []
update_at zero s cycle (r ∷ rows) = seen_in s cycle r ∷ rows
update_at (suc i) s cycle (r ∷ rows) = r ∷ update_at i s cycle rows

-- One round of the loop over the stages.
unfoldable pub place_stage : StageSnapshot → ℕ → ℕ → List InstrRow → List InstrRow
unfolding find_row update_at
place_stage snap s cycle rows =
    if not snap.valid || (snap.stalled || snap.flushed)
    then rows
    else elim (find_row snap s cycle 0 rows none) [
      | some (i, c) ↦ update_at i s cycle rows
      | none ↦
          rows
          ++ seen_in s cycle (record { pc = snap.pc; raw = snap.raw; cycle_in_stage = λ t. 0 }) ∷ []
    ]

-- The rows that have not scrolled out of the window.
unfoldable pub visible : ℕ → List InstrRow → List InstrRow
unfolding last_cycle
visible first [] = []
visible first (r ∷ rows) =
    let rest = visible first rows in if ltb (last_cycle r) first then rest else r ∷ rest

unfoldable pub first_visible : ℕ → ℕ
first_visible cycle = if ltb max_cycles cycle then cycle - max_cycles + 1 else 1

-- The diagram cannot be extended to this cycle.
unfoldable pub breaks_off : ℕ → ℕ → Bool
breaks_off last cycle = leb cycle last || ltb max_cycles (cycle - last)

-- `updateCycle`, of a widget that is shown or not; a table that is drawn is no longer dirty.
unfoldable pub update_rows : PipelineState → PipelineDiagram → List InstrRow
unfolding place_stage visible breaks_off first_visible
update_rows ps d =
    let kept : List InstrRow = if breaks_off d.last_shown ps.cycle then [] else d.rows in
    let wb = place_stage ps.stage_wb 4 ps.cycle kept in
    let mem = place_stage ps.stage_mem 3 ps.cycle wb in
    let ex = place_stage ps.stage_ex 2 ps.cycle mem in
    let id = place_stage ps.stage_id 1 ps.cycle ex in
    visible (first_visible ps.cycle) (place_stage ps.stage_if 0 ps.cycle id)

unfoldable pub update_diagram : Bool → PipelineState → PipelineDiagram → PipelineDiagram
unfolding update_rows
update_diagram is_visible ps d = record {
  rows = update_rows ps d;
  last_shown = ps.cycle;
  dirty = not is_visible;
}

unfoldable pub clear_diagram : PipelineDiagram → PipelineDiagram
clear_diagram d = record { rows = []; last_shown = 0; dirty = false }
