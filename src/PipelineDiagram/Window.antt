-- ===== src/PipelineDiagram/Window.antt =====
-- The rows of the diagram lie in its window.
use clear_core.PipelineDiagram.{
  InstrRow, PipelineDiagram, last_cycle, last_stage, last_below, place_stage, update_at, seen_in,
  visible, update_rows, update_diagram, first_visible, breaks_off, find_row, max_cycles,
}
use clear_core.PipelineDiagram.Fetched.{Some, IsFetched, place_stage-Some, visible-Some}
use clear_core.Processor.{PipelineState, StageSnapshot}
use clear_core.Prelude.{
  ℕ, zero, suc, ◌-◌, ◌≤◌, Bool, false, List, [], ◌∷◌, ◌≡◌, arith, All, ltb, if_both, Option, not,
  ◌||◌, ◌==◌, if◌then◌else◌, All-append, Option-cases, inl, inr, none, some, Bool-cases, All-map,
  leb, ◌<◌, ◌⊎◌, ◌+◌, ◌&&◌,
}

-- No stage was seen later than this cycle.
abbrev IsUntil : ℕ → InstrRow → Type 0
IsUntil cycle r = (s : ℕ) → r.cycle_in_stage s ≤ cycle

seen_in-IsUntil : (s cycle : ℕ) (r : InstrRow) → IsUntil cycle r → IsUntil cycle (seen_in s cycle r)
seen_in-IsUntil s cycle r h t = if_both {A = ℕ} (λ c. c ≤ cycle) (t == s) (omega arith) (h t)

update_at-IsUntil :
    (i s cycle : ℕ) (rows : List InstrRow)
    → All (IsUntil cycle) rows
    → All (IsUntil cycle) (update_at i s cycle rows)
unfolding update_at
update_at-IsUntil i s cycle [] h = tt
update_at-IsUntil zero s cycle (r ∷ rows) h = (seen_in-IsUntil s cycle r h.0, h.1)
update_at-IsUntil (suc i) s cycle (r ∷ rows) h = (h.0, update_at-IsUntil i s cycle rows h.1)

place_stage-IsUntil :
    (snap : StageSnapshot) (s cycle : ℕ) (rows : List InstrRow)
    → All (IsUntil cycle) rows
    → All (IsUntil cycle) (place_stage snap s cycle rows)
unfolding place_stage
place_stage-IsUntil snap s cycle rows h =
    if_both {A = List InstrRow} (All (IsUntil cycle))
      (not snap.valid || (snap.stalled || snap.flushed)) h
      (elim (Option-cases (find_row snap s cycle 0 rows none)) [
        | inl e ↦ rw e (
            All-append (IsUntil cycle) rows _ h (
              seen_in-IsUntil s cycle
                  (record { pc = snap.pc; raw = snap.raw; cycle_in_stage = λ t. 0 })
                  (λ t. omega arith),
              tt,
            ))
        | inr ((i, c), e) ↦ rw e (update_at-IsUntil i s cycle rows h)
      ])

last_below-until :
    (n cycle : ℕ) (r : InstrRow)
    → IsUntil cycle r
    → (elim (last_below n r) [ none ↦ 0 | some s ↦ r.cycle_in_stage s ]) ≤ cycle
unfolding last_below
last_below-until zero cycle r h = omega arith
last_below-until (suc s) cycle r h =
    if_both {A = Option ℕ} (λ o. (elim o [ none ↦ 0 | some s ↦ r.cycle_in_stage s ]) ≤ cycle)
      (r.cycle_in_stage s == 0) (last_below-until s cycle r h) (h s)

-- A row was last seen in one of the 20 cycles up to this one, which count from 1.
abbrev pub InWindow : ℕ → InstrRow → Type 0
InWindow cycle r = (1 ≤ last_cycle r) × (cycle < last_cycle r + 20) × (last_cycle r ≤ cycle)

last_cycle-until : (cycle : ℕ) (r : InstrRow) → IsUntil cycle r → last_cycle r ≤ cycle
unfolding last_cycle last_stage
last_cycle-until cycle r h = last_below-until 5 cycle r h

not_below : (m cycle : ℕ) → ltb m (first_visible cycle) ≡ false → (1 ≤ m) × (cycle < m + 20)
unfolding first_visible
not_below m cycle h = ground arith

visible-InWindow :
    (cycle : ℕ) (rows : List InstrRow)
    → All (IsUntil cycle) rows
    → All (IsUntil cycle) (visible (first_visible cycle) rows)
      × All (InWindow cycle) (visible (first_visible cycle) rows)
unfolding visible
visible-InWindow cycle [] h = (tt, tt)
visible-InWindow cycle (r ∷ rows) h =
    let rest = visible-InWindow cycle rows h.1 in
    let first = first_visible cycle in
    let ends = last_cycle-until cycle r h.0 in
    elim (Bool-cases (ltb (last_cycle r) first)) [
      | inl e ↦ rw e rest
      | inr e ↦
          let windowed = not_below (last_cycle r) cycle e in
          rw e ((h.0, rest.0), ((windowed.0, windowed.1, ends), rest.1))
    ]

-- What a row of an earlier cycle keeps.
later :
    (c cycle : ℕ) (rows : List InstrRow)
    → c ≤ cycle
    → All (IsUntil c) rows
    → All (IsUntil cycle) rows
later c cycle rows le = All-map rows (λ r h s. omega (arith, h s))

-- The rows of a diagram were seen in its last cycle or before.
abbrev pub IsDiagram : PipelineDiagram → Type 0
IsDiagram d = All (IsUntil d.last_shown) d.rows

if_kept :
    (d : PipelineDiagram) (cycle : ℕ)
    → IsDiagram d
    → All (IsUntil cycle) (if breaks_off d.last_shown cycle then [] else d.rows)
unfolding breaks_off
if_kept d cycle h =
    elim (Bool-cases (leb cycle d.last_shown || ltb max_cycles (cycle - d.last_shown))) [
      | inl e ↦ rw e tt
      | inr e ↦ rw e (later d.last_shown cycle d.rows (ground (arith, e)) h)
    ]

-- The stage holds an instruction that is neither stalled nor flushed.
abbrev pub is_active : StageSnapshot → Bool
is_active s = s.valid && (not s.stalled && not s.flushed)

-- A cycle, from 1 on, keeps the diagram consistent, no stage of a row being later than the last cycle,
-- if it was before; it leaves rows only that were last seen in one of the 20 cycles up to it, and an
-- instruction in IF that is neither stalled nor flushed has a row of its address that was last seen in
-- IF in this cycle.
pub update_diagram-InWindow :
    (is_visible : Bool) (ps : PipelineState) (d : PipelineDiagram)
    → 1 ≤ ps.cycle
    → IsDiagram d
    → IsDiagram (update_diagram is_visible ps d)
      × All (InWindow ps.cycle) (update_diagram is_visible ps d).rows
      × ((is_active ps.stage_if ≡ false)
          ⊎ Some (IsFetched ps.stage_if.pc ps.cycle) (update_diagram is_visible ps d).rows)
unfolding update_diagram update_rows breaks_off
update_diagram-InWindow is_visible ps d h1 h =
    let cycle = ps.cycle in
    let kept = if_kept d cycle h in
    let wb = place_stage-IsUntil ps.stage_wb 4 cycle _ kept in
    let mem = place_stage-IsUntil ps.stage_mem 3 cycle _ wb in
    let ex = place_stage-IsUntil ps.stage_ex 2 cycle _ mem in
    let id = place_stage-IsUntil ps.stage_id 1 cycle _ ex in
    let (until, windowed) =
      visible-InWindow cycle _ (place_stage-IsUntil ps.stage_if 0 cycle _ id) in
    (
      until,
      windowed,
      elim (Bool-cases (is_active ps.stage_if)) [
        | inr e ↦ inl e
        | inl e ↦ inr (
            visible-Some ps.stage_if.pc cycle _ h1 (
              place_stage-Some ps.stage_if cycle _ h1 (ground (arith, e)) (ground (arith, e))
                (ground (arith, e))))
      ],
    )
