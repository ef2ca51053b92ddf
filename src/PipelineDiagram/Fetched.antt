-- ===== src/PipelineDiagram/Fetched.antt =====
-- The row of the instruction in IF: a cycle of the diagram places it and does not drop it.
use clear_core.PipelineDiagram.{
  InstrRow, last_cycle, last_stage, last_below, place_stage, update_at, seen_in, visible,
  first_visible, find_row, is_before,
}
use clear_core.Processor.{StageSnapshot}
use clear_core.Prelude.{
  ℕ, zero, suc, ◌≤◌, Bool, false, List, [], ◌∷◌, ◌≡◌, arith, ltb, if_both, Option, ◌==◌,
  if◌then◌else◌, Option-cases, inl, inr, none, some, ◌++◌, ◌⊎◌, refl, ◌+◌, true, ◌&&◌, if_cases,
}

-- Some row of the list is one.
abbrev pub Some : (InstrRow → Type 0) → List InstrRow → Type 0
Some P [] = ⊥
Some P (r ∷ rows) = P r ⊎ Some P rows

-- The row of an instruction that was seen in IF in this cycle.
abbrev pub IsFetched : ℕ → ℕ → InstrRow → Type 0
IsFetched pc cycle r = (r.pc ≡ pc) × (r.cycle_in_stage 0 ≡ cycle) × (last_cycle r ≡ cycle)

Some-snoc :
    (P : InstrRow → Type 0) (rows : List InstrRow) (r : InstrRow) → P r → Some P (rows ++ r ∷ [])
Some-snoc P [] r p = inl p
Some-snoc P (s ∷ rows) r p = inr (Some-snoc P rows r p)

-- The row at this place has the address and was not seen in any stage.
abbrev At : ℕ → ℕ → List InstrRow → Type 0
At pc i [] = ⊥
At pc zero (r ∷ rows) = (r.pc ≡ pc) × (last_stage r ≡ none)
At pc (suc i) (r ∷ rows) = At pc i rows

seen_first :
    (cycle : ℕ) (r : InstrRow)
    → 1 ≤ cycle
    → last_stage r ≡ none
    → last_cycle (seen_in 0 cycle r) ≡ cycle
unfolding last_cycle last_stage last_below
seen_first cycle r h e = ground (arith, e)

update_at-Some :
    (pc i cycle : ℕ) (rows : List InstrRow)
    → 1 ≤ cycle
    → At pc i rows
    → Some (IsFetched pc cycle) (update_at i 0 cycle rows)
unfolding update_at
update_at-Some pc i cycle [] h a = absurd a
update_at-Some pc zero cycle (r ∷ rows) h a = inl (a.0, refl, seen_first cycle r h a.1)
update_at-Some pc (suc i) cycle (r ∷ rows) h a = inr (update_at-Some pc i cycle rows h a)

-- The place that was found is one.
abbrev IsFound : ℕ → List InstrRow → Option (ℕ × ℕ) → Type 0
IsFound pc all none = Unit
IsFound pc all (some (i, c)) = At pc i all

before_first : (o : Option ℕ) → is_before o 0 ≡ true → o ≡ none
unfolding is_before
before_first none h = refl
before_first (some t) h = absurd (ground arith)

fitting :
    (snap : StageSnapshot) (cycle : ℕ) (r : InstrRow) (b : Bool)
    → ((r.pc == snap.pc && (is_before (last_stage r) 0 && ltb (last_cycle r) cycle)) && b) ≡ true
    → (r.pc ≡ snap.pc) × (last_stage r ≡ none)
fitting snap cycle r b h = (ground (arith, h), before_first (last_stage r) (ground (arith, h)))

find_row-IsFound :
    (snap : StageSnapshot) (cycle i : ℕ) (all rows : List InstrRow) (best : Option (ℕ × ℕ))
    → ((k : ℕ) → At snap.pc k rows → At snap.pc (i + k) all)
    → IsFound snap.pc all best
    → IsFound snap.pc all (find_row snap 0 cycle i rows best)
unfolding find_row
find_row-IsFound snap cycle i all [] best h g = g
find_row-IsFound snap cycle i all (r ∷ rows) best h g =
    let better : Bool = elim best [ none ↦ true | some (j, c) ↦ ltb c (last_cycle r) ] in
    let fits = r.pc == snap.pc && (is_before (last_stage r) 0 && ltb (last_cycle r) cycle) in
    let later_on = λ (k : ℕ) (a : At snap.pc k rows). at_suc i k snap.pc all (h (suc k) a) in
    find_row-IsFound snap cycle (suc i) all rows
      (if fits && better then some (i, last_cycle r) else best) later_on
      (if_cases {A = Option (ℕ × ℕ)} (IsFound snap.pc all) (fits && better)
        (λ e. at_zero i snap.pc all (h zero (fitting snap cycle r better e))) (λ e. g))
  where
    at_suc : (i k pc : ℕ) (all : List InstrRow) → At pc (i + suc k) all → At pc (suc i + k) all
    at_suc i k pc all a = let e : suc i + k ≡ i + suc k = omega arith in rw e a

    at_zero : (i pc : ℕ) (all : List InstrRow) → At pc (i + 0) all → At pc i all
    at_zero i pc all a = let e : i + 0 ≡ i = omega arith in rw e at a

pub place_stage-Some :
    (snap : StageSnapshot) (cycle : ℕ) (rows : List InstrRow)
    → 1 ≤ cycle
    → snap.valid ≡ true
    → snap.stalled ≡ false
    → snap.flushed ≡ false
    → Some (IsFetched snap.pc cycle) (place_stage snap 0 cycle rows)
unfolding place_stage
place_stage-Some snap cycle rows h v s f =
    rw (v, s, f)
      (elim (Option-cases (find_row snap 0 cycle 0 rows none)) [
        | inl e ↦ rw e (
            Some-snoc (IsFetched snap.pc cycle) rows _ (
              refl,
              refl,
              seen_first cycle (record { pc = snap.pc; raw = snap.raw; cycle_in_stage = λ t. 0 }) h
                  (nothing_seen snap),
            ))
        | inr ((i, c), e) ↦
            let found =
              find_row-IsFound snap cycle 0 rows rows none (λ k a. zero_plus k snap.pc rows a) tt in
            rw e (update_at-Some snap.pc i cycle rows h (rw e at found))
      ])
  where
    nothing_seen :
        (snap : StageSnapshot)
        → last_stage (record { pc = snap.pc; raw = snap.raw; cycle_in_stage = λ t. 0 }) ≡ none
    nothing_seen snap = unfold last_stage last_below in refl

    zero_plus : (k pc : ℕ) (rows : List InstrRow) → At pc k rows → At pc (0 + k) rows
    zero_plus k pc rows a = let e : 0 + k ≡ k = omega arith in rw e a

current : (m cycle : ℕ) → 1 ≤ cycle → m ≡ cycle → ltb m (first_visible cycle) ≡ false
unfolding first_visible
current m cycle h e = ground arith

pub visible-Some :
    (pc cycle : ℕ) (rows : List InstrRow)
    → 1 ≤ cycle
    → Some (IsFetched pc cycle) rows
    → Some (IsFetched pc cycle) (visible (first_visible cycle) rows)
unfolding visible
visible-Some pc cycle [] h s = absurd s
visible-Some pc cycle (r ∷ rows) h (inl p) = rw (current (last_cycle r) cycle h p.2) (inl p)
visible-Some pc cycle (r ∷ rows) h (inr s) =
    let rest = visible-Some pc cycle rows h s in
    if_both {A = List InstrRow} (Some (IsFetched pc cycle))
      (ltb (last_cycle r) (first_visible cycle)) rest (inr rest)
