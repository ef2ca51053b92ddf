-- ===== src/QuickSimulator/Paced.antt =====
-- What the controller of the front end keeps: the interval of its timer and the model it runs.
use clear_core.Controller.Consistent.{load_cases}
use clear_core.Controller
use clear_core.Controller.{Controller, Signal, LoadedProgram}
use clear_core.SingleCycle
use clear_core.Pipeline
use clear_core.QuickSimulator.Backends
use clear_core.QuickSimulator.Backends.{Machine, machine, single, five_stage, wrapped-some}
use clear_core.Prelude.{
  List, ◌≡◌, refl, ◌∙◌, arith, Option-cases, inl, inr, ℕ, some, none, Bool, true, false, Option,
  if_both, ap,
}

unfoldable pub is_single : Machine → Bool
is_single (single c) = true
is_single (five_stage c) = false

is_single-step : (m : Machine) → is_single (Backends.step m).0 ≡ is_single m
unfolding is_single
is_single-step (single c) = refl
is_single-step (five_stage c) = refl

is_single-reset : (m : Machine) → is_single (Backends.reset m) ≡ is_single m
unfolding is_single
is_single-reset (single c) = refl
is_single-reset (five_stage c) = refl

is_single-load_program :
    (m m' : Machine) (words : List ℕ) (addr : ℕ) (done : Bool)
    → Backends.load_program m words addr ≡ some (m', done)
    → is_single m' ≡ is_single m
unfolding is_single
is_single-load_program (single c) m' words addr done e =
    let (c', s, same) = wrapped-some single (SingleCycle.load_program c words addr) m' done e in
    ap is_single same
is_single-load_program (five_stage c) m' words addr done e =
    let (c', s, same) = wrapped-some five_stage (Pipeline.load_program c words addr) m' done e in
    ap is_single same

abbrev pub Stays : Controller Machine → Controller Machine → Type 0
Stays c c' =
    (c'.run_timer.interval ≡ c.run_timer.interval)
    × (is_single c'.processor ≡ is_single c.processor)

pub do_step-Stays : (c : Controller Machine) → Stays c (Controller.do_step machine c).0
unfolding Controller.do_step Controller.advance Controller.stop_if_due Controller.stop machine
do_step-Stays c = ground (arith, is_single-step c.processor)

pub on_run_timer-Stays : (c : Controller Machine) → Stays c (Controller.on_run_timer machine c).0
unfolding Controller.on_run_timer
on_run_timer-Stays c =
    if_both (λ (r : Controller Machine × List Signal). Stays c r.0) c.run_timer.active
      (do_step-Stays c) (refl, refl)

pub load_program-Stays :
    (c c' : Controller Machine) (words : List ℕ) (addr : ℕ) (sent : List Signal) (done : Bool)
    → Controller.load_program machine c words addr ≡ some (c', sent, done)
    → Stays c c'
unfolding Controller.load_program Controller.emptied Controller.stop machine
load_program-Stays c c' words addr sent done e =
    let m = Backends.reset c.processor in
    elim (load_cases (Backends.load_program m words addr)) [
      | inl q ↦ absurd (cc (rw (q, Controller.load_program) at e))
      | inr (inl (s, q)) ↦
          let e' = rw (q, Controller.load_program) at e in
          let same = is_single-load_program m s words addr true q ∙ is_single-reset c.processor in
          ground (arith, same)
      | inr (inr (s, q)) ↦
          let e' = rw (q, Controller.load_program) at e in
          let same = is_single-load_program m s words addr false q ∙ is_single-reset c.processor in
          ground (arith, same)
    ]

reload-Stays :
    (l : Option LoadedProgram) (c c' : Controller Machine)
    → Controller.reload machine l c ≡ some c'
    → Stays c c'
unfolding Controller.reload machine
reload-Stays none c c' e = ground arith
reload-Stays (some p) c c' e =
    elim (load_cases (Backends.load_program c.processor p.words p.addr)) [
      | inl q ↦ absurd (cc (rw (q, Controller.reload) at e))
      | inr (inl (s, q)) ↦
          let e' = rw (q, Controller.reload) at e in
          let same = is_single-load_program c.processor s p.words p.addr true q in
          ground (arith, same)
      | inr (inr (s, q)) ↦
          let e' = rw (q, Controller.reload) at e in
          let same = is_single-load_program c.processor s p.words p.addr false q in
          ground (arith, same)
    ]

pub reset-Stays :
    (c c' : Controller Machine) (sent : List Signal)
    → Controller.reset machine c ≡ some (c', sent)
    → Stays c c'
unfolding Controller.reset Controller.emptied Controller.stop machine
reset-Stays c c' sent e =
    elim (Option-cases (Controller.reload machine c.loaded (Controller.emptied machine c))) [
      | inl q ↦ absurd (cc (rw (q, Controller.reset) at e))
      | inr (c'', q) ↦
          let e' = rw (q, Controller.reset) at e in
          let kept = reload-Stays c.loaded (Controller.emptied machine c) c'' q in
          let same : c' ≡ c'' = ground arith in
          rw same (kept.0, kept.1 ∙ is_single-reset c.processor)
    ]
