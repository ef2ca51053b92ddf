-- ===== src/QuickSimulator/Stepped.antt =====
-- The status that a step of the front end leaves.
use clear_core.QuickSimulator.Signals.{handle_all-Keeps}
use clear_core.QuickSimulator.Restart.{paused-Keeps}
use clear_core.Controller
use clear_core.Controller.{Signal}
use clear_core.Processor.{StepResult}
use clear_core.QuickSimulator.{QuickSimulator, handle, handle_all, step, paused, set_status}
use clear_core.QuickSimulator.Backends.{machine, Machine}
use clear_core.Text.{codes, same, starts_with}
use clear_core.Prelude.{
  List, [], ◌∷◌, ◌++◌, ◌≡◌, refl, ◌∙◌, arith, ap, true, false, ℕ, Bool, if◌then◌else◌, not,
}

handle_all-append :
    (sent : List Signal) (s : Signal) (q : QuickSimulator)
    → handle_all (sent ++ s ∷ []) q ≡ handle s (handle_all sent q)
unfolding handle_all
handle_all-append [] s q = refl
handle_all-append (t ∷ sent) s q = handle_all-append sent s (handle t q)

paused-hit :
    (pc : ℕ) (q : QuickSimulator)
    → (paused (handle (Signal.breakpoint_hit pc) q)).status ≡ codes "Paused"
unfolding paused handle set_status starts_with same
paused-hit pc q = refl

-- The signals of a step that ends on a breakpoint, and the timer after it.
module _ (c : Controller.Controller Machine) where
  last_signal-hit :
      (r : StepResult)
      → Controller.is_hit machine c r ≡ true
      → (Controller.last_signal machine (Controller.stop_if_due machine c r) r
          ≡ Signal.breakpoint_hit (machine.pc c.processor) ∷ [])
        × (Controller.is_running (Controller.stop_if_due machine c r) ≡ false)
  unfolding Controller.last_signal Controller.stop_if_due Controller.is_hit Controller.stop
      Controller.is_running
  last_signal-hit StepResult.ok h = ground arith
  last_signal-hit StepResult.exception h = absurd (cc h)
  last_signal-hit StepResult.fault h = absurd (cc h)
  last_signal-hit StepResult.halt h = absurd (cc h)

-- With a program loaded, a step by hand that ends on a breakpoint leaves the status "Paused": that of
-- the breakpoint, which its signal has just set, is written over; and nothing runs.
pub step-is_hit :
    (q : QuickSimulator)
    → q.program_loaded ≡ true
    → Controller.is_hit machine
        (Controller.advance machine q.ctl).0
        (Controller.advance machine q.ctl).1
      ≡ true
    → ((step q).status ≡ codes "Paused") × (Controller.is_running (step q).ctl ≡ false)
unfolding step Controller.step_cycle Controller.do_step
step-is_hit q l h =
    let (c, r) = Controller.advance machine q.ctl in
    let c' = Controller.stop_if_due machine c r in
    let (last, off) = last_signal-hit c r h in
    let before = Controller.updates machine c' r in
    let q' : QuickSimulator = record q { ctl = c' } in
    let sent = before ++ Controller.last_signal machine c' r in
    let shown : handle_all sent q'
        ≡ handle (Signal.breakpoint_hit (machine.pc c.processor)) (handle_all before q') =
      ap (λ s. handle_all (before ++ s) q') last
      ∙ handle_all-append before (Signal.breakpoint_hit (machine.pc c.processor)) q' in
    let stepped : step q ≡ paused (handle_all sent q') =
      ap (λ (b : Bool). if not b then q else paused (handle_all sent q')) l in
    (
      ap (λ (d : QuickSimulator). d.status) (stepped ∙ ap paused shown)
          ∙ paused-hit (machine.pc c.processor) (handle_all before q'),
      ap (λ (d : QuickSimulator). Controller.is_running d.ctl) stepped
          ∙ ap Controller.is_running
              ((paused-Keeps (handle_all sent q')).0 ∙ (handle_all-Keeps sent q').0)
          ∙ off,
    )
