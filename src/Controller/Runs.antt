-- ===== src/Controller/Runs.antt =====
-- The run that the timer drives.
use clear_core.Prelude.{
  [], ◌≡◌, refl, List, true, ℕ, false, if◌then◌else◌, not, arith, ◌&&◌, inl, suc, sym, ◌∙◌, ap, ◌≢◌,
  Bool, inr,
}
use clear_core.Processor.Backend.{Backend}
use clear_core.Processor.{StepResult, run}
use clear_core.Processor.Run.{run_goes_on, run_stops, StepResult-cases}
use clear_core.Controller.{
  Controller, do_step, advance, stop_if_due, is_hit, on_run_timer, timeouts, contains, stops, stop,
}

stops_unless : (r : StepResult) → r ≢ StepResult.ok → not (stops r) ≡ false
stops_unless StepResult.ok h = absurd (h refl)
stops_unless r h = refl

module _ {S : Type 0} (b : Backend S) where
  -- A step that counts as a halt where it ends on one of the addresses.
  unfoldable pub watched : List ℕ → S → S × StepResult
  watched addresses s =
      let (s', result) = b.step s in
      (s', if not (stops result) && contains (b.pc s') addresses then StepResult.halt else result)

  timeout_off : (c : Controller S) → c.run_timer.active ≡ false → (on_run_timer b c).0 ≡ c
  unfolding on_run_timer
  timeout_off c e = ap (λ (on : Bool). (if on then do_step b c else (c, [])).0) e

  timeout_on :
      (c : Controller S) → c.run_timer.active ≡ true → (on_run_timer b c).0 ≡ (do_step b c).0
  unfolding on_run_timer
  timeout_on c e = ap (λ (on : Bool). (if on then do_step b c else (c, [])).0) e

  off : (n : ℕ) (c : Controller S) → c.run_timer.active ≡ false → timeouts b n c ≡ c
  unfolding timeouts
  off ℕ.zero c e = refl
  off (ℕ.suc n) c e = ap (timeouts b n) (timeout_off c e) ∙ off n c e

  -- A step of the controller takes the processor a step of its own, keeps the breakpoints, and leaves
  -- the timer on exactly if that step is `Ok`.
  do_step-watched :
      (c : Controller S)
      → c.run_timer.active ≡ true
      → ((do_step b c).0.processor ≡ (watched c.breakpoints c.processor).0)
        × ((do_step b c).0.breakpoints ≡ c.breakpoints)
        × ((do_step b c).0.run_timer.active ≡ not (stops (watched c.breakpoints c.processor).1))
  unfolding do_step advance stop_if_due is_hit stop watched
  do_step-watched c e = ground arith

  -- While the timer is on, its next timeouts take the processor where `run` takes it with as many
  -- steps, if a step that ends on a breakpoint counts as a halt; and the timer is on afterwards
  -- exactly if the result of that `run` is `Ok`.
  pub timeouts-run :
      (n : ℕ) (c : Controller S)
      → c.run_timer.active ≡ true
      → ((timeouts b n c).processor ≡ (run (watched c.breakpoints) n c.processor).0)
        × ((timeouts b n c).run_timer.active
            ≡ not (stops (run (watched c.breakpoints) n c.processor).1))
  unfolding timeouts run
  timeouts-run ℕ.zero c e = (refl, e)
  timeouts-run (ℕ.suc n) c e =
      let w = watched c.breakpoints in
      let after = (do_step b c).0 in
      let first : timeouts b (suc n) c ≡ timeouts b n after = ap (timeouts b n) (timeout_on c e) in
      let (there, same, on) = do_step-watched c e in
      elim (StepResult-cases (w c.processor).1) [
        | inl ok ↦
            let rest = timeouts-run n after (on ∙ ap (λ r. not (stops r)) ok) in
            let goal : run (watched after.breakpoints) n after.processor
                ≡ run w (suc n) c.processor =
              ap (λ bs. run (watched bs) n after.processor) same
              ∙ ap (run w n) there
              ∙ sym (run_goes_on w n c.processor ok) in
            (
              ap (λ (d : Controller S). d.processor) first ∙ rest.0 ∙ ap (λ r. r.0) goal,
              ap (λ (d : Controller S). d.run_timer.active) first
                  ∙ rest.1
                  ∙ ap (λ r. not (stops r.1)) goal,
            )
        | inr over_now ↦
            let over = run_stops w n c.processor over_now in
            let ends : timeouts b (suc n) c ≡ after =
              first ∙ off n after (on ∙ stops_unless (w c.processor).1 over_now) in
            (
              ap (λ (d : Controller S). d.processor) ends ∙ there ∙ sym (ap (λ r. r.0) over),
              ap (λ (d : Controller S). d.run_timer.active) ends
                  ∙ on
                  ∙ sym (ap (λ r. not (stops r.1)) over),
            )
      ]
