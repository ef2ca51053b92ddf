-- ===== src/Controller/Restart.antt =====
-- `reset` after a load.
use mathlib.Core.Path.{subst}
use clear_core.Prelude.{
  List, Option, if_both, ◌≡◌, Bool, arith, ℕ, [], refl, none, ◌∷◌, ap, some, ◌∙◌, true,
  Option-cases, false,
}
use clear_core.Processor.Backend.{Backend, IsRestartable, SameLoad}
use clear_core.Controller.{
  Controller, Use, no_statistics, load_program, reset, perform, perform_all, emptied, reload,
  do_step, advance, stop_if_due, stop, Signal, adding, removing, pacing, stepping, timing_out,
  running, stopping, state_of, statistics_updated,
}

module _ {S : Type 0} (b : Backend S) (forget : S → S) (h : IsRestartable b forget) where
  -- A machine that a reset brings back to the same state, and the same program.
  abbrev pub IsSince : Controller S → Controller S → Type 0
  IsSince before c =
      (forget (b.reset c.processor) ≡ forget (b.reset before.processor))
      × (c.loaded ≡ before.loaded)

  pub do_step-IsSince : (c : Controller S) → IsSince c (do_step b c).0
  unfolding do_step advance stop_if_due stop
  do_step-IsSince c =
      let after = (do_step b c).0 in
      let same : after.processor ≡ (b.step c.processor).0 = ground arith in
      let loaded : after.loaded ≡ c.loaded = ground arith in
      (ap (λ (s : S). forget (b.reset s)) same ∙ h.reset_step c.processor, loaded)

  pub perform-IsSince : (u : Use) (c : Controller S) → IsSince c (perform b u c)
  unfolding perform
  perform-IsSince stepping c = do_step-IsSince c
  perform-IsSince timing_out c =
      if_both (λ (r : Controller S × List Signal). IsSince c r.0) c.run_timer.active
        (do_step-IsSince c) (refl, refl)
  perform-IsSince running c = (refl, refl)
  perform-IsSince stopping c = (refl, refl)
  perform-IsSince (adding pc) c = (refl, refl)
  perform-IsSince (removing pc) c = (refl, refl)
  perform-IsSince (pacing speed) c = (refl, refl)

  perform_all-IsSince : (us : List Use) (c : Controller S) → IsSince c (perform_all b us c)
  unfolding perform_all
  perform_all-IsSince [] c = (refl, refl)
  perform_all-IsSince (u ∷ us) c =
      let first = perform-IsSince u c in
      let rest = perform_all-IsSince us (perform b u c) in (rest.0 ∙ first.0, rest.1 ∙ first.1)

  pub SameLoad-some :
      (o : Option (S × Bool)) (s : S) (done : Bool)
      → SameLoad forget o (some (s, done))
      → (t : S) × (o ≡ some (t, done)) × (forget t ≡ forget s)
  SameLoad-some none s done e = absurd e
  SameLoad-some (some (t, d)) s done e = (t, ground arith, e.0)

  -- What a load that succeeds leaves.
  pub load_program-done :
      (c c' : Controller S) (words : List ℕ) (addr : ℕ) (sent : List Signal)
      → load_program b c words addr ≡ some (c', sent, true)
      → (b.load_program (b.reset c.processor) words addr ≡ some (c'.processor, true))
        × (c'.loaded ≡ some (record { words = words; addr = addr }))
  unfolding load_program emptied
  load_program-done c c' words addr sent e =
      ground (arith, Option-cases (b.load_program (b.reset c.processor) words addr))

  -- For a processor whose resets undo its steps and loads, but for what `forget` takes away: after a
  -- load that succeeds and whatever a front end does then, a reset succeeds and brings the processor
  -- back to what it was right after the load, but for that; the program stays loaded, the statistics
  -- are zero and the timer is off.
  pub reset-load_program :
      (c c' : Controller S) (words : List ℕ) (addr : ℕ) (sent : List Signal) (us : List Use)
      → load_program b c words addr ≡ some (c', sent, true)
      → (after : Controller S) × (reset b (perform_all b us c')
          ≡ some (after, state_of b after ∷ statistics_updated no_statistics ∷ []))
        × (forget after.processor ≡ forget c'.processor)
        × (after.loaded ≡ some (record { words = words; addr = addr }))
        × (after.stats ≡ no_statistics)
        × (after.run_timer.active ≡ false)
  unfolding reset emptied reload stop
  reset-load_program c c' words addr sent us e =
      let (loads, kept) = load_program-done c c' words addr sent e in
      let used = perform_all b us c' in
      let (since, loaded) = perform_all-IsSince us c' in
      let blank : forget (b.reset used.processor) ≡ forget (b.reset c.processor) =
        since
        ∙ h.reset_load (b.reset c.processor) c'.processor words addr true loads
        ∙ h.reset_reset c.processor in
      let (t, again, same) =
        SameLoad-some (b.load_program (b.reset used.processor) words addr) c'.processor true (
          subst (λ o. SameLoad forget (b.load_program (b.reset used.processor) words addr) o) loads
            (h.forget_load (b.reset used.processor) (b.reset c.processor) words addr blank)) in
      (
        record (emptied b used) { processor = t },
        rw (loaded ∙ kept, reset) (rw (again, reset) refl),
        same,
        loaded ∙ kept,
        refl,
        refl,
      )
