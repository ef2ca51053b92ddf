-- ===== src/Controller/Consistent.antt =====
-- The state of the controller.
use mathlib.Core.Path.{subst}
use clear_core.Controller.Restart.{SameLoad-some, do_step-IsSince}
use clear_core.Prelude.{
  none, some, ◌≡◌, refl, List, ◌%◌, ℕ, ◌^◌, true, Bool, Option-cases, arith, if_both, inl, sym, inr,
  ◌∙◌, Option, false, ◌⊎◌,
}
use clear_core.Processor.Backend.{Backend, IsRestartable, SameLoad}
use clear_core.Controller.{
  Controller, LoadedProgram, Use, create, load_program, reset, perform, emptied, reload, do_step,
  advance, stop_if_due, stop, accumulate_stats, no_statistics, Signal, stepping, timing_out,
}

module _ {S : Type 0} (b : Backend S) where
  -- The statistics count the processor's cycles and each stall and flush as one hazard, and the
  -- program that is kept can be loaded into the emptied processor.
  pub record IsConsistent (c : Controller S) : Type 0 where
    pub counted : c.stats.cycles_executed ≡ b.cycle_count c.processor % 2 ^ 64
    pub stalls_counted : c.stats.stalls ≡ c.stats.data_hazards
    pub flushes_counted : c.stats.flushes ≡ c.stats.control_hazards
    pub reloads :
        (p : LoadedProgram)
        → c.loaded ≡ some p
        → (s : S) × (b.load_program (b.reset c.processor) p.words p.addr ≡ some (s, true))

  -- What the front ends can bring a new controller of this processor to.
  pub data Reach (s : S) : Controller S → Type 0 where
    created : Reach s (create b s)
    loads :
        {c c' : Controller S} (words : List ℕ) (addr : ℕ) (sent : List Signal) (done : Bool)
        → Reach s c
        → load_program b c words addr ≡ some (c', sent, done)
        → Reach s c'
    resets :
        {c c' : Controller S} (sent : List Signal)
        → Reach s c
        → reset b c ≡ some (c', sent)
        → Reach s c'
    uses : {c : Controller S} (u : Use) → Reach s c → Reach s (perform b u c)

pub load_cases :
    {S : Type 0} (o : Option (S × Bool))
    → (o ≡ none) ⊎ (((s : S) × (o ≡ some (s, true))) ⊎ ((s : S) × (o ≡ some (s, false))))
load_cases none = inl refl
load_cases (some (s, true)) = inr (inl (s, refl))
load_cases (some (s, false)) = inr (inr (s, refl))

module _ {S : Type 0} (b : Backend S) (forget : S → S) (h : IsRestartable b forget) where
  -- A program that one emptied machine takes, every emptied machine like it takes.
  reloads_since :
      (s t : S) (p : LoadedProgram)
      → forget (b.reset t) ≡ forget (b.reset s)
      → (r : S) × (b.load_program (b.reset s) p.words p.addr ≡ some (r, true))
      → (r : S) × (b.load_program (b.reset t) p.words p.addr ≡ some (r, true))
  reloads_since s t p same (r, e) =
      let (r', e', _) =
        SameLoad-some b forget h (b.load_program (b.reset t) p.words p.addr) r true (
          subst (λ o. SameLoad forget (b.load_program (b.reset t) p.words p.addr) o) e
            (h.forget_load (b.reset t) (b.reset s) p.words p.addr same)) in
      (r', e')

  module _ (c : Controller S) (v : IsConsistent b c) where
    do_step-IsConsistent : IsConsistent b (do_step b c).0
    unfolding do_step advance stop_if_due stop accumulate_stats
    do_step-IsConsistent =
        let (same, kept) = do_step-IsSince b forget h c in
        record {
          counted = ground (arith, h.count_step c.processor, v.counted);
          stalls_counted = ground (arith, v.stalls_counted);
          flushes_counted = ground (arith, v.flushes_counted);
          reloads = λ p e.
              reloads_since c.processor (do_step b c).0.processor p same
                (v.reloads p (sym kept ∙ e));
        }

    perform-IsConsistent : (u : Use) → IsConsistent b (perform b u c)
    unfolding perform
    perform-IsConsistent stepping = do_step-IsConsistent
    perform-IsConsistent timing_out =
        if_both (λ (r : Controller S × List Signal). IsConsistent b r.0) c.run_timer.active
          do_step-IsConsistent v
    perform-IsConsistent u = record {
      counted = v.counted;
      stalls_counted = v.stalls_counted;
      flushes_counted = v.flushes_counted;
      reloads = v.reloads;
    }

    -- The state after a load, and after a reset.
    fresh :
        (c' : Controller S) (s : S)
        → c'.stats ≡ no_statistics
        → c'.processor ≡ s
        → b.cycle_count s ≡ 0
        → ((p : LoadedProgram)
            → c'.loaded ≡ some p
            → (t : S) × (b.load_program (b.reset s) p.words p.addr ≡ some (t, true)))
        → IsConsistent b c'
    fresh c' s e same z again = record {
      counted = rw (e, same, z) refl;
      stalls_counted = rw e refl;
      flushes_counted = rw e refl;
      reloads = λ p l. rw same (again p l);
    }

    module _ (s : S) (words : List ℕ) (addr : ℕ) (done : Bool) where
      -- A machine that a load into the emptied one gave.
      loaded_count :
          b.load_program (b.reset c.processor) words addr ≡ some (s, done) → b.cycle_count s ≡ 0
      loaded_count q =
          h.count_load (b.reset c.processor) s words addr done q ∙ h.count_reset c.processor

      loaded_again :
          b.load_program (b.reset c.processor) words addr ≡ some (s, done)
          → (p : LoadedProgram)
          → (r : S) × (b.load_program (b.reset c.processor) p.words p.addr ≡ some (r, true))
          → (r : S) × (b.load_program (b.reset s) p.words p.addr ≡ some (r, true))
      loaded_again q p =
          reloads_since c.processor s p
            (h.reset_load (b.reset c.processor) s words addr done q ∙ h.reset_reset c.processor)

    load_program-IsConsistent :
        (c' : Controller S) (words : List ℕ) (addr : ℕ) (sent : List Signal) (done : Bool)
        → load_program b c words addr ≡ some (c', sent, done)
        → IsConsistent b c'
    unfolding load_program emptied stop
    load_program-IsConsistent c' words addr sent done e =
        elim (load_cases (b.load_program (b.reset c.processor) words addr)) [
          | inl q ↦ absurd (cc (rw (q, load_program) at e))
          | inr (inl (s, q)) ↦
              let e' = rw (q, load_program) at e in
              fresh c' s (ground arith) (ground arith) (loaded_count s words addr true q) (λ p l.
                loaded_again s words addr true q p (
                  let same : p ≡ record { words = words; addr = addr } = ground arith in
                  rw same (s, q)))
          | inr (inr (s, q)) ↦
              let e' = rw (q, load_program) at e in
              fresh c' s (ground arith) (ground arith) (loaded_count s words addr false q)
                (λ p l. absurd (ground arith))
        ]

    reset-IsConsistent :
        (c' : Controller S) (sent : List Signal) → reset b c ≡ some (c', sent) → IsConsistent b c'
    unfolding reset emptied reload stop
    reset-IsConsistent c' sent e = elim (Option-cases c.loaded) [
      | inl q ↦
          let e' = rw (q, reset) at e in
          fresh c' (b.reset c.processor) (ground arith) (ground arith) (h.count_reset c.processor)
            (λ p l. absurd (ground arith))
      | inr (p, q) ↦
          let (s, again) = v.reloads p q in
          let e' = rw (again, reset) at (rw (q, reset) at e) in
          fresh c' s (ground arith) (ground arith) (loaded_count s p.words p.addr true again)
            (λ p' l.
              loaded_again s p.words p.addr true again p'
                (let same : p' ≡ p = ground arith in rw same (s, again)))
    ]

  -- Whatever a front end does with a new controller of a processor that has not run, and whose resets
  -- undo its steps and loads but for what `forget` takes away, the statistics
  -- count the processor's cycles, modulo 2 ^ 64, and each stall and flush as one hazard, and the
  -- program that is kept can be loaded again into the emptied processor.
  pub Reach-IsConsistent :
      (s : S) (c : Controller S) → b.cycle_count s ≡ 0 → Reach b s c → IsConsistent b c
  unfolding create
  Reach-IsConsistent s c z created = record {
    counted = omega (arith, z);
    stalls_counted = refl;
    flushes_counted = refl;
    reloads = λ p e. absurd (cc e);
  }
  Reach-IsConsistent s c z (loads words addr sent done r e) =
      load_program-IsConsistent _ (Reach-IsConsistent s _ z r) c words addr sent done e
  Reach-IsConsistent s c z (resets sent r e) =
      reset-IsConsistent _ (Reach-IsConsistent s _ z r) c sent e
  Reach-IsConsistent s c z (uses u r) = perform-IsConsistent _ (Reach-IsConsistent s _ z r) u
