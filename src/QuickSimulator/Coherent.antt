-- ===== src/QuickSimulator/Coherent.antt =====
-- The front end and its controller agree, whatever the user does.
use clear_core.Controller
use clear_core.Controller.{Controller, interval_of}
use clear_core.QuickSimulator.{
  QuickSimulator, emptied, load_last, handle_all, set_status, clamped, paused,
}
use clear_core.QuickSimulator.Backends.{Machine, machine, make_processor}
use clear_core.QuickSimulator.Grid.{IsGrid, handle_all-IsGrid}
use clear_core.QuickSimulator.Paced.{is_single, Stays, load_program-Stays}
use clear_core.QuickSimulator.Signals.{handle_all-Keeps}
use clear_core.Text.{Text, codes, same, starts_with}
use clear_core.Prelude.{
  List, ◌≡◌, refl, ◌∙◌, arith, Option-cases, inl, inr, some, ◌≤◌, pos, ap, sym, if_both, ℤ, negsuc,
  ◌||◌,
}

-- QML shows the trace that is kept, which has at most 256 rows; the timer's interval is that of the
-- speed, which is at most 100; and the processor is of the model that is chosen.
pub record IsCoherent (q : QuickSimulator) : Type 0 where
  pub grid : IsGrid q
  pub bounded : q.speed ≤ 100
  pub paced : q.ctl.run_timer.interval ≡ interval_of (pos q.speed)
  pub built : is_single q.ctl.processor ≡ same q.model (codes "single")

pub make_processor-is_single :
    (model : Text) → is_single (make_processor model) ≡ same model (codes "single")
unfolding make_processor is_single
make_processor-is_single model = ground arith

pub clamped-bound : (s : ℤ) → clamped s ≤ 100
clamped-bound (pos n) = ground arith
clamped-bound (negsuc n) = omega arith

module _ (q : QuickSimulator) (v : IsCoherent q) where
  -- A new state of the controller, and its signals.
  pub sent-IsCoherent :
      (ctl : Controller Machine) (sent : List Controller.Signal)
      → Stays q.ctl ctl
      → IsCoherent (handle_all sent (record q { ctl = ctl }))
  sent-IsCoherent ctl sent s =
      let (c, speed, model, last, loaded) = handle_all-Keeps sent (record q { ctl = ctl }) in
      record {
        grid = handle_all-IsGrid sent (record q { ctl = ctl }) v.grid;
        bounded = rw speed v.bounded;
        paced = rw (c, speed) (s.0 ∙ v.paced);
        built = rw (c, model) (s.1 ∙ v.built);
      }

  pub shown_only :
      (q' : QuickSimulator)
      → IsGrid q'
      → q'.speed ≡ q.speed
      → Stays q.ctl q'.ctl
      → q'.model ≡ q.model
      → IsCoherent q'
  shown_only q' g speed s model = record {
    grid = g;
    bounded = rw speed v.bounded;
    paced = s.0 ∙ v.paced ∙ ap (λ n. interval_of (pos n)) (sym speed);
    built = s.1 ∙ v.built ∙ ap (λ m. same m (codes "single")) (sym model);
  }

  pub paused-IsCoherent : IsCoherent (paused q)
  unfolding paused set_status
  paused-IsCoherent =
      if_both {A = QuickSimulator} IsCoherent
        (same q.status (codes "Idle") || starts_with (codes "Breakpoint") q.status)
        (shown_only _ v.grid refl (refl, refl) refl) v

  pub load_last-IsCoherent : (q' : QuickSimulator) → load_last q ≡ some q' → IsCoherent q'
  unfolding load_last
  load_last-IsCoherent q' e =
      elim (Option-cases (Controller.load_program machine q.ctl q.last_program 0)) [
        | inl n ↦ absurd (cc (rw (n, load_last) at e))
        | inr ((ctl, sent, done), s) ↦
            let e' = rw (s, load_last) at e in
            let stays = load_program-Stays q.ctl ctl q.last_program 0 sent done s in
            let good = sent-IsCoherent ctl sent stays in
            let q'' = handle_all sent (record q { ctl = ctl }) in
            let is : q' ≡ record q'' { program_loaded = done } = ground arith in
            rw is (record {
              grid = good.grid;
              bounded = good.bounded;
              paced = good.paced;
              built = good.built;
            })
      ]

  -- A front end with an emptied grid.
  pub emptied-IsCoherent : IsCoherent (emptied q)
  unfolding emptied
  emptied-IsCoherent = shown_only _ (refl, omega arith) refl (refl, refl) refl

  -- The stages are no part of it, nor are the status and the program.
  pub status-IsCoherent : (s : Text) → IsCoherent (set_status s q)
  unfolding set_status
  status-IsCoherent s = shown_only _ v.grid refl (refl, refl) refl
