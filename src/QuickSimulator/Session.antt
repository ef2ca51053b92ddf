-- ===== src/QuickSimulator/Session.antt =====
-- Every operation of the front end keeps it and its controller in agreement.
use clear_core.Assembler
use clear_core.Controller
use clear_core.Controller.{Controller, interval_of}
use clear_core.QuickSimulator.{
  QuickSimulator, create, start, rebuild_controller, reset, assemble_and_load, set_model, emptied,
  load_last, handle_all, set_status, loaded_message, clamped, step, run_pause, time_out,
  toggle_breakpoint, set_speed, paused,
}
use clear_core.QuickSimulator.Backends.{machine, make_processor}
use clear_core.QuickSimulator.Coherent.{
  IsCoherent, make_processor-is_single, clamped-bound, sent-IsCoherent, shown_only,
  load_last-IsCoherent, paused-IsCoherent, emptied-IsCoherent, status-IsCoherent,
}
use clear_core.QuickSimulator.Paced.{do_step-Stays, on_run_timer-Stays, reset-Stays}
use clear_core.QuickSimulator.Restart.{Action, act}
use clear_core.Text.{Text, codes, same, is_empty}
use clear_core.Prelude.{
  List, [], ◌≡◌, refl, arith, Option-cases, inl, inr, ℕ, some, none, Option, ◌≤◌, pos, if_both, not,
  ◌==◌, ◌||◌, if◌then◌else◌, ◌&&◌,
}

module _ (q : QuickSimulator) (v : IsCoherent q) where
  act-IsCoherent : (a : Action) → IsCoherent (act a q)
  unfolding act step run_pause time_out toggle_breakpoint set_speed set_status paused clamped
      Controller.step_cycle Controller.run Controller.stop Controller.set_breakpoint
      Controller.clear_breakpoint Controller.set_execution_speed
  act-IsCoherent Action.stepping =
      if_both {A = QuickSimulator} IsCoherent (not q.program_loaded) v (
        let (ctl, sent) = Controller.do_step machine q.ctl in
        let good = sent-IsCoherent q v ctl sent (do_step-Stays q.ctl) in
        paused-IsCoherent (handle_all sent (record q { ctl = ctl })) good)
  act-IsCoherent Action.running = if_both {A = QuickSimulator} IsCoherent (not q.program_loaded) v (
      if_both {A = QuickSimulator} IsCoherent (Controller.is_running q.ctl)
        (shown_only q v _ v.grid refl (refl, refl) refl)
        (shown_only q v _ v.grid refl (refl, refl) refl))
  act-IsCoherent Action.timing_out =
      let (ctl, sent) = Controller.on_run_timer machine q.ctl in
      sent-IsCoherent q v ctl sent (on_run_timer-Stays q.ctl)
  act-IsCoherent (Action.toggling pc) =
      if_both {A = QuickSimulator} IsCoherent (Controller.has_breakpoint pc q.ctl)
        (shown_only q v _ v.grid refl (refl, refl) refl)
        (shown_only q v _ v.grid refl (refl, refl) refl)
  act-IsCoherent (Action.pacing speed) =
      if_both {A = QuickSimulator} IsCoherent (clamped speed == q.speed) v
        (record { grid = v.grid; bounded = clamped-bound speed; paced = refl; built = v.built })

module _ (q : QuickSimulator) (v : IsCoherent q) where
  reset-IsCoherent : (q' : QuickSimulator) → reset q ≡ some q' → IsCoherent q'
  unfolding reset emptied Controller.stop
  reset-IsCoherent q' e = elim (Option-cases (Controller.reset machine (Controller.stop q.ctl))) [
    | inl n ↦ absurd (cc (rw (n, reset) at e))
    | inr ((ctl, sent), s) ↦
        let e' = rw (s, reset) at e in
        let stays = reset-Stays (Controller.stop q.ctl) ctl sent s in
        let blank = record (emptied (record q { ctl = Controller.stop q.ctl })) {
          stages = [];
          hazards = none;
        } in
        let good = shown_only q v blank (refl, omega arith) refl (refl, refl) refl in
        let q'' = handle_all sent (record blank { ctl = ctl }) in
        let is : q' ≡ set_status (codes "Idle") q'' = ground arith in
        rw is (status-IsCoherent q'' (sent-IsCoherent blank good ctl sent stays) (codes "Idle"))
  ]

  loaded_message-IsCoherent : IsCoherent (loaded_message q).0
  unfolding loaded_message
  loaded_message-IsCoherent =
      if_both {A = QuickSimulator × Text} (λ r. IsCoherent r.0) (not q.program_loaded)
        (status-IsCoherent q v _) (status-IsCoherent q v _)

module _ (q : QuickSimulator) (v : IsCoherent q) where
  -- From the words on that were assembled.
  load-IsCoherent :
      (words : List ℕ) (q' : QuickSimulator) (message : Text)
      → (elim (load_last (record q { last_program = words })) [
        | none ↦ none
        | some q'' ↦ some (loaded_message (emptied q''))
      ])
        ≡ some (q', message)
      → IsCoherent q'
  load-IsCoherent words q' message e =
      let before = record q { last_program = words } in
      let good = shown_only q v before v.grid refl (refl, refl) refl in
      elim (Option-cases (load_last before)) [
        | inl n ↦ absurd (cc (rw n at e))
        | inr (q'', l) ↦
            let e' = rw l at e in
            let is : q' ≡ (loaded_message (emptied q'')).0 = ground arith in
            rw is (
              loaded_message-IsCoherent (emptied q'')
                (emptied-IsCoherent q'' (load_last-IsCoherent before good q'' l)))
      ]

module _ (q : QuickSimulator) (v : IsCoherent q) where
  assemble_and_load-IsCoherent :
      (source message : Text) (q' : QuickSimulator)
      → assemble_and_load source q ≡ some (q', message)
      → IsCoherent q'
  unfolding assemble_and_load Controller.stop
  assemble_and_load-IsCoherent source message q' e =
      elim (Option-cases (Assembler.assemble source).error) [
        | inr (msg, n) ↦
            let e' = rw (n, assemble_and_load) at e in let is : q' ≡ q = ground arith in rw is v
        | inl n ↦
            let e' = rw (n, assemble_and_load) at e in
            elim (Option-cases (Controller.reset machine (Controller.stop q.ctl))) [
              | inl r ↦ absurd (cc (rw (r, assemble_and_load) at e'))
              | inr ((ctl, sent), r) ↦
                  load-IsCoherent (handle_all sent (record q { ctl = ctl }))
                    (sent-IsCoherent q v ctl sent (reset-Stays (Controller.stop q.ctl) ctl sent r))
                    (Assembler.assemble source).words q' message (rw (r, assemble_and_load) at e')
            ]
      ]

reloaded-IsCoherent :
    (q : QuickSimulator)
    → IsCoherent q
    → (q' : QuickSimulator) → (if is_empty q.last_program then some q else load_last q) ≡ some q'
    → IsCoherent q'
reloaded-IsCoherent q v q' =
    if_both {A = Option QuickSimulator} (λ o. o ≡ some q' → IsCoherent q') (is_empty q.last_program)
      (λ e. let is : q' ≡ q = ground arith in rw is v) (load_last-IsCoherent q v q')

-- A new controller, and the program loaded into it again.
rebuild_controller-IsCoherent :
    (q q' : QuickSimulator) → q.speed ≤ 100 → rebuild_controller q ≡ some q' → IsCoherent q'
unfolding rebuild_controller emptied Controller.set_execution_speed Controller.create
rebuild_controller-IsCoherent q q' h e =
    let ctl =
      Controller.set_execution_speed (pos q.speed)
        (Controller.create machine (make_processor q.model)) in
    let fresh = record (emptied (record q { ctl = ctl })) { stages = []; hazards = none } in
    let good : IsCoherent fresh = record {
      grid = (refl, omega arith);
      bounded = h;
      paced = refl;
      built = make_processor-is_single q.model;
    } in
    elim (Option-cases (if is_empty q.last_program then some fresh else load_last fresh)) [
      | inl n ↦ absurd (cc (rw (n, rebuild_controller) at e))
      | inr (q'', s) ↦
          let e' = rw (s, rebuild_controller) at e in
          let is : q' ≡ set_status (codes "Idle") q'' = ground arith in
          let again : IsCoherent q'' = reloaded-IsCoherent fresh good q'' s in
          rw is (status-IsCoherent q'' again (codes "Idle"))
    ]

set_model-IsCoherent :
    (q : QuickSimulator)
    → IsCoherent q
    → (m : Text) (q' : QuickSimulator) → set_model m q ≡ some q'
    → IsCoherent q'
unfolding set_model
set_model-IsCoherent q v m q' =
    if_both {A = Option QuickSimulator} (λ o. o ≡ some q' → IsCoherent q')
      (same m q.model || (not (same m (codes "pipelined")) && not (same m (codes "single"))))
      (λ e. let is : q' ≡ q = ground arith in rw is v)
      (rebuild_controller-IsCoherent (record q { model = m }) q' v.bounded)

-- What the user can bring a new front end to.
pub data Session : QuickSimulator → Type 0 where
  created : {q : QuickSimulator} → create ≡ some q → Session q
  acts : {q : QuickSimulator} (a : Action) → Session q → Session (act a q)
  resets : {q q' : QuickSimulator} → Session q → reset q ≡ some q' → Session q'
  loads :
      {q q' : QuickSimulator} (source message : Text)
      → Session q
      → assemble_and_load source q ≡ some (q', message)
      → Session q'
  models :
      {q q' : QuickSimulator} (model : Text) → Session q → set_model model q ≡ some q' → Session q'

-- Whatever the user does with a new front end, QML shows the trace that is kept, which has at most 256
-- rows; the interval of the timer is that of the speed, which is at most 100; and the processor is of
-- the model that is chosen.
pub Session-IsCoherent : (q : QuickSimulator) → Session q → IsCoherent q
unfolding create start
Session-IsCoherent q (created e) = rebuild_controller-IsCoherent start q (omega arith) e
Session-IsCoherent q (acts a s) = act-IsCoherent _ (Session-IsCoherent _ s) a
Session-IsCoherent q (resets s e) = reset-IsCoherent _ (Session-IsCoherent _ s) q e
Session-IsCoherent q (loads source message s e) =
    assemble_and_load-IsCoherent _ (Session-IsCoherent _ s) source message q e
Session-IsCoherent q (models model s e) = set_model-IsCoherent _ (Session-IsCoherent _ s) model q e
