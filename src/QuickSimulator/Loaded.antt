-- ===== src/QuickSimulator/Loaded.antt =====
-- What `assembleAndLoad` leaves when it succeeds.
use clear_core.Assembler
use clear_core.Controller
use clear_core.Controller.{Controller, Signal}
use clear_core.QuickSimulator.{
  QuickSimulator, assemble_and_load, emptied, load_last, handle_all, set_status, loaded_message,
}
use clear_core.QuickSimulator.Backends.{Machine, machine}
use clear_core.QuickSimulator.Signals.{handle_all-Keeps}
use clear_core.Text.{Text}
use clear_core.Prelude.{List, [], ◌≡◌, arith, Option-cases, inl, inr, ℕ, none, some, true}

loaded_message-done :
    (q q' : QuickSimulator)
    → loaded_message q ≡ (q', [])
    → (q.program_loaded ≡ true) × (q'.ctl ≡ q.ctl)
unfolding loaded_message set_status
loaded_message-done q q' e = ground arith

-- A load that the front end reports as done is one of the controller.
abbrev pub IsLoad : QuickSimulator → List ℕ → Type 0
IsLoad q words =
    (c : Controller Machine) × (sent : List Signal) × (Controller.load_program machine c words 0
      ≡ some (q.ctl, sent, true))

load_last-done :
    (q q' : QuickSimulator)
    → load_last q ≡ some q'
    → q'.program_loaded ≡ true
    → IsLoad q' q.last_program
unfolding load_last
load_last-done q q' e l =
    elim (Option-cases (Controller.load_program machine q.ctl q.last_program 0)) [
      | inl n ↦ absurd (cc (rw (n, load_last) at e))
      | inr ((ctl, sent, done), s) ↦
          let e' = rw (s, load_last) at e in
          let kept = (handle_all-Keeps sent (record q { ctl = ctl })).0 in
          let same : q'.ctl ≡ ctl = ground (arith, kept) in
          let ok : done ≡ true = ground (arith, l) in (q.ctl, sent, cc (s, same, ok))
    ]

-- A source that assembles and that the front end reports as loaded was loaded at address 0.
pub assemble_and_load-done :
    (source : Text) (q q' : QuickSimulator)
    → (Assembler.assemble source).error ≡ none
    → assemble_and_load source q ≡ some (q', [])
    → IsLoad q' (Assembler.assemble source).words
unfolding assemble_and_load emptied
assemble_and_load-done source q q' ok e =
    let asm = rw (ok, assemble_and_load) at e in
    elim (Option-cases (Controller.reset machine (Controller.stop q.ctl))) [
      | inl n ↦ absurd (cc (rw (n, assemble_and_load) at asm))
      | inr ((ctl, sent), r) ↦
          let e' = rw (r, assemble_and_load) at asm in
          let before = record (handle_all sent (record q { ctl = ctl })) {
            last_program = (Assembler.assemble source).words;
          } in
          elim (Option-cases (load_last before)) [
            | inl n ↦ absurd (cc (rw (n, assemble_and_load) at e'))
            | inr (loaded, l) ↦
                let last = rw (l, assemble_and_load) at e' in
                let (done, same) = loaded_message-done (emptied loaded) q' (cc last) in
                let (c, s, load) = load_last-done before loaded l done in (c, s, cc (load, same))
          ]
    ]
