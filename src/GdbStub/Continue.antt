-- ===== src/GdbStub/Continue.antt =====
-- The loop of `c` against the processor's own loop `run`.
use mathlib.Core.List.{append-nil}
use clear_core.Processor.{StepResult, run}
use clear_core.GdbStub.{
  Stub, InputPoll, polled, stepped, after_step, continue_from, handle_continue, resume_at,
  report_exception, send_packet, stop_signal, exception_signal,
}
use clear_core.GdbStub.Packets.{packet, hex_byte}
use clear_core.Cp0.{ExceptionCode}
use clear_core.SingleCycle.{Cpu, step}
use clear_core.Text.{Text, codes}
use clear_core.Prelude.{
  ℕ, zero, suc, ◌≡◌, refl, Bool, true, false, Option, none, [], ◌++◌, sym, arith, if_both, ◌%◌,
  ◌==◌, not, ◌∙◌, ap,
}

-- The signals SIGTRAP, SIGSYS, SIGILL, SIGFPE and SIGSEGV as two hexadecimal digits.
abbrev pub signal_digits : ExceptionCode → Text
signal_digits ExceptionCode.bp = codes "05"
signal_digits ExceptionCode.int = codes "05"
signal_digits ExceptionCode.sys = codes "0c"
signal_digits ExceptionCode.ri = codes "04"
signal_digits ExceptionCode.ov = codes "08"
signal_digits ExceptionCode.ad_el = codes "0b"
signal_digits ExceptionCode.ad_es = codes "0b"

signal_digits-eq : (e : ExceptionCode) → hex_byte (exception_signal e) ≡ signal_digits e
unfolding exception_signal hex_byte
signal_digits-eq ExceptionCode.bp = refl
signal_digits-eq ExceptionCode.int = refl
signal_digits-eq ExceptionCode.sys = refl
signal_digits-eq ExceptionCode.ri = refl
signal_digits-eq ExceptionCode.ov = refl
signal_digits-eq ExceptionCode.ad_el = refl
signal_digits-eq ExceptionCode.ad_es = refl

-- What the stub replies where the loop ends with a result, and where it leaves the processor: after an
-- exception at the address in EPC.
abbrev pub stop_reply : StepResult → Cpu → Text
stop_reply StepResult.ok c = []
stop_reply StepResult.exception c =
    packet (codes "T" ++ (signal_digits c.cp0.last_exc ++ codes "thread:01;"))
stop_reply StepResult.fault c = packet (codes "S05")
stop_reply StepResult.halt c = packet (codes "S05")

abbrev pub stopped_at : StepResult → Cpu → Cpu
stopped_at StepResult.exception c = record c { pc = c.cp0.epc }
stopped_at _ c = c

abbrev pub goes_on : StepResult → Bool
goes_on StepResult.ok = true
goes_on _ = false

-- A stub that has gone where a run of the processor ends.
pub record IsRun (s : Stub) (end : Cpu × StepResult) (t : Stub) : Type 0 where
  pub at_end : t.cpu ≡ stopped_at end.1 end.0
  pub replied : t.sent ≡ s.sent ++ stop_reply end.1 end.0
  pub still_running : t.running ≡ goes_on end.1
  pub same_breakpoints : t.breakpoints ≡ s.breakpoints

resume_at-keeps :
    (args : Text) (s : Stub)
    → ((resume_at args s).sent ≡ s.sent) × ((resume_at args s).breakpoints ≡ s.breakpoints)
unfolding resume_at
resume_at-keeps args s = ground arith

module _ (polls : ℕ → InputPoll) (quiet : (k : ℕ) → polls k ≡ InputPoll.idle) where
  polled-none : (k : ℕ) (s : Stub) → polled polls k s ≡ none
  unfolding polled
  polled-none k s =
      if_both {A = Option Stub} (λ o. o ≡ none) (not (k % 1024 == 0)) refl (rw (quiet k) refl)

  -- A round whose poll finds nothing.
  abbrev round : ℕ → ℕ → Stub → Stub
  round n k s =
      let (s', on) = after_step s in
      elim on [ true ↦ continue_from polls n (suc k) s' | false ↦ s' ]

  continue_from-round :
      (n k : ℕ) (s : Stub) → continue_from polls (suc n) k s ≡ round n k (stepped s)
  unfolding continue_from
  continue_from-round n k s = rw (polled-none (suc k) s, continue_from) refl

  continue_from-IsRun :
      (n k : ℕ) (s : Stub)
      → s.running ≡ true
      → IsRun s (run step n s.cpu) (continue_from polls n k s)
  unfolding run continue_from stepped after_step report_exception send_packet stop_signal hex_byte
  continue_from-IsRun zero k s r = record {
    at_end = refl;
    replied = sym (append-nil s.sent);
    still_running = r;
    same_breakpoints = refl;
  }
  continue_from-IsRun (suc n) k s r =
      rw (continue_from-round n k s)
        (by_result (λ t e. continue_from-IsRun n (suc k) t e) (step s.cpu).0 (step s.cpu).1)
    where
      by_result :
          ((t : Stub)
            → t.running ≡ true
            → IsRun t (run step n t.cpu) (continue_from polls n (suc k) t))
          → (c : Cpu) (result : StepResult)
          → IsRun s
              (elim result as (λ _. Cpu × StepResult) [
                | StepResult.ok ↦ run step n c
                | StepResult.exception ↦ (c, StepResult.exception)
                | StepResult.fault ↦ (c, StepResult.fault)
                | StepResult.halt ↦ (c, StepResult.halt)
              ])
              (round n k (record s { cpu = c; last_result = result }))
      by_result rest c StepResult.ok =
          let is = rest (record s { cpu = c; last_result = StepResult.ok }) r in
          record {
            at_end = is.at_end;
            replied = is.replied;
            still_running = is.still_running;
            same_breakpoints = is.same_breakpoints;
          }
      by_result rest c StepResult.exception = record {
        at_end = refl;
        replied =
            ap (λ d. s.sent ++ packet (codes "T" ++ (d ++ codes "thread:01;")))
              (signal_digits-eq c.cp0.last_exc);
        still_running = refl;
        same_breakpoints = refl;
      }
      by_result rest c StepResult.fault = record {
        at_end = refl;
        replied = refl;
        still_running = refl;
        same_breakpoints = refl;
      }
      by_result rest c StepResult.halt = record {
        at_end = refl;
        replied = refl;
        still_running = refl;
        same_breakpoints = refl;
      }

  -- While `poll_input` finds nothing, `c` takes the processor where `run` takes it with as many steps
  -- from the address it resumes at. If a step was not `Ok`, it stops there with one reply, the signal
  -- of an exception, at whose EPC it leaves the processor, or else S05; otherwise it is still running
  -- and has sent nothing. The breakpoints stay.
  pub handle_continue-run :
      (rounds : ℕ) (args : Text) (s : Stub)
      → IsRun s (run step rounds (resume_at args s).cpu) (handle_continue polls rounds args s)
  unfolding handle_continue
  handle_continue-run rounds args s =
      let from = record (resume_at args s) { running = true } in
      let is = continue_from-IsRun rounds 0 from refl in
      let (sent, breakpoints) = resume_at-keeps args s in
      let end = run step rounds (resume_at args s).cpu in
      record {
        at_end = is.at_end;
        replied = is.replied ∙ ap (λ t. t ++ stop_reply end.1 end.0) sent;
        still_running = is.still_running;
        same_breakpoints = is.same_breakpoints ∙ breakpoints;
      }
