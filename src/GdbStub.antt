-- ===== src/GdbStub.antt =====
-- src/mips/gdb_stub.cpp, include/mips/gdb_stub.h: the server of the GDB remote protocol, over the
-- single-cycle machine. Framing is in GdbStub/Packets, the commands on registers and memory in
-- GdbStub/Access; this file has breakpoints, execution and the dispatch.
pub mod Packets
pub mod Access
pub mod Framing
pub mod Breakpoints
pub mod Replies
pub mod Continue
pub mod RegisterCommands
use clear_core.GdbStub.Packets.{hex_byte, packet, parse_hex}
use clear_core.GdbStub.Access.{
  handle_read_regs, handle_write_regs, handle_read_reg, handle_write_reg, handle_read_mem,
  handle_write_mem,
}
use clear_core.Text.{Text, codes, take, drop, find, is_empty, same, starts_with}
use clear_core.SingleCycle.{Cpu, step}
use clear_core.Processor.{ok, StepResult, halt, exception, fault}
use clear_core.Cp0.{ExceptionCode}
use clear_core.Memory.{read_word, write_word}
use clear_core.Prelude.{
  ℕ, zero, suc, ◌+◌, ◌-◌, ◌%◌, Bool, true, false, not, ◌&&◌, Option, none, some, List, [], ◌∷◌,
  ◌++◌, ◌==◌, if◌then◌else◌, ◌||◌,
}

pub record Breakpoint : Type 0 where
  pub addr : ℕ
  pub saved_word : ℕ

-- The stub with its processor; `sent` is what it has sent.
pub record Stub : Type 0 where
  pub cpu : Cpu
  pub breakpoints : List Breakpoint
  pub running : Bool
  pub detached : Bool
  pub last_result : StepResult
  pub sent : Text

pub data InputPoll : Type 0 where
  idle interrupt closed : InputPoll

abbrev pub break_word : ℕ
break_word = 0x0000000d

abbrev pub sigint : ℕ
sigint = 2

abbrev pub sigtrap : ℕ
sigtrap = 5

unfoldable pub send_packet : Text → Stub → Stub
send_packet text s = record s { sent = s.sent ++ packet text }

abbrev pub send_ok : Stub → Stub
send_ok = send_packet (codes "OK")

abbrev pub send_empty : Stub → Stub
send_empty = send_packet []

abbrev pub send_error : ℕ → Stub → Stub
send_error code = send_packet (codes "E" ++ hex_byte code)

abbrev pub send_signal : ℕ → Stub → Stub
send_signal sig = send_packet (codes "S" ++ hex_byte sig)

unfoldable pub exception_signal : ExceptionCode → ℕ
exception_signal ExceptionCode.bp = sigtrap
exception_signal ExceptionCode.sys = 12
exception_signal ExceptionCode.ri = 4
exception_signal ExceptionCode.ov = 8
exception_signal ExceptionCode.ad_el = 11
exception_signal ExceptionCode.ad_es = 11
exception_signal ExceptionCode.int = sigtrap

unfoldable pub stop_signal : Stub → ℕ
unfolding exception_signal
stop_signal s = elim s.last_result [ exception ↦ exception_signal s.cpu.cp0.last_exc | _ ↦ sigtrap ]

unfoldable pub is_inserted : ℕ → List Breakpoint → Bool
is_inserted addr [] = false
is_inserted addr (b ∷ rest) = b.addr == addr || is_inserted addr rest

unfoldable pub insert_breakpoint : ℕ → Stub → Stub × Bool
insert_breakpoint addr s =
    if is_inserted addr s.breakpoints then (s, true) else elim (read_word s.cpu.mem addr) [
      | none ↦ (s, false)
      | some word ↦
          let (mem, written) = write_word s.cpu.mem addr break_word in
          let s' : Stub = record s { cpu = record s.cpu { mem = mem } } in
          if not written then (s', false) else (
            record s' {
              breakpoints = s.breakpoints ++ (record { addr = addr; saved_word = word } ∷ []);
            },
            true,
          )
    ]

-- The word that the first breakpoint at an address has saved, and the others.
unfoldable pub taken_out : ℕ → List Breakpoint → Option (ℕ × List Breakpoint)
taken_out addr [] = none
taken_out addr (b ∷ rest) =
    let later = taken_out addr rest in
    if b.addr == addr
    then some (b.saved_word, rest)
    else elim later [ none ↦ none | some (word, others) ↦ some (word, b ∷ others) ]

unfoldable pub remove_breakpoint : ℕ → Stub → Stub × Bool
remove_breakpoint addr s = elim (taken_out addr s.breakpoints) [
  | none ↦ (s, false)
  | some (word, others) ↦ (
    record s {
      cpu = record s.cpu { mem = (write_word s.cpu.mem addr word).0 };
      breakpoints = others;
    },
    true,
  )
]

-- Reports whether an operation succeeded.
abbrev pub report : Stub × Bool → Stub
report (s, done) = if done then send_ok s else send_error 1 s

-- Both breakpoint commands read "type,addr,kind" and take an address where the type is 0.
unfoldable pub on_breakpoint : (ℕ → Stub → Stub × Bool) → Text → Stub → Stub
on_breakpoint change args s = elim (find b',' args) [
  | none ↦ send_error 1 s
  | some c1 ↦ elim (find b',' (drop args (c1 + 1))) [
    | none ↦ send_error 1 s
    | some kind ↦ elim (parse_hex (take args c1)) [
      | none ↦ send_error 1 s
      | some type ↦
          if not (type == 0)
          then send_empty s
          else elim (parse_hex (take (drop args (c1 + 1)) kind)) [
            | none ↦ send_error 1 s
            | some addr ↦ report (change addr s)
          ]
    ]
  ]
]

unfoldable pub handle_breakpoint_set : Text → Stub → Stub
unfolding on_breakpoint insert_breakpoint
handle_breakpoint_set = on_breakpoint insert_breakpoint

unfoldable pub handle_breakpoint_clear : Text → Stub → Stub
unfolding on_breakpoint remove_breakpoint
handle_breakpoint_clear = on_breakpoint remove_breakpoint

-- An address in the arguments is where to resume; one that does not parse is passed over.
unfoldable pub resume_at : Text → Stub → Stub
resume_at args s = elim (parse_hex args) [
  | none ↦ s
  | some pc ↦ if is_empty args then s else record s { cpu = record s.cpu { pc = pc } }
]

-- The report of an exception, and the return to the instruction that caused it.
unfoldable pub report_exception : Stub → Stub
unfolding stop_signal
report_exception s =
    let s' = send_packet (codes "T" ++ (hex_byte (stop_signal s) ++ codes "thread:01;")) s in
    record s' { cpu = record s'.cpu { pc = s'.cpu.cp0.epc } }

unfoldable pub stepped : Stub → Stub
stepped s = let (cpu, result) = step s.cpu in record s { cpu = cpu; last_result = result }

-- After a step of `c`: what it reports, and whether the loop goes on.
unfoldable pub after_step : Stub → Stub × Bool
unfolding report_exception
after_step s = elim s.last_result [
  | halt ↦ (send_signal sigtrap (record s { running = false }), false)
  | exception ↦ (report_exception (record s { running = false }), false)
  | fault ↦ (send_signal sigtrap (record s { running = false }), false)
  | ok ↦ (s, true)
]

-- `kInterruptPollSteps`.
abbrev pub interrupt_poll_steps : ℕ
interrupt_poll_steps = 1024

-- What a poll of the socket before this step makes of the stub, if it ends the loop.
unfoldable pub polled : (ℕ → InputPoll) → ℕ → Stub → Option Stub
polled polls steps s =
    if not (steps % interrupt_poll_steps == 0) then none else elim (polls steps) [
      | InputPoll.interrupt ↦ some (send_signal sigint (record s { running = false }))
      | InputPoll.closed ↦ some (record s { running = false })
      | InputPoll.idle ↦ none
    ]

-- The loop of `c`, after `steps` rounds and for at most this many more; `polls` is what `poll_input`
-- answers at each count of steps. It is still running where its rounds are used up.
unfoldable pub continue_from : (ℕ → InputPoll) → ℕ → ℕ → Stub → Stub
unfolding polled after_step stepped
continue_from polls zero steps s = s
continue_from polls (suc rounds) steps s = elim (polled polls (suc steps) s) [
  | some stopped ↦ stopped
  | none ↦
      let (s', goes_on) = after_step (stepped s) in
      elim goes_on [ true ↦ continue_from polls rounds (suc steps) s' | false ↦ s' ]
]

unfoldable pub handle_continue : (ℕ → InputPoll) → ℕ → Text → Stub → Stub
unfolding continue_from resume_at
handle_continue polls rounds args s =
    continue_from polls rounds 0 (record (resume_at args s) { running = true })

unfoldable pub handle_step : Text → Stub → Stub
unfolding resume_at stepped report_exception
handle_step args s =
    let s' = stepped (resume_at args s) in
    elim s'.last_result [ exception ↦ report_exception s' | _ ↦ send_signal sigtrap s' ]

unfoldable pub handle_query : Text → Stub → Stub
handle_query args s =
    if starts_with (codes "Supported") args
    then send_packet (codes "PacketSize=4000;swbreak+;hwbreak-") s
    else if same args (codes "Attached")
    then send_packet (codes "1") s
    else if same args (codes "C")
    then send_packet (codes "QC0") s
    else if starts_with (codes "Symbol") args
    then send_ok s
    else send_empty s

-- The processor after a command, with its success reported.
abbrev pub with_cpu : Stub → Cpu × Bool → Stub
with_cpu s (cpu, done) = report (record s { cpu = cpu }, done)

-- `polls` and `rounds` are for a `c` command.
unfoldable pub run_command : (ℕ → InputPoll) → ℕ → ℕ → Text → Stub → Stub
unfolding handle_query
run_command polls rounds cmd args s =
    if cmd == b'?'
    then send_signal sigtrap s
    else if cmd == b'g'
    then send_packet (handle_read_regs s.cpu) s
    else if cmd == b'G'
    then with_cpu s (handle_write_regs args s.cpu)
    else if cmd == b'p'
    then send_packet (handle_read_reg args s.cpu) s
    else if cmd == b'P'
    then with_cpu s (handle_write_reg args s.cpu)
    else if cmd == b'm'
    then send_packet (handle_read_mem args s.cpu) s
    else if cmd == b'M'
    then with_cpu s (handle_write_mem args s.cpu)
    else if cmd == b'c'
    then handle_continue polls rounds args s
    else if cmd == b's'
    then handle_step args s
    else if cmd == b'Z'
    then handle_breakpoint_set args s
    else if cmd == b'z'
    then handle_breakpoint_clear args s
    else if cmd == b'k' || cmd == b'D'
    then send_ok (record s { running = false; detached = true })
    else if cmd == b'H' || cmd == b'T'
    then send_ok s
    else if cmd == b'q'
    then handle_query args s
    else send_empty s

unfoldable pub dispatch : (ℕ → InputPoll) → ℕ → Text → Stub → Stub
unfolding run_command
dispatch polls rounds [] s = send_empty s
dispatch polls rounds (cmd ∷ args) s = run_command polls rounds cmd args s
