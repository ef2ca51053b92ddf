-- ===== src/PipelineEvents.antt =====
-- src/nsc_qt/widgets/pipeline_events_widget.cpp, include/nsc_qt/widgets/pipeline_events_widget.h: the
-- log of hazard events. Colours and scrolling are left out.
pub mod Repeats
use clear_core.Disassembler.{format_instr}
use clear_core.Processor.{PipelineState, StageSnapshot}
use clear_core.Text.{Text, codes, drop}
use clear_core.Text.Numbers.{to_decimal, filled}
use clear_core.Prelude.{
  ℕ, zero, suc, ◌+◌, ◌-◌, ◌*◌, ◌%◌, ◌^◌, bit_or, Bool, true, false, not, ◌&&◌, ◌||◌, Option, none,
  some, List, [], ◌∷◌, ◌++◌, ◌==◌, if◌then◌else◌, length,
}

pub data Kind : Type 0 where
  fwd_ex_mem fwd_mem_wb stall flush info success error : Kind

-- An item of the list.
pub record Entry : Type 0 where
  pub kind : Kind
  pub text : Text

-- The list, oldest first, the number on the label, and the cycles in which a key was last seen, the
-- newest first.
pub record EventLog : Type 0 where
  pub list : List Entry
  pub count : ℕ
  pub recent : List (ℕ × ℕ)

abbrev pub max_entries : ℕ
max_entries = 500

unfoldable pub instr_or : StageSnapshot → Text → Text
instr_or s fallback = if not s.valid || s.raw == 0 then fallback else format_instr s.raw s.pc

-- A filled bullet.
abbrev bullet : Text
bullet = 0xe2 ∷ 0x97 ∷ 0x8f ∷ []

abbrev arrow : Text
arrow = 0xe2 ∷ 0x86 ∷ 0x92 ∷ []

abbrev dash : Text
dash = 0xe2 ∷ 0x80 ∷ 0x94 ∷ []

abbrev pub entry_of : Kind → ℕ → Text → Entry
entry_of kind cycle text = record {
  kind = kind;
  text =
      filled b' ' (5 - length (to_decimal cycle)) (to_decimal cycle)
      ++ (codes "  " ++ (bullet ++ (b' ' ∷ text)));
}

-- The items at the front are taken until enough are left.
unfoldable pub log_event : Kind → ℕ → Text → EventLog → EventLog
log_event kind cycle text log =
    let all = log.list ++ entry_of kind cycle text ∷ [] in
    let list = drop all (length all - max_entries) in
    record log { list = list; count = length list }

unfoldable pub clear : EventLog → EventLog
clear log = record { list = []; count = 0; recent = [] }

-- The struct of `updateCycle`; the text goes before and after the instruction.
pub record Event : Type 0 where
  pub fired : Bool
  pub stage : StageSnapshot
  pub kind : Kind
  pub before : Text
  pub after : Text
  pub fallback : Text

abbrev forward_event : Bool → StageSnapshot → Kind → Text → Text → Event
forward_event fired s kind from input = record {
  fired = fired;
  stage = s;
  kind = kind;
  before = from ++ (arrow ++ (codes "EX forward, ALU input " ++ (input ++ codes ": ")));
  after = [];
  fallback = codes "?";
}

unfoldable pub events_of : PipelineState → List Event
events_of ps =
    forward_event ps.fwd_ex_to_ex_a ps.stage_ex fwd_ex_mem (codes "EX/MEM") (codes "A")
    ∷ forward_event ps.fwd_ex_to_ex_b ps.stage_ex fwd_ex_mem (codes "EX/MEM") (codes "B")
    ∷ forward_event ps.fwd_mem_to_ex_a ps.stage_ex fwd_mem_wb (codes "MEM/WB") (codes "A")
    ∷ forward_event ps.fwd_mem_to_ex_b ps.stage_ex fwd_mem_wb (codes "MEM/WB") (codes "B")
    ∷ record {
      fired = ps.load_stall;
      stage = ps.stage_ex;
      kind = stall;
      before = codes "load-use stall: ";
      after = b' ' ∷ (dash ++ codes " bubble inserted");
      fallback = codes "lw";
    }
    ∷ record {
      fired = ps.branch_flush;
      stage = ps.stage_mem;
      kind = flush;
      before = codes "branch taken: ";
      after = b' ' ∷ (dash ++ codes " younger instructions flushed");
      fallback = codes "branch";
    }
    ∷ []

-- `constFind` on the hash.
unfoldable pub recall : ℕ → List (ℕ × ℕ) → Option ℕ
recall k [] = none
recall k ((j, cycle) ∷ recent) = if j == k then some cycle else recall k recent

unfoldable pub key : ℕ → Event → ℕ
key i e = bit_or (i * 2 ^ 32) (if e.stage.valid then e.stage.raw else 0)

unfoldable pub continued : Option ℕ → ℕ → Bool
continued none cycle = false
continued (some last) cycle = (last + 1) % 2 ^ 64 == cycle || last == cycle

-- One round of the loop.
unfoldable pub observe_event : ℕ → Event → ℕ → EventLog → EventLog
unfolding log_event continued recall key instr_or
observe_event i e cycle log =
    let k = key i e in
    let log' = record log { recent = (k, cycle) ∷ log.recent } in
    if not e.fired
    then log
    else if continued (recall k log.recent) cycle
    then log'
    else log_event e.kind cycle (e.before ++ (instr_or e.stage e.fallback ++ e.after)) log'

-- The loop, from this event on.
unfoldable pub observe_from : ℕ → List Event → ℕ → EventLog → EventLog
unfolding observe_event
observe_from i [] cycle log = log
observe_from i (e ∷ events) cycle log =
    observe_from (suc i) events cycle (observe_event i e cycle log)

unfoldable pub update_cycle : PipelineState → EventLog → EventLog
unfolding observe_from events_of
update_cycle ps log = observe_from 0 (events_of ps) (ps.cycle % 2 ^ 64) log
