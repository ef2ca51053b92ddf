-- ===== src/Pipeline/Agreement.antt =====
-- One instruction: the stages of the pipelined machine against a step of the single-cycle machine.
use clear_core.Decoder.Laws.{decode-IsDecoded}
use clear_core.Decoder.{DecodedInstr, decode}
use clear_core.Cp0
use clear_core.SingleCycle
use clear_core.Memory.{Memory, read_word}
use clear_core.Registers.{RegisterFile}
use clear_core.Cp0.{Cp0}
use clear_core.Pipeline.{resolve}
use clear_core.Pipeline.Regs.{no_if_id}
use clear_core.Pipeline.Stages.{fetch, decode_stage, execute, memory_access, write_back, id_decoded}
use clear_core.Prelude.{
  inl, inr, ◌<◌, ◌^◌, ℕ, refl, true, none, some, add32, ◌≡◌, Option-cases, sym, ◌+◌, ◌∙◌,
}
use clear_core.Pipeline.Alone.{effect_of, after_id, alone, fetched_at, later_stages, sub32-add32}
use clear_core.Pipeline.Alone.Instructions.{decoded-Agrees}

fetch-fails :
    (mem : Memory) (pc : ℕ)
    → read_word mem pc ≡ none
    → fetch mem pc ≡ record no_if_id { valid = true; pc = pc; pc4 = add32 pc 4; fetch_fault = true }
unfolding fetch
fetch-fails mem pc e = rw (e, fetch) refl

fetch-gives : (mem : Memory) (pc w : ℕ) → read_word mem pc ≡ some w → fetch mem pc ≡ fetched_at pc w
unfolding fetch
fetch-gives mem pc w e = rw (e, fetch) refl

id_fails :
    (regs : RegisterFile) (pc w : ℕ)
    → decode w ≡ none
    → decode_stage regs (fetched_at pc w) ≡ id_decoded regs (fetched_at pc w) none
unfolding decode_stage
id_fails regs pc w e = rw (e, decode_stage) refl

id_gives :
    (regs : RegisterFile) (pc w : ℕ) {d : DecodedInstr}
    → decode w ≡ some d
    → decode_stage regs (fetched_at pc w) ≡ id_decoded regs (fetched_at pc w) (some d)
unfolding decode_stage
id_gives regs pc w e = rw (e, decode_stage) refl

after_id-decoded :
    (c : SingleCycle.Cpu) (d : DecodedInstr)
    → after_id c.regs c.mem c.cp0 c.pc (id_decoded c.regs (fetched_at c.pc d.raw) (some d))
      ≡ later_stages c d
unfolding after_id execute id_decoded later_stages
after_id-decoded c d = refl

-- A failed fetch.
after_id-fault :
    (c : SingleCycle.Cpu)
    → after_id c.regs c.mem c.cp0 c.pc (
        decode_stage c.regs
          (record no_if_id { valid = true; pc = c.pc; pc4 = add32 c.pc 4; fetch_fault = true }))
      ≡ effect_of (SingleCycle.raise c Cp0.ExceptionCode.ad_el c.pc c.pc)
unfolding after_id decode_stage execute SingleCycle.raise memory_access write_back resolve
after_id-fault c = refl

-- A word that does not decode.
after_id-undecodable :
    (c : SingleCycle.Cpu) (w : ℕ)
    → after_id c.regs c.mem c.cp0 c.pc (id_decoded c.regs (fetched_at c.pc w) none)
      ≡ effect_of (SingleCycle.raise c Cp0.ExceptionCode.ri c.pc 0)
unfolding after_id execute SingleCycle.raise memory_access write_back resolve id_decoded
after_id-undecodable c w = refl

-- A word that was fetched.
after_id-fetched :
    (c : SingleCycle.Cpu) (w : ℕ)
    → c.pc < 2 ^ 32
    → after_id c.regs c.mem c.cp0 c.pc (decode_stage c.regs (fetched_at c.pc w))
      ≡ effect_of (SingleCycle.step_fetched c w)
unfolding SingleCycle.step_fetched
after_id-fetched c w small = elim (Option-cases (decode w)) [
  | inl e ↦ rw (id_fails c.regs c.pc w e, e, SingleCycle.step_fetched) (after_id-undecodable c w)
  | inr (d, e) ↦
      let is = decode-IsDecoded w e in
      let agrees =
        decoded-Agrees c (sub32-add32 c.pc small) d.raw d.opcode d.format d.fields is.same_format
          is.has_fields is.is_implemented in
      rw (id_gives c.regs c.pc w e, e, SingleCycle.step_fetched, ← is.same_raw)
        (after_id-decoded c d ∙ sym (agrees.same _))
]

-- At a 32-bit address, one instruction alone in the pipeline, with bubbles before and after it, has
-- the effect of one step of the single-cycle machine: the same registers, memory, coprocessor, next address and trap,
-- failed fetches and undecodable words included.
pub alone-step :
    (c : SingleCycle.Cpu)
    → c.pc < 2 ^ 32
    → alone c.regs c.mem c.cp0 c.pc ≡ effect_of (SingleCycle.step c)
unfolding alone SingleCycle.step
alone-step c small =
    let k : SingleCycle.Cpu = record c { cycle = c.cycle + 1 } in
    elim (Option-cases (read_word c.mem c.pc)) [
      | inl e ↦ rw (fetch-fails c.mem c.pc e, e, SingleCycle.step) (after_id-fault k)
      | inr (w, e) ↦
          rw (fetch-gives c.mem c.pc w e, e, SingleCycle.step) (after_id-fetched k w small)
    ]
