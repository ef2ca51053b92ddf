-- ===== src/Pipeline/Spin.antt =====
-- Jumps to themselves: the flag of IF against the jump of ID.
use clear_core.Prelude.{ℕ, arith, ◌≡◌, some, ◌||◌, ◌&&◌, low_bits, ◌==◌, true, add32}
use clear_core.Decoder.Laws.{bits-eq-mod}
use clear_core.Decoder.{
  DecodedInstr, Opcode, decode, decode_as, format_of, is_opcode, to_opcode, bits,
}
use clear_core.Registers.{RegisterFile}
use clear_core.Memory.{Memory, read_word}
use clear_core.SingleCycle.{jump_target}
use clear_core.Pipeline.Regs.{IfId, no_if_id}
use clear_core.Pipeline.Units.{is_index}
use clear_core.Pipeline.Stages.{fetch, decode_stage, id_decoded, spins}

spins-decode_as :
    (regs : RegisterFile) (f : IfId) (pc w : ℕ) (op : Opcode) {d : DecodedInstr}
    → decode_as w op (format_of op) ≡ some d
    → ((is_opcode op Opcode.j || is_opcode op Opcode.jal)
        && jump_target f.pc4 (low_bits w 26) == pc)
      ≡ is_index pc (id_decoded regs f (some d)).jump
unfolding decode_as format_of id_decoded
spins-decode_as regs f pc w Opcode.special h = ground arith
spins-decode_as regs f pc w (Opcode.unlisted k) h = ground arith
spins-decode_as regs f pc w op h = ground (arith, bits-eq-mod w 25 0)

-- The halt flag that IF sets on a word that can be read and decodes is the one a jump to itself has in ID: it is set exactly when
-- ID goes on at the address of the word.
pub fetch-is_halt :
    (regs : RegisterFile) (mem : Memory) (pc w : ℕ) {d : DecodedInstr}
    → read_word mem pc ≡ some w
    → decode w ≡ some d
    → (fetch mem pc).is_halt ≡ is_index pc (decode_stage regs (fetch mem pc)).jump
unfolding fetch decode_stage spins decode id_decoded
fetch-is_halt regs mem pc w r h =
    rw (r, fetch)
      (rw (decode_stage, h, spins)
        (rw (← bits-eq-mod w 31 26) (
          spins-decode_as regs (record no_if_id { valid = true; pc = pc; pc4 = add32 pc 4 }) pc w
            (to_opcode (bits w 31 26)) h)))
