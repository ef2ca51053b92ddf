-- ===== src/Decoder/Laws.antt =====
-- What `decode` accepts, and what its results look like.
use clear_core.Decoder.Codes.{InstrFormat, opcode_number, to_funct, funct_number}
use clear_core.Prelude.{ℕ, arith, ◌≡◌, true, some, ◌/◌, ◌<◌, ◌^◌, ◌%◌, ◌-◌, ◌+◌}
use clear_core.Decoder.{
  bits, decode, decode_as, to_opcode, format_of, implemented_special, Opcode, FunctCode,
  DecodedInstr, Fields, r_fields, i_fields, get_r, j_fields,
}
use clear_core.Bits.{bit_and_mask}

-- A field of a word as a quotient and a remainder.
pub bits-eq-mod : (w hi lo : ℕ) → bits w hi lo ≡ w / 2 ^ lo % 2 ^ (hi - lo + 1)
unfolding bits
bits-eq-mod w hi lo = bit_and_mask (hi - lo + 1) (w / 2 ^ lo)

pub opcode_number-to_opcode : (n : ℕ) → opcode_number (to_opcode n) ≡ n
unfolding to_opcode
opcode_number-to_opcode n = ground arith

pub funct_number-to_funct : (n : ℕ) → funct_number (to_funct n) ≡ n
unfolding to_funct
funct_number-to_funct n = ground arith

pub fields_low : (w : ℕ) → bits w 5 0 ≡ w % 64
fields_low w = omega (arith, bits-eq-mod w 5 0)

-- The fields that an instruction of a format has, within their widths.
abbrev pub HasFields : InstrFormat → Fields → Type 0
HasFields InstrFormat.r (r_fields f) = (f.rs < 32) × (f.rt < 32) × (f.rd < 32) × (f.shamt < 32)
HasFields InstrFormat.i (i_fields f) = (f.rs < 32) × (f.rt < 32) × (f.imm < 2 ^ 16)
HasFields InstrFormat.j (j_fields f) = f.target < 2 ^ 26
HasFields _ _ = ⊥

-- The operations that the model knows: a listed opcode, and under `SPECIAL` an implemented funct.
abbrev pub IsImplemented : Opcode → FunctCode → Type 0
IsImplemented (Opcode.unlisted n) f = ⊥
IsImplemented Opcode.special f = implemented_special f ≡ true
IsImplemented _ f = Unit {0}

-- An instruction as `decode` gives it.
pub record IsDecoded (w : ℕ) (d : DecodedInstr) : Type 0 where
  pub same_raw : d.raw ≡ w
  pub same_opcode : opcode_number d.opcode ≡ w / 2 ^ 26 % 64
  pub same_format : d.format ≡ format_of d.opcode
  pub has_fields : HasFields d.format d.fields
  pub is_implemented : IsImplemented d.opcode (get_r d).funct

decode_as-IsDecoded :
    (w : ℕ) (op : Opcode) {d : DecodedInstr}
    → opcode_number op ≡ w / 2 ^ 26 % 64
    → decode_as w op (format_of op) ≡ some d
    → IsDecoded w d
unfolding decode_as format_of
decode_as-IsDecoded w Opcode.special n h =
    ground
      (arith, bits-eq-mod w 25 21, bits-eq-mod w 20 16, bits-eq-mod w 15 11, bits-eq-mod w 10 6)
decode_as-IsDecoded w (Opcode.unlisted k) n h = ground arith
decode_as-IsDecoded w op n h = ground (
  arith,
  bits-eq-mod w 25 21,
  bits-eq-mod w 20 16,
  bits-eq-mod w 15 11,
  bits-eq-mod w 15 0,
  bits-eq-mod w 25 0,
)

-- Every result of `decode` carries the fields of its format within their widths, so that no
-- accessor throws, and is an implemented operation.
pub decode-IsDecoded : (w : ℕ) {d : DecodedInstr} → decode w ≡ some d → IsDecoded w d
unfolding decode
decode-IsDecoded w h =
    decode_as-IsDecoded w (to_opcode (bits w 31 26))
      (omega (arith, opcode_number-to_opcode (bits w 31 26), bits-eq-mod w 31 26)) h
