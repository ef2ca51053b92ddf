-- ===== src/Decoder/Encode.antt =====
-- The MIPS instruction layout, written down independently, and `decode` as its inverse.
use clear_core.Decoder.Codes.{
  opcode_number, funct_number, to_funct, to_opcode, FunctCode, InstrFormat,
}
use clear_core.Decoder.Laws.{
  HasFields, IsImplemented, bits-eq-mod, funct_number-to_funct, opcode_number-to_opcode,
}
use clear_core.Decoder.{
  decode, DecodedInstr, Opcode, Fields, decode_as, format_of, r_fields, get_r, i_fields, j_fields,
  bits,
}
use clear_core.Prelude.{refl, ℕ, arith, ◌*◌, ◌≡◌, some, ◌^◌, ◌+◌, ◌<◌, ◌/◌, ◌≢◌}

abbrev pub encode_fields : Fields → ℕ
encode_fields (r_fields f) =
    f.rs * 2 ^ 21 + f.rt * 2 ^ 16 + f.rd * 2 ^ 11 + f.shamt * 2 ^ 6 + funct_number f.funct
encode_fields (i_fields f) = f.rs * 2 ^ 21 + f.rt * 2 ^ 16 + f.imm
encode_fields (j_fields f) = f.target

unfoldable pub encode : Opcode → Fields → ℕ
encode op f = opcode_number op * 2 ^ 26 + encode_fields f

-- The decoded form of a word with these fields.
abbrev pub decoded : Opcode → Fields → DecodedInstr
decoded op f = record { raw = encode op f; opcode = op; format = format_of op; fields = f }

-- Field values that an instruction word can hold; a coprocessor word's shift amount is not kept.
pub record IsEncodable (op : Opcode) (f : Fields) : Type 0 where
  pub known_format : HasFields (format_of op) f
  pub funct_fits : funct_number (get_r (decoded op f)).funct < 64
  pub is_listed :
      to_funct (funct_number (get_r (decoded op f)).funct) ≡ (get_r (decoded op f)).funct
  pub is_implemented : IsImplemented op (get_r (decoded op f)).funct
  pub no_shift : op ≡ Opcode.cop0 → (get_r (decoded op f)).shamt ≡ 0

-- The fields of a sum of shifted fields.
module _ (w n a b c d e : ℕ) where
  r_bits :
      w ≡ n * 2 ^ 26 + (a * 2 ^ 21 + b * 2 ^ 16 + c * 2 ^ 11 + d * 2 ^ 6 + e)
      → a < 32
      → b < 32
      → c < 32
      → d < 32
      → e < 64
      → (bits w 25 21 ≡ a)
        × (bits w 20 16 ≡ b)
        × (bits w 15 11 ≡ c)
        × (bits w 10 6 ≡ d)
        × (bits w 5 0 ≡ e)
  r_bits p ha hb hc hd he = omega (
    arith,
    bits-eq-mod w 25 21,
    bits-eq-mod w 20 16,
    bits-eq-mod w 15 11,
    bits-eq-mod w 10 6,
    bits-eq-mod w 5 0,
  )

decode_as-encode :
    (w : ℕ) (op : Opcode) (f : Fields)
    → IsEncodable op f
    → w ≡ encode op f
    → decode_as w op (format_of op) ≡ some (record (decoded op f) { raw = w })
unfolding decode_as format_of encode
decode_as-encode w Opcode.special (r_fields f) h e =
    let (b1, b2, b3, b4, b5) =
      r_bits w 0 f.rs f.rt f.rd f.shamt (funct_number f.funct) e h.known_format.0 h.known_format.1
        h.known_format.2 h.known_format.3 h.funct_fits in
    rw (b1, b2, b3, b4, b5, h.is_listed, h.is_implemented)
decode_as-encode w Opcode.cop0 (r_fields f) h e =
    let (b1, b2, b3, b4, b5) =
      r_bits w 16 f.rs f.rt f.rd f.shamt (funct_number f.funct) e h.known_format.0 h.known_format.1
        h.known_format.2 h.known_format.3 h.funct_fits in
    rw (b1, b2, b3, b5, h.is_listed, ← h.no_shift refl)
decode_as-encode w (Opcode.unlisted k) f h e = absurd h.is_implemented
decode_as-encode w op (r_fields f) h e = ground arith
decode_as-encode w op (i_fields f) h e =
    ground (arith, bits-eq-mod w 25 21, bits-eq-mod w 20 16, bits-eq-mod w 15 0)
decode_as-encode w op (j_fields f) h e = ground (arith, bits-eq-mod w 25 0)

opcode_bits :
    (op : Opcode) (f : Fields)
    → IsEncodable op f
    → opcode_number op < 64
    → bits (encode op f) 31 26 ≡ opcode_number op
unfolding encode format_of
opcode_bits (Opcode.unlisted k) f h n = absurd h.is_implemented
opcode_bits op (r_fields f) h n = ground (
  arith,
  bits-eq-mod
      (opcode_number op * 2 ^ 26
        + (f.rs * 2 ^ 21 + f.rt * 2 ^ 16 + f.rd * 2 ^ 11 + f.shamt * 2 ^ 6 + funct_number f.funct))
      31 26,
)
opcode_bits op (i_fields f) h n =
    ground (
      arith,
      bits-eq-mod (opcode_number op * 2 ^ 26 + (f.rs * 2 ^ 21 + f.rt * 2 ^ 16 + f.imm)) 31 26,
    )
opcode_bits op (j_fields f) h n =
    ground (arith, bits-eq-mod (opcode_number op * 2 ^ 26 + f.target) 31 26)

opcode_listed :
    (op : Opcode) (f : FunctCode)
    → IsImplemented op f
    → (opcode_number op < 64) × (to_opcode (opcode_number op) ≡ op)
unfolding to_opcode
opcode_listed (Opcode.unlisted k) f h = absurd h
opcode_listed op f h = (omega arith, refl)

-- Every instruction that the layout can hold is decoded from its word, field by field.
pub decode-encode :
    (op : Opcode) (f : Fields) → IsEncodable op f → decode (encode op f) ≡ some (decoded op f)
unfolding decode
decode-encode op f h =
    let (small, listed) = opcode_listed op (get_r (decoded op f)).funct h.is_implemented in
    rw (opcode_bits op f h small, listed) (decode_as-encode (encode op f) op f h refl)

encode-decode_as :
    (w : ℕ) (op : Opcode) {d : DecodedInstr}
    → w < 2 ^ 32
    → opcode_number op ≡ w / 2 ^ 26
    → decode_as w op (format_of op) ≡ some d
    → op ≢ Opcode.cop0
    → encode op d.fields ≡ w
unfolding decode_as format_of encode
encode-decode_as w Opcode.special small n h ne = ground (
  arith,
  bits-eq-mod w 25 21,
  bits-eq-mod w 20 16,
  bits-eq-mod w 15 11,
  bits-eq-mod w 10 6,
  bits-eq-mod w 5 0,
  funct_number-to_funct (bits w 5 0),
)
encode-decode_as w Opcode.cop0 small n h ne = absurd (ne refl)
encode-decode_as w (Opcode.unlisted k) small n h ne = ground arith
encode-decode_as w op small n h ne =
    ground (arith, bits-eq-mod w 25 21, bits-eq-mod w 20 16, bits-eq-mod w 15 0, bits-eq-mod w 25 0)

decode_as-opcode :
    (w : ℕ) (op : Opcode) (fmt : InstrFormat) {d : DecodedInstr}
    → decode_as w op fmt ≡ some d
    → d.opcode ≡ op
unfolding decode_as
decode_as-opcode w op InstrFormat.r h = ground arith
decode_as-opcode w op fmt h = ground arith

-- Nothing of a 32-bit word that decodes is lost: outside the coprocessor its fields, laid out again, are the word.
pub encode-decode :
    (w : ℕ) {d : DecodedInstr}
    → w < 2 ^ 32
    → decode w ≡ some d
    → d.opcode ≢ Opcode.cop0
    → encode d.opcode d.fields ≡ w
unfolding decode
encode-decode w {d} small h ne =
    let op = to_opcode (bits w 31 26) in
    let same : d.opcode ≡ op = decode_as-opcode w op (format_of op) h in
    rw same (
      encode-decode_as w op small
        (omega (arith, opcode_number-to_opcode (bits w 31 26), bits-eq-mod w 31 26)) h
        (rw same at ne))
