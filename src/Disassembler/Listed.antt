-- ===== src/Disassembler/Listed.antt =====
-- The text of an instruction, assembled again.
use mathlib.Core.Path.{subst}
use clear_core.Text.Numbers.{to_decimal}
use clear_core.Text.{Text, lookup, codes}
use clear_core.Assembler.{encode_line, encode_others, assemble}
use clear_core.Assembler.Instructions.{encode_mem, word}
use clear_core.Assembler.Encoders.{enc_r, enc_i}
use clear_core.Assembler.Layout.{enc_r-eq, enc_i-eq}
use clear_core.Assembler.Meaning.{
  Shape, funct_shape, funct_name, opcode_name, three_registers, amount, variable, register_only,
  two_registers, other,
}
use clear_core.Assembler.Spaced.{IsWord, line_text}
use clear_core.Disassembler.{
  to_text, format_text, r_text, i_text, lower_mnemonic, reg_text, mem_operands, format_instr,
}
use clear_core.Disassembler.Shapes.{
  printed_line, Assembles, assemble_words, to_lower_twice, funct_name-IsWord, opcode_name-IsWord,
  three_registers-text, amount-text, variable-text, register_only-text, two_registers-text,
}
use clear_core.Disassembler.Encoded.{
  encode_r3-reads, encode_v_shift-reads, encode_shift-reads, encode_jr-reads, encode_jalr-reads,
  encode_mem-reads, encode_lui-reads,
}
use clear_core.Disassembler.Operands.{
  reg_text-reads, to_decimal-IsWord, mem_text-IsWord, mem_text, upper_text, upper_text-reads,
}
use clear_core.Decoder.{
  DecodedInstr, Opcode, FunctCode, Fields, RFields, IFields, r_fields, i_fields, decode, format_of,
  funct_number, opcode_number, funct_mnemonic, opcode_mnemonic, InstrFormat, mnemonic, sign_extend,
}
use clear_core.Decoder.Encode.{encode, encode-decode}
use clear_core.Decoder.Laws.{HasFields, decode-IsDecoded}
use clear_core.Prelude.{
  ℕ, ◌≡◌, refl, none, some, List, [], ◌∷◌, arith, ◌<◌, ◌^◌, ◌∙◌, ap, sym, All, signed16, ◌≢◌,
}

-- The fields of an R-format instruction that its text does not show are zero.
abbrev pub IsShown : Shape → RFields → Type 0
IsShown three_registers r = r.shamt ≡ 0
IsShown amount r = r.rs ≡ 0
IsShown variable r = r.shamt ≡ 0
IsShown register_only r = (r.rt ≡ 0) × (r.rd ≡ 0) × (r.shamt ≡ 0)
IsShown two_registers r = (r.rt ≡ 0) × (r.shamt ≡ 0)
IsShown _ r = ⊥

-- An instruction whose text the assembler reads: not one with a signed immediate, which is printed
-- with a plus sign, and not a jump, which is printed with a byte address.
abbrev pub IsListed : Opcode → Fields → Type 0
IsListed Opcode.special (r_fields r) = IsShown (funct_shape r.funct) r
IsListed Opcode.lw (i_fields i) = Unit
IsListed Opcode.lbu (i_fields i) = Unit
IsListed Opcode.lhu (i_fields i) = Unit
IsListed Opcode.sw (i_fields i) = Unit
IsListed Opcode.lui (i_fields i) = i.rs ≡ 0
IsListed _ f = ⊥

funct_shape_small : (f : FunctCode) → funct_shape f ≢ other → funct_number f < 64
funct_shape_small FunctCode.sll h = omega arith
funct_shape_small f h = ground arith

-- An instruction with the fields of the R format, and the word of the layout for it.
module _ (r : RFields) (h : HasFields (format_of Opcode.special) (r_fields r)) where
  abbrev f : FunctCode
  f = r.funct

  abbrev name : Text
  name = funct_name f

  abbrev r_word : ℕ
  r_word = encode Opcode.special (r_fields r)

  enc_r-encode :
      (s : Shape)
      → funct_shape f ≡ s
      → s ≢ other
      → enc_r r.rs r.rt r.rd r.shamt (funct_number f) ≡ r_word
  unfolding encode format_of
  enc_r-encode s k ne =
      enc_r-eq r.rs r.rt r.rd r.shamt (funct_number f) h.0 h.1 h.2 h.3
        (funct_shape_small f (λ e. ne (sym k ∙ e)))
      ∙ omega arith

  shaped :
      (t a : Text) (rest : List Text)
      → t ≡ line_text name a rest
      → IsWord a
      → All IsWord rest
      → encode_line [] 0 (printed_line name (a ∷ rest)) ≡ word r_word
      → Assembles t r_word
  shaped t a rest e ha hr line =
      subst (λ (u : Text). Assembles u r_word) (sym e)
        (assemble_words name a rest r_word (funct_name-IsWord f)
          (to_lower_twice (codes (funct_mnemonic f))) ha hr line)

  reg_text-IsWord : (n : ℕ) → n < 32 → IsWord (reg_text n)
  reg_text-IsWord n small = (reg_text-reads n small).1

  of_shape : (s : Shape) → funct_shape f ≡ s → IsShown s r → Assembles (r_text name f r) r_word
  unfolding format_of
  of_shape three_registers k z =
      let (text, line) = three_registers-text r f k in
      shaped (r_text name f r) (reg_text r.rd) (reg_text r.rs ∷ reg_text r.rt ∷ []) text
        (reg_text-IsWord r.rd h.2) (reg_text-IsWord r.rs h.0, (reg_text-IsWord r.rt h.1, tt))
        (line (reg_text r.rd ∷ reg_text r.rs ∷ reg_text r.rt ∷ [])
          ∙ encode_r3-reads r.rd r.rs r.rt h.2 h.0 h.1 (funct_number f)
          ∙ ap (λ (k : ℕ). word (enc_r r.rs r.rt r.rd k (funct_number f))) (sym z)
          ∙ ap word (enc_r-encode three_registers k (ground arith)))
  of_shape amount k z =
      let (text, line) = amount-text r f k in
      shaped (r_text name f r) (reg_text r.rd) (reg_text r.rt ∷ to_decimal r.shamt ∷ []) text
        (reg_text-IsWord r.rd h.2) (reg_text-IsWord r.rt h.1, (to_decimal-IsWord r.shamt, tt))
        (line (reg_text r.rd ∷ reg_text r.rt ∷ to_decimal r.shamt ∷ [])
          ∙ encode_shift-reads r.rd r.rt r.shamt h.2 h.1 h.3 (funct_number f)
          ∙ ap (λ (k : ℕ). word (enc_r k r.rt r.rd r.shamt (funct_number f))) (sym z)
          ∙ ap word (enc_r-encode amount k (ground arith)))
  of_shape variable k z =
      let (text, line) = variable-text r f k in
      shaped (r_text name f r) (reg_text r.rd) (reg_text r.rt ∷ reg_text r.rs ∷ []) text
        (reg_text-IsWord r.rd h.2) (reg_text-IsWord r.rt h.1, (reg_text-IsWord r.rs h.0, tt))
        (line (reg_text r.rd ∷ reg_text r.rt ∷ reg_text r.rs ∷ [])
          ∙ encode_v_shift-reads r.rd r.rt r.rs h.2 h.1 h.0 (funct_number f)
          ∙ ap (λ (k : ℕ). word (enc_r r.rs r.rt r.rd k (funct_number f))) (sym z)
          ∙ ap word (enc_r-encode variable k (ground arith)))
  of_shape register_only k z =
      let (text, line, number) = register_only-text r f k in
      shaped (r_text name f r) (reg_text r.rs) [] text (reg_text-IsWord r.rs h.0) tt (
        line (reg_text r.rs ∷ [])
        ∙ encode_jr-reads r.rs h.0
        ∙ cc (number, z.0, z.1, z.2)
        ∙ ap word (enc_r-encode register_only k (ground arith)))
  of_shape two_registers k z =
      let (text, line, number) = two_registers-text r f k in
      shaped (r_text name f r) (reg_text r.rd) (reg_text r.rs ∷ []) text (reg_text-IsWord r.rd h.2)
        (reg_text-IsWord r.rs h.0, tt)
        (line (reg_text r.rd ∷ reg_text r.rs ∷ [])
          ∙ encode_jalr-reads r.rd r.rs h.2 h.0
          ∙ cc (number, z.0, z.1)
          ∙ ap word (enc_r-encode two_registers k (ground arith)))
  of_shape s k z = absurd z

-- The same for loads, stores and LUI.
module _ (i : IFields) (h : HasFields InstrFormat.i (i_fields i)) where
  enc_i-encode :
      (op : Opcode)
      → opcode_number op < 64
      → enc_i (opcode_number op) i.rs i.rt i.imm ≡ encode op (i_fields i)
  unfolding encode
  enc_i-encode op small =
      enc_i-eq (opcode_number op) i.rs i.rt i.imm small h.0 h.1 h.2 ∙ omega arith

  mem_line :
      (op : Opcode)
      → opcode_number op < 64
      → ((ops : List Text)
          → encode_line [] 0 (printed_line (opcode_name op) ops)
            ≡ encode_mem (opcode_number op) ops)
      → Assembles (mem_operands (opcode_name op) i) (encode op (i_fields i))
  unfolding sign_extend
  mem_line op small line =
      assemble_words (opcode_name op) (reg_text i.rt) (mem_text (signed16 i.imm) i.rs ∷ [])
        (encode op (i_fields i)) (opcode_name-IsWord op)
        (to_lower_twice (codes (opcode_mnemonic op))) (reg_text-reads i.rt h.1).1
        (mem_text-IsWord (signed16 i.imm) i.rs h.0, tt)
        (line (reg_text i.rt ∷ mem_text (signed16 i.imm) i.rs ∷ [])
          ∙ encode_mem-reads (opcode_number op) i.rt i.imm i.rs h.1 h.2 h.0
          ∙ ap word (enc_i-encode op small))

  lui_line :
      i.rs ≡ 0
      → Assembles (i_text (opcode_name Opcode.lui) Opcode.lui i) (encode Opcode.lui (i_fields i))
  unfolding i_text encode_line encode_others lookup
  lui_line z =
      assemble_words (opcode_name Opcode.lui) (reg_text i.rt) (upper_text i.imm ∷ [])
        (encode Opcode.lui (i_fields i)) (opcode_name-IsWord Opcode.lui)
        (to_lower_twice (codes (opcode_mnemonic Opcode.lui))) (reg_text-reads i.rt h.1).1
        ((upper_text-reads i.imm h.2).1, tt)
        (encode_lui-reads i.rt i.imm h.1 h.2
          ∙ ap (λ (k : ℕ). word (enc_i 0x0f k i.rt i.imm)) (sym z)
          ∙ ap word (enc_i-encode Opcode.lui (omega arith)))

-- An instruction that a word can hold and whose text the assembler reads.
listed-Assembles :
    (raw : ℕ) (op : Opcode) (fs : Fields) (pc : ℕ)
    → HasFields (format_of op) fs
    → IsListed op fs
    → Assembles
        (to_text (record { raw = raw; opcode = op; format = format_of op; fields = fs }) pc)
        (encode op fs)
unfolding to_text format_text format_of lower_mnemonic mnemonic i_text encode_line encode_others
    lookup
listed-Assembles raw Opcode.special (r_fields r) pc h k = of_shape r h (funct_shape r.funct) refl k
listed-Assembles raw Opcode.lw (i_fields i) pc h k =
    mem_line i h Opcode.lw (omega arith) (λ ops. refl)
listed-Assembles raw Opcode.lbu (i_fields i) pc h k =
    mem_line i h Opcode.lbu (omega arith) (λ ops. refl)
listed-Assembles raw Opcode.lhu (i_fields i) pc h k =
    mem_line i h Opcode.lhu (omega arith) (λ ops. refl)
listed-Assembles raw Opcode.sw (i_fields i) pc h k =
    mem_line i h Opcode.sw (omega arith) (λ ops. refl)
listed-Assembles raw Opcode.lui (i_fields i) pc h k = lui_line i h k
listed-Assembles raw op fs pc h k = absurd k

listed-ne-cop0 : (op : Opcode) (fs : Fields) → IsListed op fs → op ≢ Opcode.cop0
listed-ne-cop0 Opcode.special (r_fields r) k e = cc e
listed-ne-cop0 Opcode.cop0 fs k e = absurd k
listed-ne-cop0 op fs k e = cc e

-- The text that the front ends show for a word of 32 bits at any address, if the word decodes to an
-- R-format operation on registers or by a shift amount, a jump through a register, a load, a store
-- or LUI, and its fields that the text does not show are zero, is assembled to that word.
pub assemble-format_instr :
    (w pc : ℕ) {d : DecodedInstr}
    → w < 2 ^ 32
    → decode w ≡ some d
    → IsListed d.opcode d.fields
    → assemble (format_instr w pc) ≡ record { words = w ∷ []; error = none }
unfolding format_instr
assemble-format_instr w pc {d} small e k =
    let v = decode-IsDecoded w e in
    let formed : d ≡ record {
      raw = d.raw;
      opcode = d.opcode;
      format = format_of d.opcode;
      fields = d.fields;
    } =
      ap
        (λ (f : InstrFormat). record {
          raw = d.raw;
          opcode = d.opcode;
          format = f;
          fields = d.fields;
        })
        v.same_format in
    let holds : HasFields (format_of d.opcode) d.fields =
      subst (λ f. HasFields f d.fields) v.same_format v.has_fields in
    let again = listed-Assembles d.raw d.opcode d.fields pc holds k in
    rw (e, format_instr)
      (ap (λ (x : DecodedInstr). assemble (to_text x pc)) formed
        ∙ again
        ∙ ap (λ (x : ℕ). record { words = x ∷ []; error = none })
            (encode-decode w small e (listed-ne-cop0 d.opcode d.fields k)))
