-- ===== src/Disassembler/Shapes.antt =====
-- The lines that the disassembler prints, by the shape of their operands.
use clear_core.Text.Numbers.{to_decimal}
use clear_core.Text.{same, Text, same, lookup, to_lower, is_empty}
use clear_core.Assembler.{encode_line, encode_others, assemble}
use clear_core.Assembler.Instructions.{
  encode_r3, encode_shift, encode_v_shift, encode_jr, encode_jalr, word,
}
use clear_core.Assembler.Lines.{Line, is_blank}
use clear_core.Assembler.Meaning.{
  funct_shape, funct_name, opcode_name, three_registers, amount, variable, register_only,
  two_registers,
}
use clear_core.Assembler.Spaced.{assemble-line, IsWord, line_text}
use clear_core.Disassembler.{r_text, reg_text}
use clear_core.Disassembler.Operands.{all_plain, all_plain_sound}
use clear_core.Decoder.{Opcode, FunctCode, RFields, funct_number}
use clear_core.Prelude.{ℕ, ◌≡◌, refl, none, List, [], ◌∷◌, arith, ◌∙◌, ap, map, All, true, false}

abbrev pub printed_line : Text → List Text → Line
printed_line mn ops = record { lineno = 1; mnemonic = mn; operands = ops }

-- The text of one instruction assembles to one word.
abbrev pub Assembles : Text → ℕ → Type 0
Assembles t w = assemble t ≡ record { words = w ∷ []; error = none }

pub assemble_words :
    (mn a : Text) (rest : List Text) (w : ℕ)
    → IsWord mn
    → map to_lower mn ≡ mn
    → IsWord a
    → All IsWord rest
    → encode_line [] 0 (printed_line mn (a ∷ rest)) ≡ word w
    → Assembles (line_text mn a rest) w
assemble_words [] a rest w m low h k e = absurd (cc (m.1))
assemble_words (c ∷ mn) a rest w m low h k e =
    assemble-line c mn a rest m h k w
      (ap (λ (t : Text). encode_line [] 0 (printed_line t (a ∷ rest))) low ∙ e)

pub to_lower_twice : (s : Text) → map to_lower (map to_lower s) ≡ map to_lower s
to_lower_twice [] = refl
to_lower_twice (c ∷ s) =
    let once : to_lower (to_lower c) ≡ to_lower c = ground arith in
    rw once (ap (λ (t : Text). to_lower c ∷ t) (to_lower_twice s))

funct_name-plain :
    (f : FunctCode) → (all_plain (funct_name f) ≡ true) × (is_empty (funct_name f) ≡ false)
unfolding all_plain is_blank
funct_name-plain FunctCode.add = (refl, refl)
funct_name-plain f = (refl, refl)

pub funct_name-IsWord : (f : FunctCode) → IsWord (funct_name f)
funct_name-IsWord f =
    (all_plain_sound (funct_name f) (funct_name-plain f).0, (funct_name-plain f).1)

opcode_name-plain :
    (op : Opcode) → (all_plain (opcode_name op) ≡ true) × (is_empty (opcode_name op) ≡ false)
unfolding all_plain is_blank
opcode_name-plain Opcode.lw = (refl, refl)
opcode_name-plain op = (refl, refl)

pub opcode_name-IsWord : (op : Opcode) → IsWord (opcode_name op)
opcode_name-IsWord op =
    (all_plain_sound (opcode_name op) (opcode_name-plain op).0, (opcode_name-plain op).1)

-- The text of each shape, and the branch of pass 2 that reads it.
module _ (r : RFields) where
  pub three_registers-text :
      (f : FunctCode)
      → funct_shape f ≡ three_registers
      → (r_text (funct_name f) f r
          ≡ line_text (funct_name f) (reg_text r.rd) (reg_text r.rs ∷ reg_text r.rt ∷ []))
        × ((ops : List Text)
            → encode_line [] 0 (printed_line (funct_name f) ops) ≡ encode_r3 (funct_number f) ops)
  unfolding r_text encode_line same lookup
  three_registers-text FunctCode.add h = (refl, λ ops. refl)
  three_registers-text FunctCode.addu h = (refl, λ ops. refl)
  three_registers-text FunctCode.sub h = (refl, λ ops. refl)
  three_registers-text FunctCode.subu h = (refl, λ ops. refl)
  three_registers-text FunctCode.and h = (refl, λ ops. refl)
  three_registers-text FunctCode.or h = (refl, λ ops. refl)
  three_registers-text FunctCode.xor h = (refl, λ ops. refl)
  three_registers-text FunctCode.nor h = (refl, λ ops. refl)
  three_registers-text FunctCode.slt h = (refl, λ ops. refl)
  three_registers-text FunctCode.sltu h = (refl, λ ops. refl)
  three_registers-text f h = absurd (cc h)

  pub amount-text :
      (f : FunctCode)
      → funct_shape f ≡ amount
      → (r_text (funct_name f) f r
          ≡ line_text (funct_name f) (reg_text r.rd) (reg_text r.rt ∷ to_decimal r.shamt ∷ []))
        × ((ops : List Text)
            → encode_line [] 0 (printed_line (funct_name f) ops)
              ≡ encode_shift (funct_number f) ops)
  unfolding r_text encode_line same lookup
  amount-text FunctCode.sll h = (refl, λ ops. refl)
  amount-text FunctCode.srl h = (refl, λ ops. refl)
  amount-text FunctCode.sra h = (refl, λ ops. refl)
  amount-text f h = absurd (cc h)

  pub variable-text :
      (f : FunctCode)
      → funct_shape f ≡ variable
      → (r_text (funct_name f) f r
          ≡ line_text (funct_name f) (reg_text r.rd) (reg_text r.rt ∷ reg_text r.rs ∷ []))
        × ((ops : List Text)
            → encode_line [] 0 (printed_line (funct_name f) ops)
              ≡ encode_v_shift (funct_number f) ops)
  unfolding r_text encode_line same lookup
  variable-text FunctCode.sllv h = (refl, λ ops. refl)
  variable-text FunctCode.srlv h = (refl, λ ops. refl)
  variable-text f h = absurd (cc h)

  pub register_only-text :
      (f : FunctCode)
      → funct_shape f ≡ register_only
      → (r_text (funct_name f) f r ≡ line_text (funct_name f) (reg_text r.rs) [])
        × ((ops : List Text) → encode_line [] 0 (printed_line (funct_name f) ops) ≡ encode_jr ops)
        × (funct_number f ≡ 0x08)
  unfolding r_text encode_line encode_others same lookup
  register_only-text FunctCode.jr h = (refl, (λ ops. refl), refl)
  register_only-text f h = absurd (cc h)

  pub two_registers-text :
      (f : FunctCode)
      → funct_shape f ≡ two_registers
      → (r_text (funct_name f) f r ≡ line_text (funct_name f) (reg_text r.rd) (reg_text r.rs ∷ []))
        × ((ops : List Text) → encode_line [] 0 (printed_line (funct_name f) ops) ≡ encode_jalr ops)
        × (funct_number f ≡ 0x09)
  unfolding r_text encode_line encode_others same lookup
  two_registers-text FunctCode.jalr h = (refl, (λ ops. refl), refl)
  two_registers-text f h = absurd (cc h)
