-- ===== src/Decoder/Encodable.antt =====
-- The words that `decode` accepts, by the numbers of their fields.
use clear_core.Decoder.Codes.{InstrFormat, to_funct}
use clear_core.Decoder.Laws.{bits-eq-mod, fields_low}
use clear_core.Decoder.{
  decode, decode_as, to_opcode, format_of, implemented_special, is_opcode, Opcode, bits,
}
use clear_core.Prelude.{
  ℕ, arith, ◌≡◌, true, false, Bool, not, ◌&&◌, ◌||◌, ◌==◌, List, [], ◌∷◌, none, ◌/◌, ◌^◌, ◌%◌, ◌↔◌,
  sym, ◌∙◌, ap,
}

abbrev pub is_one_of : ℕ → List ℕ → Bool
is_one_of n [] = false
is_one_of n (k ∷ ks) = n == k || is_one_of n ks

-- The opcodes of the subset: SPECIAL, J, JAL, BEQ, BNE, ADDI to LUI, COP0, LW, LBU, LHU and SW.
abbrev pub opcode_numbers : List ℕ
opcode_numbers =
    0 ∷ 2 ∷ 3 ∷ 4 ∷ 5 ∷ 8 ∷ 9 ∷ 10 ∷ 11 ∷ 12 ∷ 13 ∷ 14 ∷ 15 ∷ 16 ∷ 35 ∷ 36 ∷ 37 ∷ 43 ∷ []

-- Its operations under SPECIAL: SLL, SRL, SRA, SLLV, SRLV, JR, JALR, SYSCALL, BREAK, ADD to NOR, SLT
-- and SLTU.
abbrev pub funct_numbers : List ℕ
funct_numbers =
    0 ∷ 2 ∷ 3 ∷ 4 ∷ 6 ∷ 8 ∷ 9 ∷ 12 ∷ 13 ∷ 32 ∷ 33 ∷ 34 ∷ 35 ∷ 36 ∷ 37 ∷ 38 ∷ 39 ∷ 42 ∷ 43 ∷ []

abbrev pub is_encodable : ℕ → ℕ → Bool
is_encodable op funct =
    is_one_of op opcode_numbers && (not (op == 0) || is_one_of funct funct_numbers)

abbrev is_unknown : InstrFormat → Bool
is_unknown InstrFormat.unknown = true
is_unknown f = false

format_unknown : (n : ℕ) → is_unknown (format_of (to_opcode n)) ≡ not (is_one_of n opcode_numbers)
unfolding to_opcode format_of
format_unknown n = ground arith

special_zero : (n : ℕ) → is_opcode (to_opcode n) Opcode.special ≡ (n == 0)
unfolding to_opcode
special_zero n = ground arith

funct_implemented : (n : ℕ) → implemented_special (to_funct n) ≡ is_one_of n funct_numbers
unfolding to_funct implemented_special
funct_implemented n = ground arith

decode_as-none :
    (w : ℕ) (op : Opcode)
    → (decode_as w op (format_of op) ≡ none) ↔ (
        (is_unknown (format_of op)
          || (is_opcode op Opcode.special && not (implemented_special (to_funct (bits w 5 0)))))
        ≡ true)
unfolding decode_as format_of
decode_as-none w Opcode.special = ground arith
decode_as-none w (Opcode.unlisted k) = ground arith
decode_as-none w op = ground arith

by_numbers :
    (n f : ℕ)
    → (is_unknown (format_of (to_opcode n))
        || (is_opcode (to_opcode n) Opcode.special && not (implemented_special (to_funct f))))
      ≡ not (is_encodable n f)
by_numbers n f = rw (format_unknown n, special_zero n, funct_implemented f) (ground arith)

negated : (b : Bool) → not b ≡ true → b ≡ false
negated b h = ground arith

-- A word is rejected exactly when its top six bits are not the number of an opcode of the subset, or
-- they are 0 and its low six bits are not the number of an operation under SPECIAL.
pub decode-eq-none_iff :
    (w : ℕ) → (decode w ≡ none) ↔ (is_encodable (w / 2 ^ 26 % 64) (w % 64) ≡ false)
unfolding decode
decode-eq-none_iff w =
    let rejects = decode_as-none w (to_opcode (bits w 31 26)) in
    let same = by_numbers (bits w 31 26) (bits w 5 0) in
    rw (← bits-eq-mod w 31 26, ← fields_low w)
      (λ h. negated _ (sym same ∙ rejects.0 h), λ h. rejects.1 (same ∙ ap not h))
