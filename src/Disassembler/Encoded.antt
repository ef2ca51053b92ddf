-- ===== src/Disassembler/Encoded.antt =====
-- The words that the assembler's encoders give for printed operands.
use clear_core.Assembler.Operands.{
  fits_simm16, fits_uimm16, parse_imm, parse_mem_operand, parse_reg,
}
use clear_core.Text.Numbers.{to_decimal}
use clear_core.Text.{same, Text, same}
use clear_core.Assembler.Instructions.{
  encode_r3, encode_shift, encode_v_shift, encode_jr, encode_jalr, encode_lui, encode_mem, word,
  imm16, Encoded, mem_word, regs3, imm_or, reg_or, regs1, err,
}
use clear_core.Assembler.Encoders.{enc_r, enc_i}
use clear_core.Disassembler.{reg_text}
use clear_core.Disassembler.Operands.{
  reg_text-reads, parse_imm-to_decimal, mem_text, parse_mem_operand-mem_text, upper_text,
  upper_text-reads,
}
use clear_core.Prelude.{
  ℕ, ◌≡◌, refl, some, [], ◌∷◌, arith, ◌<◌, ◌^◌, ◌∙◌, ap, true, false, signed16, ◌%◌, pos, ℤ, Bool,
  ltb_ℤ, if◌then◌else◌, ◌||◌, not,
}

-- A check that an operand passes.
module _ (t : Text) where
  regs1-read : (r : ℕ) (next : ℕ → Encoded) → parse_reg t ≡ some r → regs1 t next ≡ next r
  regs1-read r next e = rw (e, regs1) refl

  reg_or-read : (r : ℕ) (next : ℕ → Encoded) → parse_reg t ≡ some r → reg_or t next ≡ next r
  reg_or-read r next e = rw (e, reg_or) refl

  imm_or-read : (v : ℤ) (next : ℤ → Encoded) → parse_imm t ≡ some v → imm_or t next ≡ next v
  imm_or-read v next e = rw (e, imm_or) refl

  mem_word-read :
      (op rt : ℕ) (v : ℤ) (rs : ℕ)
      → parse_mem_operand t ≡ some (v, rs)
      → fits_simm16 v ≡ true
      → mem_word op t rt ≡ word (enc_i op rs rt (imm16 v))
  mem_word-read op rt v rs e fits = rw (e, mem_word) (rw fits refl)

-- The words that the encoders give for registers that are read.
module _ (a b c : ℕ) (ha : a < 32) (hb : b < 32) (hc : c < 32) where
  regs3-read :
      (next : ℕ → ℕ → ℕ → Encoded) → regs3 (reg_text a) (reg_text b) (reg_text c) next ≡ next a b c
  regs3-read next =
      regs1-read (reg_text a) a _ (reg_text-reads a ha).0
      ∙ regs1-read (reg_text b) b _ (reg_text-reads b hb).0
      ∙ regs1-read (reg_text c) c _ (reg_text-reads c hc).0

  pub encode_r3-reads :
      (n : ℕ) → encode_r3 n (reg_text a ∷ reg_text b ∷ reg_text c ∷ []) ≡ word (enc_r b c a 0 n)
  unfolding encode_r3
  encode_r3-reads n = regs3-read (λ rd rs rt. word (enc_r rs rt rd 0 n))

  pub encode_v_shift-reads :
      (n : ℕ)
      → encode_v_shift n (reg_text a ∷ reg_text b ∷ reg_text c ∷ []) ≡ word (enc_r c b a 0 n)
  unfolding encode_v_shift
  encode_v_shift-reads n = regs3-read (λ rd rt rs. word (enc_r rs rt rd 0 n))

  -- The third is a number here.
  pub encode_shift-reads :
      (n : ℕ)
      → encode_shift n (reg_text a ∷ reg_text b ∷ to_decimal c ∷ []) ≡ word (enc_r 0 b a c n)
  unfolding encode_shift
  encode_shift-reads n =
      let small : (ltb_ℤ (pos c) (pos 0) || ltb_ℤ (pos 31) (pos c)) ≡ false = ground arith in
      let kept : c % 2 ^ 32 % 2 ^ 8 ≡ c = omega arith in
      reg_or-read (reg_text a) a _ (reg_text-reads a ha).0
      ∙ reg_or-read (reg_text b) b _ (reg_text-reads b hb).0
      ∙ imm_or-read (to_decimal c) (pos c) _ (parse_imm-to_decimal c (omega arith))
      ∙ ap
          (λ (bad : Bool).
            if bad
            then err "shift amount out of range"
            else word (enc_r 0 b a (c % 2 ^ 32 % 2 ^ 8) n))
          small
      ∙ ap (λ (k : ℕ). word (enc_r 0 b a k n)) kept

pub encode_jr-reads : (a : ℕ) → a < 32 → encode_jr (reg_text a ∷ []) ≡ word (enc_r a 0 0 0 0x08)
unfolding encode_jr
encode_jr-reads a h = regs1-read (reg_text a) a _ (reg_text-reads a h).0

pub encode_jalr-reads :
    (a b : ℕ)
    → a < 32
    → b < 32
    → encode_jalr (reg_text a ∷ reg_text b ∷ []) ≡ word (enc_r b 0 a 0 0x09)
unfolding encode_jalr
encode_jalr-reads a b ha hb =
    regs1-read (reg_text a) a _ (reg_text-reads a ha).0
    ∙ regs1-read (reg_text b) b _ (reg_text-reads b hb).0

-- An offset that fits stays the same sixteen bits.
fits_signed16 :
    (imm : ℕ) → imm < 2 ^ 16 → (fits_simm16 (signed16 imm) ≡ true) × (imm16 (signed16 imm) ≡ imm)
unfolding fits_simm16
fits_signed16 imm h = (ground arith, ground arith)

pub encode_mem-reads :
    (op a imm b : ℕ)
    → a < 32
    → imm < 2 ^ 16
    → b < 32
    → encode_mem op (reg_text a ∷ mem_text (signed16 imm) b ∷ []) ≡ word (enc_i op b a imm)
unfolding encode_mem
encode_mem-reads op a imm b ha hi hb =
    let (fits, same) = fits_signed16 imm hi in
    regs1-read (reg_text a) a (mem_word op (mem_text (signed16 imm) b)) (reg_text-reads a ha).0
    ∙ mem_word-read (mem_text (signed16 imm) b) op a (signed16 imm) b
        (parse_mem_operand-mem_text imm b hi hb) fits
    ∙ ap (λ (k : ℕ). word (enc_i op b a k)) same

fits_upper : (imm : ℕ) → imm < 2 ^ 16 → fits_uimm16 (pos imm) ≡ true
unfolding fits_uimm16
fits_upper imm h = ground arith

pub encode_lui-reads :
    (a imm : ℕ)
    → a < 32
    → imm < 2 ^ 16
    → encode_lui (reg_text a ∷ upper_text imm ∷ []) ≡ word (enc_i 0x0f 0 a imm)
unfolding encode_lui
encode_lui-reads a imm ha hi =
    let same : imm16 (pos imm) ≡ imm = omega arith in
    reg_or-read (reg_text a) a _ (reg_text-reads a ha).0
    ∙ imm_or-read (upper_text imm) (pos imm) _ (upper_text-reads imm hi).0
    ∙ ap
        (λ (ok : Bool).
          if not ok
          then err "immediate out of range (0 to 65535)"
          else word (enc_i 0x0f 0 a (imm16 (pos imm))))
        (fits_upper imm hi)
    ∙ ap (λ (k : ℕ). word (enc_i 0x0f 0 a k)) same
