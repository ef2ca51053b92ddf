-- ===== src/Assembler/Branches.antt =====
-- Each branch of pass 2 lays out an instruction that the line stands for.
use clear_core.Assembler.Encoders.{enc_r, enc_i}
use clear_core.Assembler.Checked.{
  amount-lt, fits_uimm16-imm16, fits_simm16-imm16, reg_or_then, regs1_then, imm_or_then, guard_then,
}
use clear_core.Assembler.Sound.{
  NamesFunct, NamesOpcode, EncodesSoundly, special-Sound, immediate-Sound,
}
use clear_core.Text.{Text, codes}
use clear_core.Prelude.{
  refl, [], ◌∷◌, true, false, some, ℕ, List, ◌≡◌, Bool, ℤ, if◌then◌else◌, ltb_ℤ, not, arith, pos,
  ◌||◌, unsigned32, ◌%◌, ◌^◌, ◌∙◌, ap,
}
use clear_core.Decoder.{FunctCode}
use clear_core.Assembler.Operands.{fits_uimm16, fits_simm16}
use clear_core.Assembler.Instructions.{
  word, regs1, reg_or, imm_or, Table, encode_i_arith, encode_jalr, encode_jr, encode_r3,
  encode_shift, encode_v_shift, regs2, err, imm16,
}
use clear_core.Assembler.Meaning.{
  Denotes, three_registers, amount, variable, signed_imm, unsigned_imm,
}

module _ (labels : Table) (idx : ℕ) (mn : Text) where
  pub encode_r3-Sound :
      (n : ℕ) (ops : List Text)
      → NamesFunct three_registers mn n
      → EncodesSoundly labels idx mn ops (encode_r3 n ops)
  unfolding encode_r3
  encode_r3-Sound n (a ∷ b ∷ c ∷ []) (f, coded, named, shaped) w h =
      regs1_then a (λ rd. regs2 b c (λ rs rt. word (enc_r rs rt rd 0 n))) h
        (λ rd e1 l1 h1.
          regs1_then b (λ rs. regs1 c (λ rt. word (enc_r rs rt rd 0 n))) h1
            (λ rs e2 l2 h2.
              regs1_then c (λ rt. word (enc_r rs rt rd 0 n)) h2
                (λ rt e3 l3 h3.
                  special-Sound labels idx mn (a ∷ b ∷ c ∷ [])
                    (record { rs = rs; rt = rt; rd = rd; shamt = 0; funct = f }) l2 l3 l1
                    (omega arith) (cc) (cc) (Denotes.of_three f a b c named shaped refl e1 e2 e3))))
  encode_r3-Sound n ops names w h = cc

  pub encode_shift-Sound :
      (n : ℕ) (ops : List Text)
      → NamesFunct amount mn n
      → EncodesSoundly labels idx mn ops (encode_shift n ops)
  unfolding encode_shift
  encode_shift-Sound n (a ∷ b ∷ c ∷ []) (f, coded, named, shaped) w h =
      let place = λ (rd rt : ℕ) (v : ℤ).
        if ltb_ℤ v (pos 0) || ltb_ℤ (pos 31) v
        then err "shift amount out of range"
        else word (enc_r 0 rt rd (unsigned32 v % 2 ^ 8) n) in
      reg_or_then a (λ rd. reg_or b (λ rt. imm_or c (place rd rt))) h
        (λ rd e1 l1 h1.
          reg_or_then b (λ rt. imm_or c (place rd rt)) h1
            (λ rt e2 l2 h2. imm_or_then c (place rd rt) h2 (λ v e3 h3.
              guard_then (ltb_ℤ v (pos 0) || ltb_ℤ (pos 31) v) "shift amount out of range"
                (enc_r 0 rt rd (unsigned32 v % 2 ^ 8) n) h3
                (λ inside e.
                  let (kept, small) = amount-lt v inside in
                  special-Sound labels idx mn (a ∷ b ∷ c ∷ [])
                    (record { rs = 0; rt = rt; rd = rd; shamt = unsigned32 v % 2 ^ 8; funct = f })
                    (omega arith) l2 l1 small (cc) (cc)
                    (Denotes.of_amount f a b c named shaped refl e1 e2 (e3 ∙ ap some kept))))))
  encode_shift-Sound n ops names w h = cc

  pub encode_v_shift-Sound :
      (n : ℕ) (ops : List Text)
      → NamesFunct variable mn n
      → EncodesSoundly labels idx mn ops (encode_v_shift n ops)
  unfolding encode_v_shift
  encode_v_shift-Sound n (a ∷ b ∷ c ∷ []) (f, coded, named, shaped) w h =
      regs1_then a (λ rd. regs2 b c (λ rt rs. word (enc_r rs rt rd 0 n))) h
        (λ rd e1 l1 h1.
          regs1_then b (λ rt. regs1 c (λ rs. word (enc_r rs rt rd 0 n))) h1
            (λ rt e2 l2 h2.
              regs1_then c (λ rs. word (enc_r rs rt rd 0 n)) h2
                (λ rs e3 l3 h3.
                  special-Sound labels idx mn (a ∷ b ∷ c ∷ [])
                    (record { rs = rs; rt = rt; rd = rd; shamt = 0; funct = f }) l3 l2 l1
                    (omega arith) (cc) (cc)
                    (Denotes.of_variable f a b c named shaped refl e1 e2 e3))))
  encode_v_shift-Sound n ops names w h = cc

  pub encode_jr-Sound :
      (ops : List Text) → mn ≡ codes "jr" → EncodesSoundly labels idx mn ops (encode_jr ops)
  unfolding encode_jr
  encode_jr-Sound (a ∷ []) named w h =
      regs1_then a (λ rs. word (enc_r rs 0 0 0 0x08)) h
        (λ rs e1 l1 h1.
          special-Sound labels idx mn (a ∷ [])
            (record { rs = rs; rt = 0; rd = 0; shamt = 0; funct = FunctCode.jr }) l1 (omega arith)
            (omega arith) (omega arith) (cc) (cc)
            (Denotes.of_register FunctCode.jr a named refl refl e1))
  encode_jr-Sound ops names w h = cc

  pub encode_jalr-Sound :
      (ops : List Text) → mn ≡ codes "jalr" → EncodesSoundly labels idx mn ops (encode_jalr ops)
  unfolding encode_jalr
  encode_jalr-Sound (a ∷ b ∷ []) named w h =
      regs1_then a (λ rd. regs1 b (λ rs. word (enc_r rs 0 rd 0 0x09))) h
        (λ rd e1 l1 h1.
          regs1_then b (λ rs. word (enc_r rs 0 rd 0 0x09)) h1
            (λ rs e2 l2 h2.
              special-Sound labels idx mn (a ∷ b ∷ [])
                (record { rs = rs; rt = 0; rd = rd; shamt = 0; funct = FunctCode.jalr }) l2
                (omega arith) l1 (omega arith) (cc) (cc)
                (Denotes.of_two FunctCode.jalr a b named refl refl e1 e2)))
  encode_jalr-Sound ops names w h = cc

  pub encode_i_arith-Sound :
      (zero_extends : Bool) (n : ℕ) (ops : List Text)
      → NamesOpcode (if zero_extends then unsigned_imm else signed_imm) mn n
      → EncodesSoundly labels idx mn ops (encode_i_arith zero_extends n ops)
  unfolding encode_i_arith
  encode_i_arith-Sound true n (a ∷ b ∷ c ∷ []) (op, coded, named, shaped) w h =
      let place = λ (rt rs : ℕ) (v : ℤ).
        if not (fits_uimm16 v)
        then err "immediate out of range (0 to 65535)"
        else word (enc_i n rs rt (imm16 v)) in
      reg_or_then a (λ rt. reg_or b (λ rs. imm_or c (place rt rs))) h
        (λ rt e1 l1 h1.
          reg_or_then b (λ rs. imm_or c (place rt rs)) h1
            (λ rs e2 l2 h2. imm_or_then c (place rt rs) h2 (λ v e3 h3.
              guard_then (not (fits_uimm16 v)) "immediate out of range (0 to 65535)"
                (enc_i n rs rt (imm16 v)) h3
                (λ inside e.
                  let (kept, small) = fits_uimm16-imm16 v inside in
                  immediate-Sound labels idx mn (a ∷ b ∷ c ∷ []) op
                    (record { rs = rs; rt = rt; imm = imm16 v }) l2 l1 small (cc) (cc) (cc)
                    (Denotes.of_unsigned op a b c named shaped refl e1 e2 (e3 ∙ ap some kept))))))
  encode_i_arith-Sound false n (a ∷ b ∷ c ∷ []) (op, coded, named, shaped) w h =
      let place = λ (rt rs : ℕ) (v : ℤ).
        if not (fits_simm16 v)
        then err "immediate out of range (-32768 to 32767)"
        else word (enc_i n rs rt (imm16 v)) in
      reg_or_then a (λ rt. reg_or b (λ rs. imm_or c (place rt rs))) h
        (λ rt e1 l1 h1.
          reg_or_then b (λ rs. imm_or c (place rt rs)) h1
            (λ rs e2 l2 h2. imm_or_then c (place rt rs) h2 (λ v e3 h3.
              guard_then (not (fits_simm16 v)) "immediate out of range (-32768 to 32767)"
                (enc_i n rs rt (imm16 v)) h3
                (λ inside e.
                  let (kept, small) = fits_simm16-imm16 v inside in
                  immediate-Sound labels idx mn (a ∷ b ∷ c ∷ []) op
                    (record { rs = rs; rt = rt; imm = imm16 v }) l2 l1 small (cc) (cc) (cc)
                    (Denotes.of_signed op a b c named shaped refl e1 e2 e3 kept)))))
  encode_i_arith-Sound zero_extends n ops names w h = cc
