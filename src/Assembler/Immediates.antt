-- ===== src/Assembler/Immediates.antt =====
-- The branches of pass 2 with an offset, an upper half or a target.
use clear_core.Assembler.Encoders.{enc_i, enc_j}
use clear_core.Assembler.Checked.{
  fits_uimm16-imm16, fits_simm16-imm16, reg_or_then, regs1_then, imm_or_then, guard_then,
  parse_mem_operand-lt, target-lt, label-Lands,
}
use clear_core.Assembler.Sound.{NamesOpcode, EncodesSoundly, immediate-Sound, jump-Sound}
use clear_core.Text.{Text, codes, lookup}
use clear_core.Prelude.{
  refl, [], ◌∷◌, some, ℕ, List, ◌≡◌, ℤ, if◌then◌else◌, ltb_ℤ, not, arith, pos, ◌||◌, unsigned32,
  ◌%◌, ◌^◌, ◌∙◌, ap, Option-cases, inl, inr, signed32, ◌-ℤ◌, ◌+◌, ltb,
}
use clear_core.Decoder.{Opcode, sign_extend}
use clear_core.Assembler.Operands.{
  parse_imm, fits_uimm16, fits_simm16, parse_mem_operand, jump_target_max,
}
use clear_core.Assembler.Instructions.{
  word, regs1, imm_or, Table, err, imm16, branch_offset, encode_branch, encode_jump, encode_lui,
  encode_mem, branch_word, mem_word,
}
use clear_core.Assembler.Meaning.{Denotes, memory, branch, jump, Reaches, Targets}

module _ (labels : Table) (idx : ℕ) (mn : Text) where
  pub encode_lui-Sound :
      (ops : List Text) → mn ≡ codes "lui" → EncodesSoundly labels idx mn ops (encode_lui ops)
  unfolding encode_lui
  encode_lui-Sound (a ∷ b ∷ []) named w h =
      let place = λ (rt : ℕ) (v : ℤ).
        if not (fits_uimm16 v)
        then err "immediate out of range (0 to 65535)"
        else word (enc_i 0x0f 0 rt (imm16 v)) in
      reg_or_then a (λ rt. imm_or b (place rt)) h
        (λ rt e1 l1 h1. imm_or_then b (place rt) h1 (λ v e2 h2.
          guard_then (not (fits_uimm16 v)) "immediate out of range (0 to 65535)"
            (enc_i 0x0f 0 rt (imm16 v)) h2
            (λ inside e.
              let (kept, small) = fits_uimm16-imm16 v inside in
              immediate-Sound labels idx mn (a ∷ b ∷ []) Opcode.lui
                (record { rs = 0; rt = rt; imm = imm16 v }) (omega arith) l1 small (cc) (cc) e
                (Denotes.of_upper Opcode.lui a b named refl refl e1 (e2 ∙ ap some kept)))))
  encode_lui-Sound ops named w h = cc

  pub encode_mem-Sound :
      (n : ℕ) (ops : List Text)
      → NamesOpcode memory mn n
      → EncodesSoundly labels idx mn ops (encode_mem n ops)
  unfolding encode_mem
  encode_mem-Sound n (a ∷ b ∷ []) (op, coded, named, shaped) w h =
      regs1_then a (λ rt. mem_word n b rt) h
        (λ rt e1 l1 h1. elim (Option-cases (parse_mem_operand b)) [
          | inl e ↦ absurd (ground arith)
          | inr ((v, rs), e) ↦
              guard_then (not (fits_simm16 v)) "offset out of range (-32768 to 32767)"
                (enc_i n rs rt (imm16 v)) {w = w} (ground arith)
                (λ inside e3.
                  let (kept, small) = fits_simm16-imm16 v inside in
                  immediate-Sound labels idx mn (a ∷ b ∷ []) op
                    (record { rs = rs; rt = rt; imm = imm16 v }) (parse_mem_operand-lt b e) l1 small
                    (cc) (cc) (cc) (Denotes.of_memory op a b named shaped refl e1 e kept))
        ])
  encode_mem-Sound n ops names w h = cc

  branch_offset-Reaches :
      (c : Text) (imm : ℕ) {v : ℤ}
      → branch_offset labels idx c ≡ some v
      → sign_extend imm ≡ v
      → Reaches labels idx c imm
  unfolding branch_offset
  branch_offset-Reaches c imm {v} h e = elim (Option-cases (parse_imm c)) [
    | inr (n, q) ↦ Reaches.by_number v (ground arith) e
    | inl q ↦ elim (Option-cases (lookup c labels)) [
      | inl z ↦ absurd (ground arith)
      | inr (t, z) ↦
          let distance : v ≡ signed32 (t % 2 ^ 32) -ℤ signed32 ((idx + 1) % 2 ^ 32) =
            ground arith in
          Reaches.to_label t q z (label-Lands idx t imm (e ∙ distance))
    ]
  ]

  pub encode_branch-Sound :
      (n : ℕ) (ops : List Text)
      → NamesOpcode branch mn n
      → EncodesSoundly labels idx mn ops (encode_branch labels idx n ops)
  unfolding encode_branch
  encode_branch-Sound n (a ∷ b ∷ c ∷ []) (op, coded, named, shaped) w h =
      regs1_then a (λ rs. regs1 b (branch_word labels idx n c rs)) h
        (λ rs e1 l1 h1. regs1_then b (branch_word labels idx n c rs) h1 (λ rt e2 l2 h2.
          elim (Option-cases (branch_offset labels idx c)) [
            | inl e ↦ absurd (ground arith)
            | inr (v, e) ↦
                guard_then (not (fits_simm16 v))
                  "branch offset out of range (-32768 to 32767 instructions)"
                  (enc_i n rs rt (imm16 v)) {w = w} (ground arith)
                  (λ inside e3.
                    let (kept, small) = fits_simm16-imm16 v inside in
                    immediate-Sound labels idx mn (a ∷ b ∷ c ∷ []) op
                      (record { rs = rs; rt = rt; imm = imm16 v }) l1 l2 small (cc) (cc) (cc)
                      (Denotes.of_branch op a b c named shaped refl e1 e2
                        (branch_offset-Reaches c (imm16 v) e kept)))
          ]))
  encode_branch-Sound n ops names w h = cc

  pub encode_jump-Sound :
      (n : ℕ) (ops : List Text)
      → NamesOpcode jump mn n
      → EncodesSoundly labels idx mn ops (encode_jump labels n ops)
  unfolding encode_jump
  encode_jump-Sound n (a ∷ []) (op, coded, named, shaped) w h = elim (Option-cases (parse_imm a)) [
    | inr (v, e) ↦
        guard_then (ltb_ℤ v (pos 0) || ltb_ℤ (pos jump_target_max) v)
          "jump target out of range (0 to 0x3FFFFFF)" (enc_j n (unsigned32 v)) {w = w}
          (ground arith)
          (λ inside e3.
            let (kept, small) = target-lt v inside in
            jump-Sound labels idx mn (a ∷ []) op (record { target = unsigned32 v }) small shaped
              (cc) (Denotes.of_jump op a named shaped refl (Targets.by_number (e ∙ ap some kept))))
    | inl e ↦ elim (Option-cases (lookup a labels)) [
      | inl z ↦ absurd (ground arith)
      | inr (t, z) ↦
          guard_then (ltb jump_target_max t) "jump target out of range (0 to 0x3FFFFFF)" (enc_j n t)
            {w = w} (ground arith)
            (λ inside e3.
              jump-Sound labels idx mn (a ∷ []) op (record { target = t }) (ground arith) shaped
                (cc) (Denotes.of_jump op a named shaped refl (Targets.to_label e z)))
    ]
  ]
  encode_jump-Sound n ops names w h = cc
