-- ===== src/Assembler/Correct.antt =====
-- What `assemble` gives: one word for each line, which decodes to what the line stands for, or the
-- message of the first line that is refused.
use clear_core.Assembler.Tables.{
  name_then, table_then, NamesArith, r3_map-Names, i_arith_map-Names, shift_map-Names,
  mem_map-Names, v_shift_map-Names, branch_map-Names, jump_map-Names,
}
use clear_core.Assembler.Immediates.{
  encode_lui-Sound, encode_mem-Sound, encode_branch-Sound, encode_jump-Sound,
}
use clear_core.Assembler.Branches.{
  encode_jr-Sound, encode_jalr-Sound, encode_r3-Sound, encode_i_arith-Sound, encode_shift-Sound,
  encode_v_shift-Sound,
}
use clear_core.Text.{Text, codes}
use mathlib.Core.List.{append-nil, append_assoc}
use clear_core.Prelude.{
  refl, [], ◌∷◌, none, some, ℕ, List, ◌≡◌, arith, inl, inr, suc, ◌++◌, ◌⊎◌, ◌∙◌,
}
use clear_core.Decoder.{Opcode, Fields, r_fields, no_r, decode}
use clear_core.Decoder.Encode.{decoded, decode-encode, encode}
use clear_core.Assembler.{
  encode_lines, encode_line, encode_others, make_error, failed, AssemblerResult,
}
use clear_core.Assembler.Instructions.{
  Encoded, word, refused, Table, zero_extends_imm, branch_map, jump_map, mem_map, r3_map, shift_map,
  v_shift_map, i_arith_map,
}
use clear_core.Assembler.Lines.{Line}
use clear_core.Assembler.Meaning.{Denotes, three_registers, amount, variable, memory, branch, jump}
use clear_core.Assembler.Sound.{NamesFunct, NamesOpcode, special-IsEncodable, EncodesSoundly}

module _ (labels : Table) (idx : ℕ) (ln : Line) where
  abbrev mn : Text
  mn = ln.mnemonic

  abbrev ops : List Text
  ops = ln.operands

  encode_others-Sound : EncodesSoundly labels idx mn ops (encode_others labels idx ln)
  unfolding encode_others
  encode_others-Sound w h =
      name_then mn (codes "jr") h (λ named e. encode_jr-Sound labels idx mn ops named w e)
        (λ h1.
          name_then mn (codes "jalr") h1 (λ named e. encode_jalr-Sound labels idx mn ops named w e)
            (λ h2.
              table_then NamesArith mn i_arith_map i_arith_map-Names h2
                (λ n names e.
                  encode_i_arith-Sound labels idx mn (zero_extends_imm mn) n ops names w e)
                (λ h3.
                  name_then mn (codes "lui") h3
                    (λ named e. encode_lui-Sound labels idx mn ops named w e)
                    (λ h4.
                      table_then (NamesOpcode memory) mn mem_map mem_map-Names h4
                        (λ n names e. encode_mem-Sound labels idx mn n ops names w e)
                        (λ h5.
                          table_then (NamesOpcode branch) mn branch_map branch_map-Names h5
                            (λ n names e. encode_branch-Sound labels idx mn n ops names w e)
                            (λ h6.
                              table_then (NamesOpcode jump) mn jump_map jump_map-Names h6
                                (λ n names e. encode_jump-Sound labels idx mn n ops names w e)
                                (λ h7. absurd (cc))))))))

  encode_line-Sound : EncodesSoundly labels idx mn ops (encode_line labels idx ln)
  unfolding encode_line encode
  encode_line-Sound w h =
      name_then mn (codes "nop") h
        (λ named e. (
          Opcode.special,
          r_fields no_r,
          special-IsEncodable no_r (omega arith) (omega arith) (omega arith) (omega arith) (cc),
          cc,
          Denotes.no_op named,
        ))
        (λ h1.
          table_then (NamesFunct three_registers) mn r3_map r3_map-Names h1
            (λ n names e. encode_r3-Sound labels idx mn n ops names w e)
            (λ h2.
              table_then (NamesFunct amount) mn shift_map shift_map-Names h2
                (λ n names e. encode_shift-Sound labels idx mn n ops names w e)
                (λ h3.
                  table_then (NamesFunct variable) mn v_shift_map v_shift_map-Names h3
                    (λ n names e. encode_v_shift-Sound labels idx mn n ops names w e)
                    (encode_others-Sound w))))

-- Words that decode, one for one, to what the lines from index `idx` on stand for.
pub data Encodes (labels : Table) : ℕ → List Line → List ℕ → Type 0 where
  all_done : (idx : ℕ) → Encodes labels idx [] []
  encodes :
      (idx : ℕ) (ln : Line) (lines : List Line) (w : ℕ) (words : List ℕ) (op : Opcode) (f : Fields)
      → decode w ≡ some (decoded op f)
      → Denotes labels idx ln.mnemonic ln.operands op f
      → Encodes labels (suc idx) lines words
      → Encodes labels idx (ln ∷ lines) (w ∷ words)

-- The first line that pass 2 refuses, the one at index `idx` on, with its message.
pub data Refuses (labels : Table) : ℕ → List Line → Line → Text → Type 0 where
  refused_here :
      (idx : ℕ) (ln : Line) (lines : List Line) (msg : Text)
      → encode_line labels idx ln ≡ refused msg
      → Refuses labels idx (ln ∷ lines) ln msg
  refused_later :
      (idx : ℕ) (ln : Line) (lines : List Line) (w : ℕ) (bad : Line) (msg : Text)
      → encode_line labels idx ln ≡ word w
      → Refuses labels (suc idx) lines bad msg
      → Refuses labels idx (ln ∷ lines) bad msg

Encoded-cases : (e : Encoded) → ((w : ℕ) × (e ≡ word w)) ⊎ ((m : Text) × (e ≡ refused m))
Encoded-cases (word w) = inl (w, refl)
Encoded-cases (refused m) = inr (m, refl)

-- Pass 2 adds the words of its lines to those it has, or gives the message of the first refusal.
abbrev pub Finishes : Table → ℕ → List ℕ → List Line → AssemblerResult → Type 0
Finishes labels idx words lines r =
    ((new : List ℕ) × (r ≡ record { words = words ++ new; error = none })
      × Encodes labels idx lines new)
    ⊎ ((ln : Line) × (msg : Text) × (r ≡ failed (make_error ln.lineno msg))
        × Refuses labels idx lines ln msg)

pub encode_lines-Finishes :
    (labels : Table) (idx : ℕ) (words : List ℕ) (lines : List Line)
    → Finishes labels idx words lines (encode_lines labels idx words lines)
unfolding encode_lines
encode_lines-Finishes labels idx words [] = inl ([], simp append-nil, all_done idx)
encode_lines-Finishes labels idx words (ln ∷ lines) =
    elim (Encoded-cases (encode_line labels idx ln)) [
      | inr (msg, e) ↦ inr (ln, msg, rw (e, encode_lines) refl, refused_here idx ln lines msg e)
      | inl (w, e) ↦ elim (encode_lines-Finishes labels (suc idx) (words ++ w ∷ []) lines) [
        | inl (new, same_result, rest) ↦
            let (op, f, fits, laid_out, d) = encode_line-Sound labels idx ln w e in
            inl (
              w ∷ new,
              rw (e, encode_lines) (same_result ∙ simp append_assoc),
              encodes idx ln lines w new op f (rw laid_out (decode-encode op f fits)) d rest,
            )
        | inr (bad, msg, same_result, rest) ↦ inr (
          bad,
          msg,
          rw (e, encode_lines) same_result,
          refused_later idx ln lines w bad msg e rest,
        )
      ]
    ]
