-- ===== src/Assembler.antt =====
-- src/nsc_qt/assembler.cpp, include/nsc_qt/assembler.h: the two-pass assembler. Pass 1 is in
-- Assembler/Lines, operands are read in Assembler/Operands, words are laid out in
-- Assembler/Encoders by the instruction kinds of Assembler/Instructions; this file is the loop of
-- pass 2 and `assemble`.
pub mod Operands
pub mod Encoders
pub mod Instructions
pub mod Layout
pub mod Lines
pub mod Meaning
pub mod Checked
pub mod Sound
pub mod Branches
pub mod Immediates
pub mod Tables
pub mod Scanned
pub mod Correct
pub mod Outcome
pub mod Spaced
use clear_core.Assembler.Instructions.{
  Table, Encoded, encode_jr, word, encode_jalr, r3_map, encode_r3, i_arith_map, encode_i_arith,
  shift_map, encode_shift, zero_extends_imm, encode_lui, v_shift_map, encode_v_shift, mem_map,
  encode_mem, branch_map, encode_branch, jump_map, refused, encode_jump,
}
use clear_core.Assembler.Operands.{
  parse_reg, parse_imm, parse_mem_operand, fits_simm16, fits_uimm16, jump_target_max,
}
use clear_core.Assembler.Encoders.{enc_r, enc_i, enc_j}
use clear_core.Assembler.Lines.{Line, Scan, scan_lines, no_scan}
use clear_core.Text.{Text, codes, same, lookup, get_lines, is_empty}
use clear_core.Text.Numbers.{to_decimal}
use clear_core.Prelude.{
  ℕ, suc, ◌+◌, Bool, Option, none, some, List, [], ◌∷◌, ◌++◌, ◌||◌, leb, not, if◌then◌else◌, ℤ, pos,
  ◌-ℤ◌, ltb_ℤ, ◌%◌, ◌^◌, length, unsigned32, ltb, signed32,
}

pub record AssemblerResult : Type 0 where
  pub words : List ℕ
  pub error : Option Text

-- The second half of the branches of a round.
unfoldable pub encode_others : Table → ℕ → Line → Encoded
encode_others labels idx ln =
    if same ln.mnemonic (codes "jr")
    then encode_jr ln.operands
    else if same ln.mnemonic (codes "jalr")
    then encode_jalr ln.operands
    else elim (lookup ln.mnemonic i_arith_map) [
      | some op ↦ encode_i_arith (zero_extends_imm ln.mnemonic) op ln.operands
      | none ↦
          if same ln.mnemonic (codes "lui")
          then encode_lui ln.operands
          else elim (lookup ln.mnemonic mem_map) [
            | some op ↦ encode_mem op ln.operands
            | none ↦ elim (lookup ln.mnemonic branch_map) [
              | some op ↦ encode_branch labels idx op ln.operands
              | none ↦ elim (lookup ln.mnemonic jump_map) [
                | some op ↦ encode_jump labels op ln.operands
                | none ↦ refused (codes "unknown instruction '" ++ ln.mnemonic ++ codes "'")
              ]
            ]
          ]
    ]

-- One round of pass 2, for the line at this index.
unfoldable pub encode_line : Table → ℕ → Line → Encoded
encode_line labels idx ln =
    if same ln.mnemonic (codes "nop") then word 0 else elim (lookup ln.mnemonic r3_map) [
      | some funct ↦ encode_r3 funct ln.operands
      | none ↦ elim (lookup ln.mnemonic shift_map) [
        | some funct ↦ encode_shift funct ln.operands
        | none ↦ elim (lookup ln.mnemonic v_shift_map) [
          | some funct ↦ encode_v_shift funct ln.operands
          | none ↦ encode_others labels idx ln
        ]
      ]
    ]

-- `make_error`.
abbrev pub make_error : ℕ → Text → Text
make_error lineno msg = codes "line " ++ to_decimal lineno ++ codes ": " ++ msg

abbrev pub failed : Text → AssemblerResult
failed msg = record { words = []; error = some msg }

-- Pass 2 from the line with this index, with the words so far.
unfoldable pub encode_lines : Table → ℕ → List ℕ → List Line → AssemblerResult
unfolding encode_line
encode_lines labels idx words [] = record { words = words; error = none }
encode_lines labels idx words (ln ∷ lines) = elim (encode_line labels idx ln) [
  | refused msg ↦ failed (make_error ln.lineno msg)
  | word w ↦ encode_lines labels (suc idx) (words ++ w ∷ []) lines
]

unfoldable pub assemble : Text → AssemblerResult
unfolding encode_lines
assemble source =
    let scanned = scan_lines 1 (get_lines source) no_scan in
    if is_empty scanned.lines
    then failed (codes "no instructions found")
    else encode_lines scanned.labels 0 [] scanned.lines
