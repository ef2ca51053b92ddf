-- ===== src/ProgramLoader.antt =====
-- src/mips/program_loader.cpp, include/mips/program_loader.h: hexadecimal listings to words. The
-- input stream is its text.
pub mod Printed
use clear_core.Text.{is_space, Text, codes, take, drop, find, is_empty, get_lines}
use clear_core.Text.Numbers.{uint32_from_chars, to_decimal}
use clear_core.Prelude.{
  ℕ, suc, ◌+◌, Bool, ◌&&◌, ◌||◌, Option, none, some, List, [], ◌∷◌, ◌++◌, ◌==◌, leb, if◌then◌else◌,
}

pub record HexProgram : Type 0 where
  pub words : List ℕ
  pub error : Option Text

unfoldable pub erase_comment : Text → Text
erase_comment line = elim (find b'#' line) [ none ↦ line | some cp ↦ take line cp ]

unfoldable pub clean : Text → Text
clean [] = []
clean (c ∷ s) = let rest = clean s in if is_space c then rest else c ∷ rest

-- The token without its prefix "0x", if it has one and does not end there.
unfoldable pub token : Text → Text
token (a ∷ b ∷ c ∷ s) = if a == b'0' && (b == b'x' || b == b'X') then c ∷ s else a ∷ b ∷ c ∷ s
token s = s

-- What a line comes to.
pub data HexLine : Type 0 where
  blank : HexLine
  bad_hex : HexLine
  word_line : ℕ → HexLine

unfoldable pub read_line : Text → HexLine
unfolding erase_comment clean token
read_line line =
    let stripped = clean (erase_comment line) in
    if is_empty stripped
    then blank
    else elim (uint32_from_chars 16 (token stripped)) [ none ↦ bad_hex | some v ↦ word_line v ]

-- The loop, `n` lines read and these words gathered.
unfoldable pub parse_lines : ℕ → List Text → List ℕ → HexProgram
unfolding read_line
parse_lines n [] words = record { words = words; error = none }
parse_lines n (line ∷ lines) words = elim (read_line line) [
  | blank ↦ parse_lines (suc n) lines words
  | bad_hex ↦ record { words = []; error = some (codes "Bad hex on line " ++ to_decimal (suc n)) }
  | word_line v ↦ parse_lines (suc n) lines (words ++ v ∷ [])
]

unfoldable pub parse_hex_program : Text → HexProgram
unfolding parse_lines
parse_hex_program text = parse_lines 0 (get_lines text) []
