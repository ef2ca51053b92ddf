-- ===== src/ProgramLoader/Printed.antt =====
-- Reading back a listing of words.
use clear_core.Text.{is_space, Text, get_lines}
use clear_core.Text.Laws.{find-append, take-append}
use clear_core.Text.Numbers.{to_upper_hex, uint32_from_chars, hex_wide}
use clear_core.Text.Digits.{
  number_text-ne-nil, whole_number-number_text, IsDigitChar, number_text-IsDigitChar,
}
use clear_core.ProgramLoader.{
  word_line, erase_comment, clean, token, read_line, parse_lines, parse_hex_program,
}
use mathlib.Core.List.{append-nil, append_assoc}
use clear_core.Prelude.{
  sym, ℕ, suc, ◌<◌, ◌^◌, ◌≡◌, ◌≢◌, refl, none, List, [], ◌∷◌, ◌++◌, ◌==◌, false, arith, All, ap,
  ◌∙◌, map,
}

-- The line of a word: its prefix and capital digits, a space, and a comment.
abbrev pub listed : ℕ × Text → Text
listed (w, comment) = (b'0' ∷ b'x' ∷ to_upper_hex w ++ b' ' ∷ []) ++ b'#' ∷ comment

-- The listing of words with comments, a line each.
abbrev pub listing : List (ℕ × Text) → Text
listing [] = []
listing (entry ∷ rest) = listed entry ++ b'\n' ∷ listing rest

-- A 32-bit word, and a comment of one line.
abbrev pub IsEntry : ℕ × Text → Type 0
IsEntry (w, comment) = (w < 2 ^ 32) × All (λ (c : ℕ). (c == b'\n') ≡ false) comment

get_lines-append :
    (line rest : Text)
    → All (λ (c : ℕ). (c == b'\n') ≡ false) line
    → get_lines (line ++ b'\n' ∷ rest) ≡ line ∷ get_lines rest
unfolding get_lines
get_lines-append [] rest h = refl
get_lines-append (c ∷ line) rest h =
    rw (h.0, get_lines) (rw (get_lines-append line rest h.1, get_lines) refl)

-- Digits are neither spaces nor a mark.
clean-digits : (s rest : Text) → All IsDigitChar s → clean (s ++ rest) ≡ s ++ clean rest
unfolding clean
clean-digits [] rest h = refl
clean-digits (c ∷ s) rest h =
    let letter : is_space c ≡ false = ground (arith, h.0) in
    rw (letter, clean) (ap (λ (t : Text). c ∷ t) (clean-digits s rest h.1))

abbrev NotMark : Text → Type 0
NotMark s = All (λ (c : ℕ). (c == b'#') ≡ false) s

abbrev NotNewline : Text → Type 0
NotNewline s = All (λ (c : ℕ). (c == b'\n') ≡ false) s

digits-NotMark : (s : Text) → All IsDigitChar s → NotMark (s ++ b' ' ∷ [])
digits-NotMark [] h = (refl, tt)
digits-NotMark (c ∷ s) h = (ground (arith, h.0), digits-NotMark s h.1)

digits-NotNewline :
    (s comment : Text)
    → All IsDigitChar s
    → NotNewline comment
    → NotNewline ((s ++ b' ' ∷ []) ++ b'#' ∷ comment)
digits-NotNewline [] comment h k = (refl, (refl, k))
digits-NotNewline (c ∷ s) comment h k = (ground (arith, h.0), digits-NotNewline s comment h.1 k)

erase_comment-append :
    (field comment : Text) → NotMark field → erase_comment (field ++ b'#' ∷ comment) ≡ field
unfolding erase_comment
erase_comment-append field comment h =
    rw (find-append b'#' field comment h, erase_comment) (take-append b'#' field comment)

token-prefix : (s : Text) → s ≢ [] → token (b'0' ∷ b'x' ∷ s) ≡ s
unfolding token
token-prefix [] h = absurd (h refl)
token-prefix (c ∷ s) h = refl

to_upper_hex-IsDigitChar : (w : ℕ) → All IsDigitChar (to_upper_hex w)
unfolding to_upper_hex
to_upper_hex-IsDigitChar w = number_text-IsDigitChar 16 hex_wide w (omega arith)

-- The line of a 32-bit word is read as that word.
read_line-listed :
    (w : ℕ) (comment : Text) → w < 2 ^ 32 → read_line (listed (w, comment)) ≡ word_line w
unfolding read_line to_upper_hex uint32_from_chars clean
read_line-listed w comment small =
    let s = to_upper_hex w in
    let digits = to_upper_hex-IsDigitChar w in
    let field = b'0' ∷ b'x' ∷ s ++ b' ' ∷ [] in
    let erased : erase_comment (field ++ b'#' ∷ comment) ≡ field =
      erase_comment-append field comment (refl, (refl, digits-NotMark s digits)) in
    let cleaned : clean (s ++ b' ' ∷ []) ≡ s = clean-digits s (b' ' ∷ []) digits ∙ append-nil s in
    let spelled = whole_number-number_text 16 hex_wide w (omega arith) in
    rw (erased, read_line)
      (rw (cleaned, read_line)
        (rw (token-prefix s (number_text-ne-nil 16 hex_wide w (omega arith)), read_line)
          (rw (spelled, read_line) (ground arith))))

parse_lines-listing :
    (n : ℕ) (entries : List (ℕ × Text)) (words : List ℕ)
    → All IsEntry entries
    → parse_lines n (get_lines (listing entries)) words
      ≡ record { words = words ++ map (λ (e : ℕ × Text). e.0) entries; error = none }
unfolding parse_lines get_lines
parse_lines-listing n [] words h =
    ap (λ (ws : List ℕ). record { words = ws; error = none }) (sym (append-nil words))
parse_lines-listing n ((w, comment) ∷ rest) words h =
    let one_line = get_lines-append (listed (w, comment)) (listing rest) (
      refl,
      (refl, digits-NotNewline (to_upper_hex w) comment (to_upper_hex-IsDigitChar w) h.0.1),
    ) in
    rw one_line (
      rw (read_line-listed w comment h.0.0, parse_lines)
        (parse_lines-listing (suc n) rest (words ++ w ∷ []) h.1
          ∙ ap (λ (ws : List ℕ). record { words = ws; error = none })
              (append_assoc words (w ∷ []) (map (λ (e : ℕ × Text). e.0) rest))))

-- A listing of 32-bit words, one on a line, each with the prefix 0x, capital digits, a space and a
-- comment of any text without a newline, is parsed without an error to those words in order.
pub parse_hex_program-listing :
    (entries : List (ℕ × Text))
    → All IsEntry entries
    → parse_hex_program (listing entries)
      ≡ record { words = map (λ (e : ℕ × Text). e.0) entries; error = none }
unfolding parse_hex_program
parse_hex_program-listing entries h = parse_lines-listing 0 entries [] h
