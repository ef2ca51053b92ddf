-- ===== src/Assembler/Lines.antt =====
-- Pass 1 of src/nsc_qt/assembler.cpp: comments, labels and tokens of each line.
use clear_core.Text.{Text, take, drop, find, is_empty, to_lower}
use clear_core.Prelude.{
  ℕ, suc, ◌+◌, Bool, ◌&&◌, ◌||◌, none, some, List, [], ◌∷◌, ◌++◌, map, ◌==◌, if◌then◌else◌, length,
  u32,
}

pub record Line : Type 0 where
  pub lineno : ℕ
  pub mnemonic : Text
  pub operands : List Text

unfoldable pub is_blank : ℕ → Bool
is_blank c = c == b' ' || c == b'\t' || c == b'\r' || c == b'\n'

unfoldable pub trim_left : Text → Text
unfolding is_blank
trim_left [] = []
trim_left (c ∷ s) = let rest = trim_left s in if is_blank c then rest else c ∷ s

unfoldable pub trim_right : Text → Text
unfolding is_blank
trim_right [] = []
trim_right (c ∷ s) = let rest = trim_right s in if is_blank c && is_empty rest then [] else c ∷ rest

unfoldable pub trim : Text → Text
unfolding trim_left trim_right
trim s = trim_right (trim_left s)

abbrev pub is_separator : ℕ → Bool
is_separator c = c == b',' || c == b' ' || c == b'\t'

-- `if (!cur.empty()) toks.push_back(cur)`, before the tokens that follow.
abbrev pub flush : Text → List Text → List Text
flush cur toks = if is_empty cur then toks else cur ∷ toks

-- The loop of `tokenise` with the token begun so far.
unfoldable pub tokens_from : Text → Text → List Text
tokens_from cur [] = flush cur []
tokens_from cur (c ∷ s) =
    let rest = tokens_from (if is_separator c then [] else cur ++ c ∷ []) s in
    if is_separator c then flush cur rest else rest

unfoldable pub tokenise : Text → List Text
unfolding tokens_from
tokenise line = tokens_from [] line

-- What pass 1 has gathered: the labels with their word index, and the lines in order.
pub record Scan : Type 0 where
  pub labels : List (Text × ℕ)
  pub lines : List Line

abbrev pub no_scan : Scan
no_scan = record { labels = []; lines = [] }

-- The line that tokens make, behind those before it.
unfoldable pub add_tokens : ℕ → List Text → Scan → Scan
add_tokens lineno [] s = s
add_tokens lineno (t ∷ operands) s = record s {
  lines =
      s.lines ++ (record { lineno = lineno; mnemonic = map to_lower t; operands = operands } ∷ []);
}

-- `labels[lbl] = lines.size()`, unless the name is empty.
unfoldable pub add_label : Text → Scan → Scan
add_label lbl s =
    if is_empty lbl then s else record s { labels = (lbl, u32 (length s.lines)) ∷ s.labels }

-- A line without its comment: its label, if it has a colon, and then its tokens.
unfoldable pub scan_code : ℕ → Text → Scan → Scan
unfolding trim tokenise add_tokens add_label
scan_code lineno raw s = elim (find b':' raw) [
  | none ↦ add_tokens lineno (tokenise raw) s
  | some colon ↦
      let rest = trim (drop raw (colon + 1)) in
      let s' = add_label (trim (take raw colon)) s in
      if is_empty rest then s' else add_tokens lineno (tokenise rest) s'
]

abbrev pub without_comment : Text → Text
without_comment raw = elim (find b'#' raw) [ none ↦ raw | some hash ↦ take raw hash ]

unfoldable pub scan_line : ℕ → Text → Scan → Scan
unfolding scan_code
scan_line lineno raw s =
    let code = trim (without_comment raw) in if is_empty code then s else scan_code lineno code s

-- The loop over the lines, the next of which has this number.
unfoldable pub scan_lines : ℕ → List Text → Scan → Scan
unfolding scan_line
scan_lines lineno [] s = s
scan_lines lineno (raw ∷ rest) s = scan_lines (suc lineno) rest (scan_line lineno raw s)
