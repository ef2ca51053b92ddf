-- ===== src/Assembler/Scanned.antt =====
-- What pass 1 gathers: labels inside the program, lines in the order of the source, and tokens that
-- are not empty and have no separator in them.
use mathlib.Core.Path.{subst}
use clear_core.Text.Laws.{AllEntries}
use clear_core.Text.{Text, to_lower, is_empty, find, take, drop}
use mathlib.Core.List.{cons-ne-nil}
use clear_core.Prelude.{
  refl, [], ◌∷◌, false, length, All, List, ℕ, map, ◌++◌, ◌<◌, ◌≡◌, ◌≢◌, ◌≤◌, arith, Bool-cases,
  if_cases, suc, ◌+◌, ◌∙◌, Option-cases, inl, inr, length-snoc, All-append,
}
use clear_core.Assembler.Lines.{
  Line, Scan, tokens_from, tokenise, is_separator, flush, add_tokens, add_label, scan_code,
  scan_line, scan_lines, trim, without_comment,
}

abbrev pub IsToken : Text → Type 0
IsToken t = (t ≢ []) × All (λ (c : ℕ). is_separator c ≡ false) t

-- The lines are numbered upwards, from above `lo` to `hi` at most.
abbrev pub Ascend : ℕ → List Line → ℕ → Type 0
Ascend lo [] hi = lo ≤ hi
Ascend lo (ln ∷ lines) hi = (lo < ln.lineno) × Ascend ln.lineno lines hi

abbrev pub HasTokens : Line → Type 0
HasTokens ln = IsToken ln.mnemonic × All IsToken ln.operands

pub record IsScanned (last : ℕ) (s : Scan) : Type 0 where
  pub labels_inside : AllEntries (λ _ (t : ℕ). t ≤ length s.lines) s.labels
  pub ascend : Ascend 0 s.lines last
  pub tokens : All HasTokens s.lines

is_separator-to_lower : (c : ℕ) → is_separator (to_lower c) ≡ is_separator c
is_separator-to_lower c = ground arith

lower-All :
    (t : Text)
    → All (λ (c : ℕ). is_separator c ≡ false) t
    → All (λ (c : ℕ). is_separator c ≡ false) (map to_lower t)
lower-All [] h = tt
lower-All (c ∷ t) h = (is_separator-to_lower c ∙ h.0, lower-All t h.1)

lower-IsToken : (t : Text) → IsToken t → IsToken (map to_lower t)
lower-IsToken [] h = absurd (h.0 refl)
lower-IsToken (c ∷ t) h = (cons-ne-nil (to_lower c) (map to_lower t), lower-All (c ∷ t) h.1)

flush-IsToken :
    (cur : Text) (toks : List Text)
    → All (λ (c : ℕ). is_separator c ≡ false) cur
    → All IsToken toks
    → All IsToken (flush cur toks)
flush-IsToken [] toks h k = k
flush-IsToken (c ∷ cur) toks h k = ((cons-ne-nil c cur, h), k)

tokens_from-IsToken :
    (cur s : Text) → All (λ (c : ℕ). is_separator c ≡ false) cur → All IsToken (tokens_from cur s)
unfolding tokens_from
tokens_from-IsToken cur [] h = flush-IsToken cur [] h tt
tokens_from-IsToken cur (c ∷ s) h = elim (Bool-cases (is_separator c)) [
  | inl e ↦ rw e (flush-IsToken cur (tokens_from [] s) h (tokens_from-IsToken [] s tt))
  | inr e ↦ rw e (
      tokens_from-IsToken (cur ++ c ∷ []) s
        (All-append (λ (x : ℕ). is_separator x ≡ false) cur (c ∷ []) h (e, tt)))
]

Ascend-snoc :
    (lo : ℕ) (lines : List Line) (hi : ℕ) (ln : Line)
    → Ascend lo lines hi
    → hi < ln.lineno
    → Ascend lo (lines ++ ln ∷ []) ln.lineno
Ascend-snoc lo [] hi ln h k = (omega arith, omega arith)
Ascend-snoc lo (l ∷ lines) hi ln h k = (h.0, Ascend-snoc l.lineno lines hi ln h.1 k)

Ascend-le :
    (lo : ℕ) (lines : List Line) (hi hi' : ℕ) → Ascend lo lines hi → hi ≤ hi' → Ascend lo lines hi'
Ascend-le lo [] hi hi' h k = omega arith
Ascend-le lo (l ∷ lines) hi hi' h k = (h.0, Ascend-le l.lineno lines hi hi' h.1 k)

AllEntries-le :
    (m n : ℕ) (t : List (Text × ℕ))
    → m ≤ n
    → AllEntries (λ _ (v : ℕ). v ≤ m) t
    → AllEntries (λ _ (v : ℕ). v ≤ n) t
AllEntries-le m n [] h k = tt
AllEntries-le m n ((j, v) ∷ t) h k = (omega (arith, k.0), AllEntries-le m n t h k.1)

add_tokens-IsScanned :
    (last : ℕ) (toks : List Text) (s : Scan)
    → All IsToken toks
    → IsScanned last s
    → IsScanned (suc last) (add_tokens (suc last) toks s)
unfolding add_tokens
add_tokens-IsScanned last [] s h k = record {
  labels_inside = k.labels_inside;
  ascend = Ascend-le 0 s.lines last (suc last) k.ascend (omega arith);
  tokens = k.tokens;
}
add_tokens-IsScanned last (t ∷ ops) s h k =
    let ln : Line = record { lineno = suc last; mnemonic = map to_lower t; operands = ops } in
    record {
      labels_inside =
          AllEntries-le (length s.lines) (length (s.lines ++ ln ∷ [])) s.labels
            (omega (arith, length-snoc s.lines ln)) k.labels_inside;
      ascend = Ascend-snoc 0 s.lines last ln k.ascend (omega arith);
      tokens = All-append HasTokens s.lines (ln ∷ []) k.tokens ((lower-IsToken t h.0, h.1), tt);
    }

add_label-IsScanned :
    (last : ℕ) (lbl : Text) (s : Scan) → IsScanned last s → IsScanned last (add_label lbl s)
unfolding add_label
add_label-IsScanned last lbl s k =
    if_cases (IsScanned last) (is_empty lbl) (λ _. k)
      (λ _. record {
        labels_inside = (omega arith, k.labels_inside);
        ascend = k.ascend;
        tokens = k.tokens;
      })

later-IsScanned : (last : ℕ) (s : Scan) → IsScanned last s → IsScanned (suc last) s
later-IsScanned last s k = record {
  labels_inside = k.labels_inside;
  ascend = Ascend-le 0 s.lines last (suc last) k.ascend (omega arith);
  tokens = k.tokens;
}

scan_code-IsScanned :
    (last : ℕ) (raw : Text) (s : Scan)
    → IsScanned last s
    → IsScanned (suc last) (scan_code (suc last) raw s)
unfolding scan_code tokenise
scan_code-IsScanned last raw s k = elim (Option-cases (find b':' raw)) [
  | inl e ↦
      rw (e, scan_code)
        (add_tokens-IsScanned last (tokens_from [] raw) s (tokens_from-IsToken [] raw tt) k)
  | inr (colon, e) ↦
      let s' = add_label (trim (take raw colon)) s in
      let rest = trim (drop raw (colon + 1)) in
      let k' = add_label-IsScanned last (trim (take raw colon)) s k in
      rw (e, scan_code)
        (if_cases (IsScanned (suc last)) (is_empty rest) (λ _. later-IsScanned last s' k')
          (λ _.
            add_tokens-IsScanned last (tokens_from [] rest) s' (tokens_from-IsToken [] rest tt) k'))
]

scan_line-IsScanned :
    (last : ℕ) (raw : Text) (s : Scan)
    → IsScanned last s
    → IsScanned (suc last) (scan_line (suc last) raw s)
unfolding scan_line
scan_line-IsScanned last raw s k =
    let code = trim (without_comment raw) in
    if_cases (IsScanned (suc last)) (is_empty code) (λ _. later-IsScanned last s k)
      (λ _. scan_code-IsScanned last code s k)

-- Pass 1 keeps its state well formed, from any well-formed state with `last` lines read: every label
-- is a word index inside the program or at its end, the lines are numbered upwards and no further
-- than the lines read, and every mnemonic and operand is a token, not empty and free of separators.
pub scan_lines-IsScanned :
    (last : ℕ) (raws : List Text) (s : Scan)
    → IsScanned last s
    → IsScanned (last + length raws) (scan_lines (suc last) raws s)
unfolding scan_lines
scan_lines-IsScanned last [] s k = subst (λ (n : ℕ). IsScanned n s) (omega arith) k
scan_lines-IsScanned last (raw ∷ rest) s k =
    subst (λ (n : ℕ). IsScanned n (scan_lines (suc (suc last)) rest (scan_line (suc last) raw s)))
      (omega arith)
      (scan_lines-IsScanned (suc last) rest (scan_line (suc last) raw s)
        (scan_line-IsScanned last raw s k))
