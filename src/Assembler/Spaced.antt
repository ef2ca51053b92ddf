-- ===== src/Assembler/Spaced.antt =====
-- A source of one line, its operands with a comma and a space between them.
use mathlib.Core.List.{append-nil, append_assoc}
use clear_core.Assembler.Instructions.{word}
use clear_core.Assembler.Lines.{
  Line, scan_lines, scan_line, scan_code, trim, trim_left, trim_right, is_blank, is_separator,
  tokenise, tokens_from, add_tokens, no_scan, without_comment, Scan,
}
use clear_core.Assembler.{assemble, encode_lines, encode_line}
use clear_core.Text.{Text, get_lines, find, is_empty, to_lower, take}
use clear_core.Prelude.{
  ℕ, ◌≡◌, refl, ap, ◌∙◌, sym, none, List, [], ◌∷◌, ◌++◌, ◌==◌, ◌||◌, not, Bool, true, false, All,
  arith, All-map, All-append, map, if◌then◌else◌, Option, some,
}

-- Neither a separator nor a blank, a comment's mark or a label's colon.
abbrev pub is_plain : ℕ → Bool
is_plain c = not (is_separator c || (is_blank c || (c == b'#' || c == b':')))

abbrev pub AllPlain : Text → Type 0
AllPlain s = All (λ (c : ℕ). is_plain c ≡ true) s

-- A word of a line.
abbrev pub IsWord : Text → Type 0
IsWord s = AllPlain s × (is_empty s ≡ false)

abbrev pub operands_text : Text → List Text → Text
operands_text a [] = a
operands_text a (b ∷ rest) = a ++ (b',' ∷ b' ' ∷ operands_text b rest)

abbrev pub line_text : Text → Text → List Text → Text
line_text mn a rest = mn ++ b' ' ∷ operands_text a rest

is_empty-append : (s t : Text) → is_empty t ≡ false → is_empty (s ++ t) ≡ false
is_empty-append [] t h = h
is_empty-append (c ∷ s) t h = refl

tokens_from-append :
    (cur w s : Text) → AllPlain w → tokens_from cur (w ++ s) ≡ tokens_from (cur ++ w) s
unfolding tokens_from is_blank
tokens_from-append cur [] s h = ap (λ (t : Text). tokens_from t s) (sym (append-nil cur))
tokens_from-append cur (c ∷ w) s h =
    let plain : is_separator c ≡ false = ground (arith, h.0) in
    rw plain (
      tokens_from-append (cur ++ c ∷ []) w s h.1
      ∙ ap (λ (t : Text). tokens_from t s) (append_assoc cur (c ∷ []) w))

-- A word ends at a separator.
tokens_from-word :
    (w s : Text) (c : ℕ)
    → IsWord w
    → is_separator c ≡ true
    → tokens_from [] (w ++ c ∷ s) ≡ w ∷ tokens_from [] s
unfolding tokens_from
tokens_from-word w s c h sep = tokens_from-append [] w (c ∷ s) h.0 ∙ rw sep (rw h.1 refl)

tokens_from-operands :
    (a : Text) (rest : List Text)
    → IsWord a
    → All IsWord rest
    → tokens_from [] (operands_text a rest) ≡ a ∷ rest
unfolding tokens_from
tokens_from-operands a [] h k =
    ap (tokens_from []) (sym (append-nil a)) ∙ tokens_from-append [] a [] h.0 ∙ rw h.1 refl
tokens_from-operands a (b ∷ rest) h k =
    tokens_from-word a (b' ' ∷ operands_text b rest) b',' h refl
    ∙ ap (λ (ts : List Text). a ∷ ts) (tokens_from-operands b rest k.0 k.1)

-- A property of characters that holds of plain ones, commas and spaces holds throughout the line.
module _ (P : ℕ → Type 0) (at_plain : (c : ℕ) → is_plain c ≡ true → P c) (at_comma : P b',')
    (at_space : P b' ') where
  operands_text-All :
      (a : Text) (rest : List Text) → IsWord a → All IsWord rest → All P (operands_text a rest)
  operands_text-All a [] h k = All-map a at_plain h.0
  operands_text-All a (b ∷ rest) h k =
      All-append P a (b',' ∷ b' ' ∷ operands_text b rest) (All-map a at_plain h.0)
        (at_comma, (at_space, operands_text-All b rest k.0 k.1))

  line_text-All :
      (mn a : Text) (rest : List Text)
      → IsWord mn
      → IsWord a
      → All IsWord rest
      → All P (line_text mn a rest)
  line_text-All mn a rest m h k =
      All-append P mn (b' ' ∷ operands_text a rest) (All-map mn at_plain m.0)
        (at_space, operands_text-All a rest h k)

find-none : (c : ℕ) (s : Text) → All (λ (x : ℕ). (x == c) ≡ false) s → find c s ≡ none
unfolding find
find-none c [] h = refl
find-none c (x ∷ s) h = rw (h.0, find) (rw (find-none c s h.1, find) refl)

get_lines-one :
    (c : ℕ) (s : Text)
    → All (λ (x : ℕ). (x == b'\n') ≡ false) (c ∷ s)
    → get_lines (c ∷ s) ≡ (c ∷ s) ∷ []
unfolding get_lines
get_lines-one c [] h = rw (h.0, get_lines) refl
get_lines-one c (d ∷ s) h = rw (h.0, get_lines) (rw (get_lines-one d s h.1, get_lines) refl)

trim_right-word : (w : Text) → AllPlain w → trim_right w ≡ w
unfolding trim_right is_blank
trim_right-word [] h = refl
trim_right-word (c ∷ w) h =
    let plain : is_blank c ≡ false = ground (arith, h.0) in ground (arith, trim_right-word w h.1)

trim_right-append :
    (s t : Text) → is_empty t ≡ false → trim_right t ≡ t → trim_right (s ++ t) ≡ s ++ t
unfolding trim_right
trim_right-append [] t h e = e
trim_right-append (c ∷ s) t h e =
    rw (trim_right-append s t h e, trim_right) (ground (arith, is_empty-append s t h))

operands_text-is_empty :
    (a : Text) (rest : List Text)
    → IsWord a
    → All IsWord rest
    → is_empty (operands_text a rest) ≡ false
operands_text-is_empty a [] h k = h.1
operands_text-is_empty a (b ∷ rest) h k =
    is_empty-append a (b',' ∷ b' ' ∷ operands_text b rest) refl

trim_right-operands :
    (a : Text) (rest : List Text)
    → IsWord a
    → All IsWord rest
    → trim_right (operands_text a rest) ≡ operands_text a rest
trim_right-operands a [] h k = trim_right-word a h.0
trim_right-operands a (b ∷ rest) h k =
    trim_right-append a (b',' ∷ b' ' ∷ operands_text b rest) refl (
      trim_right-append (b',' ∷ b' ' ∷ []) (operands_text b rest)
        (operands_text-is_empty b rest k.0 k.1) (trim_right-operands b rest k.0 k.1))

trim_left-plain : (c : ℕ) (s : Text) → is_plain c ≡ true → trim_left (c ∷ s) ≡ c ∷ s
unfolding trim_left is_blank
trim_left-plain c s h = ground (arith, h)

scan_code-unlabelled :
    (n : ℕ) (raw : Text) (s : Scan)
    → find b':' raw ≡ none
    → scan_code n raw s ≡ add_tokens n (tokenise raw) s
unfolding scan_code
scan_code-unlabelled n raw s colon = rw (colon, scan_code) refl

scan_line-trimmed :
    (n : ℕ) (raw : Text) (s : Scan)
    → find b'#' raw ≡ none
    → trim raw ≡ raw
    → is_empty raw ≡ false
    → find b':' raw ≡ none
    → scan_line n raw s ≡ add_tokens n (tokenise raw) s
unfolding scan_line
scan_line-trimmed n raw s hash trimmed some_code colon =
    let plain : without_comment raw ≡ raw =
      ap (λ (o : Option ℕ). elim o [ none ↦ raw | some h ↦ take raw h ]) hash in
    ap (λ (code : Text). if is_empty code then s else scan_code n code s) (ap trim plain ∙ trimmed)
    ∙ ap (λ (e : Bool). if e then s else scan_code n raw s) some_code
    ∙ scan_code-unlabelled n raw s colon

encode_lines-one :
    (ln : Line) (w : ℕ)
    → encode_line [] 0 ln ≡ word w
    → encode_lines [] 0 [] (ln ∷ []) ≡ record { words = w ∷ []; error = none }
unfolding encode_lines
encode_lines-one ln w e = rw (e, encode_lines) refl

assemble-scanned :
    (source : Text) (ln : Line)
    → scan_lines 1 (get_lines source) no_scan ≡ record { labels = []; lines = ln ∷ [] }
    → assemble source ≡ encode_lines [] 0 [] (ln ∷ [])
unfolding assemble
assemble-scanned source ln e = rw (e, assemble) refl

module _ (c : ℕ) (mn' a : Text) (rest : List Text) (m : IsWord (c ∷ mn')) (h : IsWord a)
    (k : All IsWord rest) where
  abbrev mn : Text
  mn = c ∷ mn'

  abbrev line : Text
  line = line_text mn a rest

  trim-line : trim line ≡ line
  unfolding trim
  trim-line =
      ap trim_right (trim_left-plain c (mn' ++ b' ' ∷ operands_text a rest) m.0.0)
      ∙ trim_right-append mn (b' ' ∷ operands_text a rest) refl (
          trim_right-append (b' ' ∷ []) (operands_text a rest) (operands_text-is_empty a rest h k)
            (trim_right-operands a rest h k))

  tokenise-line : tokenise line ≡ mn ∷ a ∷ rest
  unfolding tokenise
  tokenise-line =
      tokens_from-word mn (operands_text a rest) b' ' m refl
      ∙ ap (λ (ts : List Text). mn ∷ ts) (tokens_from-operands a rest h k)

  no_char :
      (d : ℕ)
      → ((x : ℕ) → is_plain x ≡ true → (x == d) ≡ false)
      → (b',' == d) ≡ false
      → (b' ' == d) ≡ false
      → All (λ (x : ℕ). (x == d) ≡ false) line
  no_char d plain comma space =
      line_text-All (λ (x : ℕ). (x == d) ≡ false) plain comma space mn a rest m h k

  no_hash : find b'#' line ≡ none
  unfolding is_blank
  no_hash = find-none b'#' line (no_char b'#' (λ x p. ground (arith, p)) refl refl)

  no_colon : find b':' line ≡ none
  unfolding is_blank
  no_colon = find-none b':' line (no_char b':' (λ x p. ground (arith, p)) refl refl)

  one_line : get_lines line ≡ line ∷ []
  unfolding is_blank
  one_line =
      get_lines-one c (mn' ++ b' ' ∷ operands_text a rest)
        (no_char b'\n' (λ x p. ground (arith, p)) refl refl)

  -- A source of one line whose words are plain assembles to the word of that line.
  pub assemble-line :
      (w : ℕ)
      → encode_line [] 0 (record { lineno = 1; mnemonic = map to_lower mn; operands = a ∷ rest })
        ≡ word w
      → assemble line ≡ record { words = w ∷ []; error = none }
  unfolding scan_lines add_tokens
  assemble-line w e =
      let ln : Line = record { lineno = 1; mnemonic = map to_lower mn; operands = a ∷ rest } in
      let found : scan_lines 1 (get_lines line) no_scan ≡ record { labels = []; lines = ln ∷ [] } =
        ap (λ (ls : List Text). scan_lines 1 ls no_scan) one_line
        ∙ scan_line-trimmed 1 line no_scan no_hash trim-line refl no_colon
        ∙ ap (λ (ts : List Text). add_tokens 1 ts no_scan) tokenise-line in
      assemble-scanned line ln found ∙ encode_lines-one ln w e
