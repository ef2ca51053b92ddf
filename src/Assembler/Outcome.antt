-- ===== src/Assembler/Outcome.antt =====
-- `assemble` from a text: what success and failure say of the lines that pass 1 has found.
use clear_core.Assembler.Lines.{Scan, scan_lines, Line, no_scan}
use clear_core.Assembler.{assemble, make_error, failed, AssemblerResult}
use clear_core.Text.{Text, codes, get_lines, is_empty}
use mathlib.Core.List.{cons-ne-nil}
use clear_core.Prelude.{refl, [], ◌∷◌, false, none, some, ◌≡◌, ◌≢◌, ◌⊎◌, inl, inr, List, ap}
use clear_core.Assembler.Correct.{Encodes, Refuses, Finishes, encode_lines-Finishes}

-- What pass 1 finds in a source.
abbrev pub scanned : Text → Scan
scanned source = scan_lines 1 (get_lines source) no_scan

empty_or_not : (lines : List Line) → (lines ≡ []) ⊎ ((lines ≢ []) × (is_empty lines ≡ false))
empty_or_not [] = inl refl
empty_or_not (ln ∷ lines) = inr (cons-ne-nil ln lines, refl)

assemble-Finishes :
    (source : Text)
    → (((scanned source).lines ≡ []) × (assemble source ≡ failed (codes "no instructions found")))
      ⊎ (((scanned source).lines ≢ [])
          × Finishes (scanned source).labels 0 [] (scanned source).lines (assemble source))
unfolding assemble
assemble-Finishes source =
    let s = scanned source in
    elim (empty_or_not s.lines) [
      | inl e ↦ inl (e, rw e refl)
      | inr (some_lines, e) ↦ inr (some_lines, rw e (encode_lines-Finishes s.labels 0 [] s.lines))
    ]

-- A source that assembles without an error has instructions, and its words decode, one for one and
-- in order, to what its lines stand for: operation, registers, immediate, and the labelled word
-- that a branch or jump goes to.
pub assemble-Encodes :
    (source : Text)
    → (assemble source).error ≡ none
    → ((scanned source).lines ≢ [])
      × Encodes (scanned source).labels 0 (scanned source).lines (assemble source).words
assemble-Encodes source h = elim (assemble-Finishes source) [
  | inl (e, result) ↦ absurd (cc)
  | inr (some_lines, inl (new, result, rest)) ↦
      (some_lines, rw (ap (λ (r : AssemblerResult). r.words) result) rest)
  | inr (some_lines, inr (bad, why, result, rest)) ↦ absurd (cc)
]

-- A source that does not assemble gives no words. Its message says that there are no instructions
-- and there are none, or it is the message, under its line number, of the first line that pass 2
-- refuses, the lines before it having been encoded.
pub assemble-Refuses :
    (source : Text) {msg : Text}
    → (assemble source).error ≡ some msg
    → ((assemble source).words ≡ [])
      × ((((scanned source).lines ≡ []) × (msg ≡ codes "no instructions found"))
          ⊎ ((ln : Line) × (why : Text) × (msg ≡ make_error ln.lineno why)
              × Refuses (scanned source).labels 0 (scanned source).lines ln why))
assemble-Refuses source h = elim (assemble-Finishes source) [
  | inl (e, result) ↦ (cc, inl (e, cc))
  | inr (some_lines, inl (new, result, rest)) ↦ absurd (cc)
  | inr (some_lines, inr (bad, why, result, rest)) ↦ (cc, inr (bad, why, cc, rest))
]
