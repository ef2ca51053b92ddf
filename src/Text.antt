-- ===== src/Text.antt =====
-- Byte strings, and the operations of the standard library on them that the tools use: search and
-- substrings, `std::getline`, dictionaries, decimal and hexadecimal numbers (Text/Numbers).
pub mod Numbers
pub mod Laws
pub mod Digits
use Prim.Native.Char.{code}
use Prim.Native.String.{String}
use clear_core.Prelude.{
  ℕ, zero, suc, ◌+◌, Bool, true, false, ◌&&◌, ◌||◌, Option, none, some, List, [], ◌∷◌, ◌==◌, leb,
  if◌then◌else◌,
}

-- A `std::string`: its bytes.
abbrev pub Text : Type 0
Text = List ℕ

-- The bytes of an ASCII literal. `String` has its own `[]` and `∷`.
abbrev pub codes : String → Text
codes String.[] = []
codes (String.◌∷◌ c s) = code c ∷ codes s

unfoldable pub same : Text → Text → Bool
same [] [] = true
same (a ∷ s) (b ∷ t) = a == b && same s t
same _ _ = false

abbrev pub is_empty {ℓ} : {A : Type ℓ} → List A → Bool
is_empty [] = true
is_empty (_ ∷ _) = false

-- A dictionary with text keys; the entry added last stands first and hides older ones.
unfoldable pub lookup {ℓ} : {V : Type ℓ} → Text → List (Text × V) → Option V
unfolding same
lookup k [] = none
lookup k ((j, v) ∷ m) = if same j k then some v else lookup k m

module _ {ℓ} {A : Type ℓ} where
  abbrev pub take : List A → ℕ → List A
  take [] n = []
  take (x ∷ xs) zero = []
  take (x ∷ xs) (suc n) = x ∷ take xs n

  abbrev pub drop : List A → ℕ → List A
  drop [] n = []
  drop (x ∷ xs) zero = x ∷ xs
  drop (x ∷ xs) (suc n) = drop xs n

-- `std::string::find` of a character.
unfoldable pub find : ℕ → Text → Option ℕ
find c [] = none
find c (x ∷ xs) =
    let later = find c xs in
    if x == c then some 0 else elim later [ none ↦ none | some i ↦ some (suc i) ]

-- What `std::tolower` does in the C locale.
abbrev pub to_lower : ℕ → ℕ
to_lower c = if leb b'A' c && leb c b'Z' then c + 32 else c

abbrev pub is_digit : ℕ → Bool
is_digit c = leb b'0' c && leb c b'9'

-- `std::isspace` in the C locale.
abbrev pub is_space : ℕ → Bool
is_space c = c == b' ' || leb b'\t' c && leb c b'\r'

abbrev pub join_line : ℕ → List Text → List Text
join_line c [] = (c ∷ []) ∷ []
join_line c (l ∷ ls) = (c ∷ l) ∷ ls

-- The lines that `std::getline` reads in turn: a last line needs no newline.
unfoldable pub get_lines : Text → List Text
get_lines [] = []
get_lines (c ∷ s) = let rest = get_lines s in if c == b'\n' then [] ∷ rest else join_line c rest

abbrev pub starts_with : Text → Text → Bool
starts_with [] s = true
starts_with (c ∷ p) [] = false
starts_with (c ∷ p) (d ∷ s) = c == d && starts_with p s
