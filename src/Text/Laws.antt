-- ===== src/Text/Laws.antt =====
-- Equality of texts and entries of a dictionary.
use Prim.Native.Nat.{zero}
use mathlib.Core.Path.{subst}
use clear_core.Text.{Text, same, lookup, drop, find, take}
use clear_core.Prelude.{
  ℕ, ◌≡◌, refl, true, false, List, [], ◌∷◌, some, arith, Bool-cases, inl, inr, All, ◌++◌, length,
  ◌==◌, ap, ◌+◌, suc, ◌∙◌, ◌-◌,
}

pub same_eq : (s t : Text) → same s t ≡ true → s ≡ t
unfolding same
same_eq [] [] h = refl
same_eq [] (b ∷ t) h = cc
same_eq (a ∷ s) [] h = cc
same_eq (a ∷ s) (b ∷ t) h = ground (arith, same_eq s t)

-- Each entry of a dictionary meets a relation.
abbrev pub AllEntries {ℓ κ} : {V : Type ℓ} → (Text → V → Type κ) → List (Text × V) → Type κ
AllEntries P [] = Unit
AllEntries P ((j, v) ∷ m) = P j v × AllEntries P m

pub lookup-AllEntries {ℓ κ} :
    {V : Type ℓ} (P : Text → V → Type κ) (k : Text) (m : List (Text × V)) {v : V}
    → AllEntries P m
    → lookup k m ≡ some v
    → P k v
unfolding lookup
lookup-AllEntries P k [] all h = cc
lookup-AllEntries {V} P k ((j, w) ∷ m) {v} all h = elim (Bool-cases (same j k)) [
  | inl e ↦
      let e' : w ≡ v = ground arith in
      subst (λ (x : V). P k x) e' (subst (λ (x : Text). P x w) (same_eq j k e) all.0)
  | inr e ↦ lookup-AllEntries P k m all.1 (ground arith)
]

-- A separator that a field does not contain ends the field.
module _ (c : ℕ) where
  pub find-append :
      (field rest : Text)
      → All (λ (x : ℕ). (x == c) ≡ false) field
      → find c (field ++ c ∷ rest) ≡ some (length field)
  unfolding find
  find-append [] rest h = ground arith
  find-append (x ∷ field) rest h = rw (h.0, find) (rw (find-append field rest h.1, find) refl)

  pub take-append : (field rest : Text) → take (field ++ c ∷ rest) (length field) ≡ field
  take-append [] rest = refl
  take-append (x ∷ field) rest = ap (λ (t : Text). x ∷ t) (take-append field rest)

  drop-zero : (s : Text) → drop s 0 ≡ s
  drop-zero [] = refl
  drop-zero (x ∷ s) = refl

  drop-suc : (field rest : Text) → drop (field ++ c ∷ rest) (suc (length field)) ≡ rest
  drop-suc [] rest = drop-zero rest
  drop-suc (x ∷ field) rest = drop-suc field rest

  pub drop-append : (field rest : Text) → drop (field ++ c ∷ rest) (length field + 1) ≡ rest
  drop-append field rest = ap (drop (field ++ c ∷ rest)) (omega arith) ∙ drop-suc field rest

pub length-drop {ℓ} : {A : Type ℓ} (xs : List A) (n : ℕ) → length (drop xs n) ≡ length xs - n
length-drop [] n = omega arith
length-drop (x ∷ xs) zero = omega arith
length-drop (x ∷ xs) (suc n) = omega (arith, length-drop xs n)
