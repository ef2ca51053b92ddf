-- ===== src/Bits/Digits.antt =====
-- The law of the lowest binary digit for the native bit operations, which stand for a recursion on
-- digits with fuel (`digits`).
use Prim.Native.Nat.{digits, bitwise, differ, bit_and-bitwise, bit_or-bitwise, bit_xor-bitwise}
use native.Mathlib.Nat.{le_refl}
use clear_core.Prelude.{
  ℕ, zero, suc, ◌+◌, ◌*◌, ◌/◌, ◌%◌, ◌≤◌, ◌≡◌, refl, arith, bit_and, bit_or, bit_xor, min, max,
}

module _ (last : ℕ → ℕ) (op : ℕ → ℕ → ℕ) where
  -- More fuel than the first number is of no use.
  digits_fuel : (m n a b : ℕ) → a ≤ m → a ≤ n → digits last op m a b ≡ digits last op n a b
  digits_fuel zero zero a b p q = refl
  digits_fuel zero (suc n) zero b p q = refl
  digits_fuel zero (suc n) (suc a) b p q = absurd (omega arith)
  digits_fuel (suc m) zero zero b p q = refl
  digits_fuel (suc m) zero (suc a) b p q = absurd (omega arith)
  digits_fuel (suc m) (suc n) zero b p q = refl
  digits_fuel (suc m) (suc n) (suc a) b p q =
      omega (arith, digits_fuel m n (suc a / 2) (b / 2) (omega arith) (omega arith))

  lowest :
      (a b : ℕ)
      → bitwise last op (suc a) b ≡ bitwise last op (suc a / 2) (b / 2) * 2 + op (suc a % 2) (b % 2)
  lowest a b =
      omega (arith, digits_fuel a (suc a / 2) (suc a / 2) (b / 2) (omega arith) (le_refl _))

pub and_digit : (v w : ℕ) → bit_and v w ≡ bit_and (v / 2) (w / 2) * 2 + min (v % 2) (w % 2)
and_digit zero w = omega (arith, bit_and-bitwise 0 w, bit_and-bitwise 0 (w / 2))
and_digit (suc v) w = simp bit_and-bitwise (lowest (λ _. 0) min v w)

pub or_digit : (v w : ℕ) → bit_or v w ≡ bit_or (v / 2) (w / 2) * 2 + max (v % 2) (w % 2)
or_digit zero w = omega (arith, bit_or-bitwise 0 w, bit_or-bitwise 0 (w / 2))
or_digit (suc v) w = simp bit_or-bitwise (lowest (λ y. y) max v w)

pub xor_digit : (v w : ℕ) → bit_xor v w ≡ bit_xor (v / 2) (w / 2) * 2 + differ (v % 2) (w % 2)
xor_digit zero w = omega (arith, bit_xor-bitwise 0 w, bit_xor-bitwise 0 (w / 2))
xor_digit (suc v) w = simp bit_xor-bitwise (lowest (λ y. y) differ v w)
