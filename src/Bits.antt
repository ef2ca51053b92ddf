-- ===== src/Bits.antt =====
-- `&`, `|`, `^` and `~` on words as arithmetic: masks of low bits, fields joined by `|`, and the
-- digits above a shift. The native operations have these laws at every width.
mod Digits
pub mod Masks
use Digits.{and_digit, or_digit, xor_digit}
use Prim.Native.Nat.{differ, bit_or-bitwise}
use native.Mathlib.Nat.{
  pow-suc, one-le-pow, div-div-eq-div-mul, div-one, div-add-mod, mul_comm, mod-lt, div-eq_of_lt,
  mod-one,
}
use clear_core.Prelude.{
  ℕ, zero, suc, ◌+◌, ◌-◌, ◌*◌, ◌/◌, ◌%◌, ◌^◌, ◌≤◌, ◌<◌, ◌≡◌, refl, arith, bit_and, bit_or, bit_xor,
  ap, ◌∙◌, sym, max, min,
}

-- Dividing by 2 ^ (k + 1) is halving first.
div-pow-suc : (a k : ℕ) → a / 2 ^ suc k ≡ a / 2 / 2 ^ k
div-pow-suc a k = rw (pow-suc, mul_comm) (sym (div-div-eq-div-mul a 2 (2 ^ k)))

-- A shift to the right goes inside each bit operation.
module _ (f : ℕ → ℕ → ℕ) (halve : (a b : ℕ) → f a b / 2 ≡ f (a / 2) (b / 2)) where
  shr-inside : (k a b : ℕ) → f a b / 2 ^ k ≡ f (a / 2 ^ k) (b / 2 ^ k)
  shr-inside zero a b = simp div-one
  shr-inside (suc k) a b = simp (div-pow-suc, halve, shr-inside k)

pub shr-bit_and : (k a b : ℕ) → bit_and a b / 2 ^ k ≡ bit_and (a / 2 ^ k) (b / 2 ^ k)
shr-bit_and = shr-inside bit_and (λ a b. omega (arith, and_digit a b))

pub shr-bit_or : (k a b : ℕ) → bit_or a b / 2 ^ k ≡ bit_or (a / 2 ^ k) (b / 2 ^ k)
shr-bit_or = shr-inside bit_or (λ a b. omega (arith, or_digit a b))

differ-lt : (a b : ℕ) → a < 2 → b < 2 → differ a b < 2
differ-lt zero b p q = q
differ-lt (suc zero) zero p q = omega arith
differ-lt (suc zero) (suc b) p q = omega arith
differ-lt (suc (suc a)) b p q = absurd (omega arith)

pub shr-bit_xor : (k a b : ℕ) → bit_xor a b / 2 ^ k ≡ bit_xor (a / 2 ^ k) (b / 2 ^ k)
shr-bit_xor =
    shr-inside bit_xor
      (λ a b. omega (arith, xor_digit a b, differ-lt (a % 2) (b % 2) (omega arith) (omega arith)))

-- Induction by halving.
halving : (P : ℕ → Type 0) (n a : ℕ) → P 0 → ((b : ℕ) → P (suc b / 2) → P (suc b)) → a ≤ n → P a
halving P n zero base up h = base
halving P zero (suc a) base up h = absurd (omega arith)
halving P (suc n) (suc a) base up h = up a (halving P n (suc a / 2) base up (omega arith))

pub bit_or-zero : (a : ℕ) → bit_or a 0 ≡ a
bit_or-zero a =
    halving (λ (x : ℕ). bit_or x 0 ≡ x) a a refl (λ b e. omega (arith, or_digit (suc b) 0, e))
      (omega arith)

pub bit_and-zero : (a : ℕ) → bit_and a 0 ≡ 0
bit_and-zero a =
    halving (λ (x : ℕ). bit_and x 0 ≡ 0) a a refl (λ b e. omega (arith, and_digit (suc b) 0, e))
      (omega arith)

-- The remainder by an even number, from the lowest digit.
mod-two-mul : (a m : ℕ) → a % (2 * m) ≡ a / 2 % m * 2 + a % 2
mod-two-mul a m = omega (
  arith,
  div-add-mod a (2 * m),
  div-add-mod (a / 2) m,
  ap (λ (t : ℕ). m * t) (div-div-eq-div-mul a 2 m),
)

-- The mask of the `k` low bits keeps the remainder by 2 ^ k.
pub bit_and_mask : (k a : ℕ) → bit_and a (2 ^ k - 1) ≡ a % 2 ^ k
bit_and_mask zero a = omega (arith, bit_and-zero a)
bit_and_mask (suc k) a = ground (
  arith,
  and_digit a (2 ^ suc k - 1),
  pow-suc 2 k,
  one-le-pow k 2,
  bit_and_mask k (a / 2),
  mod-two-mul a (2 ^ k),
)

-- Fields that do not overlap are added by `|`.
pub bit_or_fields : (k q r : ℕ) → r < 2 ^ k → bit_or (q * 2 ^ k) r ≡ q * 2 ^ k + r
bit_or_fields zero q r h = ground (arith, bit_or-zero q)
bit_or_fields (suc k) q r h = ground (
  arith,
  or_digit (q * 2 ^ suc k) r,
  ap (λ (t : ℕ). q * t) (pow-suc 2 k),
  pow-suc 2 k,
  bit_or_fields k q (r / 2) (omega (arith, pow-suc 2 k)),
)

-- A number with nothing above its `k` low digits is below 2 ^ k.
lt_of_shr : (x k : ℕ) → x / 2 ^ k ≡ 0 → x < 2 ^ k
lt_of_shr x k h =
    ground
      (arith, one-le-pow k 2, h, div-add-mod x (2 ^ k), mod-lt x (one-le-pow k 2 (omega arith)))

pub bit_and-lt : (k a b : ℕ) → a < 2 ^ k → b < 2 ^ k → bit_and a b < 2 ^ k
bit_and-lt k a b p q = lt_of_shr _ k (rw (shr-bit_and, div-eq_of_lt p, div-eq_of_lt q) refl)

pub bit_or-lt : (k a b : ℕ) → a < 2 ^ k → b < 2 ^ k → bit_or a b < 2 ^ k
bit_or-lt k a b p q = lt_of_shr _ k (rw (shr-bit_or, div-eq_of_lt p, div-eq_of_lt q) refl)

pub bit_xor-lt : (k a b : ℕ) → a < 2 ^ k → b < 2 ^ k → bit_xor a b < 2 ^ k
bit_xor-lt k a b p q = lt_of_shr _ k (rw (shr-bit_xor, div-eq_of_lt p, div-eq_of_lt q) refl)

bit_or_comm_fuel : (n a b : ℕ) → a ≤ n → b ≤ n → bit_or a b ≡ bit_or b a
bit_or_comm_fuel n zero b p q = omega (arith, bit_or-zero b, bit_or-bitwise 0 b)
bit_or_comm_fuel zero (suc a) b p q = absurd (omega arith)
bit_or_comm_fuel (suc n) (suc a) b p q = omega (
  arith,
  or_digit (suc a) b,
  or_digit b (suc a),
  bit_or_comm_fuel n (suc a / 2) (b / 2) (omega arith) (omega arith),
)

pub bit_or_comm : (a b : ℕ) → bit_or a b ≡ bit_or b a
bit_or_comm a b = bit_or_comm_fuel (a + b) a b (omega arith) (omega arith)

-- A field placed above a smaller number by `|`.
pub bit_or_above : (k r q : ℕ) → r < 2 ^ k → bit_or r (q * 2 ^ k) ≡ r + q * 2 ^ k
bit_or_above k r q h = omega (arith, bit_or_comm r (q * 2 ^ k), bit_or_fields k q r h)

half_mod : (a k : ℕ) → a % 2 ^ suc k / 2 ≡ a / 2 % 2 ^ k
half_mod a k = rw (pow-suc, mul_comm, mod-two-mul a (2 ^ k)) (omega arith)

low_mod : (a k : ℕ) → a % 2 ^ suc k % 2 ≡ a % 2
low_mod a k = rw (pow-suc, mul_comm, mod-two-mul a (2 ^ k)) (omega arith)

-- The digits above and below a place are worked out apart.
module _ (f g : ℕ → ℕ → ℕ) (zeros : f 0 0 ≡ 0)
    (step : (a b : ℕ) → f a b ≡ f (a / 2) (b / 2) * 2 + g (a % 2) (b % 2)) where
  split : (k a b : ℕ) → f a b ≡ f (a / 2 ^ k) (b / 2 ^ k) * 2 ^ k + f (a % 2 ^ k) (b % 2 ^ k)
  split zero a b = simp (div-one, mod-one, zeros) (omega arith)
  split (suc k) a b = ground (
    arith,
    step a b,
    step (a % 2 ^ suc k) (b % 2 ^ suc k),
    half_mod a k,
    half_mod b k,
    low_mod a k,
    low_mod b k,
    div-pow-suc a k,
    div-pow-suc b k,
    split k (a / 2) (b / 2),
    ap (λ (t : ℕ). f (a / 2 / 2 ^ k) (b / 2 / 2 ^ k) * t) (pow-suc 2 k),
  )

pub bit_and_split :
    (k a b : ℕ)
    → bit_and a b ≡ bit_and (a / 2 ^ k) (b / 2 ^ k) * 2 ^ k + bit_and (a % 2 ^ k) (b % 2 ^ k)
bit_and_split = split bit_and min refl and_digit

pub bit_or_split :
    (k a b : ℕ)
    → bit_or a b ≡ bit_or (a / 2 ^ k) (b / 2 ^ k) * 2 ^ k + bit_or (a % 2 ^ k) (b % 2 ^ k)
bit_or_split = split bit_or max refl or_digit
