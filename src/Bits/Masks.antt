-- ===== src/Bits/Masks.antt =====
-- The masks that the program writes with `~` and with fields in the middle of a word.
use clear_core.Bits.{
  bit_and_split, bit_or_split, bit_and_mask, bit_or_above, bit_and-zero, bit_or-zero,
}
use clear_core.Prelude.{
  ℕ, zero, suc, refl, arith, bit_and, bit_or, ◌<◌, ◌^◌, ◌≡◌, not32, ◌+◌, ◌-◌, ◌/◌, ◌%◌, ◌*◌,
}

two_bits_and : (x : ℕ) → x < 4 → bit_and x 2 ≡ x / 2 % 2 * 2
two_bits_and zero h = refl
two_bits_and (suc zero) h = refl
two_bits_and (suc (suc zero)) h = refl
two_bits_and (suc (suc (suc zero))) h = refl
two_bits_and (suc (suc (suc (suc x)))) h = absurd (omega arith)

two_bits_or : (x : ℕ) → x < 4 → bit_or x 2 ≡ x + 2 * (1 - x / 2 % 2)
two_bits_or zero h = refl
two_bits_or (suc zero) h = refl
two_bits_or (suc (suc zero)) h = refl
two_bits_or (suc (suc (suc zero))) h = refl
two_bits_or (suc (suc (suc (suc x)))) h = absurd (omega arith)

two_bits_clear : (x : ℕ) → x < 4 → bit_and x 1 ≡ x - x / 2 % 2 * 2
two_bits_clear zero h = refl
two_bits_clear (suc zero) h = refl
two_bits_clear (suc (suc zero)) h = refl
two_bits_clear (suc (suc (suc zero))) h = refl
two_bits_clear (suc (suc (suc (suc x)))) h = absurd (omega arith)

-- `x & 2`, `x | 2` and `x & ~2`: the bit of value two is read, set and cleared.
pub bit_and_two : (x : ℕ) → bit_and x 2 ≡ x / 2 % 2 * 2
bit_and_two x =
    omega (arith, bit_and_split 2 x 2, bit_and-zero (x / 4), two_bits_and (x % 4) (omega arith))

pub bit_or_two : (x : ℕ) → bit_or x 2 ≡ x + 2 * (1 - x / 2 % 2)
bit_or_two x =
    omega (arith, bit_or_split 2 x 2, bit_or-zero (x / 4), two_bits_or (x % 4) (omega arith))

pub bit_clear_two : (x : ℕ) → x < 2 ^ 32 → bit_and x (not32 2) ≡ x - x / 2 % 2 * 2
bit_clear_two x h = omega (
  arith,
  bit_and_split 2 x (not32 2),
  bit_and_mask 30 (x / 4),
  two_bits_clear (x % 4) (omega arith),
)

clear_exc_code : (x : ℕ) → x < 2 ^ 32 → bit_and x (not32 0x7c) ≡ x / 128 * 128 + x % 4
clear_exc_code x h =
    omega
      (arith, bit_and_split 7 x (not32 0x7c), bit_and_mask 25 (x / 128), bit_and_mask 2 (x % 128))

-- `(x & ~0x7c) | (code << 2)`: bits 2 to 6 are replaced.
pub set_exc_code :
    (x code : ℕ)
    → x < 2 ^ 32
    → code < 32
    → bit_or (bit_and x (not32 0x7c)) (code * 2 ^ 2) ≡ x / 128 * 128 + code * 4 + x % 4
set_exc_code x code h c = ground (
  arith,
  clear_exc_code x h,
  bit_or_split 7 (x / 128 * 128 + x % 4) (code * 4),
  bit_or-zero (x / 128),
  bit_or_above 2 (x % 4) code,
)

-- `x & 0xf0000000`: the top four bits.
pub bit_and_region : (x : ℕ) → x < 2 ^ 32 → bit_and x 0xf000_0000 ≡ x / 2 ^ 28 * 2 ^ 28
bit_and_region x h =
    omega (
      arith,
      bit_and_split 28 x 0xf000_0000,
      bit_and_mask 4 (x / 2 ^ 28),
      bit_and-zero (x % 2 ^ 28),
    )
