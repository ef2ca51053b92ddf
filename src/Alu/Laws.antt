-- ===== src/Alu/Laws.antt =====
-- The flags and values of the ALU against signed and unsigned arithmetic.
use native.Mathlib.Nat.{div-le_self}
use clear_core.Alu.{execute, overflow_add, overflow_sub, AluOp}
use clear_core.Bits.{shr-bit_and, shr-bit_xor, bit_and-lt, bit_or-lt, bit_xor-lt}
use clear_core.Prelude.{
  ℕ, zero, suc, refl, arith, ◌+ℤ◌, ◌-ℤ◌, ◌<◌, bit_and, ◌^◌, bit_xor, not32, ◌%◌, ◌-◌, ◌≡◌,
  if◌then◌else◌, not, ◌/◌, ◌==◌, ◌&&◌, false, signed32, shr_ℤ, ◌↔◌, ◌+◌,
}

-- The overflow formulas at one binary digit.
add_table :
    (x y z : ℕ)
    → x < 2
    → y < 2
    → z < 2
    → bit_and (1 - bit_xor x y) (bit_xor x z) ≡ (if (x == y) && not (x == z) then 1 else 0)
add_table zero zero zero p q r = refl
add_table zero zero (suc zero) p q r = refl
add_table zero (suc zero) zero p q r = refl
add_table zero (suc zero) (suc zero) p q r = refl
add_table (suc zero) zero zero p q r = refl
add_table (suc zero) zero (suc zero) p q r = refl
add_table (suc zero) (suc zero) zero p q r = refl
add_table (suc zero) (suc zero) (suc zero) p q r = refl
add_table x y z p q r = absurd (omega arith)

sub_table :
    (x y z : ℕ)
    → x < 2
    → y < 2
    → z < 2
    → bit_and (bit_xor x y) (bit_xor x z) ≡ (if not (x == y) && not (x == z) then 1 else 0)
sub_table zero zero zero p q r = refl
sub_table zero zero (suc zero) p q r = refl
sub_table zero (suc zero) zero p q r = refl
sub_table zero (suc zero) (suc zero) p q r = refl
sub_table (suc zero) zero zero p q r = refl
sub_table (suc zero) zero (suc zero) p q r = refl
sub_table (suc zero) (suc zero) zero p q r = refl
sub_table (suc zero) (suc zero) (suc zero) p q r = refl
sub_table x y z p q r = absurd (omega arith)

shr-not32 : (x : ℕ) → x < 2 ^ 32 → not32 x / 2 ^ 31 ≡ 1 - x / 2 ^ 31
shr-not32 x h = omega arith

-- The flags from the three sign bits.
overflow_add_signs :
    (a b r : ℕ)
    → a < 2 ^ 32
    → b < 2 ^ 32
    → r < 2 ^ 32
    → overflow_add a b r ≡ ((a / 2 ^ 31 == b / 2 ^ 31) && not (a / 2 ^ 31 == r / 2 ^ 31))
unfolding overflow_add
overflow_add_signs a b r ha hb hr =
    rw
      (
        shr-bit_and 31 (not32 (bit_xor a b)) (bit_xor a r),
        shr-not32 (bit_xor a b) (bit_xor-lt 32 a b ha hb),
        shr-bit_xor 31 a b,
        shr-bit_xor 31 a r,
        add_table (a / 2 ^ 31) (b / 2 ^ 31) (r / 2 ^ 31) (omega arith) (omega arith) (omega arith),
      )
      (ground arith)

overflow_sub_signs :
    (a b r : ℕ)
    → a < 2 ^ 32
    → b < 2 ^ 32
    → r < 2 ^ 32
    → overflow_sub a b r ≡ (not (a / 2 ^ 31 == b / 2 ^ 31) && not (a / 2 ^ 31 == r / 2 ^ 31))
unfolding overflow_sub
overflow_sub_signs a b r ha hb hr =
    rw
      (
        shr-bit_and 31 (bit_xor a b) (bit_xor a r),
        shr-bit_xor 31 a b,
        shr-bit_xor 31 a r,
        sub_table (a / 2 ^ 31) (b / 2 ^ 31) (r / 2 ^ 31) (omega arith) (omega arith) (omega arith),
      )
      (ground arith)

execute-add_overflow_iff :
    (a b shamt : ℕ)
    → a < 2 ^ 32
    → b < 2 ^ 32
    → ((execute AluOp.add a b shamt).overflow ≡ false)
      ↔ (signed32 (execute AluOp.add a b shamt).value ≡ signed32 a +ℤ signed32 b)
unfolding execute ◌+ℤ◌
execute-add_overflow_iff a b shamt ha hb = ground (arith, overflow_add_signs a b ((a + b) % 2 ^ 32))

execute-sub_overflow_iff :
    (a b shamt : ℕ)
    → a < 2 ^ 32
    → b < 2 ^ 32
    → ((execute AluOp.sub a b shamt).overflow ≡ false)
      ↔ (signed32 (execute AluOp.sub a b shamt).value ≡ signed32 a -ℤ signed32 b)
unfolding execute ◌-ℤ◌
execute-sub_overflow_iff a b shamt ha hb =
    ground (arith, overflow_sub_signs a b ((a + 2 ^ 32 - b) % 2 ^ 32))

-- On 32-bit words ADD leaves the overflow flag clear exactly when its 32-bit result, read as a
-- signed number, is the sum of the signed operands, and SUB exactly when it is their difference.
pub execute-overflow_iff :
    (a b shamt : ℕ)
    → a < 2 ^ 32
    → b < 2 ^ 32
    → (((execute AluOp.add a b shamt).overflow ≡ false)
        ↔ (signed32 (execute AluOp.add a b shamt).value ≡ signed32 a +ℤ signed32 b))
      × (((execute AluOp.sub a b shamt).overflow ≡ false)
          ↔ (signed32 (execute AluOp.sub a b shamt).value ≡ signed32 a -ℤ signed32 b))
execute-overflow_iff a b shamt ha hb =
    (execute-add_overflow_iff a b shamt ha hb, execute-sub_overflow_iff a b shamt ha hb)

-- The comparison of `BEQ` and `BNE`: the zero flag of `SUBU` tells equal 32-bit words.
pub execute-subu_zero_flag :
    (a b shamt : ℕ) → a < 2 ^ 32 → b < 2 ^ 32 → (execute AluOp.subu a b shamt).zero_flag ≡ (a == b)
unfolding execute
execute-subu_zero_flag a b shamt ha hb = ground arith

-- Every result on 32-bit operands is a 32-bit word.
pub execute-lt :
    (op : AluOp) (a b shamt : ℕ) → a < 2 ^ 32 → b < 2 ^ 32 → (execute op a b shamt).value < 2 ^ 32
unfolding execute
execute-lt AluOp.and a b shamt ha hb = bit_and-lt 32 a b ha hb
execute-lt AluOp.or a b shamt ha hb = bit_or-lt 32 a b ha hb
execute-lt AluOp.xor a b shamt ha hb = bit_xor-lt 32 a b ha hb
execute-lt AluOp.srl a b shamt ha hb = grind (arith, div-le_self b (2 ^ (shamt % 2 ^ 5)))
execute-lt op a b shamt ha hb = ground arith

-- On a 32-bit word `SRA` divides the signed operand by a power of two, rounding down.
pub execute-sra_signed :
    (a b shamt : ℕ)
    → b < 2 ^ 32
    → signed32 (execute AluOp.sra a b shamt).value ≡ shr_ℤ (signed32 b) (shamt % 32)
unfolding execute
execute-sra_signed a b shamt hb =
    grind (arith, div-le_self b (2 ^ (shamt % 32)), div-le_self (2 ^ 32 - b - 1) (2 ^ (shamt % 32)))
