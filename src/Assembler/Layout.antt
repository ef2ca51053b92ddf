-- ===== src/Assembler/Layout.antt =====
-- The encoders place each field where the decoder reads it.
use clear_core.Assembler.Encoders.{enc_r, enc_i, enc_j}
use clear_core.Bits.{bit_and_mask, bit_or_fields}
use clear_core.Prelude.{ℕ, ◌+◌, ◌*◌, ◌^◌, ◌<◌, ◌≡◌, arith, bit_and, bit_or}

five : (a : ℕ) → a < 32 → bit_and a 0x1f ≡ a
five a h = omega (arith, bit_and_mask 5 a)

six : (a : ℕ) → a < 64 → bit_and a 0x3f ≡ a
six a h = omega (arith, bit_and_mask 6 a)

-- A sum of the fields above, a multiple of 2 ^ k, is joined with a field below 2 ^ k.
join : (k a q r : ℕ) → a ≡ q * 2 ^ k → r < 2 ^ k → bit_or a r ≡ a + r
join k a q r e h = rw e (bit_or_fields k q r h)

pub enc_r-eq :
    (rs rt rd shamt funct : ℕ)
    → rs < 32
    → rt < 32
    → rd < 32
    → shamt < 32
    → funct < 64
    → enc_r rs rt rd shamt funct ≡ rs * 2 ^ 21 + rt * 2 ^ 16 + rd * 2 ^ 11 + shamt * 2 ^ 6 + funct
unfolding enc_r
enc_r-eq rs rt rd shamt funct h1 h2 h3 h4 h5 =
    rw (five rs h1, five rt h2, five rd h3, five shamt h4, six funct h5)
      (ground (
        arith,
        join 21 (rs * 2 ^ 21) rs (rt * 2 ^ 16) (omega arith) (omega arith),
        join 16 (rs * 2 ^ 21 + rt * 2 ^ 16) (rs * 32 + rt) (rd * 2 ^ 11) (omega arith)
            (omega arith),
        join 11 (rs * 2 ^ 21 + rt * 2 ^ 16 + rd * 2 ^ 11) (rs * 1024 + rt * 32 + rd) (shamt * 2 ^ 6)
            (omega arith) (omega arith),
        join 6 (rs * 2 ^ 21 + rt * 2 ^ 16 + rd * 2 ^ 11 + shamt * 2 ^ 6)
            (rs * 32768 + rt * 1024 + rd * 32 + shamt) funct (omega arith) (omega arith),
      ))

pub enc_i-eq :
    (op rs rt imm : ℕ)
    → op < 64
    → rs < 32
    → rt < 32
    → imm < 2 ^ 16
    → enc_i op rs rt imm ≡ op * 2 ^ 26 + (rs * 2 ^ 21 + rt * 2 ^ 16 + imm)
unfolding enc_i
enc_i-eq op rs rt imm h1 h2 h3 h4 =
    rw (six op h1, five rs h2, five rt h3)
      (ground (
        arith,
        join 26 (op * 2 ^ 26) op (rs * 2 ^ 21) (omega arith) (omega arith),
        join 21 (op * 2 ^ 26 + rs * 2 ^ 21) (op * 32 + rs) (rt * 2 ^ 16) (omega arith)
            (omega arith),
        join 16 (op * 2 ^ 26 + rs * 2 ^ 21 + rt * 2 ^ 16) (op * 1024 + rs * 32 + rt) imm
            (omega arith) (omega arith),
      ))

pub enc_j-eq : (op target : ℕ) → op < 64 → target < 2 ^ 26 → enc_j op target ≡ op * 2 ^ 26 + target
unfolding enc_j
enc_j-eq op target h1 h2 =
    let low : bit_and target 0x03ffffff ≡ target = omega (arith, bit_and_mask 26 target) in
    rw (six op h1, low)
      (ground (arith, join 26 (op * 2 ^ 26) op target (omega arith) (omega arith)))
