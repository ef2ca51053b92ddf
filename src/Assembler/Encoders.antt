-- ===== src/Assembler/Encoders.antt =====
-- The encoding helpers of src/nsc_qt/assembler.cpp.
use clear_core.Prelude.{ℕ, bit_and, bit_or, shl32}

unfoldable pub enc_r : ℕ → ℕ → ℕ → ℕ → ℕ → ℕ
enc_r rs rt rd shamt funct =
    bit_or
      (bit_or
        (bit_or (bit_or (shl32 (bit_and rs 0x1f) 21) (shl32 (bit_and rt 0x1f) 16))
          (shl32 (bit_and rd 0x1f) 11))
        (shl32 (bit_and shamt 0x1f) 6))
      (bit_and funct 0x3f)

unfoldable pub enc_i : ℕ → ℕ → ℕ → ℕ → ℕ
enc_i op rs rt imm =
    bit_or
      (bit_or (bit_or (shl32 (bit_and op 0x3f) 26) (shl32 (bit_and rs 0x1f) 21))
        (shl32 (bit_and rt 0x1f) 16))
      imm

unfoldable pub enc_j : ℕ → ℕ → ℕ
enc_j op target = bit_or (shl32 (bit_and op 0x3f) 26) (bit_and target 0x03ffffff)
