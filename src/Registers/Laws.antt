-- ===== src/Registers/Laws.antt =====
-- The register file as a store with a constant zero.
use clear_core.Prelude.{ℕ, ◌%◌, ◌^◌, ◌<◌, ◌≡◌, refl, arith, ◌==◌, if◌then◌else◌}
use clear_core.Registers.{RegisterFile, read, write}

-- For indices below 32, register `j` after a write to register `i`: the value, unless `i` is 0 or another register.
pub read-write :
    (r : RegisterFile) (i j v : ℕ)
    → i < 32
    → j < 32
    → read (write r i v) j ≡ (if j == 0 then 0 else if i == j then v else read r j)
unfolding read write
read-write r i j v hi hj = ground arith

-- Register 0 reads as zero whatever is written.
pub read-zero : (r : RegisterFile) → read r 0 ≡ 0
unfolding read
read-zero r = refl

-- The words of the file are 32 bits wide.
abbrev pub AllU32 : RegisterFile → Type 0
AllU32 r = (j : ℕ) → r.raw j < 2 ^ 32

pub read-lt : (r : RegisterFile) (j : ℕ) → AllU32 r → read r j < 2 ^ 32
unfolding read
read-lt r j h = ground (arith, h (j % 2 ^ 5))

pub write-AllU32 : (r : RegisterFile) (i v : ℕ) → v < 2 ^ 32 → AllU32 r → AllU32 (write r i v)
unfolding write
write-AllU32 r i v hv h j = ground (arith, h j)
