-- ===== src/Memory.antt =====
-- include/isa/memory.h and src/mips/memory.cpp: flat little-endian memory with checked accesses.
-- A `std::vector<uint8_t>` is its length and a function from indices below it; every access is
-- behind `in_bounds`. Alignment leaves the sums `addr + 1` to `addr + 3` no carry out of 32 bits.
pub mod Access
pub mod Load
use clear_core.Prelude.{
  ℕ, zero, suc, ◌+◌, ◌*◌, ◌/◌, ◌%◌, ◌^◌, ◌<◌, Bool, true, false, not, ◌||◌, Option, none, some,
  List, [], ◌∷◌, bit_or, leb, ◌==◌, if◌then◌else◌, length, u16, add32, low_bits, shr,
}

pub record Memory : Type 0 where
  pub size : ℕ
  pub bytes : ℕ → ℕ

abbrev pub IsMemory : Memory → Type 0
IsMemory m = (a : ℕ) → m.bytes a < 2 ^ 8

-- The constructor: `size_bytes` zero bytes.
unfoldable pub create : ℕ → Memory
create size_bytes = record { size = size_bytes; bytes = λ _. 0 }

unfoldable pub in_bounds : Memory → ℕ → ℕ → Bool
in_bounds m addr n = leb (addr + n) m.size

-- `data_[a] = v`.
abbrev pub put : (ℕ → ℕ) → ℕ → ℕ → ℕ → ℕ
put f a v b = if a == b then v else f b

unfoldable pub read_word : Memory → ℕ → Option ℕ
unfolding in_bounds
read_word m addr =
    if not (low_bits addr 2 == 0) || not (in_bounds m addr 4)
    then none
    else some (
        bit_or
          (bit_or (bit_or (m.bytes addr) (m.bytes (addr + 1) * 2 ^ 8))
            (m.bytes (addr + 2) * 2 ^ 16))
          (m.bytes (addr + 3) * 2 ^ 24))

unfoldable pub read_half : Memory → ℕ → Option ℕ
unfolding in_bounds
read_half m addr =
    if not (low_bits addr 1 == 0) || not (in_bounds m addr 2)
    then none
    else some (u16 (bit_or (m.bytes addr) (m.bytes (addr + 1) * 2 ^ 8)))

unfoldable pub read_byte : Memory → ℕ → Option ℕ
unfolding in_bounds
read_byte m addr = if not (in_bounds m addr 1) then none else some (m.bytes addr)

-- A write returns the memory after it and whether it took place.
unfoldable pub write_word : Memory → ℕ → ℕ → Memory × Bool
unfolding in_bounds
write_word m addr value =
    if not (low_bits addr 2 == 0) || not (in_bounds m addr 4) then (m, false) else (
      record m {
        bytes =
            put
              (put (put (put m.bytes addr (low_bits value 8)) (addr + 1) (low_bits (shr value 8) 8))
                (addr + 2) (low_bits (shr value 16) 8))
              (addr + 3) (low_bits (shr value 24) 8);
      },
      true,
    )

unfoldable pub write_half : Memory → ℕ → ℕ → Memory × Bool
unfolding in_bounds
write_half m addr value =
    if not (low_bits addr 1 == 0) || not (in_bounds m addr 2) then (m, false) else (
      record m {
        bytes = put (put m.bytes addr (low_bits value 8)) (addr + 1) (low_bits (shr value 8) 8);
      },
      true,
    )

unfoldable pub write_byte : Memory → ℕ → ℕ → Memory × Bool
unfolding in_bounds
write_byte m addr value =
    if not (in_bounds m addr 1)
    then (m, false)
    else (record m { bytes = put m.bytes addr value }, true)

-- The loop of `load_words` from index `i`; the results of the writes are not looked at.
unfoldable pub load_loop : Memory → ℕ → ℕ → List ℕ → Memory
load_loop m addr i [] = m
load_loop m addr i (w ∷ words) =
    load_loop (write_word m (add32 addr (i * 4)) w).0 addr (i + 1) words

-- `none` is a violation of `Expects`, which ends the program.
unfoldable pub load_words : Memory → ℕ → List ℕ → Option (Memory × Bool)
unfolding load_loop in_bounds
load_words m addr words =
    if not (low_bits addr 2 == 0)
    then none
    else if not (in_bounds m addr (length words * 4))
    then some (m, false)
    else some (load_loop m addr 0 words, true)

unfoldable pub reset : Memory → Memory
reset m = record m { bytes = λ _. 0 }
