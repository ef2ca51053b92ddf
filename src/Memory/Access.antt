-- ===== src/Memory/Access.antt =====
-- Reads after writes.
use clear_core.Prelude.{
  ℕ, ◌+◌, ◌&&◌, leb, ◌*◌, ◌%◌, ◌^◌, ◌<◌, ◌≡◌, refl, true, false, none, some, arith, bit_or, ◌==◌,
  if◌then◌else◌,
}
use clear_core.Bits.{bit_or_above}
use clear_core.Memory.{
  Memory, IsMemory, read_word, read_half, read_byte, write_word, write_half, write_byte,
}

-- The four bytes as a number.
abbrev pub word_at : (ℕ → ℕ) → ℕ → ℕ
word_at f a = f a + f (a + 1) * 2 ^ 8 + f (a + 2) * 2 ^ 16 + f (a + 3) * 2 ^ 24

bit_or_bytes :
    (a b c d : ℕ)
    → a < 2 ^ 8
    → b < 2 ^ 8
    → c < 2 ^ 8
    → d < 2 ^ 8
    → bit_or (bit_or (bit_or a (b * 2 ^ 8)) (c * 2 ^ 16)) (d * 2 ^ 24)
      ≡ a + b * 2 ^ 8 + c * 2 ^ 16 + d * 2 ^ 24
bit_or_bytes a b c d ha hb hc hd =
    rw
      (
        bit_or_above 8 a b ha,
        bit_or_above 16 (a + b * 2 ^ 8) c (omega arith),
        bit_or_above 24 (a + b * 2 ^ 8 + c * 2 ^ 16) d (omega arith),
      )
      refl

-- A word that is read is the little-endian number of its four bytes.
pub read_word-word_at :
    (m : Memory) (addr : ℕ)
    → IsMemory m
    → read_word m addr
      ≡ (if (addr % 4 == 0) && leb (addr + 4) m.size then some (word_at m.bytes addr) else none)
unfolding read_word
read_word-word_at m addr h = ground (
  arith,
  bit_or_bytes (m.bytes addr) (m.bytes (addr + 1)) (m.bytes (addr + 2)) (m.bytes (addr + 3)),
  h addr,
  h (addr + 1),
  h (addr + 2),
  h (addr + 3),
)

-- A write keeps every cell a byte.
pub write_word-IsMemory :
    (m : Memory) (addr value : ℕ) → IsMemory m → IsMemory (write_word m addr value).0
unfolding write_word
write_word-IsMemory m addr value h a = ground (arith, h a)

pub write_half-IsMemory :
    (m : Memory) (addr value : ℕ) → IsMemory m → IsMemory (write_half m addr value).0
unfolding write_half
write_half-IsMemory m addr value h a = ground (arith, h a)

pub write_byte-IsMemory :
    (m : Memory) (addr value : ℕ)
    → value < 2 ^ 8
    → IsMemory m
    → IsMemory (write_byte m addr value).0
unfolding write_byte
write_byte-IsMemory m addr value v h a = ground (arith, h a)

-- In a memory of bytes, after a write of a 32-bit word that took place, the same address reads as the value written and every other word
-- address as before.
pub read_word-write_word :
    (m : Memory) (a b value : ℕ)
    → IsMemory m
    → value < 2 ^ 32
    → (write_word m a value).1 ≡ true
    → read_word (write_word m a value).0 b ≡ (if a == b then some value else read_word m b)
unfolding write_word
read_word-write_word m a b value h v done =
    rw
      (
        read_word-word_at (write_word m a value).0 b (write_word-IsMemory m a value h),
        read_word-word_at m b h,
      )
      (ground arith)

-- A write fails exactly on a misaligned or out-of-range address, and then changes nothing.
pub write_word-fails :
    (m : Memory) (addr value : ℕ)
    → ((write_word m addr value).1 ≡ ((addr % 4 == 0) && leb (addr + 4) m.size))
      × ((write_word m addr value).1 ≡ false → (write_word m addr value).0 ≡ m)
unfolding write_word
write_word-fails m addr value = (ground arith, λ e. ground arith)

-- A half word is the little-endian number of its two bytes.
pub read_half-half_at :
    (m : Memory) (addr : ℕ)
    → IsMemory m
    → read_half m addr ≡ (
        if (addr % 2 == 0) && leb (addr + 2) m.size
        then some (m.bytes addr + m.bytes (addr + 1) * 2 ^ 8)
        else none)
unfolding read_half
read_half-half_at m addr h =
    ground (arith, bit_or_above 8 (m.bytes addr) (m.bytes (addr + 1)), h addr, h (addr + 1))

-- In a memory of bytes, after a write of a 16-bit half word that took place, its address reads as the
-- value written and every other half-word address as before.
pub read_half-write_half :
    (m : Memory) (a b value : ℕ)
    → IsMemory m
    → value < 2 ^ 16
    → (write_half m a value).1 ≡ true
    → read_half (write_half m a value).0 b ≡ (if a == b then some value else read_half m b)
unfolding write_half
read_half-write_half m a b value h v done =
    rw
      (
        read_half-half_at (write_half m a value).0 b (write_half-IsMemory m a value h),
        read_half-half_at m b h,
      )
      (ground arith)

pub read_byte-write_byte :
    (m : Memory) (a b value : ℕ)
    → (write_byte m a value).1 ≡ true
    → read_byte (write_byte m a value).0 b ≡ (if a == b then some value else read_byte m b)
unfolding write_byte read_byte
read_byte-write_byte m a b value done = ground arith

-- In a memory of bytes, the word at an aligned address is made of the two half words that are read at
-- it, the low one, and two bytes above.
pub read_word-halves :
    (m : Memory) (addr lo hi : ℕ)
    → IsMemory m
    → addr % 4 ≡ 0
    → read_half m addr ≡ some lo
    → read_half m (addr + 2) ≡ some hi
    → read_word m addr ≡ some (lo + hi * 2 ^ 16)
read_word-halves m addr lo hi h al rl rh = ground (
  arith,
  read_word-word_at m addr h,
  read_half-half_at m addr h,
  read_half-half_at m (addr + 2) h,
)

pub read_word-lt :
    (m : Memory) (addr : ℕ) {v : ℕ} → IsMemory m → read_word m addr ≡ some v → v < 2 ^ 32
read_word-lt m addr h e =
    ground (arith, read_word-word_at m addr h, h addr, h (addr + 1), h (addr + 2), h (addr + 3))

pub read_half-lt :
    (m : Memory) (addr : ℕ) {v : ℕ} → IsMemory m → read_half m addr ≡ some v → v < 2 ^ 16
read_half-lt m addr h e = ground (arith, read_half-half_at m addr h, h addr, h (addr + 1))

pub read_byte-lt :
    (m : Memory) (addr : ℕ) {v : ℕ} → IsMemory m → read_byte m addr ≡ some v → v < 2 ^ 8
unfolding read_byte
read_byte-lt m addr h e = ground (arith, h addr)
