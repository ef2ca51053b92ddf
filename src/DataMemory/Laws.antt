-- ===== src/DataMemory/Laws.antt =====
-- Loads give 32-bit words, and stores keep memory a memory of bytes.
use clear_core.Memory.Access.{
  write_word-IsMemory, write_word-fails, read_word-lt, read_word-word_at, read_byte-lt,
  read_half-half_at, read_half-lt,
}
use clear_core.Memory.Load.{write_word-size}
use clear_core.Memory.{Memory, read_byte, IsMemory}
use clear_core.Prelude.{refl, ◌≡◌, false, some, ◌%◌, ◌<◌, ◌^◌, ◌+◌}
use clear_core.DataMemory.{load_data, store_data}
use clear_core.Decoder.{Opcode}
use clear_core.Prelude.{ℕ, arith}

pub load_data-lt :
    (m : Memory) (op : Opcode) (addr : ℕ) {v : ℕ}
    → IsMemory m
    → load_data m op addr ≡ some v
    → v < 2 ^ 32
unfolding load_data
load_data-lt m Opcode.lw addr h e = read_word-lt m addr h e
load_data-lt m Opcode.lbu addr h e = omega (arith, read_byte-lt m addr h e)
load_data-lt m Opcode.lhu addr h e = omega (arith, read_half-lt m addr h e)
load_data-lt m op addr h e = ground arith

pub store_data-IsMemory :
    (m : Memory) (op : Opcode) (addr value : ℕ)
    → IsMemory m
    → IsMemory (store_data m op addr value).0
unfolding store_data
store_data-IsMemory m Opcode.sw addr value h = write_word-IsMemory m addr value h
store_data-IsMemory m op addr value h = h

pub store_data-size :
    (m : Memory) (op : Opcode) (addr value : ℕ) → (store_data m op addr value).0.size ≡ m.size
unfolding store_data
store_data-size m Opcode.sw addr value = write_word-size m addr value
store_data-size m op addr value = refl

pub store_data_fails :
    (m : Memory) (op : Opcode) (addr value : ℕ)
    → (store_data m op addr value).1 ≡ false
    → (store_data m op addr value).0 ≡ m
unfolding store_data
store_data_fails m Opcode.sw addr value e = (write_word-fails m addr value).1 e
store_data_fails m op addr value e = refl

-- In a memory of bytes, where a word can be loaded, LHU and LBU at the same address load its low
-- half and its low byte, zero-extended.
pub load_data-zero_extends :
    (m : Memory) (addr word : ℕ)
    → IsMemory m
    → load_data m Opcode.lw addr ≡ some word
    → (load_data m Opcode.lhu addr ≡ some (word % 2 ^ 16))
      × (load_data m Opcode.lbu addr ≡ some (word % 2 ^ 8))
unfolding load_data read_byte
load_data-zero_extends m addr word h e = (
  ground (
    arith,
    read_word-word_at m addr h,
    read_half-half_at m addr h,
    h addr,
    h (addr + 1),
    h (addr + 2),
    h (addr + 3),
  ),
  ground (arith, read_word-word_at m addr h, h addr, h (addr + 1), h (addr + 2), h (addr + 3)),
)
