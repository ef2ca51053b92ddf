-- ===== src/DataMemory.antt =====
-- include/mips/data_memory.h and src/mips/data_memory.cpp: loads and stores by opcode.
pub mod Laws
use clear_core.Memory.{Memory, read_word, read_half, read_byte, write_word}
use clear_core.Decoder.{Opcode}
use clear_core.Prelude.{ℕ, Bool, false, Option, none}

unfoldable pub load_data : Memory → Opcode → ℕ → Option ℕ
load_data mem Opcode.lw addr = read_word mem addr
load_data mem Opcode.lbu addr = read_byte mem addr
load_data mem Opcode.lhu addr = read_half mem addr
load_data mem _ addr = none

unfoldable pub store_data : Memory → Opcode → ℕ → ℕ → Memory × Bool
store_data mem Opcode.sw addr value = write_word mem addr value
store_data mem _ addr value = (mem, false)
