-- ===== src/GdbStub/Access.antt =====
-- src/mips/gdb_stub.cpp: the commands that read and write registers and memory. A write returns the
-- processor after it, also where it fails half way.
use clear_core.GdbStub.Packets.{hex_byte, to_hex_le, parse_hex, parse_hex_byte}
use clear_core.Text.{Text, codes, take, drop, find}
use clear_core.SingleCycle.{Cpu}
use clear_core.Registers.{read, write}
use clear_core.Cp0
use clear_core.Memory.{read_byte, write_byte}
use clear_core.Prelude.{
  ℕ, zero, suc, ◌+◌, ◌-◌, ◌*◌, Bool, true, false, Option, none, some, [], ◌++◌, ◌==◌, leb, ltb,
  if◌then◌else◌, length, u32, add32, shl32, bit_or,
}

-- `kNumRegs`.
abbrev pub num_regs : ℕ
num_regs = 38

unfoldable pub read_gdb_reg : Cpu → ℕ → ℕ
read_gdb_reg cpu n =
    if ltb n 32
    then read cpu.regs n
    else if n == 32
    then cpu.cp0.status
    else if n == 33
    then cpu.lo
    else if n == 34
    then cpu.hi
    else if n == 35
    then cpu.cp0.bad_vaddr
    else if n == 36
    then cpu.cp0.cause
    else if n == 37
    then cpu.pc
    else 0

unfoldable pub write_gdb_reg : Cpu → ℕ → ℕ → Cpu
write_gdb_reg cpu n value =
    if ltb n 32
    then record cpu { regs = write cpu.regs n value }
    else if n == 32
    then record cpu { cp0 = Cp0.write cpu.cp0 Cp0.reg_status value }
    else if n == 33
    then record cpu { lo = value }
    else if n == 34
    then record cpu { hi = value }
    else if n == 36
    then record cpu { cp0 = Cp0.write cpu.cp0 Cp0.reg_cause value }
    else if n == 37
    then record cpu { pc = value }
    else cpu

-- The registers from `i` on, this many of them.
unfoldable pub regs_text : Cpu → ℕ → ℕ → Text
regs_text cpu i zero = []
regs_text cpu i (suc count) = to_hex_le (read_gdb_reg cpu i) ++ regs_text cpu (suc i) count

unfoldable pub handle_read_regs : Cpu → Text
unfolding regs_text
handle_read_regs cpu = regs_text cpu 0 num_regs

-- The bytes of a little-endian word from byte `b` on, this many of them, joined to `v`, and whether
-- all of them were there.
unfoldable pub le_bytes : Text → ℕ → ℕ → ℕ → ℕ → ℕ × Bool
le_bytes hex off b zero v = (v, true)
le_bytes hex off b (suc count) v = elim (parse_hex_byte hex (off + b * 2)) [
  | none ↦ (v, false)
  | some byte ↦ le_bytes hex off (suc b) count (bit_or v (shl32 byte (b * 8)))
]

unfoldable pub write_regs_from : Text → ℕ → ℕ → Cpu → Cpu × Bool
write_regs_from hex i zero cpu = (cpu, true)
write_regs_from hex i (suc count) cpu =
    let (v, whole) = le_bytes hex (i * 8) 0 4 0 in
    elim whole [
      | false ↦ (cpu, false)
      | true ↦ write_regs_from hex (suc i) count (write_gdb_reg cpu i v)
    ]

unfoldable pub handle_write_regs : Text → Cpu → Cpu × Bool
unfolding write_regs_from
handle_write_regs hex cpu =
    if ltb (length hex) (num_regs * 8) then (cpu, false) else write_regs_from hex 0 num_regs cpu

unfoldable pub handle_read_reg : Text → Cpu → Text
handle_read_reg args cpu = elim (parse_hex args) [
  | none ↦ codes "E01"
  | some n ↦ if leb num_regs n then codes "E01" else to_hex_le (read_gdb_reg cpu n)
]

unfoldable pub handle_write_reg : Text → Cpu → Cpu × Bool
handle_write_reg args cpu = elim (find b'=' args) [
  | none ↦ (cpu, false)
  | some eq ↦ elim (parse_hex (take args eq)) [
    | none ↦ (cpu, false)
    | some n ↦
        if leb num_regs n
        then (cpu, false)
        else (write_gdb_reg cpu n (le_bytes (drop args (eq + 1)) 0 0 4 0).0, true)
  ]
]

-- The bytes from address `addr + i` on, this many of them.
unfoldable pub mem_text : Cpu → ℕ → ℕ → ℕ → Option Text
mem_text cpu addr i zero = some []
mem_text cpu addr i (suc count) = elim (read_byte cpu.mem (add32 addr i)) [
  | none ↦ none
  | some b ↦ elim (mem_text cpu addr (suc i) count) [
    | none ↦ none
    | some rest ↦ some (hex_byte b ++ rest)
  ]
]

-- `std::min`.
abbrev pub smaller : ℕ → ℕ → ℕ
smaller a b = if ltb b a then b else a

unfoldable pub handle_read_mem : Text → Cpu → Text
unfolding mem_text
handle_read_mem args cpu = elim (find b',' args) [
  | none ↦ codes "E01"
  | some comma ↦ elim (parse_hex (take args comma)) [
    | none ↦ codes "E01"
    | some addr ↦ elim (parse_hex (drop args (comma + 1))) [
      | none ↦ codes "E01"
      | some len ↦ elim (mem_text cpu addr 0 (smaller len (u32 cpu.mem.size))) [
        | none ↦ codes "E02"
        | some out ↦ out
      ]
    ]
  ]
]

unfoldable pub write_mem_from : Text → ℕ → ℕ → ℕ → Cpu → Cpu × Bool
write_mem_from hex addr i zero cpu = (cpu, true)
write_mem_from hex addr i (suc count) cpu = elim (parse_hex_byte hex (i * 2)) [
  | none ↦ (cpu, false)
  | some byte ↦
      let (mem, written) = write_byte cpu.mem (add32 addr i) byte in
      let cpu' : Cpu = record cpu { mem = mem } in
      elim written [ false ↦ (cpu', false) | true ↦ write_mem_from hex addr (suc i) count cpu' ]
]

unfoldable pub handle_write_mem : Text → Cpu → Cpu × Bool
unfolding write_mem_from
handle_write_mem args cpu = elim (find b':' args) [
  | none ↦ (cpu, false)
  | some colon ↦ elim (find b',' args) [
    | none ↦ (cpu, false)
    | some comma ↦ if ltb colon comma then (cpu, false) else elim (parse_hex (take args comma)) [
      | none ↦ (cpu, false)
      | some addr ↦ elim (parse_hex (take (drop args (comma + 1)) (colon - comma - 1))) [
        | none ↦ (cpu, false)
        | some len ↦ write_mem_from (drop args (colon + 1)) addr 0 len cpu
      ]
    ]
  ]
]
