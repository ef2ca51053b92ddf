-- ===== src/GdbStub/RegisterCommands.antt =====
-- The commands `P` and `p` on one register.
use clear_core.Text.Laws.{find-append, take-append, drop-append}
use clear_core.Bits.{bit_and_mask, bit_or_above}
use clear_core.SingleCycle.{Cpu}
use clear_core.Text.{Text, take, drop, codes}
use clear_core.Prelude.{
  refl, ◌∷◌, true, false, some, ℕ, length, ◌<◌, ◌≡◌, All, bit_or, ◌^◌, bit_and, shl32, ◌==◌, shr,
  ◌+◌, ◌≢◌, ◌≤◌, arith, ◌%◌, ◌*◌, ◌++◌, ◌/◌, ap, Bool, ◌∙◌, if◌then◌else◌, leb, sym, ◌&&◌, not,
}
use clear_core.GdbStub.Packets.{to_hex_le, hex_byte, parse_hex, parse_hex_byte}
use clear_core.GdbStub.Access.{
  le_bytes, read_gdb_reg, write_gdb_reg, handle_read_reg, handle_write_reg, num_regs,
}
use clear_core.GdbStub.Replies.{read_gdb_reg-write_gdb_reg}
use clear_core.GdbStub.Framing.{uint32_from_chars-hex_byte}

byte_at :
    (s : Text) (off b : ℕ)
    → length s ≡ 8
    → take (drop s off) 2 ≡ hex_byte b
    → off ≤ 6
    → b < 256
    → parse_hex_byte s off ≡ some b
unfolding parse_hex_byte
byte_at s off b h e low small = rw e (ground (arith, uint32_from_chars-hex_byte b small))

four_bytes :
    (s : Text) (b0 b1 b2 b3 : ℕ)
    → parse_hex_byte s 0 ≡ some b0
    → parse_hex_byte s 2 ≡ some b1
    → parse_hex_byte s 4 ≡ some b2
    → parse_hex_byte s 6 ≡ some b3
    → le_bytes s 0 0 4 0 ≡ (
      bit_or (bit_or (bit_or (bit_or 0 (shl32 b0 0)) (shl32 b1 8)) (shl32 b2 16)) (shl32 b3 24),
      true,
    )
unfolding le_bytes
four_bytes s b0 b1 b2 b3 h0 h1 h2 h3 =
    rw (h0, le_bytes) (rw (h1, le_bytes) (rw (h2, le_bytes) (rw (h3, le_bytes) refl)))

joined :
    (b0 b1 b2 b3 : ℕ)
    → b0 < 256
    → b1 < 256
    → b2 < 256
    → b3 < 256
    → bit_or (bit_or (bit_or (bit_or 0 (shl32 b0 0)) (shl32 b1 8)) (shl32 b2 16)) (shl32 b3 24)
      ≡ b0 + b1 * 2 ^ 8 + b2 * 2 ^ 16 + b3 * 2 ^ 24
joined b0 b1 b2 b3 h0 h1 h2 h3 = ground (
  arith,
  bit_or_above 0 0 b0,
  bit_or_above 8 b0 b1 h0,
  bit_or_above 16 (b0 + b1 * 2 ^ 8) b2 (omega arith),
  bit_or_above 24 (b0 + b1 * 2 ^ 8 + b2 * 2 ^ 16) b3 (omega arith),
)

-- Eight digits are read back to the word that was written.
le_bytes-to_hex_le : (v : ℕ) → v < 2 ^ 32 → (le_bytes (to_hex_le v) 0 0 4 0).0 ≡ v
unfolding to_hex_le hex_byte
le_bytes-to_hex_le v h =
    let b0 = bit_and v 0xff in
    let b1 = bit_and (shr v 8) 0xff in
    let b2 = bit_and (shr v 16) 0xff in
    let b3 = bit_and (shr v 24) 0xff in
    let k0 : b0 ≡ v % 256 = omega (arith, bit_and_mask 8 v) in
    let k1 : b1 ≡ v / 256 % 256 = omega (arith, bit_and_mask 8 (v / 256)) in
    let k2 : b2 ≡ v / 65536 % 256 = omega (arith, bit_and_mask 8 (v / 65536)) in
    let k3 : b3 ≡ v / 16777216 % 256 = omega (arith, bit_and_mask 8 (v / 16777216)) in
    ap (λ (r : ℕ × Bool). r.0)
      (four_bytes (to_hex_le v) b0 b1 b2 b3
        (byte_at (to_hex_le v) 0 b0 refl refl (omega arith) (omega (arith, k0)))
        (byte_at (to_hex_le v) 2 b1 refl refl (omega arith) (omega (arith, k1)))
        (byte_at (to_hex_le v) 4 b2 refl refl (omega arith) (omega (arith, k2)))
        (byte_at (to_hex_le v) 6 b3 refl refl (omega arith) (omega (arith, k3))))
    ∙ joined b0 b1 b2 b3 (omega (arith, k0)) (omega (arith, k1)) (omega (arith, k2))
        (omega (arith, k3))
    ∙ omega (arith, k0, k1, k2, k3, h)

handle_write_reg-eq :
    (number text : Text) (n : ℕ) (cpu : Cpu)
    → parse_hex number ≡ some n
    → All (λ (x : ℕ). (x == b'=') ≡ false) number
    → n < 38
    → handle_write_reg (number ++ b'=' ∷ text) cpu
      ≡ (write_gdb_reg cpu n (le_bytes text 0 0 4 0).0, true)
unfolding handle_write_reg
handle_write_reg-eq number text n cpu hn clean small =
    let inside : leb num_regs n ≡ false = ground arith in
    rw (find-append b'=' number text clean, handle_write_reg)
      (rw (take-append b'=' number text) (rw (hn) (rw (inside, drop-append b'=' number text) refl)))

handle_read_reg-any :
    (number : Text) (n : ℕ) (cpu : Cpu)
    → parse_hex number ≡ some n
    → handle_read_reg number cpu
      ≡ (if leb num_regs n then codes "E01" else to_hex_le (read_gdb_reg cpu n))
unfolding handle_read_reg
handle_read_reg-any number n cpu hn = rw (hn, handle_read_reg) refl

reply-after :
    (n k v old new : ℕ)
    → n < 38
    → new ≡ (if (n == k) && not (n == 0) && not (n == 35) then v else old)
    → n ≢ 0
    → n ≢ 35
    → (if leb num_regs k then codes "E01" else to_hex_le new)
      ≡ (if n == k then to_hex_le v else if leb num_regs k then codes "E01" else to_hex_le old)
reply-after n k v old new small e not_zero not_bad = rw e (ground arith)

-- For the number of one of the 38 registers, other than register 0 and BadVAddr, written in
-- hexadecimal, and a 32-bit value: `P` with that number and the value succeeds, and `p` then replies
-- with the value for that register, and for any other number as it did before.
pub handle_read_reg-handle_write_reg :
    (number other : Text) (n k v : ℕ) (cpu : Cpu)
    → parse_hex number ≡ some n
    → parse_hex other ≡ some k
    → All (λ (x : ℕ). (x == b'=') ≡ false) number
    → n < 38
    → n ≢ 0
    → n ≢ 35
    → v < 2 ^ 32
    → ((handle_write_reg (number ++ b'=' ∷ to_hex_le v) cpu).1 ≡ true)
      × (handle_read_reg other (handle_write_reg (number ++ b'=' ∷ to_hex_le v) cpu).0
          ≡ (if n == k then to_hex_le v else handle_read_reg other cpu))
handle_read_reg-handle_write_reg number other n k v cpu hn hk clean small not_zero not_bad fits =
    let written = handle_write_reg-eq number (to_hex_le v) n cpu hn clean small in
    let after : (handle_write_reg (number ++ b'=' ∷ to_hex_le v) cpu).0 ≡ write_gdb_reg cpu n v =
      ap (λ (r : Cpu × Bool). r.0) written ∙ ap (write_gdb_reg cpu n) (le_bytes-to_hex_le v fits) in
    (
      ap (λ (r : Cpu × Bool). r.1) written,
      ap (handle_read_reg other) after
          ∙ handle_read_reg-any other k (write_gdb_reg cpu n v) hk
          ∙ reply-after n k v (read_gdb_reg cpu k) (read_gdb_reg (write_gdb_reg cpu n v) k) small
              (read_gdb_reg-write_gdb_reg cpu n k v small) not_zero not_bad
          ∙ ap (λ (t : Text). if n == k then to_hex_le v else t)
              (sym (handle_read_reg-any other k cpu hk)),
    )
