-- ===== src/QuickSimulator/Dump.antt =====
-- The rows of `memoryRows` of src/nsc_quick/quick_simulator.cpp.
use clear_core.Memory.{Memory, read_byte}
use clear_core.Text.{Text, codes}
use clear_core.Text.Numbers.{to_lower_hex, zero_filled}
use clear_core.Prelude.{
  ℕ, zero, suc, ◌&&◌, none, some, List, [], ◌∷◌, ◌++◌, ◌==◌, leb, ltb, if◌then◌else◌, add32,
}

-- A row of the hex dump, from this byte of it on.
unfoldable pub row_bytes : Memory → ℕ → ℕ → ℕ → Text × Text
row_bytes m addr b zero = ([], [])
row_bytes m addr b (suc count) =
    let (hex, ascii) = row_bytes m addr (suc b) count in
    let gap : Text = if b == 7 then b' ' ∷ hex else hex in
    elim (read_byte m (add32 addr b)) [
      | some byte ↦ (
        zero_filled 2 (to_lower_hex byte) ++ (b' ' ∷ gap),
        (if leb 0x20 byte && ltb byte 0x7f then byte else b'.') ∷ ascii,
      )
      | none ↦ (codes "-- " ++ gap, b' ' ∷ ascii)
    ]

unfoldable pub rows_from : Memory → ℕ → ℕ → List Text
unfolding row_bytes
rows_from m addr zero = []
rows_from m addr (suc rows) =
    let (hex, ascii) = row_bytes m addr 0 16 in
    (zero_filled 8 (to_lower_hex addr)
      ++ (codes "  " ++ (hex ++ (codes " |" ++ (ascii ++ codes "|")))))
    ∷ rows_from m (add32 addr 16) rows
