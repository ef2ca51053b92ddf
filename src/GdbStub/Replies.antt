-- ===== src/GdbStub/Replies.antt =====
-- Register commands against one another, and what a second stop reports.
use clear_core.Cp0.{ExceptionCode, write, in_exception}
use clear_core.SingleCycle.{Cpu}
use native.Mathlib.Decide.{ℕ_discrete}
use clear_core.Registers
use clear_core.Cp0
use clear_core.Registers.Laws.{read-write, read-zero}
use clear_core.Prelude.{
  ℕ, ◌<◌, ◌≡◌, if◌then◌else◌, ◌==◌, ◌&&◌, not, Bool-cases, ltb, inl, arith, ◌≤◌, inr, ◌∙◌,
}
use clear_core.GdbStub.Access.{read_gdb_reg, write_gdb_reg}

-- The general registers, and the others, one at a time.
general-read :
    (cpu : Cpu) (n k v : ℕ)
    → n < 32
    → read_gdb_reg (record cpu { regs = Registers.write cpu.regs n v }) k
      ≡ (if (n == k) && not (n == 0) then v else read_gdb_reg cpu k)
unfolding read_gdb_reg
general-read cpu n k v h = elim (Bool-cases (ltb k 32)) [
  | inl e ↦ rw (read-write cpu.regs n k v h (ground arith)) (ground (arith, read-zero cpu.regs))
  | inr e ↦ ground arith
]

others-read :
    (cpu : Cpu) (n k v : ℕ)
    → 32 ≤ n
    → n < 38
    → read_gdb_reg (write_gdb_reg cpu n v) k
      ≡ (if (n == k) && not (n == 0) && not (n == 35) then v else read_gdb_reg cpu k)
unfolding read_gdb_reg write_gdb_reg Cp0.write
others-read cpu n k v low high = elim (ℕ_discrete n 32) [
  | yes e ↦ rw e (ground arith)
  | no e32 ↦ elim (ℕ_discrete n 33) [
    | yes e ↦ rw e (ground arith)
    | no e33 ↦ elim (ℕ_discrete n 34) [
      | yes e ↦ rw e (ground arith)
      | no e34 ↦ elim (ℕ_discrete n 35) [
        | yes e ↦ rw e (ground arith)
        | no e35 ↦ elim (ℕ_discrete n 36) [
          | yes e ↦ rw e (ground arith)
          | no e36 ↦ elim (ℕ_discrete n 37) [
            | yes e ↦ rw e (ground arith)
            | no e37 ↦ absurd (omega arith)
          ]
        ]
      ]
    ]
  ]
]

-- A register that is written reads as the value, and no other register changes: register 0 and
-- BadVAddr keep their value.
pub read_gdb_reg-write_gdb_reg :
    (cpu : Cpu) (n k v : ℕ)
    → n < 38
    → read_gdb_reg (write_gdb_reg cpu n v) k
      ≡ (if (n == k) && not (n == 0) && not (n == 35) then v else read_gdb_reg cpu k)
unfolding write_gdb_reg
read_gdb_reg-write_gdb_reg cpu n k v h = elim (Bool-cases (ltb n 32)) [
  | inl e ↦ rw e (general-read cpu n k v (ground arith) ∙ ground arith)
  | inr e ↦ others-read cpu n k v (ground arith) h
]
