-- ===== src/Control/Laws.antt =====
-- What every control word satisfies.
use clear_core.Prelude.{arith, ◌≡◌, false, ◌&&◌, ◌||◌}
use clear_core.Decoder.{DecodedInstr, Opcode, FunctCode}
use clear_core.Processor.{Control}
use clear_core.Control.{derive_control, r_type_control, i_type_control}

-- A control word that the stages can carry out: what is read from memory is what is written back,
-- no instruction both loads and stores, a store writes no register, and a branch neither accesses
-- memory nor writes a register.
pub record IsConsistent (k : Control) : Type 0 where
  pub load_written : k.mem_to_reg ≡ k.mem_read
  pub one_access : (k.mem_read && k.mem_write) ≡ false
  pub store_only : (k.mem_write && k.reg_write) ≡ false
  pub branch_only : (k.branch && (k.reg_write || k.mem_read || k.mem_write || k.jump)) ≡ false

r_type_control-IsConsistent : (op : Opcode) (f : FunctCode) → IsConsistent (r_type_control op f)
unfolding r_type_control
r_type_control-IsConsistent op f = ground arith

i_type_control-IsConsistent : (op : Opcode) → IsConsistent (i_type_control op)
unfolding i_type_control
i_type_control-IsConsistent op = ground arith

-- Every control word is consistent, for any decoded instruction.
pub derive_control-IsConsistent : (d : DecodedInstr) → IsConsistent (derive_control d)
unfolding derive_control
derive_control-IsConsistent d = ground arith
