-- ===== src/Pipeline/Forwarding.antt =====
-- The forwarding unit against the register file that the older instructions leave.
use clear_core.Pipeline.Loads.{IsAfter, Names, decode_stage-IsAfter, decode-AreRead, id_indices-lt}
use clear_core.Decoder.{DecodedInstr, decode}
use clear_core.Cp0.{Cp0}
use clear_core.DataMemory.{store_data, load_data}
use clear_core.Prelude.{
  refl, ◌<◌, ◌≡◌, if◌then◌else◌, none, true, false, sym, ◌&&◌, ◌==◌, Bool, Bool-cases, Option,
  if_both, ◌≢◌, inl, some, inr, if_cases, not,
}
use clear_core.Memory.{Memory}
use clear_core.Registers
use clear_core.Registers.{RegisterFile}
use clear_core.Registers.Laws.{read-write, read-zero}
use clear_core.Processor.{Control}
use clear_core.Pipeline.Regs.{IdEx, ExMem, MemWb, no_mem_wb, IfId}
use clear_core.Pipeline.Units.{
  forward_operands, wb_val, mem_wb_forwards, ex_mem_forwards, is_index, load_use_hazard,
  source_registers,
}
use clear_core.Pipeline.Stages.{
  execute, write_back, memory_access, memory_load, memory_store, passed_on, MemOutcome,
  decode_stage, id_decoded, id_indices, IdOutcome,
}
use clear_core.Prelude.{ℕ, arith}

read_if :
    (b : Bool) (x y : RegisterFile) (j : ℕ)
    → Registers.read (if b then x else y) j ≡ (if b then Registers.read x j else Registers.read y j)
read_if true x y j = refl
read_if false x y j = refl

read_at_zero : (regs : RegisterFile) (j : ℕ) → j ≡ 0 → Registers.read regs j ≡ 0
read_at_zero regs j e = rw e (read-zero regs)

write_back_lem :
    (regs : RegisterFile) (ctrl : Control) (w : MemWb)
    → (write_back regs ctrl w).0
      ≡ (if mem_wb_forwards w then Registers.write regs w.write_reg (wb_val w) else regs)
unfolding write_back
write_back_lem regs ctrl w = elim (Bool-cases w.valid) [ inl e ↦ rw e refl | inr e ↦ rw e refl ]

-- A register after WB.
pub read-write_back :
    (regs : RegisterFile) (ctrl : Control) (w : MemWb) (j : ℕ)
    → w.write_reg < 32
    → j < 32
    → Registers.read (write_back regs ctrl w).0 j
      ≡ (if mem_wb_forwards w && w.write_reg == j then wb_val w else Registers.read regs j)
read-write_back regs ctrl w j hw hj =
    rw (write_back_lem regs ctrl w, read_if, read-write regs w.write_reg j (wb_val w) hw hj)
      (ground (arith, read_at_zero regs j))

-- What MEM hands to WB when it does not trap: nothing for a bubble, else the instruction with its
-- ALU result, which is what WB writes unless it is a load.
pub record IsPassed (e : ExMem) (w : MemWb) : Type 0 where
  pub same_valid : w.valid ≡ e.valid
  pub same_dest : e.valid ≡ true → w.write_reg ≡ e.write_reg
  pub same_write : e.valid ≡ true → w.ctrl.reg_write ≡ e.ctrl.reg_write
  pub same_value : e.valid ≡ true → e.ctrl.mem_to_reg ≡ false → wb_val w ≡ e.alu.value
  pub small_dest : e.write_reg < 32 → w.write_reg < 32

passed_on-IsPassed : (e : ExMem) (v : ℕ) → e.valid ≡ true → IsPassed e (passed_on e v)
passed_on-IsPassed e v h = record {
  same_valid = sym h;
  same_dest = λ _. refl;
  same_write = λ _. refl;
  same_value = λ _ p. rw p refl;
  small_dest = λ s. s;
}

bubble-IsPassed : (e : ExMem) → e.valid ≡ false → IsPassed e no_mem_wb
bubble-IsPassed e h = record {
  same_valid = sym h;
  same_dest = λ v. cc;
  same_write = λ v. cc;
  same_value = λ v. cc;
  small_dest = λ _. omega arith;
}

-- An outcome of MEM that does not trap passes its instruction on.
abbrev Passes : ExMem → MemOutcome → Type 0
Passes e o = o.trap ≡ none → IsPassed e o.next

memory_store-Passes :
    (mem : Memory) (e : ExMem) (v : ℕ) → e.valid ≡ true → Passes e (memory_store mem e v).1
unfolding memory_store
memory_store-Passes mem e v h =
    if_both {A = Memory × MemOutcome} (λ p. Passes e p.1) e.ctrl.mem_write
      (if_both {A = MemOutcome} (Passes e) (store_data mem e.opcode e.alu.value e.rt_val).1
        (λ _. passed_on-IsPassed e v h) (λ t. cc))
      (λ _. passed_on-IsPassed e v h)

memory_load-Passes :
    (mem : Memory) (e : ExMem) (o : Option ℕ) → e.valid ≡ true → Passes e (memory_load mem e o).1
unfolding memory_load
memory_load-Passes mem e none h = λ t. cc
memory_load-Passes mem e (some v) h = memory_store-Passes mem e v h

pub memory_access-Passes :
    (mem : Memory) (e : ExMem)
    → (memory_access mem e).1.trap ≡ none
    → IsPassed e (memory_access mem e).1.next
unfolding memory_access
memory_access-Passes mem e =
    if_cases {A = Memory × MemOutcome} (λ p. Passes e p.1) (not e.valid)
      (λ h _. bubble-IsPassed e (ground arith))
      λ h.
        let v : e.valid ≡ true = ground arith in
        if_both {A = Memory × MemOutcome} (λ p. Passes e p.1) e.ctrl.mem_read
          (memory_load-Passes mem e (load_data mem e.opcode e.alu.value) v)
          (memory_store-Passes mem e 0 v)

-- One operand: the forwarded value is what the two write-backs would leave.
operand :
    (s v r : ℕ) (e : ExMem) (n w : MemWb)
    → IsPassed e n
    → v ≡ r
    → e.ctrl.mem_to_reg ≡ e.ctrl.mem_read
    → (e.valid ≡ true → e.ctrl.mem_read ≡ true → e.write_reg ≢ 0 → e.write_reg ≢ s)
    → (if mem_wb_forwards w && w.write_reg == s && not (ex_mem_forwards e && e.write_reg == s)
        then wb_val w
        else if ex_mem_forwards e && e.write_reg == s
        then e.alu.value
        else v)
      ≡ (if mem_wb_forwards n && n.write_reg == s
          then wb_val n
          else if mem_wb_forwards w && w.write_reg == s
          then wb_val w
          else r)
operand s v r e n w p same l no_use =
    ground (arith, p.same_valid, p.same_dest, p.same_write, p.same_value)

-- The operand that is forwarded is what the register holds, if the instruction reads one.
abbrev pub IsOperand : Option ℕ → ℕ → RegisterFile → Type 0
IsOperand none v regs = Unit
IsOperand (some r) v regs = v ≡ Registers.read regs r

-- An index that the hazard unit did not wait for is not the destination of a load.
not_awaited :
    (before : IdEx) (f : IfId) (e : ExMem) {d : DecodedInstr}
    → IsAfter before e
    → f.valid ≡ true
    → f.fetch_fault ≡ false
    → decode f.instr ≡ some d
    → load_use_hazard before f ≡ false
    → e.valid ≡ true
    → e.ctrl.mem_read ≡ true
    → e.write_reg ≢ 0
    → (is_index e.write_reg (source_registers d).a ≡ false)
      × (is_index e.write_reg (source_registers d).b ≡ false)
unfolding load_use_hazard
not_awaited before f e {d} k fv ff h z v r nz =
    let z' = rw h at z in
    rw (k.same_dest v r) (ground (arith, k.was_valid v, k.was_load v r, k.same_dest v r))

index-ne : (n r : ℕ) → is_index n (some r) ≡ false → n ≢ r
index-ne n r h = ground arith

-- What the forwarding unit gives for index `s`, with `v` from the register file.
abbrev forwarded : ℕ → ℕ → ExMem → MemWb → ℕ
forwarded s v e w =
    if mem_wb_forwards w && w.write_reg == s && not (ex_mem_forwards e && e.write_reg == s)
    then wb_val w
    else if ex_mem_forwards e && e.write_reg == s
    then e.alu.value
    else v

module _ (regs : RegisterFile) (ctrl ctrl' : Control) (e : ExMem) (n w : MemWb) (p : IsPassed e n)
    (dest : e.write_reg < 32) (small : w.write_reg < 32)
    (l : e.ctrl.mem_to_reg ≡ e.ctrl.mem_read) where
  -- One operand that is named, or not.
  forwarded-IsOperand :
      (o : Option ℕ) (s v : ℕ)
      → Names o s
      → s < 32
      → v ≡ Registers.read regs s
      → (e.valid ≡ true → e.ctrl.mem_read ≡ true → e.write_reg ≢ 0 → is_index e.write_reg o ≡ false)
      → IsOperand o (forwarded s v e w) (write_back (write_back regs ctrl w).0 ctrl' n).0
  forwarded-IsOperand none s v names lt same waits = tt
  forwarded-IsOperand (some k) s v names lt same waits = rw names (
      rw
        (
          read-write_back (write_back regs ctrl w).0 ctrl' n s (p.small_dest dest) lt,
          read-write_back regs ctrl w s small lt,
        )
        (operand s v (Registers.read regs s) e n w p same l
          (λ valid load nz. rw (← names) (index-ne e.write_reg k (waits valid load nz)))))

-- What ID puts into ID/EX, and EX into EX/MEM.
abbrev pub filled : RegisterFile → IfId → IdEx
filled regs f = (decode_stage regs f).next

abbrev pub handed : Cp0 → IdEx → ExMem → MemWb → ExMem
handed cp0 in_ex e w = (execute cp0 in_ex e w).next

-- ID/EX after a word that decodes.
record IsFilled (regs : RegisterFile) (d : DecodedInstr) (in_ex : IdEx) : Type 0 where
  same_rs : in_ex.rs ≡ (id_indices d).0
  same_rt : in_ex.rt ≡ (id_indices d).1
  rs_read : in_ex.rs_val ≡ Registers.read regs (id_indices d).0
  rt_read : in_ex.rt_val ≡ Registers.read regs (id_indices d).1

filled-IsFilled :
    (regs : RegisterFile) (f : IfId) {d : DecodedInstr}
    → f.fetch_fault ≡ false
    → decode f.instr ≡ some d
    → IsFilled regs d (filled regs f)
unfolding decode_stage id_decoded
filled-IsFilled regs f {d} ff h =
    if_cases {A = IdOutcome} (λ o. IsFilled regs d o.next) f.fetch_fault
      (λ bad. absurd (cc (ff, bad)))
      (λ good. rw h (record { same_rs = refl; same_rt = refl; rs_read = refl; rt_read = refl }))

-- The forwarding unit gives an instruction in EX the register values of program order. ID filled in
-- the instruction `before` in EX, that of `f'`, and then, in the cycle in which that one was in EX and
-- there was no load-use stall, the one of `f` behind it, from the register file of that cycle. Then, in
-- the next cycle, if the one in MEM does not trap, each operand of the second that is a register it
-- reads, as the hazard unit names them, is what that register holds after the two older instructions
-- have gone through WB: the one in WB, with a register index below 32, and `before`.
pub forward_operands-refines :
    (cp0 : Cp0) (regs regs' : RegisterFile) (ctrl ctrl' : Control) (mem : Memory) (f f' : IfId)
    (e' : ExMem) (w w' : MemWb) {d : DecodedInstr}
    → f.valid ≡ true
    → f.fetch_fault ≡ false
    → decode f.instr ≡ some d
    → w.write_reg < 32
    → load_use_hazard (filled regs' f') f ≡ false
    → (memory_access mem (handed cp0 (filled regs' f') e' w')).1.trap ≡ none
    → let e = handed cp0 (filled regs' f') e' w' in
      let ops = forward_operands (filled regs f) e w in
      let older = (write_back (write_back regs ctrl w).0 ctrl' (memory_access mem e).1.next).0 in
      IsOperand (source_registers d).a ops.a older × IsOperand (source_registers d).b ops.b older
unfolding forward_operands
forward_operands-refines cp0 regs regs' ctrl ctrl' mem f f' e' w w' {d} fv ff h small z t =
    let before = filled regs' f' in
    let e = handed cp0 before e' w' in
    let k = decode_stage-IsAfter cp0 regs' f' e' w' in
    let p = memory_access-Passes mem e t in
    let n = (memory_access mem e).1.next in
    let i = filled-IsFilled regs f ff h in
    let (names_a, names_b) = decode-AreRead f.instr h in
    let (small_a, small_b) = id_indices-lt f.instr h in
    let waits = not_awaited before f e k fv ff h z in
    rw (i.same_rs, i.same_rt)
      (
        forwarded-IsOperand regs ctrl ctrl' e n w p k.small_dest small k.from_memory
            (source_registers d).a (id_indices d).0 (filled regs f).rs_val names_a small_a i.rs_read
            (λ v r nz. (waits v r nz).0),
        forwarded-IsOperand regs ctrl ctrl' e n w p k.small_dest small k.from_memory
            (source_registers d).b (id_indices d).1 (filled regs f).rt_val names_b small_b i.rt_read
            (λ v r nz. (waits v r nz).1),
      )
