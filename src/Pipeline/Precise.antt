-- ===== src/Pipeline/Precise.antt =====
-- What a cycle that traps leaves, and the load-use stall.
use clear_core.Cp0
use clear_core.Memory.{Memory}
use clear_core.DataMemory.{load_data, store_data}
use clear_core.DataMemory.Laws.{store_data_fails}
use clear_core.Processor.{StepResult}
use clear_core.Pipeline.{Cpu, Cycle, run_stages, step, commit, resolve, oldest_trap, front_end}
use clear_core.Pipeline.Regs.{ExMem, no_if_id, no_id_ex, no_ex_mem, no_mem_wb, IfId, IdEx}
use clear_core.Pipeline.Stages.{
  Trap, MemOutcome, memory_access, memory_load, memory_store, mem_trap, write_back,
}
use clear_core.Pipeline.Units.{load_use_hazard}
use clear_core.Prelude.{
  ℕ, arith, refl, ◌≡◌, ◌≢◌, Option, none, some, true, false, if_cases, if_both, Bool, not,
  if◌then◌else◌,
}

-- The trap that a cycle takes, that of MEM before that of EX.
abbrev pub taken_trap : Cpu → Option Trap
taken_trap c = oldest_trap (run_stages c).mem_out.trap (run_stages c).ex_out.trap

-- A cycle that takes trap `t`: it returns `Exception`, goes on at the vector with both younger stages
-- flushed, and enters the exception on the state of the coprocessor before the cycle, so that no
-- `MTC0` or `ERET` of a younger instruction has an effect.
pub record IsTrapped (c : Cpu) (t : Trap) (after : Cpu) (r : StepResult) : Type 0 where
  pub result : r ≡ StepResult.exception
  pub vectored : after.pc ≡ 0x8000_0180
  pub no_fetched : after.if_id ≡ no_if_id
  pub no_decoded : after.id_ex ≡ no_id_ex
  pub entered : after.cp0 ≡ (Cp0.raise c.cp0 t.code t.pc t.bad_addr).0

commit-IsTrapped :
    (c : Cpu) (y : Cycle) (t : Trap)
    → oldest_trap y.mem_out.trap y.ex_out.trap ≡ some t
    → IsTrapped c t (commit c y).0 (commit c y).1
unfolding commit resolve front_end Cp0.raise
commit-IsTrapped c y t e =
    rw (e, commit)
      (record {
        result = refl;
        vectored = refl;
        no_fetched = refl;
        no_decoded = refl;
        entered = refl;
      })

-- A cycle in which MEM or EX traps is such a cycle, for the trap that `oldest_trap` takes.
pub step-IsTrapped :
    (c : Cpu) (t : Trap) → taken_trap c ≡ some t → IsTrapped c t (step c).0 (step c).1
unfolding step
step-IsTrapped c t e = commit-IsTrapped c (run_stages c) t e

result-ne-fault :
    (c : Cpu) (y : Cycle) (o : Option Trap)
    → (resolve c.cp0 y.halted o y.ex_out).result ≢ StepResult.fault
unfolding resolve
result-ne-fault c y none = ground arith
result-ne-fault c y (some t) = ground arith

-- No cycle of the pipelined machine returns `Fault`.
pub cycle-ne-fault : (c : Cpu) → (step c).1 ≢ StepResult.fault
unfolding step commit
cycle-ne-fault c = result-ne-fault c (run_stages c) (taken_trap c)

-- What MEM leaves of an instruction that traps in it.
record IsUndone (mem : Memory) (e : ExMem) (mem' : Memory) (o : MemOutcome) (t : Trap)
    : Type 0 where
  same_memory : mem' ≡ mem
  bubble : o.next ≡ no_mem_wb
  same_pc : t.pc ≡ e.pc
  same_address : t.bad_addr ≡ e.alu.value

abbrev Undoes : Memory → ExMem → Memory × MemOutcome → Type 0
Undoes mem e p = (t : Trap) → p.1.trap ≡ some t → IsUndone mem e p.0 p.1 t

mem_trap-IsUndone :
    (mem mem' : Memory) (code : Cp0.ExceptionCode) (e : ExMem) (t : Trap)
    → mem' ≡ mem
    → (mem_trap code e).trap ≡ some t
    → IsUndone mem e mem' (mem_trap code e) t
mem_trap-IsUndone mem mem' code e t same h = record {
  same_memory = same;
  bubble = refl;
  same_pc = ground arith;
  same_address = ground arith;
}

memory_store-Undoes : (mem : Memory) (e : ExMem) (v : ℕ) → Undoes mem e (memory_store mem e v)
unfolding memory_store
memory_store-Undoes mem e v =
    if_both {A = Memory × MemOutcome} (Undoes mem e) e.ctrl.mem_write
      (λ t.
        let stored = store_data mem e.opcode e.alu.value e.rt_val in
        if_cases {A = MemOutcome} (λ o. o.trap ≡ some t → IsUndone mem e stored.0 o t) stored.1
          (λ done h. cc)
          (λ fails h.
            mem_trap-IsUndone mem stored.0 Cp0.ExceptionCode.ad_es e t
              (store_data_fails mem e.opcode e.alu.value e.rt_val fails) h))
      (λ t h. cc)

memory_load-Undoes : (mem : Memory) (e : ExMem) (o : Option ℕ) → Undoes mem e (memory_load mem e o)
unfolding memory_load
memory_load-Undoes mem e none t h = mem_trap-IsUndone mem mem Cp0.ExceptionCode.ad_el e t refl h
memory_load-Undoes mem e (some v) t h = memory_store-Undoes mem e v t h

memory_access-Undoes : (mem : Memory) (e : ExMem) → Undoes mem e (memory_access mem e)
unfolding memory_access
memory_access-Undoes mem e =
    if_both {A = Memory × MemOutcome} (Undoes mem e) (not e.valid) (λ t h. cc)
      (if_both {A = Memory × MemOutcome} (Undoes mem e) e.ctrl.mem_read
        (memory_load-Undoes mem e (load_data mem e.opcode e.alu.value))
        (memory_store-Undoes mem e 0))

-- A precise trap of the instruction in MEM: nothing of it or of a younger instruction is kept, and
-- the older one in WB is.
pub record IsPrecise (c : Cpu) (after : Cpu) (r : StepResult) : Type 0 where
  pub same_memory : after.mem ≡ c.mem
  pub older_completes : after.regs ≡ (write_back c.regs c.ctrl c.mem_wb).0
  pub no_younger : after.ex_mem ≡ no_ex_mem
  pub no_trapping : after.mem_wb ≡ no_mem_wb
  pub result : r ≡ StepResult.exception
  pub vectored : after.pc ≡ 0x8000_0180
  pub epc_set : after.cp0.epc ≡ (if Cp0.in_exception c.cp0 then c.cp0.epc else c.ex_mem.pc)
  pub address_set : after.cp0.bad_vaddr ≡ c.ex_mem.alu.value

pub if_swap : (b : Bool) (x y : ℕ) → (if not b then x else y) ≡ (if b then y else x)
if_swap b x y = ground arith

-- A cycle in which the load or store in MEM traps is precise: the older instruction in WB completes,
-- memory is unchanged, neither the trapping instruction nor the one in EX reaches a later stage, the
-- result is `Exception` at the vector, `EPC` gets its address unless an exception was already being
-- handled, and `BadVAddr` gets the address it accessed.
pub step-IsPrecise :
    (c : Cpu) (t : Trap)
    → (memory_access c.mem c.ex_mem).1.trap ≡ some t
    → IsPrecise c (step c).0 (step c).1
unfolding step commit run_stages Cp0.raise
step-IsPrecise c t h =
    let u = memory_access-Undoes c.mem c.ex_mem t h in
    let taken = step-IsTrapped c t (rw h refl) in
    record {
      same_memory = u.same_memory;
      older_completes = refl;
      no_younger = rw h refl;
      no_trapping = u.bubble;
      result = taken.result;
      vectored = taken.vectored;
      epc_set =
          rw taken.entered (rw u.same_pc (if_swap (Cp0.in_exception c.cp0) c.ex_mem.pc c.cp0.epc));
      address_set = rw taken.entered u.same_address;
    }

stall_bubbles :
    (o : Option ℕ) (pc : ℕ) (cur next : IfId) (id : IdEx)
    → (front_end o none true pc cur next id).new_id ≡ no_id_ex
unfolding front_end
stall_bubbles none pc cur next id = refl
stall_bubbles (some t) pc cur next id = refl

bubble_waits_not : (f : IfId) → load_use_hazard no_id_ex f ≡ false
unfolding load_use_hazard
bubble_waits_not f = refl

-- A load-use stall lasts one cycle: after a cycle that stalls, the instruction in ID does not wait.
pub stall_once :
    (c : Cpu)
    → load_use_hazard c.id_ex c.if_id ≡ true
    → load_use_hazard (step c).0.id_ex (step c).0.if_id ≡ false
unfolding step commit run_stages
stall_once c h = rw (h, stall_bubbles) (bubble_waits_not _)
