-- ===== src/SingleCycle/Invariant.antt =====
-- The words of the machine stay words: every step keeps the register file, memory, coprocessor and
use clear_core.Bits.{bit_or-lt, bit_and-lt}
use clear_core.Decoder.Laws.{HasFields, IsDecoded, decode-IsDecoded}
use clear_core.Processor.{Ext, StepResult}
use clear_core.DataMemory.Laws.{load_data-lt, store_data-IsMemory}
use clear_core.DataMemory.{load_data}
use clear_core.Alu.{AluResult}
use clear_core.Alu.Laws.{execute-lt}
use clear_core.Decoder.{
  is_funct, FunctCode, get_i, sign_extend, InstrFormat, Fields, decode, is_opcode, Opcode, r_fields,
  i_fields, get_j, j_fields,
}
use clear_core.Cp0.Laws.{IsCp0, raise-IsCp0, write-IsCp0, eret-IsCp0}
use clear_core.Decoder.{DecodedInstr, get_r}
use clear_core.Memory.{Memory, IsMemory}
use clear_core.Cp0.{Cp0, ExceptionCode}
use clear_core.Registers.Laws.{AllU32, write-AllU32}
use clear_core.Memory
use clear_core.Registers
use clear_core.Cp0
use clear_core.Alu
-- program counter within their widths.
use clear_core.SingleCycle.{
  Cpu, Executed, raise, exec_cop0, exec_ralu, exec_rtype, done, exec_branch, exec_imem, trapped,
  branch_target, exec_itype, exec_load, exec_store, extended, exec_ialu, finish, jump_target,
  conclude, dispatch_as, retire, step, step_fetched, step_decoded, ra,
}
use clear_core.Prelude.{
  ℕ, arith, ◌<◌, ◌^◌, Option-cases, if_both, inl, inr, ◌==◌, ◌&&◌, not, ◌+◌, add32,
}

pub record IsCpu (c : Cpu) : Type 0 where
  pub regs_fit : AllU32 c.regs
  pub mem_bytes : IsMemory c.mem
  pub cp0_fits : IsCp0 c.cp0
  pub pc_fits : c.pc < 2 ^ 32

pub record IsOutcome (e : Executed) : Type 0 where
  pub cpu_fits : IsCpu e.cpu
  pub next_fits : e.next_pc < 2 ^ 32

raise-IsCpu :
    (c : Cpu) (code : ExceptionCode) (pc bad : ℕ)
    → pc < 2 ^ 32
    → bad < 2 ^ 32
    → IsCpu c
    → IsCpu (raise c code pc bad).0
unfolding raise Cp0.raise
raise-IsCpu c code pc bad hp hb v = record {
  regs_fit = v.regs_fit;
  mem_bytes = v.mem_bytes;
  cp0_fits = raise-IsCp0 c.cp0 code pc bad hp hb v.cp0_fits;
  pc_fits = omega arith;
}

module _ (c : Cpu) (v : IsCpu c) where
  with_reg :
      (i value : ℕ) → value < 2 ^ 32 → IsCpu (record c { regs = Registers.write c.regs i value })
  with_reg i value h = record {
    regs_fit = write-AllU32 c.regs i value h v.regs_fit;
    mem_bytes = v.mem_bytes;
    cp0_fits = v.cp0_fits;
    pc_fits = v.pc_fits;
  }

  with_cp0 : (p : Cp0) → IsCp0 p → IsCpu (record c { cp0 = p })
  with_cp0 p h = record {
    regs_fit = v.regs_fit;
    mem_bytes = v.mem_bytes;
    cp0_fits = h;
    pc_fits = v.pc_fits;
  }

  with_mem : (m : Memory) → IsMemory m → IsCpu (record c { mem = m })
  with_mem m h = record {
    regs_fit = v.regs_fit;
    mem_bytes = h;
    cp0_fits = v.cp0_fits;
    pc_fits = v.pc_fits;
  }

  trapped-IsOutcome :
      (code : ExceptionCode) (pc bad next_pc : ℕ)
      → pc < 2 ^ 32
      → bad < 2 ^ 32
      → next_pc < 2 ^ 32
      → IsOutcome (trapped (raise c code pc bad) next_pc)
  trapped-IsOutcome code pc bad next_pc hp hb h = record {
    cpu_fits = raise-IsCpu c code pc bad hp hb v;
    next_fits = h;
  }

  with_reg-IsOutcome :
      (i value next_pc : ℕ)
      → value < 2 ^ 32
      → next_pc < 2 ^ 32
      → IsOutcome (done (record c { regs = Registers.write c.regs i value }) next_pc)
  with_reg-IsOutcome i value next_pc hv h = record { cpu_fits = with_reg i value hv; next_fits = h }

  exec_cop0-IsOutcome :
      (d : DecodedInstr) (next_pc : ℕ) → next_pc < 2 ^ 32 → IsOutcome (exec_cop0 c d next_pc)
  unfolding exec_cop0 Cp0.eret
  exec_cop0-IsOutcome d next_pc h =
      let r = get_r d in
      if_both IsOutcome (r.rs == 0x00)
        (with_reg-IsOutcome r.rt _ next_pc (Cp0.Laws.read_cp0-lt c.cp0 r.rd v.cp0_fits) h)
        (if_both IsOutcome (r.rs == 0x04)
          (record {
            cpu_fits = with_cp0 _ (
                write-IsCp0 c.cp0 r.rd _ (Registers.Laws.read-lt c.regs r.rt v.regs_fit)
                  v.cp0_fits);
            next_fits = h;
          })
          (if_both IsOutcome (r.rs == 0x10 && is_funct r.funct FunctCode.eret)
            (record {
              cpu_fits = with_cp0 _ (eret-IsCp0 c.cp0 v.cp0_fits);
              next_fits = v.cp0_fits.epc_fits;
            })
            (record { cpu_fits = v; next_fits = h })))

  exec_ralu-IsOutcome :
      (d : DecodedInstr) (pc4 next_pc : ℕ)
      → next_pc < 2 ^ 32
      → IsOutcome (exec_ralu c d pc4 next_pc)
  unfolding exec_ralu
  exec_ralu-IsOutcome d pc4 next_pc h = elim (Option-cases (Alu.control d)) [
    | inl e ↦ rw (e, exec_ralu) (record { cpu_fits = v; next_fits = h })
    | inr (op, e) ↦
        rw (e, exec_ralu)
          (if_both IsOutcome _
            (trapped-IsOutcome ExceptionCode.ov _ 0 next_pc (omega arith) (omega arith) h)
            (with_reg-IsOutcome (get_r d).rd _ next_pc
              (execute-lt op _ _ _ (Registers.Laws.read-lt c.regs _ v.regs_fit)
                (Registers.Laws.read-lt c.regs _ v.regs_fit))
              h))
  ]

  exec_rtype-IsOutcome :
      (d : DecodedInstr) (pc4 next_pc : ℕ)
      → pc4 < 2 ^ 32
      → next_pc < 2 ^ 32
      → IsOutcome (exec_rtype c d pc4 next_pc)
  unfolding exec_rtype
  exec_rtype-IsOutcome d pc4 next_pc h4 h = if_both IsOutcome _ (exec_cop0-IsOutcome d next_pc h) (
      if_both IsOutcome _
        (trapped-IsOutcome ExceptionCode.sys _ 0 next_pc (omega arith) (omega arith) h)
        (if_both IsOutcome _
          (trapped-IsOutcome ExceptionCode.bp _ 0 next_pc (omega arith) (omega arith) h)
          (if_both IsOutcome _
            (record {
              cpu_fits = v;
              next_fits = Registers.Laws.read-lt c.regs (get_r d).rs v.regs_fit;
            })
            (if_both IsOutcome _
              (with_reg-IsOutcome (get_r d).rd pc4 _ h4
                (Registers.Laws.read-lt c.regs (get_r d).rs v.regs_fit))
              (exec_ralu-IsOutcome d pc4 next_pc h)))))

  exec_branch-IsOutcome :
      (d : DecodedInstr) (pc4 next_pc : ℕ)
      → next_pc < 2 ^ 32
      → IsOutcome (exec_branch c d pc4 next_pc)
  unfolding exec_branch
  exec_branch-IsOutcome d pc4 next_pc h = elim (Option-cases (Alu.control d)) [
    | inl e ↦ rw (e, exec_branch) (record { cpu_fits = v; next_fits = h })
    | inr (op, e) ↦
        rw (e, exec_branch)
          (record {
            cpu_fits = v;
            next_fits =
                if_both (λ n. n < 2 ^ 32) _ {x = branch_target pc4 (get_i d).imm} (omega arith) h;
          })
  ]

  exec_load-IsOutcome :
      (d : DecodedInstr) (addr pc4 next_pc : ℕ)
      → addr < 2 ^ 32
      → next_pc < 2 ^ 32
      → IsOutcome (exec_load c d addr pc4 next_pc)
  unfolding exec_load
  exec_load-IsOutcome d addr pc4 next_pc ha h =
      elim (Option-cases (load_data c.mem d.opcode addr)) [
        | inl e ↦
            rw (e, exec_load)
              (trapped-IsOutcome ExceptionCode.ad_el _ addr next_pc (omega arith) ha h)
        | inr (loaded, e) ↦
            rw (e, exec_load)
              (with_reg-IsOutcome (get_i d).rt loaded next_pc
                (load_data-lt c.mem d.opcode addr v.mem_bytes e) h)
      ]

exec_store-IsOutcome :
    (c : Cpu) (v : IsCpu c) (d : DecodedInstr) (addr rt_val pc4 next_pc : ℕ)
    → addr < 2 ^ 32
    → next_pc < 2 ^ 32
    → IsOutcome (exec_store c d addr rt_val pc4 next_pc)
unfolding exec_store
exec_store-IsOutcome c v d addr rt_val pc4 next_pc ha h =
    let stored = with_mem c v _ (store_data-IsMemory c.mem d.opcode addr rt_val v.mem_bytes) in
    if_both IsOutcome _ (record { cpu_fits = stored; next_fits = h })
      (trapped-IsOutcome _ stored ExceptionCode.ad_es _ addr next_pc (omega arith) ha h)

module _ (c : Cpu) (v : IsCpu c) where
  exec_imem-IsOutcome :
      (d : DecodedInstr) (res : AluResult) (rt_val pc4 next_pc : ℕ)
      → res.value < 2 ^ 32
      → next_pc < 2 ^ 32
      → IsOutcome (exec_imem c d res rt_val pc4 next_pc)
  unfolding exec_imem
  exec_imem-IsOutcome d res rt_val pc4 next_pc hr h =
      if_both IsOutcome c.ctrl.mem_read (exec_load-IsOutcome c v d res.value pc4 next_pc hr h) (
        if_both IsOutcome c.ctrl.mem_write
          (exec_store-IsOutcome c v d res.value rt_val pc4 next_pc hr h)
          (with_reg-IsOutcome c v (get_i d).rt res.value next_pc hr h))

  extended-lt : (e : Ext) (imm : ℕ) → imm < 2 ^ 16 → extended e imm < 2 ^ 32
  unfolding sign_extend
  extended-lt Ext.sign imm h = ground arith
  extended-lt Ext.zero imm h = omega arith

  exec_ialu-IsOutcome :
      (d : DecodedInstr) (pc4 next_pc : ℕ)
      → (get_i d).imm < 2 ^ 16
      → next_pc < 2 ^ 32
      → IsOutcome (exec_ialu c d pc4 next_pc)
  unfolding exec_ialu
  exec_ialu-IsOutcome d pc4 next_pc hi h = elim (Option-cases (Alu.control d)) [
    | inl e ↦ rw (e, exec_ialu) (record { cpu_fits = v; next_fits = h })
    | inr (op, e) ↦
        rw (e, exec_ialu)
          (if_both IsOutcome _
            (trapped-IsOutcome c v ExceptionCode.ov _ 0 next_pc (omega arith) (omega arith) h)
            (exec_imem-IsOutcome d
              (Alu.execute op (Registers.read c.regs (get_i d).rs)
                (extended c.ctrl.ext (get_i d).imm) 0)
              _ pc4 next_pc
              (execute-lt op _ _ _ (Registers.Laws.read-lt c.regs _ v.regs_fit)
                (extended-lt c.ctrl.ext (get_i d).imm hi))
              h))
  ]

  exec_itype-IsOutcome :
      (d : DecodedInstr) (pc4 next_pc : ℕ)
      → (get_i d).imm < 2 ^ 16
      → next_pc < 2 ^ 32
      → IsOutcome (exec_itype c d pc4 next_pc)
  unfolding exec_itype
  exec_itype-IsOutcome d pc4 next_pc hi h =
      if_both IsOutcome _ (exec_branch-IsOutcome c v d pc4 next_pc h)
        (exec_ialu-IsOutcome d pc4 next_pc hi h)

  jump_target-lt : (pc4 target : ℕ) → pc4 < 2 ^ 32 → jump_target pc4 target < 2 ^ 32
  jump_target-lt pc4 target h =
      bit_or-lt 32 _ _ (bit_and-lt 32 pc4 0xf000_0000 h (omega arith)) (omega arith)

dispatch_as-IsOutcome :
    (f : InstrFormat) (c : Cpu) (d : DecodedInstr) (pc4 : ℕ)
    → IsCpu c
    → (get_i d).imm < 2 ^ 16
    → pc4 < 2 ^ 32
    → IsOutcome (dispatch_as f c d pc4)
unfolding dispatch_as
dispatch_as-IsOutcome InstrFormat.j c d pc4 v hi h = record {
  cpu_fits = if_both IsCpu (is_opcode d.opcode Opcode.jal) (with_reg c v ra pc4 h) v;
  next_fits = jump_target-lt c v pc4 (get_j d).target h;
}
dispatch_as-IsOutcome InstrFormat.r c d pc4 v hi h = exec_rtype-IsOutcome c v d pc4 pc4 h h
dispatch_as-IsOutcome InstrFormat.i c d pc4 v hi h = exec_itype-IsOutcome c v d pc4 pc4 hi h
dispatch_as-IsOutcome InstrFormat.unknown c d pc4 v hi h =
    trapped-IsOutcome c v ExceptionCode.ri c.pc 0 pc4 v.pc_fits (omega arith) h

retire-IsCpu :
    (cur_pc : ℕ) (c : Cpu) (next_pc : ℕ)
    → IsCpu c
    → next_pc < 2 ^ 32
    → IsCpu (retire cur_pc c next_pc).0
retire-IsCpu cur_pc c next_pc v h = record {
  regs_fit = v.regs_fit;
  mem_bytes = v.mem_bytes;
  cp0_fits = v.cp0_fits;
  pc_fits = h;
}

conclude-IsCpu :
    (r : StepResult) (cur_pc : ℕ) (c : Cpu) (next_pc : ℕ)
    → IsCpu c
    → next_pc < 2 ^ 32
    → IsCpu (conclude r cur_pc c next_pc).0
unfolding conclude
conclude-IsCpu StepResult.exception cur_pc c next_pc v h = v
conclude-IsCpu r cur_pc c next_pc v h = retire-IsCpu cur_pc c next_pc v h

finish-IsCpu : (cur_pc : ℕ) (e : Executed) → IsOutcome e → IsCpu (finish cur_pc e).0
unfolding finish
finish-IsCpu cur_pc e o =
    if_both {A = Cpu × StepResult} (λ p. IsCpu p.0) (not e.returned) o.cpu_fits
      (conclude-IsCpu e.exc cur_pc e.cpu e.next_pc o.cpu_fits o.next_fits)

get_i-imm-lt : (w : ℕ) (d : DecodedInstr) → IsDecoded w d → (get_i d).imm < 2 ^ 16
get_i-imm-lt w d h = imm_of d.format d.fields h.has_fields
  where
    imm_of :
        (f : InstrFormat) (fs : Fields)
        → HasFields f fs
        → (get_i (record { raw = 0; opcode = d.opcode; format = f; fields = fs })).imm < 2 ^ 16
    imm_of f (r_fields g) k = omega arith
    imm_of InstrFormat.i (i_fields g) k = k.2
    imm_of InstrFormat.r (i_fields g) k = absurd k
    imm_of InstrFormat.j (i_fields g) k = absurd k
    imm_of InstrFormat.unknown (i_fields g) k = absurd k
    imm_of f (j_fields g) k = omega arith

step_fetched-IsCpu : (c : Cpu) (w : ℕ) → IsCpu c → IsCpu (step_fetched c w).0
unfolding step_fetched step_decoded
step_fetched-IsCpu c w v = elim (Option-cases (decode w)) [
  | inl e ↦ rw (e, step_fetched) (raise-IsCpu c ExceptionCode.ri c.pc 0 v.pc_fits (omega arith) v)
  | inr (d, e) ↦
      rw (e, step_fetched)
        (finish-IsCpu c.pc _ (
          dispatch_as-IsOutcome d.format _ d (add32 c.pc 4)
            (record {
              regs_fit = v.regs_fit;
              mem_bytes = v.mem_bytes;
              cp0_fits = v.cp0_fits;
              pc_fits = v.pc_fits;
            })
            (get_i-imm-lt w d (decode-IsDecoded w e)) (omega arith)))
]

-- Every step of a machine whose words, bytes and addresses are within their widths leaves them so.
pub step-IsCpu : (c : Cpu) → IsCpu c → IsCpu (step c).0
unfolding step
step-IsCpu c v =
    let v' : IsCpu (record c { cycle = c.cycle + 1 }) = record {
      regs_fit = v.regs_fit;
      mem_bytes = v.mem_bytes;
      cp0_fits = v.cp0_fits;
      pc_fits = v.pc_fits;
    } in
    elim (Option-cases (Memory.read_word c.mem c.pc)) [
      | inl e ↦ rw (e, step) (raise-IsCpu _ ExceptionCode.ad_el c.pc c.pc v.pc_fits v.pc_fits v')
      | inr (w, e) ↦ rw (e, step) (step_fetched-IsCpu _ w v')
    ]
