-- ===== src/Cp0/Laws.antt =====
-- Raising an exception and returning from it.
use clear_core.Bits.Masks.{bit_and_two, bit_or_two, bit_clear_two, set_exc_code}
use clear_core.Cp0.{Cp0, ExceptionCode, raise, eret, in_exception, read, write, exception_number}
use clear_core.Prelude.{
  ℕ, arith, refl, ◌<◌, ◌≡◌, false, if◌then◌else◌, true, ◌/◌, ◌^◌, bit_or, ◌%◌, ◌==◌, ◌∙◌, bit_and,
  ◌&&◌, not32, ◌||◌, shl32, ◌*◌, ◌+◌,
}

-- The four registers are 32-bit words.
pub record IsCp0 (c : Cp0) : Type 0 where
  pub status_fits : c.status < 2 ^ 32
  pub cause_fits : c.cause < 2 ^ 32
  pub epc_fits : c.epc < 2 ^ 32
  pub bad_vaddr_fits : c.bad_vaddr < 2 ^ 32

-- `Status.EXL` as arithmetic.
pub in_exception-eq : (c : Cp0) → in_exception c ≡ (c.status / 2 % 2 == 1)
unfolding in_exception
in_exception-eq c = ground (arith, bit_and_two c.status)

-- What a raised exception leaves: the vector is the next address, `EXL` is set and the rest of
-- `Status` kept, bits 2 to 6 of `Cause` hold the code and its others are kept, and `EPC` is the
-- faulting address unless an exception was already being handled.
pub record IsRaised (c : Cp0) (code : ExceptionCode) (pc bad : ℕ) (c' : Cp0) : Type 0 where
  pub entered : in_exception c' ≡ true
  pub other_status : (c'.status / 4 ≡ c.status / 4) × (c'.status % 2 ≡ c.status % 2)
  pub exc_code : c'.cause / 4 % 32 ≡ exception_number code
  pub other_cause : (c'.cause / 128 ≡ c.cause / 128) × (c'.cause % 4 ≡ c.cause % 4)
  pub first_epc : c'.epc ≡ (if in_exception c then c.epc else pc)
  pub fault_address : c'.bad_vaddr ≡ bad

exception_number-lt : (code : ExceptionCode) → exception_number code < 32
exception_number-lt ExceptionCode.int = omega arith
exception_number-lt code = omega arith

raised_cause :
    (x : ℕ) (code : ExceptionCode)
    → x < 2 ^ 32
    → bit_or (bit_and x (not32 0x7c)) (shl32 (exception_number code) 2)
      ≡ x / 128 * 128 + exception_number code * 4 + x % 4
raised_cause x code h =
    ground (arith, exception_number-lt code, set_exc_code x (exception_number code))

-- Raising an exception on a coprocessor whose registers are 32-bit words leaves such a state.
pub raise-IsRaised :
    (c : Cp0) (code : ExceptionCode) (pc bad : ℕ)
    → IsCp0 c
    → IsRaised c code pc bad (raise c code pc bad).0
unfolding raise
raise-IsRaised c code pc bad v = record {
  entered = rw in_exception-eq (ground (arith, bit_or_two c.status));
  other_status = ground (arith, bit_or_two c.status);
  exc_code = omega (arith, raised_cause c.cause code v.cause_fits, exception_number-lt code);
  other_cause = omega (arith, raised_cause c.cause code v.cause_fits, exception_number-lt code);
  first_epc = ground arith;
  fault_address = refl;
}

pub raise-IsCp0 :
    (c : Cp0) (code : ExceptionCode) (pc bad : ℕ)
    → pc < 2 ^ 32
    → bad < 2 ^ 32
    → IsCp0 c
    → IsCp0 (raise c code pc bad).0
unfolding raise
raise-IsCp0 c code pc bad hp hb v = record {
  status_fits = omega (arith, bit_or_two c.status, v.status_fits);
  cause_fits =
      omega (arith, raised_cause c.cause code v.cause_fits, exception_number-lt code, v.cause_fits);
  epc_fits = ground (arith, v.epc_fits);
  bad_vaddr_fits = hb;
}

-- On 32-bit registers, `ERET` after an exception from outside the handler goes back to the faulting address and restores
-- `Status`.
pub eret-raise :
    (c : Cp0) (code : ExceptionCode) (pc bad : ℕ)
    → IsCp0 c
    → in_exception c ≡ false
    → ((eret (raise c code pc bad).0).1 ≡ pc) × ((eret (raise c code pc bad).0).0.status ≡ c.status)
unfolding eret raise
eret-raise c code pc bad v out = (
  ground arith,
  ground (
    arith,
    in_exception-eq c,
    bit_or_two c.status,
    v.status_fits,
    bit_clear_two (bit_or c.status 2),
  ),
)

-- On 32-bit registers, an exception inside the handler of one that came from outside any keeps the
-- address of the first: `ERET` goes back to the instruction that
-- trapped, not into the handler.
pub eret-raise-raise :
    (c : Cp0) (code code' : ExceptionCode) (pc pc' bad bad' : ℕ)
    → IsCp0 c
    → in_exception c ≡ false
    → (eret (raise (raise c code pc bad).0 code' pc' bad').0).1 ≡ pc
unfolding eret
eret-raise-raise c code code' pc pc' bad bad' v out =
    let once = raise-IsRaised c code pc bad v in
    first_kept _ once.entered ∙ once.first_epc ∙ rw out refl
  where
    first_kept : (d : Cp0) → in_exception d ≡ true → (raise d code' pc' bad').0.epc ≡ d.epc
    first_kept d e = unfold raise in rw e refl

-- `MTC0` then `MFC0`: `Status`, `Cause` and `EPC` are read back, every other register ignores the
-- write.
pub read-write_cp0 :
    (c : Cp0) (i j value : ℕ)
    → read (write c i value) j
      ≡ (if (i == j) && ((i == 12) || (i == 13) || (i == 14)) then value else read c j)
unfolding read write
read-write_cp0 c i j value = ground arith

pub write-IsCp0 : (c : Cp0) (i value : ℕ) → value < 2 ^ 32 → IsCp0 c → IsCp0 (write c i value)
unfolding write
write-IsCp0 c i value h v = ground arith

pub read_cp0-lt : (c : Cp0) (i : ℕ) → IsCp0 c → read c i < 2 ^ 32
unfolding read
read_cp0-lt c i v = ground arith

pub eret-IsCp0 : (c : Cp0) → IsCp0 c → IsCp0 (eret c).0
unfolding eret
eret-IsCp0 c v = record {
  status_fits = omega (arith, bit_clear_two c.status v.status_fits, v.status_fits);
  cause_fits = v.cause_fits;
  epc_fits = v.epc_fits;
  bad_vaddr_fits = v.bad_vaddr_fits;
}

-- Every exception overwrites `BadVAddr`, also those that carry no address, for which it becomes 0.
pub raise-bad_vaddr : (c : Cp0) (code : ExceptionCode) (pc : ℕ) → read (raise c code pc 0).0 8 ≡ 0
unfolding raise read
raise-bad_vaddr c code pc = refl
