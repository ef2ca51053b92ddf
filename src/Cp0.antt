-- ===== src/Cp0.antt =====
-- include/mips/cp0.h and src/mips/cp0.cpp: the four coprocessor registers of the exception model.
-- The trace message of `raise` changes no state and is left out.
pub mod Laws
use Prim.Native.String.{String}
use clear_core.Prelude.{
  ℕ, ◌-◌, ◌*◌, ◌%◌, ◌^◌, Bool, true, false, not, bit_and, bit_or, ◌==◌, if◌then◌else◌, not32, shl32,
}

pub data ExceptionCode : Type 0 where
  int ad_el ad_es sys bp ri ov : ExceptionCode

abbrev pub exception_number : ExceptionCode → ℕ
exception_number ExceptionCode.int = 0
exception_number ExceptionCode.ad_el = 4
exception_number ExceptionCode.ad_es = 5
exception_number ExceptionCode.sys = 8
exception_number ExceptionCode.bp = 9
exception_number ExceptionCode.ri = 10
exception_number ExceptionCode.ov = 12

unfoldable pub exception_name : ExceptionCode → String
exception_name ExceptionCode.int = "Int"
exception_name ExceptionCode.ad_el = "AdEL"
exception_name ExceptionCode.ad_es = "AdES"
exception_name ExceptionCode.sys = "Sys"
exception_name ExceptionCode.bp = "Bp"
exception_name ExceptionCode.ri = "RI"
exception_name ExceptionCode.ov = "Ov"

abbrev pub exception_vector : ℕ
exception_vector = 0x8000_0180

abbrev pub reg_bad_vaddr : ℕ
reg_bad_vaddr = 8

abbrev pub reg_status : ℕ
reg_status = 12

abbrev pub reg_cause : ℕ
reg_cause = 13

abbrev pub reg_epc : ℕ
reg_epc = 14

abbrev pub status_exl : ℕ
status_exl = 2

pub record Cp0 : Type 0 where
  pub status : ℕ
  pub cause : ℕ
  pub epc : ℕ
  pub bad_vaddr : ℕ
  pub last_exc : ExceptionCode

abbrev pub fresh : Cp0
fresh = record { status = 0; cause = 0; epc = 0; bad_vaddr = 0; last_exc = ExceptionCode.ri }

unfoldable pub in_exception : Cp0 → Bool
in_exception c = not (bit_and c.status status_exl == 0)

-- The state after it, and the address to go on at.
unfoldable pub raise : Cp0 → ExceptionCode → ℕ → ℕ → Cp0 × ℕ
unfolding in_exception
raise c code faulting_pc bad_addr = (
  record {
    status = bit_or c.status status_exl;
    cause = bit_or (bit_and c.cause (not32 0x7c)) (shl32 (exception_number code) 2);
    epc = if not (in_exception c) then faulting_pc else c.epc;
    bad_vaddr = bad_addr;
    last_exc = code;
  },
  exception_vector,
)

unfoldable pub eret : Cp0 → Cp0 × ℕ
eret c = (record c { status = bit_and c.status (not32 status_exl) }, c.epc)

unfoldable pub read : Cp0 → ℕ → ℕ
read c reg =
    if reg == reg_bad_vaddr
    then c.bad_vaddr
    else if reg == reg_status
    then c.status
    else if reg == reg_cause
    then c.cause
    else if reg == reg_epc
    then c.epc
    else 0

unfoldable pub write : Cp0 → ℕ → ℕ → Cp0
write c reg value =
    if reg == reg_status
    then record c { status = value }
    else if reg == reg_cause
    then record c { cause = value }
    else if reg == reg_epc
    then record c { epc = value }
    else c

unfoldable pub reset : Cp0 → Cp0
reset c = record c { status = 0; cause = 0; epc = 0; bad_vaddr = 0 }
