-- ===== src/Registers.antt =====
-- include/isa/registers.h and src/mips/registers.cpp: the register file, whose register 0 reads as
-- zero, and the O32 names of include/mips/registers.h. An index is masked to five bits.
pub mod Laws
use Prim.Native.String.{String}
use clear_core.Prelude.{
  ℕ, ◌%◌, ◌^◌, ◌<◌, Option, none, some, List, [], ◌∷◌, ◌==◌, if◌then◌else◌, low_bits, get_elem?,
  ltb,
}

-- The array of 32 words as a function of the index; `last_written` is `none` for -1.
pub record RegisterFile : Type 0 where
  pub raw : ℕ → ℕ
  pub last_written : Option ℕ

unfoldable pub read : RegisterFile → ℕ → ℕ
read r idx = if idx == 0 then 0 else r.raw (low_bits idx 5)

unfoldable pub write : RegisterFile → ℕ → ℕ → RegisterFile
write r idx value = if idx == 0 then r else record {
  raw = λ j. if low_bits idx 5 == j then value else r.raw j;
  last_written = some (low_bits idx 5);
}

unfoldable pub reset : RegisterFile → RegisterFile
reset r = record { raw = λ _. 0; last_written = none }

-- The values that the constructor gives.
unfoldable pub fresh : RegisterFile
fresh = record { raw = λ _. 0; last_written = none }

abbrev pub abi_names : List String
abi_names =
    "zero" ∷ "at" ∷ "v0" ∷ "v1" ∷ "a0" ∷ "a1" ∷ "a2" ∷ "a3" ∷ "t0" ∷ "t1" ∷ "t2" ∷ "t3" ∷ "t4"
    ∷ "t5" ∷ "t6" ∷ "t7" ∷ "s0" ∷ "s1" ∷ "s2" ∷ "s3" ∷ "s4" ∷ "s5" ∷ "s6" ∷ "s7" ∷ "t8" ∷ "t9"
    ∷ "k0" ∷ "k1" ∷ "gp" ∷ "sp" ∷ "fp" ∷ "ra" ∷ []

unfoldable pub register_abi_name : ℕ → String
register_abi_name idx = elim (get_elem? abi_names idx) [ some name ↦ name | none ↦ "??" ]
