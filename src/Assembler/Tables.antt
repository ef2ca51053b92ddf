-- ===== src/Assembler/Tables.antt =====
-- The tables of mnemonics name the operations that the decoder knows, each with its number.
use clear_core.Text.{Text, same, lookup}
use clear_core.Text.Laws.{AllEntries, same_eq, lookup-AllEntries}
use clear_core.Prelude.{
  refl, none, some, ℕ, if◌then◌else◌, ◌≡◌, Bool-cases, Option-cases, arith, inl, inr,
}
use clear_core.Decoder.{Opcode, FunctCode}
use clear_core.Assembler.Instructions.{
  Encoded, word, Table, zero_extends_imm, branch_map, jump_map, mem_map, r3_map, shift_map,
  v_shift_map, i_arith_map,
}
use clear_core.Assembler.Meaning.{
  three_registers, amount, variable, memory, branch, jump, signed_imm, unsigned_imm,
}
use clear_core.Assembler.Sound.{NamesFunct, NamesOpcode}

pub r3_map-Names : AllEntries (NamesFunct three_registers) r3_map
r3_map-Names = (
  (FunctCode.add, refl, refl, refl),
  (
    (FunctCode.addu, refl, refl, refl),
    (
      (FunctCode.sub, refl, refl, refl),
      (
        (FunctCode.subu, refl, refl, refl),
        (
          (FunctCode.and, refl, refl, refl),
          (
            (FunctCode.or, refl, refl, refl),
            (
              (FunctCode.xor, refl, refl, refl),
              (
                (FunctCode.nor, refl, refl, refl),
                ((FunctCode.slt, refl, refl, refl), ((FunctCode.sltu, refl, refl, refl), tt)),
              ),
            ),
          ),
        ),
      ),
    ),
  ),
)

pub shift_map-Names : AllEntries (NamesFunct amount) shift_map
shift_map-Names = (
  (FunctCode.sll, refl, refl, refl),
  ((FunctCode.srl, refl, refl, refl), ((FunctCode.sra, refl, refl, refl), tt)),
)

pub v_shift_map-Names : AllEntries (NamesFunct variable) v_shift_map
v_shift_map-Names = ((FunctCode.sllv, refl, refl, refl), ((FunctCode.srlv, refl, refl, refl), tt))

-- The logical instructions are those whose immediate is not signed.
abbrev pub NamesArith : Text → ℕ → Type 0
NamesArith mn n = NamesOpcode (if zero_extends_imm mn then unsigned_imm else signed_imm) mn n

pub i_arith_map-Names : AllEntries NamesArith i_arith_map
unfolding zero_extends_imm same
i_arith_map-Names = (
  (Opcode.addi, refl, refl, refl),
  (
    (Opcode.addiu, refl, refl, refl),
    (
      (Opcode.slti, refl, refl, refl),
      (
        (Opcode.sltiu, refl, refl, refl),
        (
          (Opcode.andi, refl, refl, refl),
          ((Opcode.ori, refl, refl, refl), ((Opcode.xori, refl, refl, refl), tt)),
        ),
      ),
    ),
  ),
)

pub mem_map-Names : AllEntries (NamesOpcode memory) mem_map
mem_map-Names = (
  (Opcode.lw, refl, refl, refl),
  (
    (Opcode.lbu, refl, refl, refl),
    ((Opcode.lhu, refl, refl, refl), ((Opcode.sw, refl, refl, refl), tt)),
  ),
)

pub branch_map-Names : AllEntries (NamesOpcode branch) branch_map
branch_map-Names = ((Opcode.beq, refl, refl, refl), ((Opcode.bne, refl, refl, refl), tt))

pub jump_map-Names : AllEntries (NamesOpcode jump) jump_map
jump_map-Names = ((Opcode.j, refl, refl, refl), ((Opcode.jal, refl, refl, refl), tt))

-- A branch on a table: what holds of its entries, and what holds when there is none.
pub table_then :
    {P : Type 0} (E : Text → ℕ → Type 0) (mn : Text) (m : Table) {found : ℕ → Encoded}
    {otherwise : Encoded} {w : ℕ}
    → AllEntries E m
    → elim (lookup mn m) [ some n ↦ found n | none ↦ otherwise ] ≡ word w
    → ((n : ℕ) → E mn n → found n ≡ word w → P)
    → (otherwise ≡ word w → P)
    → P
table_then E mn m names h hit miss = elim (Option-cases (lookup mn m)) [
  | inl e ↦ miss (ground arith)
  | inr (n, e) ↦ hit n (lookup-AllEntries E mn m names e) (ground arith)
]

-- A branch on one mnemonic.
pub name_then :
    {P : Type 0} (mn name : Text) {found otherwise : Encoded} {w : ℕ}
    → (if same mn name then found else otherwise) ≡ word w
    → (mn ≡ name → found ≡ word w → P)
    → (otherwise ≡ word w → P)
    → P
name_then mn name h hit miss = elim (Bool-cases (same mn name)) [
  | inl e ↦ hit (same_eq mn name e) (ground arith)
  | inr e ↦ miss (ground arith)
]
