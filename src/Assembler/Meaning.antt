-- ===== src/Assembler/Meaning.antt =====
-- What a line of assembly language stands for: the instruction that its mnemonic names, in the
-- words of the decoder, with the registers and the number that its operands name.
use clear_core.Decoder.{
  Opcode, FunctCode, Fields, r_fields, i_fields, j_fields, no_r, funct_mnemonic, opcode_mnemonic,
  sign_extend,
}
use clear_core.SingleCycle.{branch_target}
use clear_core.Assembler.Operands.{parse_reg, parse_imm, parse_mem_operand}
use clear_core.Assembler.Instructions.{Table}
use clear_core.Text.{Text, codes, lookup, to_lower}
use clear_core.Prelude.{ℕ, ◌+◌, ◌*◌, ◌≡◌, List, [], ◌∷◌, map, some, none, pos, u32, ℤ}

-- The shapes of operand lists.
pub data Shape : Type 0 where
  three_registers amount variable register_only two_registers : Shape
  signed_imm unsigned_imm upper_imm memory branch jump other : Shape

abbrev pub funct_shape : FunctCode → Shape
funct_shape FunctCode.add = three_registers
funct_shape FunctCode.addu = three_registers
funct_shape FunctCode.sub = three_registers
funct_shape FunctCode.subu = three_registers
funct_shape FunctCode.and = three_registers
funct_shape FunctCode.or = three_registers
funct_shape FunctCode.xor = three_registers
funct_shape FunctCode.nor = three_registers
funct_shape FunctCode.slt = three_registers
funct_shape FunctCode.sltu = three_registers
funct_shape FunctCode.sll = amount
funct_shape FunctCode.srl = amount
funct_shape FunctCode.sra = amount
funct_shape FunctCode.sllv = variable
funct_shape FunctCode.srlv = variable
funct_shape FunctCode.jr = register_only
funct_shape FunctCode.jalr = two_registers
funct_shape _ = other

abbrev pub opcode_shape : Opcode → Shape
opcode_shape Opcode.addi = signed_imm
opcode_shape Opcode.addiu = signed_imm
opcode_shape Opcode.slti = signed_imm
opcode_shape Opcode.sltiu = signed_imm
opcode_shape Opcode.andi = unsigned_imm
opcode_shape Opcode.ori = unsigned_imm
opcode_shape Opcode.xori = unsigned_imm
opcode_shape Opcode.lui = upper_imm
opcode_shape Opcode.lw = memory
opcode_shape Opcode.lbu = memory
opcode_shape Opcode.lhu = memory
opcode_shape Opcode.sw = memory
opcode_shape Opcode.beq = branch
opcode_shape Opcode.bne = branch
opcode_shape Opcode.j = jump
opcode_shape Opcode.jal = jump
opcode_shape _ = other

abbrev pub funct_name : FunctCode → Text
funct_name f = map to_lower (codes (funct_mnemonic f))

abbrev pub opcode_name : Opcode → Text
opcode_name op = map to_lower (codes (opcode_mnemonic op))

-- A branch with immediate `imm` in word `idx` goes to word `target`, wherever the program is loaded.
abbrev pub Lands : ℕ → ℕ → ℕ → Type 0
Lands idx imm target =
    (base : ℕ) → branch_target (u32 (base + 4 * idx + 4)) imm ≡ u32 (base + 4 * target)

module _ (labels : Table) (idx : ℕ) where
  -- The operand of a branch: the number of instructions to go, or a label.
  pub data Reaches (c : Text) (imm : ℕ) : Type 0 where
    by_number : (v : ℤ) → parse_imm c ≡ some v → sign_extend imm ≡ v → Reaches c imm
    to_label :
        (t : ℕ) → parse_imm c ≡ none → lookup c labels ≡ some t → Lands idx imm t → Reaches c imm

  -- The operand of a jump: a word index, or a label.
  pub data Targets (c : Text) (target : ℕ) : Type 0 where
    by_number : parse_imm c ≡ some (pos target) → Targets c target
    to_label : parse_imm c ≡ none → lookup c labels ≡ some target → Targets c target

  -- The words of a line, by the shape of its operands.
  pub data Denotes (mn : Text) (ops : List Text) : Opcode → Fields → Type 0 where
    no_op : mn ≡ codes "nop" → Denotes mn ops Opcode.special (r_fields no_r)
    of_three :
        (f : FunctCode) (a b c : Text) {rd rs rt : ℕ}
        → mn ≡ funct_name f
        → funct_shape f ≡ three_registers
        → ops ≡ a ∷ b ∷ c ∷ []
        → parse_reg a ≡ some rd
        → parse_reg b ≡ some rs
        → parse_reg c ≡ some rt
        → Denotes mn ops Opcode.special
            (r_fields (record { rs = rs; rt = rt; rd = rd; shamt = 0; funct = f }))
    of_amount :
        (f : FunctCode) (a b c : Text) {rd rt shamt : ℕ}
        → mn ≡ funct_name f
        → funct_shape f ≡ amount
        → ops ≡ a ∷ b ∷ c ∷ []
        → parse_reg a ≡ some rd
        → parse_reg b ≡ some rt
        → parse_imm c ≡ some (pos shamt)
        → Denotes mn ops Opcode.special
            (r_fields (record { rs = 0; rt = rt; rd = rd; shamt = shamt; funct = f }))
    of_variable :
        (f : FunctCode) (a b c : Text) {rd rt rs : ℕ}
        → mn ≡ funct_name f
        → funct_shape f ≡ variable
        → ops ≡ a ∷ b ∷ c ∷ []
        → parse_reg a ≡ some rd
        → parse_reg b ≡ some rt
        → parse_reg c ≡ some rs
        → Denotes mn ops Opcode.special
            (r_fields (record { rs = rs; rt = rt; rd = rd; shamt = 0; funct = f }))
    of_register :
        (f : FunctCode) (a : Text) {rs : ℕ}
        → mn ≡ funct_name f
        → funct_shape f ≡ register_only
        → ops ≡ a ∷ []
        → parse_reg a ≡ some rs
        → Denotes mn ops Opcode.special
            (r_fields (record { rs = rs; rt = 0; rd = 0; shamt = 0; funct = f }))
    of_two :
        (f : FunctCode) (a b : Text) {rd rs : ℕ}
        → mn ≡ funct_name f
        → funct_shape f ≡ two_registers
        → ops ≡ a ∷ b ∷ []
        → parse_reg a ≡ some rd
        → parse_reg b ≡ some rs
        → Denotes mn ops Opcode.special
            (r_fields (record { rs = rs; rt = 0; rd = rd; shamt = 0; funct = f }))
    of_signed :
        (op : Opcode) (a b c : Text) {rt rs imm : ℕ} {v : ℤ}
        → mn ≡ opcode_name op
        → opcode_shape op ≡ signed_imm
        → ops ≡ a ∷ b ∷ c ∷ []
        → parse_reg a ≡ some rt
        → parse_reg b ≡ some rs
        → parse_imm c ≡ some v
        → sign_extend imm ≡ v
        → Denotes mn ops op (i_fields (record { rs = rs; rt = rt; imm = imm }))
    of_unsigned :
        (op : Opcode) (a b c : Text) {rt rs imm : ℕ}
        → mn ≡ opcode_name op
        → opcode_shape op ≡ unsigned_imm
        → ops ≡ a ∷ b ∷ c ∷ []
        → parse_reg a ≡ some rt
        → parse_reg b ≡ some rs
        → parse_imm c ≡ some (pos imm)
        → Denotes mn ops op (i_fields (record { rs = rs; rt = rt; imm = imm }))
    of_upper :
        (op : Opcode) (a b : Text) {rt imm : ℕ}
        → mn ≡ opcode_name op
        → opcode_shape op ≡ upper_imm
        → ops ≡ a ∷ b ∷ []
        → parse_reg a ≡ some rt
        → parse_imm b ≡ some (pos imm)
        → Denotes mn ops op (i_fields (record { rs = 0; rt = rt; imm = imm }))
    of_memory :
        (op : Opcode) (a b : Text) {rt rs imm : ℕ} {v : ℤ}
        → mn ≡ opcode_name op
        → opcode_shape op ≡ memory
        → ops ≡ a ∷ b ∷ []
        → parse_reg a ≡ some rt
        → parse_mem_operand b ≡ some (v, rs)
        → sign_extend imm ≡ v
        → Denotes mn ops op (i_fields (record { rs = rs; rt = rt; imm = imm }))
    of_branch :
        (op : Opcode) (a b c : Text) {rs rt imm : ℕ}
        → mn ≡ opcode_name op
        → opcode_shape op ≡ branch
        → ops ≡ a ∷ b ∷ c ∷ []
        → parse_reg a ≡ some rs
        → parse_reg b ≡ some rt
        → Reaches c imm
        → Denotes mn ops op (i_fields (record { rs = rs; rt = rt; imm = imm }))
    of_jump :
        (op : Opcode) (a : Text) {target : ℕ}
        → mn ≡ opcode_name op
        → opcode_shape op ≡ jump
        → ops ≡ a ∷ []
        → Targets a target
        → Denotes mn ops op (j_fields (record { target = target }))
