-- ===== src/Assembler/Sound.antt =====
-- A word is sound for a line when it is the layout of an instruction that the line stands for.
use mathlib.Core.Path.{subst}
use clear_core.Assembler.Meaning.{jump, opcode_name}
use clear_core.Assembler.Encoders.{enc_r, enc_i, enc_j}
use clear_core.Decoder.Laws.{IsImplemented, HasFields}
use clear_core.Text.{Text}
use clear_core.Prelude.{refl, ◌<◌, ◌≢◌, ℕ, ◌≡◌, List, arith, ◌^◌, sym}
use clear_core.Decoder.{
  funct_number, opcode_number, to_funct, Opcode, FunctCode, Fields, RFields, r_fields, i_fields,
  j_fields, format_of, implemented_special, IFields, JFields, InstrFormat,
}
use clear_core.Decoder.Encode.{IsEncodable, encode}
use clear_core.Assembler.Instructions.{Encoded, word, Table}
use clear_core.Assembler.Layout.{enc_r-eq, enc_i-eq, enc_j-eq}
use clear_core.Assembler.Meaning.{Denotes, Shape, funct_shape, opcode_shape, other, funct_name}

abbrev pub Sound : Table → ℕ → Text → List Text → ℕ → Type 0
Sound labels idx mn ops w =
    (op : Opcode) × (f : Fields) × IsEncodable op f
    × (w ≡ encode op f)
    × Denotes labels idx mn ops op f

funct-fits :
    (f : FunctCode)
    → funct_shape f ≢ other
    → (funct_number f < 64) × (to_funct (funct_number f) ≡ f) × IsImplemented Opcode.special f
unfolding to_funct implemented_special
funct-fits FunctCode.syscall h = absurd (h refl)
funct-fits FunctCode.break h = absurd (h refl)
funct-fits FunctCode.eret h = absurd (h refl)
funct-fits (FunctCode.unlisted n) h = absurd (h refl)
funct-fits f h = (omega arith, refl, refl)

pub special-IsEncodable :
    (f : RFields)
    → f.rs < 32
    → f.rt < 32
    → f.rd < 32
    → f.shamt < 32
    → funct_shape f.funct ≢ other
    → IsEncodable Opcode.special (r_fields f)
unfolding format_of
special-IsEncodable f h1 h2 h3 h4 listed =
    let (small, same_code, implemented) = funct-fits f.funct listed in
    record {
      known_format = (h1, h2, h3, h4);
      funct_fits = small;
      is_listed = same_code;
      is_implemented = implemented;
      no_shift = λ e. absurd (cc);
    }

opcode-fits :
    (op : Opcode)
    → opcode_shape op ≢ other
    → opcode_shape op ≢ jump
    → (opcode_number op < 64) × (format_of op ≡ InstrFormat.i) × IsImplemented op FunctCode.sll
unfolding format_of
opcode-fits Opcode.special h h' = absurd (h refl)
opcode-fits Opcode.cop0 h h' = absurd (h refl)
opcode-fits (Opcode.unlisted n) h h' = absurd (h refl)
opcode-fits Opcode.j h h' = absurd (h' refl)
opcode-fits Opcode.jal h h' = absurd (h' refl)
opcode-fits op h h' = (omega arith, refl, tt)

immediate-IsEncodable :
    (op : Opcode) (f : IFields)
    → f.rs < 32
    → f.rt < 32
    → f.imm < 2 ^ 16
    → opcode_shape op ≢ other
    → opcode_shape op ≢ jump
    → IsEncodable op (i_fields f)
unfolding to_funct
immediate-IsEncodable op f h1 h2 h3 listed stays =
    let (small, same_format, implemented) = opcode-fits op listed stays in
    record {
      known_format =
          subst (λ (x : InstrFormat). HasFields x (i_fields f)) (sym same_format) (h1, h2, h3);
      funct_fits = omega arith;
      is_listed = refl;
      is_implemented = implemented;
      no_shift = λ _. refl;
    }

jump-IsEncodable :
    (op : Opcode) (f : JFields)
    → f.target < 2 ^ 26
    → opcode_shape op ≡ jump
    → IsEncodable op (j_fields f)
unfolding to_funct format_of
jump-IsEncodable Opcode.j f h e = record {
  known_format = h;
  funct_fits = omega arith;
  is_listed = refl;
  is_implemented = tt;
  no_shift = λ _. refl;
}
jump-IsEncodable Opcode.jal f h e = record {
  known_format = h;
  funct_fits = omega arith;
  is_listed = refl;
  is_implemented = tt;
  no_shift = λ _. refl;
}
jump-IsEncodable op f h e = cc

jump-lt : (op : Opcode) → opcode_shape op ≡ jump → opcode_number op < 64
jump-lt Opcode.j e = omega arith
jump-lt Opcode.jal e = omega arith
jump-lt op e = cc

module _ (labels : Table) (idx : ℕ) (mn : Text) (ops : List Text) {w : ℕ} where
  -- A word that an encoder has laid out, for an instruction that the line stands for.
  pub special-Sound :
      (f : RFields)
      → f.rs < 32
      → f.rt < 32
      → f.rd < 32
      → f.shamt < 32
      → funct_shape f.funct ≢ other
      → enc_r f.rs f.rt f.rd f.shamt (funct_number f.funct) ≡ w
      → Denotes labels idx mn ops Opcode.special (r_fields f)
      → Sound labels idx mn ops w
  unfolding encode
  special-Sound f h1 h2 h3 h4 listed e d = (
    Opcode.special,
    r_fields f,
    special-IsEncodable f h1 h2 h3 h4 listed,
    omega (
      arith,
      e,
      enc_r-eq f.rs f.rt f.rd f.shamt (funct_number f.funct) h1 h2 h3 h4
          (funct-fits f.funct listed).0,
    ),
    d,
  )

  pub immediate-Sound :
      (op : Opcode) (f : IFields)
      → f.rs < 32
      → f.rt < 32
      → f.imm < 2 ^ 16
      → opcode_shape op ≢ other
      → opcode_shape op ≢ jump
      → enc_i (opcode_number op) f.rs f.rt f.imm ≡ w
      → Denotes labels idx mn ops op (i_fields f)
      → Sound labels idx mn ops w
  unfolding encode
  immediate-Sound op f h1 h2 h3 listed stays e d = (
    op,
    i_fields f,
    immediate-IsEncodable op f h1 h2 h3 listed stays,
    omega (
      arith,
      e,
      enc_i-eq (opcode_number op) f.rs f.rt f.imm (opcode-fits op listed stays).0 h1 h2 h3,
    ),
    d,
  )

  pub jump-Sound :
      (op : Opcode) (f : JFields)
      → f.target < 2 ^ 26
      → opcode_shape op ≡ jump
      → enc_j (opcode_number op) f.target ≡ w
      → Denotes labels idx mn ops op (j_fields f)
      → Sound labels idx mn ops w
  unfolding encode
  jump-Sound op f h shaped e d = (
    op,
    j_fields f,
    jump-IsEncodable op f h shaped,
    omega (arith, e, enc_j-eq (opcode_number op) f.target (jump-lt op shaped) h),
    d,
  )

-- The entry of a mnemonic in a table: the number of an operation of that name, of this shape.
abbrev pub NamesFunct : Shape → Text → ℕ → Type 0
NamesFunct shape mn n =
    (f : FunctCode) × (funct_number f ≡ n) × (mn ≡ funct_name f) × (funct_shape f ≡ shape)

abbrev pub NamesOpcode : Shape → Text → ℕ → Type 0
NamesOpcode shape mn n =
    (op : Opcode) × (opcode_number op ≡ n) × (mn ≡ opcode_name op) × (opcode_shape op ≡ shape)

-- What a branch promises of the number that it takes from its table.
abbrev pub EncodesSoundly : Table → ℕ → Text → List Text → Encoded → Type 0
EncodesSoundly labels idx mn ops result = (w : ℕ) → result ≡ word w → Sound labels idx mn ops w
