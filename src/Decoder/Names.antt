-- ===== src/Decoder/Names.antt =====
-- `mnemonic` on coprocessor words.
use clear_core.Decoder.Laws.{decode-IsDecoded}
use clear_core.Decoder.Codes.{FunctCode, Opcode, InstrFormat}
use Prim.Native.String.{String}
use text.Mathlib.Text.{◌==◌ as str_eq}
use text.Mathlib.TextEquality.{eq_iff}
use clear_core.Prelude.{refl, ℕ, ◌≢◌, arith, ◌≡◌, some, ◌∙◌, false}
use clear_core.Decoder.{mnemonic, format_of, funct_mnemonic, DecodedInstr, decode, get_r}

ne_by_test : (s t : String) → str_eq s t ≡ false → s ≢ t
ne_by_test s t h e = ground (arith, eq_iff s t)

funct_mnemonic-ne :
    (f : FunctCode)
    → (funct_mnemonic f ≢ "MFC0") × (funct_mnemonic f ≢ "MTC0") × (funct_mnemonic f ≢ "ERET")
funct_mnemonic-ne FunctCode.sll = (ne_by_test _ _ refl, ne_by_test _ _ refl, ne_by_test _ _ refl)
funct_mnemonic-ne f = (ne_by_test _ _ refl, ne_by_test _ _ refl, ne_by_test _ _ refl)

-- The switch on funct is taken first for every R-format word, so that no decoded coprocessor word
-- is ever named `MFC0`, `MTC0` or `ERET`.
pub mnemonic-coprocessor :
    (w : ℕ) {d : DecodedInstr}
    → decode w ≡ some d
    → d.opcode ≡ Opcode.cop0
    → (mnemonic d ≢ "MFC0") × (mnemonic d ≢ "MTC0") × (mnemonic d ≢ "ERET")
unfolding mnemonic format_of
mnemonic-coprocessor w {d} h e =
    let is_r_format : d.format ≡ InstrFormat.r = (decode-IsDecoded w h).same_format ∙ rw e refl in
    rw is_r_format (funct_mnemonic-ne (get_r d).funct)
