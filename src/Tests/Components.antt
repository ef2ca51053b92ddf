-- ===== src/Tests/Components.antt =====
-- Memory, registers, decoder, ALU and coprocessor on concrete inputs.
use clear_core.Prelude.{
  ℕ, refl, arith, ◌≡◌, ◌≢◌, ◌∷◌, [], some, none, true, false, ◌↔◌, signed32, ◌+ℤ◌, ◌-ℤ◌, ◌%◌,
}
use clear_core.Memory.{Memory, IsMemory, read_word, load_words}
use clear_core.Memory.Load.{load_words-reads, overlaid}
use clear_core.Decoder.{
  bits, decode, Opcode, FunctCode, Fields, InstrFormat, r_fields, DecodedInstr, mnemonic, to_opcode,
  to_funct, format_of, implemented_special,
}
use clear_core.Decoder.Laws.{decode-IsDecoded, IsDecoded}
use clear_core.Decoder.Encodable.{decode-eq-none_iff, is_encodable}
use clear_core.Decoder.Encode.{decode-encode, encode-decode, encode, decoded}
use clear_core.Decoder.Names.{mnemonic-coprocessor}
use clear_core.Alu
use clear_core.Alu.{AluOp}
use clear_core.Alu.Laws.{execute-overflow_iff}
use clear_core.Cp0
use clear_core.Cp0.{Cp0, ExceptionCode}
use clear_core.Cp0.Laws.{IsCp0, eret-raise-raise}

-- Sixteen bytes: 0, 1, 2, ...
abbrev bytes16 : Memory
bytes16 = record { size = 16; bytes = λ a. a % 256 }

bytes16-IsMemory : IsMemory bytes16
bytes16-IsMemory a = omega arith

read_word_test : read_word bytes16 4 ≡ some 0x0706_0504
unfolding read_word
read_word_test = refl

read_word_misaligned : (read_word bytes16 2 ≡ none) × (read_word bytes16 16 ≡ none)
unfolding read_word
read_word_misaligned = (refl, refl)

load_words-reads_example :
    (out : Memory) × (load_words bytes16 4 (7 ∷ 9 ∷ []) ≡ some (out, true))
    × (read_word out 8 ≡ overlaid (some 9) (read_word bytes16 8))
    × (out.size ≡ 16)
load_words-reads_example =
    load_words-reads bytes16 4 (7 ∷ 9 ∷ []) 8 bytes16-IsMemory (omega arith, (omega arith, tt)) refl
      (omega arith) (omega arith)

-- add $t0, $t1, $t2
abbrev add_word : ℕ
add_word = 0x012a_4020

abbrev add_fields : Fields
add_fields = r_fields (record { rs = 9; rt = 10; rd = 8; shamt = 0; funct = FunctCode.add })

decode_test : decode add_word ≡ some (decoded Opcode.special add_fields)
unfolding decode encode to_opcode bits to_funct
decode_test = refl

decode_rejects : (decode 0xfc00_0000 ≡ none) × (decode 0x0000_0019 ≡ none)
unfolding decode to_opcode bits to_funct
decode_rejects = (refl, refl)

decode-IsDecoded_example : IsDecoded add_word (decoded Opcode.special add_fields)
unfolding decode encode to_opcode bits to_funct
decode-IsDecoded_example = decode-IsDecoded add_word refl

decode-eq-none_iff_example : (decode 0xfc00_0000 ≡ none) ↔ (is_encodable 63 0 ≡ false)
decode-eq-none_iff_example = decode-eq-none_iff 0xfc00_0000

decode-encode_example :
    decode (encode Opcode.special add_fields) ≡ some (decoded Opcode.special add_fields)
unfolding format_of implemented_special to_funct
decode-encode_example = decode-encode Opcode.special add_fields (record {
  known_format = (omega arith, omega arith, omega arith, omega arith);
  funct_fits = omega arith;
  is_listed = refl;
  is_implemented = refl;
  no_shift = λ e. refl;
})

encode-decode_example : encode Opcode.special add_fields ≡ add_word
unfolding decode encode to_opcode bits to_funct
encode-decode_example =
    encode-decode add_word {d = decoded Opcode.special add_fields} (omega arith) refl (ground arith)

-- mtc0 $t0, $12
abbrev mtc0_word : ℕ
mtc0_word = 0x4088_6000

abbrev mtc0_decoded : DecodedInstr
mtc0_decoded = record {
  raw = mtc0_word;
  opcode = Opcode.cop0;
  format = InstrFormat.r;
  fields = r_fields (record { rs = 4; rt = 8; rd = 12; shamt = 0; funct = FunctCode.sll });
}

mnemonic-coprocessor_example :
    (mnemonic mtc0_decoded ≢ "MFC0")
    × (mnemonic mtc0_decoded ≢ "MTC0")
    × (mnemonic mtc0_decoded ≢ "ERET")
unfolding decode to_opcode bits to_funct
mnemonic-coprocessor_example = mnemonic-coprocessor mtc0_word refl refl

execute-overflow_iff_example :
    (((Alu.execute AluOp.add 0x7fff_ffff 0x8000_0000 0).overflow ≡ false) ↔ (
      signed32 (Alu.execute AluOp.add 0x7fff_ffff 0x8000_0000 0).value
      ≡ signed32 0x7fff_ffff +ℤ signed32 0x8000_0000))
    × (((Alu.execute AluOp.sub 0x7fff_ffff 0x8000_0000 0).overflow ≡ false) ↔ (
        signed32 (Alu.execute AluOp.sub 0x7fff_ffff 0x8000_0000 0).value
        ≡ signed32 0x7fff_ffff -ℤ signed32 0x8000_0000))
execute-overflow_iff_example =
    execute-overflow_iff 0x7fff_ffff 0x8000_0000 0 (omega arith) (omega arith)

add_overflows : (Alu.execute AluOp.add 0x7fff_ffff 1 0).overflow ≡ true
unfolding Alu.execute Alu.compute Alu.overflow_add
add_overflows = refl

fresh-IsCp0 : IsCp0 Cp0.fresh
fresh-IsCp0 = record {
  status_fits = omega arith;
  cause_fits = omega arith;
  epc_fits = omega arith;
  bad_vaddr_fits = omega arith;
}

eret-raise-raise_example :
    (Cp0.eret
      (Cp0.raise
        (Cp0.raise Cp0.fresh ExceptionCode.sys 0x100 0).0
        ExceptionCode.ov
        0x8000_0184
        0).0).1
    ≡ 0x100
unfolding Cp0.in_exception
eret-raise-raise_example =
    eret-raise-raise Cp0.fresh ExceptionCode.sys ExceptionCode.ov 0x100 0x8000_0184 0 0 fresh-IsCp0
      refl
