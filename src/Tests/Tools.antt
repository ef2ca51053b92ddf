-- ===== src/Tests/Tools.antt =====
-- Concrete runs of the tools, and an instance of each theorem about them that has hypotheses.
use clear_core.Converter.Shown.{update-as_text}
use clear_core.Assembler.Correct.{Encodes, Refuses}
use clear_core.Converter.Parse.{plain_number, parse_base-plain_number}
use clear_core.Converter.{as_text, parse_base, update, hex, decimal, as_bits, binary_loop}
use clear_core.Assembler.Scanned.{IsScanned, scan_lines-IsScanned}
use clear_core.Assembler.Outcome.{scanned, assemble-Encodes, assemble-Refuses}
use native.Mathlib.Decide.{dec_lt}
use clear_core.Assembler.Encoders.{enc_r, enc_i, enc_j}
use clear_core.Assembler.Operands.{parse_reg, parse_imm, parse_mem_operand, fits_simm16}
use clear_core.Assembler.Instructions.{
  encode_r3, encode_i_arith, encode_mem, encode_branch, encode_jump, branch_offset,
  zero_extends_imm,
}
use clear_core.Assembler.Lines.{scan_lines, no_scan, Line}
use clear_core.ProgramLoader.{parse_hex_program}
use clear_core.ProgramLoader.Printed.{listing, parse_hex_program-listing}
use clear_core.Prelude.{◌≡◌, ◌∷◌, [], none, ◌-ℤ◌, ap, some, ◌≢◌, ◌⊎◌, true, arith, List, ℕ}
use clear_core.Prelude.{refl}
use clear_core.Assembler.{assemble, AssemblerResult, make_error, failed, encode_others}
use clear_core.Text.{Text, codes, same, lookup, get_lines, find}
use clear_core.Text.Numbers.{
  to_decimal, int32_from_chars, uint32_from_chars, digit_loop, below, digit_value, to_upper_hex,
}

abbrev countdown : Text
countdown =
    codes
      "# count\n  addiu $t0, $zero, 3\nloop: ADDIU $t0, $t0, -1\n bne $t0, $zero, loop # again\n lw $ra, 0x10($sp)\nend: j end\n"

countdown_words : assemble countdown ≡ record {
  words = 0x24080003 ∷ 0x2508ffff ∷ 0x1500fffe ∷ 0x8fbf0010 ∷ 0x08000004 ∷ [];
  error = none;
}
unfolding assemble get_lines scan_lines find lookup same encode_r3 encode_i_arith encode_mem
    encode_branch encode_jump encode_others parse_reg parse_imm parse_mem_operand enc_r enc_i enc_j
    branch_offset zero_extends_imm fits_simm16 int32_from_chars uint32_from_chars to_decimal ◌-ℤ◌
countdown_words = refl

bad_register : assemble (codes "nop\n\nadd $t0, $t1, $s9\n") ≡ failed (codes "line 3: bad register")
unfolding assemble get_lines scan_lines find lookup same encode_r3 encode_i_arith encode_mem
    encode_branch encode_jump encode_others parse_reg parse_imm parse_mem_operand enc_r enc_i enc_j
    branch_offset zero_extends_imm fits_simm16 int32_from_chars uint32_from_chars to_decimal dec_lt
    digit_loop below
bad_register = refl

countdown-IsAssembled : (assemble countdown).error ≡ none
countdown-IsAssembled = ap (λ (r : AssemblerResult). r.error) countdown_words

abbrev misspelt : Text
misspelt = codes "nop\n\nadd $t0, $t1, $s9\n"

misspelt-fails : (assemble misspelt).error ≡ some (codes "line 3: bad register")
misspelt-fails = ap (λ (r : AssemblerResult). r.error) bad_register

assemble-Encodes_example :
    ((scanned countdown).lines ≢ [])
    × Encodes (scanned countdown).labels 0 (scanned countdown).lines (assemble countdown).words
assemble-Encodes_example = assemble-Encodes countdown countdown-IsAssembled

assemble-Refuses_example :
    ((assemble misspelt).words ≡ [])
    × ((((scanned misspelt).lines ≡ [])
          × (codes "line 3: bad register" ≡ codes "no instructions found"))
        ⊎ ((ln : Line) × (why : Text) × (codes "line 3: bad register" ≡ make_error ln.lineno why)
            × Refuses (scanned misspelt).labels 0 (scanned misspelt).lines ln why))
assemble-Refuses_example = assemble-Refuses misspelt misspelt-fails

scan_lines-IsScanned_example : IsScanned 6 (scan_lines 1 (get_lines countdown) no_scan)
unfolding get_lines
scan_lines-IsScanned_example =
    scan_lines-IsScanned 0 (get_lines countdown) no_scan
      (record { labels_inside = tt; ascend = omega arith; tokens = tt })

parse_base-plain_number_example : parse_base (codes "-1") 10 ≡ plain_number (codes "-1") 10
parse_base-plain_number_example =
    parse_base-plain_number (codes "-1") 10 (omega arith) (omega arith)

update-as_text_example :
    update (record { value = 7 }) (as_text (record { value = 172 }) hex) hex
    ≡ (record { value = 172 }, true)
update-as_text_example =
    update-as_text (record { value = 172 }) (record { value = 7 }) hex (omega arith)

shown_172 :
    (as_text (record { value = 172 }) hex ≡ codes "AC")
    × (as_text (record { value = 172 }) decimal ≡ codes "172")
    × (as_bits (record { value = 172 }) ≡ codes "1010 1100")
    × (parse_base (codes "+5") 10 ≡ none)
unfolding as_text as_bits parse_base digit_loop below dec_lt binary_loop digit_value
shown_172 = (refl, refl, refl, refl)

-- A listing of two words.
abbrev two_entries : List (ℕ × Text)
two_entries = (0x2008_0005, codes " addi $t0, $zero, 5") ∷ (0xffff_ffff, []) ∷ []

two_entries-listing : listing two_entries ≡ codes "0x20080005 # addi $t0, $zero, 5\n0xFFFFFFFF #\n"
unfolding to_upper_hex digit_loop below dec_lt
two_entries-listing = refl

parse_hex_program_refused :
    parse_hex_program (codes "12\n\n 1 2 3 # four\n123456789")
    ≡ record { words = []; error = some (codes "Bad hex on line 4") }
unfolding parse_hex_program get_lines uint32_from_chars to_decimal find digit_loop below dec_lt
parse_hex_program_refused = refl

parse_hex_program-listing_example :
    parse_hex_program (listing two_entries)
    ≡ record { words = 0x2008_0005 ∷ 0xffff_ffff ∷ []; error = none }
parse_hex_program-listing_example = parse_hex_program-listing two_entries (
  (
    omega arith,
    (
      refl,
      (
        refl,
        (
          refl,
          (
            refl,
            (
              refl,
              (
                refl,
                (
                  refl,
                  (
                    refl,
                    (
                      refl,
                      (
                        refl,
                        (refl, (refl, (refl, (refl, (refl, (refl, (refl, (refl, (refl, tt))))))))),
                      ),
                    ),
                  ),
                ),
              ),
            ),
          ),
        ),
      ),
    ),
  ),
  ((omega arith, tt), tt),
)
