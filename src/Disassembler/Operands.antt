-- ===== src/Disassembler/Operands.antt =====
-- The operands that the disassembler prints, read back by the assembler.
use mathlib.Core.Path.{subst}
use mathlib.Core.List.{append_assoc, cons-ne-nil}
use clear_core.Registers.{register_abi_name}
use clear_core.Assembler.Lines.{is_blank}
use clear_core.Assembler.Operands.{
  parse_reg, parse_imm, imm_magnitude, negate, parse_mem_operand, mem_parts,
}
use clear_core.Assembler.Spaced.{is_plain, AllPlain, IsWord}
use clear_core.Disassembler.{reg_text}
use clear_core.Text.Numbers.{
  to_decimal, to_upper_hex, signed_text, zero_filled, filled, int32_from_chars, uint32_from_chars,
  whole_number, digits_from, hex_wide, decimal_wide,
}
use native.Mathlib.Decide.{ℕ_discrete}
use clear_core.Text.Digits.{
  to_decimal-IsDecimalChar, whole_number-number_text, number_text-ne-nil, IsDecimalChar,
  whole_number-digits, number_text-All,
}
use clear_core.Text.{Text, is_empty, find, take, drop, lookup}
use clear_core.Text.Laws.{find-append, take-append, drop-append}
use clear_core.Prelude.{
  ℕ, ◌≡◌, refl, ap, ◌∙◌, sym, none, some, [], ◌∷◌, ◌++◌, ◌==◌, Bool, true, false, All, arith,
  All-map, All-append, ◌<◌, ◌&&◌, Option, zero, suc, ℤ, pos, negsuc, signed16, not, ◌||◌, ◌^◌,
  pos_part, ◌+◌, neg_part, length, ◌-◌, ◌≢◌, ◌≤◌, ltb,
}

unfoldable pub all_plain : Text → Bool
all_plain [] = true
all_plain (c ∷ s) = is_plain c && all_plain s

pub all_plain_sound : (s : Text) → all_plain s ≡ true → AllPlain s
unfolding all_plain is_blank
all_plain_sound [] h = tt
all_plain_sound (c ∷ s) h = (ground arith, all_plain_sound s (ground arith))

names : Option ℕ → ℕ → Bool
names none r = false
names (some k) r = k == r

names-some : (o : Option ℕ) (r : ℕ) → names o r ≡ true → o ≡ some r
unfolding names
names-some none r h = cc
names-some (some k) r h = ap some (ground arith)

no_parens : Text → Bool
no_parens [] = true
no_parens (c ∷ s) = not (c == b'(' || c == b')') && no_parens s

-- The register's text is a word without parentheses, and names it.
abbrev reads_back : ℕ → Bool
reads_back r =
    names (parse_reg (reg_text r)) r && (all_plain (reg_text r) && no_parens (reg_text r))

-- So for the registers from the first on, as many as are counted down.
each_reads_back : ℕ → Bool
each_reads_back zero = true
each_reads_back (suc last) = each_reads_back last && reads_back last

reg_table : each_reads_back 32 ≡ true
unfolding each_reads_back all_plain names reg_text parse_reg no_parens register_abi_name lookup
    is_blank
reg_table = refl

one_reads_back :
    (r : ℕ) {count : ℕ} → r < count → each_reads_back count ≡ true → reads_back r ≡ true
unfolding each_reads_back
one_reads_back r {count = zero} inside checked = absurd (omega arith)
one_reads_back r {count = suc last} inside checked = elim (ℕ_discrete r last) [
  | yes same ↦ rw same (ground arith)
  | no other ↦ one_reads_back r {count = last} (omega arith) (ground arith)
]

-- Not the parenthesis `p`.
abbrev Lacks : ℕ → Text → Type 0
Lacks p s = All (λ (c : ℕ). (c == p) ≡ false) s

no_parens_sound : (s : Text) → no_parens s ≡ true → Lacks b'(' s × Lacks b')' s
unfolding no_parens
no_parens_sound [] h = (tt, tt)
no_parens_sound (c ∷ s) h =
    let rest = no_parens_sound s (ground arith) in ((ground arith, rest.0), (ground arith, rest.1))

-- A register's name is a word without parentheses, and names it.
pub reg_text-reads :
    (r : ℕ)
    → r < 32
    → (parse_reg (reg_text r) ≡ some r)
      × IsWord (reg_text r)
      × (Lacks b'(' (reg_text r) × Lacks b')' (reg_text r))
unfolding reg_text
reg_text-reads r h =
    let entry = one_reads_back r h reg_table in
    (
      names-some (parse_reg (reg_text r)) r (ground (arith, entry)),
      (all_plain_sound (reg_text r) (ground (arith, entry)), refl),
      no_parens_sound (reg_text r) (ground (arith, entry)),
    )

whole_number-nil : whole_number 10 [] ≡ none
unfolding whole_number
whole_number-nil = refl

-- Decimal digits are read as a number by each of the three readers.
module _ (n : ℕ) (small : n < 2 ^ 31) where
  int32_from_chars-decimal :
      (s : Text)
      → All IsDecimalChar s
      → whole_number 10 s ≡ some n
      → int32_from_chars s ≡ some (pos n)
  unfolding int32_from_chars
  int32_from_chars-decimal [] h e = ground (arith, whole_number-nil)
  int32_from_chars-decimal (c ∷ s) h e =
      let digit : (c == b'-') ≡ false = ground (arith, h.0) in
      rw (digit, int32_from_chars) (rw (e, int32_from_chars) (ground arith))

  imm_magnitude-decimal :
      (s : Text) → All IsDecimalChar s → whole_number 10 s ≡ some n → imm_magnitude s ≡ some (pos n)
  unfolding imm_magnitude
  imm_magnitude-decimal [] h e = int32_from_chars-decimal [] h e
  imm_magnitude-decimal (a ∷ []) h e = int32_from_chars-decimal (a ∷ []) h e
  imm_magnitude-decimal (a ∷ x ∷ []) h e = int32_from_chars-decimal (a ∷ x ∷ []) h e
  imm_magnitude-decimal (a ∷ x ∷ d ∷ s) h e =
      ground (arith, int32_from_chars-decimal (a ∷ x ∷ d ∷ s) h e, h.1.0)

  parse_imm-decimal :
      (s : Text) → All IsDecimalChar s → whole_number 10 s ≡ some n → parse_imm s ≡ some (pos n)
  unfolding parse_imm
  parse_imm-decimal [] h e = ground (arith, whole_number-nil)
  parse_imm-decimal (c ∷ s) h e = ground (arith, imm_magnitude-decimal (c ∷ s) h e, h.0)

to_decimal-spells : (n : ℕ) → whole_number 10 (to_decimal n) ≡ some n
unfolding to_decimal
to_decimal-spells n = whole_number-number_text 10 decimal_wide n (omega arith)

pub parse_imm-to_decimal : (n : ℕ) → n < 2 ^ 31 → parse_imm (to_decimal n) ≡ some (pos n)
parse_imm-to_decimal n h =
    parse_imm-decimal n h (to_decimal n) (to_decimal-IsDecimalChar n) (to_decimal-spells n)

negate-pos : (n : ℕ) → n < 2 ^ 31 → negate (pos (suc n)) ≡ negsuc n
unfolding negate
negate-pos n h = ground arith

parse_imm-minus :
    (s : Text) (v : ℤ) → imm_magnitude s ≡ some v → parse_imm (b'-' ∷ s) ≡ some (negate v)
unfolding parse_imm
parse_imm-minus s v e = rw (e, parse_imm) refl

-- A 16-bit immediate, printed as a signed number, is read as that number.
pub parse_imm-signed_text :
    (imm : ℕ) → imm < 2 ^ 16 → parse_imm (signed_text (signed16 imm)) ≡ some (signed16 imm)
unfolding signed_text
parse_imm-signed_text imm h = of (signed16 imm) (ground arith)
  where
    of : (v : ℤ) → pos_part v + neg_part v < 2 ^ 31 → parse_imm (signed_text v) ≡ some v
    of (pos n) k = parse_imm-to_decimal n (omega arith)
    of (negsuc n) k =
        parse_imm-minus (to_decimal (suc n)) (pos (suc n)) (
          imm_magnitude-decimal (suc n) (omega arith) (to_decimal (suc n))
            (to_decimal-IsDecimalChar (suc n)) (to_decimal-spells (suc n)))
        ∙ ap some (negate-pos n (omega arith))

-- Digits and a sign are plain, and no parentheses.
signed_text-All :
    (P : ℕ → Type 0) → ((c : ℕ) → IsDecimalChar c → P c) → P b'-' → (v : ℤ) → All P (signed_text v)
unfolding signed_text
signed_text-All P digits minus (pos n) = All-map (to_decimal n) digits (to_decimal-IsDecimalChar n)
signed_text-All P digits minus (negsuc n) =
    (minus, All-map (to_decimal (suc n)) digits (to_decimal-IsDecimalChar (suc n)))

decimal_plain : (c : ℕ) → IsDecimalChar c → is_plain c ≡ true
unfolding is_blank
decimal_plain c h = ground arith

nonempty : (s : Text) → s ≢ [] → is_empty s ≡ false
nonempty [] h = absurd (h refl)
nonempty (c ∷ s) h = refl

pub to_decimal-IsWord : (n : ℕ) → IsWord (to_decimal n)
unfolding to_decimal
to_decimal-IsWord n = (
  All-map (to_decimal n) decimal_plain (to_decimal-IsDecimalChar n),
  nonempty (to_decimal n) (number_text-ne-nil 10 decimal_wide n (omega arith)),
)

-- The offset and the register of a load or store.
abbrev pub mem_text : ℤ → ℕ → Text
mem_text v r = signed_text v ++ (b'(' ∷ (reg_text r ++ b')' ∷ []))

append_is_empty : (s t : Text) (c : ℕ) → is_empty (s ++ c ∷ t) ≡ false
append_is_empty [] t c = refl
append_is_empty (x ∷ s) t c = refl

pub mem_text-IsWord : (v : ℤ) (r : ℕ) → r < 32 → IsWord (mem_text v r)
unfolding is_blank
mem_text-IsWord v r h = (
  All-append (λ (c : ℕ). is_plain c ≡ true) (signed_text v) (b'(' ∷ (reg_text r ++ b')' ∷ []))
      (signed_text-All (λ (c : ℕ). is_plain c ≡ true) decimal_plain refl v)
      (
        refl,
        All-append (λ (c : ℕ). is_plain c ≡ true) (reg_text r) (b')' ∷ []) (reg_text-reads r h).1.0
            (refl, tt),
      ),
  append_is_empty (signed_text v) (reg_text r ++ b')' ∷ []) b'(',
)

length-append : (s t : Text) → length (s ++ t) ≡ length s + length t
length-append [] t = omega arith
length-append (c ∷ s) t = omega (arith, length-append s t)

parse_mem_operand-parts :
    (tok : Text) (lp rp : ℕ)
    → find b'(' tok ≡ some lp
    → find b')' tok ≡ some rp
    → lp ≤ rp
    → parse_mem_operand tok ≡ mem_parts tok lp rp
unfolding parse_mem_operand
parse_mem_operand-parts tok lp rp e1 e2 h =
    let before : ltb rp lp ≡ false = ground arith in
    rw (e1, parse_mem_operand) (rw (e2, parse_mem_operand) (rw before refl))

mem_parts-read :
    (tok imm reg : Text) (lp rp : ℕ) (v : ℤ) (r : ℕ)
    → take tok lp ≡ imm
    → take (drop tok (lp + 1)) (rp - lp - 1) ≡ reg
    → parse_imm imm ≡ some v
    → parse_reg reg ≡ some r
    → mem_parts tok lp rp ≡ some (v, r)
unfolding mem_parts
mem_parts-read tok imm reg lp rp v r e1 e2 e3 e4 =
    rw (e1, mem_parts) (rw (e3, mem_parts) (rw (e2, mem_parts) (rw (e4, mem_parts) refl)))

pub parse_mem_operand-mem_text :
    (imm r : ℕ)
    → imm < 2 ^ 16
    → r < 32
    → parse_mem_operand (mem_text (signed16 imm) r) ≡ some (signed16 imm, r)
parse_mem_operand-mem_text imm r hi hr =
    let v = signed16 imm in
    let s = signed_text v in
    let name = reg_text r in
    let (reads, _, (no_left, no_right)) = reg_text-reads r hr in
    let s_left : Lacks b'(' s =
      signed_text-All (λ c. (c == b'(') ≡ false) (λ c h. ground arith) refl v in
    let s_right : Lacks b')' s =
      signed_text-All (λ c. (c == b')') ≡ false) (λ c h. ground arith) refl v in
    let before : Text = s ++ (b'(' ∷ name) in
    let regroup : before ++ b')' ∷ [] ≡ mem_text v r = append_assoc s (b'(' ∷ name) (b')' ∷ []) in
    let left = find-append b'(' s (name ++ b')' ∷ []) s_left in
    let right : find b')' (mem_text v r) ≡ some (length before) =
      subst (λ t. find b')' t ≡ some (length before)) regroup
        (find-append b')' before []
          (All-append (λ c. (c == b')') ≡ false) s (b'(' ∷ name) s_right (refl, no_right))) in
    let span : length before - length s - 1 ≡ length name =
      omega (arith, length-append s (b'(' ∷ name)) in
    parse_mem_operand-parts (mem_text v r) (length s) (length before) left right
      (omega (arith, length-append s (b'(' ∷ name)))
    ∙ mem_parts-read (mem_text v r) s name (length s) (length before) v r
        (take-append b'(' s (name ++ b')' ∷ []))
        (rw (drop-append b'(' s (name ++ b')' ∷ [])) (rw span (take-append b')' name [])))
        (parse_imm-signed_text imm hi) reads

-- The upper immediate: four hexadecimal digits behind a prefix.
abbrev pub upper_text : ℕ → Text
upper_text n = b'0' ∷ b'x' ∷ zero_filled 4 (to_upper_hex n)

filled-spells : (k : ℕ) (s : Text) → digits_from 16 0 (filled b'0' k s) ≡ digits_from 16 0 s
unfolding digits_from filled
filled-spells zero s = refl
filled-spells (suc k) s = filled-spells k s

filled-All : (P : ℕ → Type 0) (c k : ℕ) (s : Text) → P c → All P s → All P (filled c k s)
unfolding filled
filled-All P c zero s h a = a
filled-All P c (suc k) s h a = (h, filled-All P c k s h a)

filled-ne-nil : (c k : ℕ) (s : Text) → s ≢ [] → filled c k s ≢ []
unfolding filled
filled-ne-nil c zero s h = h
filled-ne-nil c (suc k) s h = cons-ne-nil c (filled c k s)

parse_imm-hex :
    (s : Text) (n : ℕ)
    → s ≢ []
    → whole_number 16 s ≡ some n
    → n < 2 ^ 31
    → parse_imm (b'0' ∷ b'x' ∷ s) ≡ some (pos n)
unfolding parse_imm imm_magnitude uint32_from_chars
parse_imm-hex [] n h e small = absurd (h refl)
parse_imm-hex (d ∷ s) n h e small = rw (e, uint32_from_chars) (ground arith)

pub upper_text-reads :
    (n : ℕ) → n < 2 ^ 16 → (parse_imm (upper_text n) ≡ some (pos n)) × IsWord (upper_text n)
unfolding to_upper_hex zero_filled is_blank
upper_text-reads n h =
    let digits = to_upper_hex n in
    let width = 4 - length digits in
    let some_digits = number_text-ne-nil 16 hex_wide n (omega arith) in
    let z = filled b'0' width digits in
    let spelled : whole_number 16 z ≡ some n =
      whole_number-digits 16 z (filled-ne-nil b'0' width digits some_digits)
      ∙ filled-spells width digits
      ∙ sym (whole_number-digits 16 digits some_digits)
      ∙ whole_number-number_text 16 hex_wide n (omega arith) in
    (
      parse_imm-hex z n (filled-ne-nil b'0' width digits some_digits) spelled (omega arith),
      (
        (
          refl,
          (
            refl,
            filled-All (λ c. is_plain c ≡ true) b'0' width digits refl
                (number_text-All (λ c. is_plain c ≡ true) 16 hex_wide (λ d small. ground arith) n),
          ),
        ),
        refl,
      ),
    )
