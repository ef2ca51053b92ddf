-- ===== src/GdbStub/Breakpoints.antt =====
-- A breakpoint that is set and cleared leaves no trace.
use clear_core.Memory.Access.{word_at, read_word-word_at, read_word-write_word}
use clear_core.Memory.{write_word, IsMemory, Memory, read_word, in_bounds, put}
use clear_core.Prelude.{
  refl, [], ◌∷◌, true, false, none, some, ℕ, List, ◌≡◌, ◌++◌, ◌⊎◌, arith, inr, ◌%◌, ◌<◌, Bool-cases,
  ap, fun_ext, if_cases, inl, low_bits, ◌==◌, Bool, ◌&&◌, ◌+◌, leb, not, shr, ◌∙◌, ◌||◌, sym,
}
use clear_core.GdbStub.{
  Stub, Breakpoint, is_inserted, taken_out, insert_breakpoint, remove_breakpoint, break_word,
}

-- Taking out the breakpoint that was added last gives the others back.
taken_out-snoc :
    (addr word : ℕ) (bs : List Breakpoint)
    → is_inserted addr bs ≡ false
    → taken_out addr (bs ++ (record { addr = addr; saved_word = word } ∷ [])) ≡ some (word, bs)
unfolding taken_out is_inserted
taken_out-snoc addr word [] h = ground arith
taken_out-snoc addr word (b ∷ bs) h =
    let ih = taken_out-snoc addr word bs (ground arith) in
    let other : (b.addr == addr) ≡ false = ground arith in
    rw (other, taken_out) (rw (ih, taken_out) refl)

-- The four cells of a word.
abbrev put_word : (ℕ → ℕ) → ℕ → ℕ → ℕ → ℕ
put_word f addr v =
    put
      (put (put (put f addr (low_bits v 8)) (addr + 1) (low_bits (shr v 8) 8)) (addr + 2)
        (low_bits (shr v 16) 8))
      (addr + 3) (low_bits (shr v 24) 8)

abbrev IsWordPlace : Memory → ℕ → Type 0
IsWordPlace m addr = ((addr % 4 == 0) && leb (addr + 4) m.size) ≡ true

write_word-put_word :
    (m : Memory) (addr v : ℕ)
    → IsWordPlace m addr
    → write_word m addr v ≡ (record m { bytes = put_word m.bytes addr v }, true)
unfolding write_word in_bounds
write_word-put_word m addr v h =
    if_cases (λ (r : Memory × Bool). r ≡ (record m { bytes = put_word m.bytes addr v }, true))
      (not (low_bits addr 2 == 0) || not (leb (addr + 4) m.size)) (λ e. absurd (ground arith))
      (λ e. refl)

put_word-restores :
    (f : ℕ → ℕ) (addr v : ℕ)
    → ((b : ℕ) → f b < 256)
    → put_word (put_word f addr v) addr (word_at f addr) ≡ f
put_word-restores f addr v h =
    fun_ext (λ b. ground (arith, h addr, h (addr + 1), h (addr + 2), h (addr + 3)))

-- The word at a place, as a decision.
place_or_none :
    (m : Memory) (addr : ℕ)
    → IsMemory m
    → (IsWordPlace m addr × (read_word m addr ≡ some (word_at m.bytes addr)))
      ⊎ (read_word m addr ≡ none)
place_or_none m addr h = elim (Bool-cases ((addr % 4 == 0) && leb (addr + 4) m.size)) [
  | inl e ↦ inl (e, read_word-word_at m addr h ∙ rw e refl)
  | inr e ↦ inr (read_word-word_at m addr h ∙ rw e refl)
]

-- The stub after a breakpoint is set.
abbrev with_breakpoint : ℕ → ℕ → Stub → Stub
with_breakpoint addr word s = record s {
  cpu = record s.cpu {
    mem = record s.cpu.mem { bytes = put_word s.cpu.mem.bytes addr break_word };
  };
  breakpoints = s.breakpoints ++ (record { addr = addr; saved_word = word } ∷ []);
}

insert_breakpoint-with_breakpoint :
    (addr : ℕ) {word : ℕ} (s : Stub)
    → is_inserted addr s.breakpoints ≡ false
    → read_word s.cpu.mem addr ≡ some word
    → IsWordPlace s.cpu.mem addr
    → insert_breakpoint addr s ≡ (with_breakpoint addr word s, true)
unfolding insert_breakpoint
insert_breakpoint-with_breakpoint addr s fresh r place =
    rw (fresh, insert_breakpoint)
      (rw (r, insert_breakpoint)
        (rw (write_word-put_word s.cpu.mem addr break_word place, insert_breakpoint) refl))

remove_breakpoint-with_breakpoint :
    (addr : ℕ) (s : Stub)
    → IsMemory s.cpu.mem
    → is_inserted addr s.breakpoints ≡ false
    → IsWordPlace s.cpu.mem addr
    → remove_breakpoint addr (with_breakpoint addr (word_at s.cpu.mem.bytes addr) s) ≡ (s, true)
unfolding remove_breakpoint
remove_breakpoint-with_breakpoint addr s h fresh place =
    let word = word_at s.cpu.mem.bytes addr in
    let m : Memory = record s.cpu.mem { bytes = put_word s.cpu.mem.bytes addr break_word } in
    rw (taken_out-snoc addr word s.breakpoints fresh, remove_breakpoint)
      (ap (λ (x : Memory). (record s { cpu = record s.cpu { mem = x } }, true))
        (ap (λ (r : Memory × Bool). r.0) (write_word-put_word m addr word place)
          ∙ ap (λ (f : ℕ → ℕ). record s.cpu.mem { bytes = f })
              (put_word-restores s.cpu.mem.bytes addr break_word h)))

insert_breakpoint-refused :
    (addr : ℕ) (s : Stub)
    → is_inserted addr s.breakpoints ≡ false
    → read_word s.cpu.mem addr ≡ none
    → insert_breakpoint addr s ≡ (s, false)
unfolding insert_breakpoint
insert_breakpoint-refused addr s fresh r =
    rw (fresh, insert_breakpoint) (rw (r, insert_breakpoint) refl)

reads-break :
    (m : Memory) (addr : ℕ)
    → IsMemory m
    → IsWordPlace m addr
    → read_word (record m { bytes = put_word m.bytes addr break_word }) addr ≡ some break_word
reads-break m addr h place =
    let e = write_word-put_word m addr break_word place in
    sym (ap (λ (r : Memory × Bool). read_word r.0 addr) e)
    ∙ read_word-write_word m addr addr break_word h (omega arith)
        (ap (λ (r : Memory × Bool). r.1) e)
    ∙ ground arith

-- In a memory of bytes, setting a breakpoint where none is set changes nothing and fails if no word
-- can be read there; else it succeeds, puts BREAK there, and clearing it succeeds and gives the
-- whole stub as it was before.
pub remove_breakpoint-insert_breakpoint :
    (addr : ℕ) (s : Stub)
    → IsMemory s.cpu.mem
    → is_inserted addr s.breakpoints ≡ false
    → ((read_word s.cpu.mem addr ≡ none) × (insert_breakpoint addr s ≡ (s, false)))
      ⊎ (((insert_breakpoint addr s).1 ≡ true)
          × (read_word (insert_breakpoint addr s).0.cpu.mem addr ≡ some break_word)
          × (remove_breakpoint addr (insert_breakpoint addr s).0 ≡ (s, true)))
remove_breakpoint-insert_breakpoint addr s h fresh = elim (place_or_none s.cpu.mem addr h) [
  | inr r ↦ inl (r, insert_breakpoint-refused addr s fresh r)
  | inl (place, r) ↦
      let e = insert_breakpoint-with_breakpoint addr s fresh r place in
      inr (
        ap (λ (p : Stub × Bool). p.1) e,
        ap (λ (p : Stub × Bool). read_word p.0.cpu.mem addr) e ∙ reads-break s.cpu.mem addr h place,
        ap (λ (p : Stub × Bool). remove_breakpoint addr p.0) e
            ∙ remove_breakpoint-with_breakpoint addr s h fresh place,
      )
]
