-- ===== src/ElfLoader/Parsed.antt =====
-- What a file that parses has given: segments inside the address space whose contents are the file's.
use mathlib.Core.Path.{subst}
use clear_core.Text.Laws.{length-drop}
use clear_core.Text.{take, drop, Text, is_empty}
use clear_core.Prelude.{
  zero, suc, refl, [], ◌∷◌, false, List, ℕ, All, ◌+◌, ◌≡◌, ◌≤◌, length, suc, ◌<◌, ◌^◌, Option-cases,
  arith, if_cases, ltb, ◌⊎◌, ap, inl, not, ◌&&◌, ◌*◌, if_both, inr, ◌==◌, ◌++◌, All-append, sym,
}
use clear_core.ElfLoader.{
  ElfSegment, ElfImage, segment_of, skipped, bad, loaded, read_segments, some_segments, parse_elf,
  read_ehdr, read_phdr, header_error, address_space_end, Phdr, Ehdr, Loaded,
}

-- A segment taken from the file: its contents stand at some offset there.
pub record IsSegment (file : List ℕ) (seg : ElfSegment) : Type 0 where
  pub holds : seg.filesz ≤ seg.memsz
  pub not_empty : 0 < seg.memsz
  pub in_space : seg.vaddr + seg.memsz ≤ 2 ^ 32
  pub whole : length seg.contents ≡ seg.filesz
  pub from_file : (off : ℕ) × (seg.contents ≡ take (drop file off) seg.filesz)

length-take : (xs : List ℕ) (n : ℕ) → n ≤ length xs → length (take xs n) ≡ n
length-take [] n h = omega arith
length-take (x ∷ xs) zero h = refl
length-take (x ∷ xs) (suc n) h = ap (λ (k : ℕ). suc k) (length-take xs n (omega arith))

loaded_inj : {a b : ElfSegment} → loaded a ≡ loaded b → a ≡ b
loaded_inj h = cc

-- The contents that the checks have let through.
contents_length :
    (file : List ℕ) (off n : ℕ)
    → (ltb 0 n && ltb (length file) (off + n)) ≡ false
    → length (take (drop file off) n) ≡ n
contents_length file off n h = length-take (drop file off) n (ground (arith, length-drop file off))

segment_of-IsSegment :
    (file : List ℕ) (i : ℕ) (p : Phdr) {seg : ElfSegment}
    → segment_of file i p ≡ loaded seg
    → IsSegment file seg
unfolding segment_of
segment_of-IsSegment file i p {seg} =
    let P = λ (r : Loaded). r ≡ loaded seg → IsSegment file seg in
    if_cases P (not (p.p_type == 1)) (λ _ h. absurd (cc))
      (λ _.
        if_cases P (p.p_filesz == 0 && p.p_memsz == 0) (λ _ h. absurd (cc))
          (λ e1.
            if_cases P (ltb p.p_memsz p.p_filesz) (λ _ h. absurd (cc))
              (λ e2.
                if_cases P (ltb address_space_end (p.p_vaddr + p.p_memsz)) (λ _ h. absurd (cc))
                  (λ e3.
                    if_cases P (ltb 0 p.p_filesz && ltb (length file) (p.p_offset + p.p_filesz))
                      (λ _ h. absurd (cc))
                      (λ e4 h. subst (IsSegment file) (loaded_inj h) (record {
                        holds = ground arith;
                        not_empty = ground arith;
                        in_space = ground arith;
                        whole = contents_length file p.p_offset p.p_filesz e4;
                        from_file = (p.p_offset, refl);
                      }))))))

Loaded-cases :
    (l : Loaded) → (l ≡ skipped) ⊎ ((m : Text) × (l ≡ bad m)) ⊎ ((s : ElfSegment) × (l ≡ loaded s))
Loaded-cases skipped = inl refl
Loaded-cases (bad m) = inr (inl (m, refl))
Loaded-cases (loaded s) = inr (inr (s, refl))

read_segments-IsSegment :
    (file : List ℕ) (e : Ehdr) (i count : ℕ) (segments : List ElfSegment)
    → All (IsSegment file) segments
    → All (IsSegment file) (read_segments file e i count segments).segments
unfolding read_segments
read_segments-IsSegment file e i zero segments h = h
read_segments-IsSegment file e i (suc count) segments h =
    elim (Option-cases (read_phdr file (e.e_phoff + i * e.e_phentsize))) [
      | inl r ↦ rw (r, read_segments) h
      | inr (p, r) ↦ elim (Loaded-cases (segment_of file i p)) [
        | inl l ↦
            rw (r, read_segments)
              (rw (l, read_segments) (read_segments-IsSegment file e (suc i) count segments h))
        | inr (inl (m, l)) ↦ rw (r, read_segments) (rw (l, read_segments) h)
        | inr (inr (seg, l)) ↦
            rw (r, read_segments)
              (rw (l, read_segments)
                (read_segments-IsSegment file e (suc i) count (segments ++ seg ∷ []) (
                  All-append (IsSegment file) segments (seg ∷ []) h
                    (segment_of-IsSegment file i p l, tt))))
      ]
    ]

some_segments-same : (image : ElfImage) → (some_segments image).segments ≡ image.segments
unfolding some_segments
some_segments-same image = elim (Option-cases image.error) [
  | inl e ↦
      rw (e, some_segments)
        (if_both (λ (x : ElfImage). x.segments ≡ image.segments) (is_empty image.segments) refl
          refl)
  | inr (m, e) ↦ rw (e, some_segments) refl
]

-- Every segment that parsing a file gives, also of one that is refused in the end, lies in the
-- 32-bit address space without wrapping, is not empty, takes no more bytes from the file than it
-- has in memory, and its contents are as many bytes and stand in the file.
pub parse_elf-IsSegment : (file : List ℕ) → All (IsSegment file) (parse_elf file).segments
unfolding parse_elf
parse_elf-IsSegment file = elim (Option-cases (read_ehdr file)) [
  | inl r ↦ rw (r, parse_elf) tt
  | inr (e, r) ↦ elim (Option-cases (header_error file e)) [
    | inr (m, q) ↦ rw (r, parse_elf) (rw (q, parse_elf) tt)
    | inl q ↦
        let image = read_segments file e 0 e.e_phnum [] in
        rw (r, parse_elf)
          (rw (q, parse_elf)
            (subst (All (IsSegment file)) (sym (some_segments-same image))
              (read_segments-IsSegment file e 0 e.e_phnum [] tt)))
  ]
]
