-- ===== src/ElfLoader/Placed.antt =====
-- Memory after an image is loaded.
use mathlib.Core.Path.{subst}
use clear_core.SingleCycle.{Cpu}
use clear_core.Memory.{Memory, put, write_byte, in_bounds}
use native.Mathlib.Decide.{ℕ_discrete}
use clear_core.Prelude.{
  zero, suc, refl, [], ◌∷◌, true, none, List, ℕ, All, if◌then◌else◌, ◌+◌, ◌≡◌, ◌≤◌, leb, ◌^◌, ◌&&◌,
  ◌<◌, ltb, ◌-◌, arith, suc, Bool-cases, inl, ◌⊎◌, add32, inr, sym, ap, ◌∙◌, Bool, Option-cases,
}
use clear_core.ElfLoader.{
  ElfSegment, ElfImage, place, place_segment, place_segments, load_elf_into_processor, parse_elf,
  byte_of,
}
use clear_core.ElfLoader.Parsed.{IsSegment, parse_elf-IsSegment}

-- The byte that a segment puts at an address where memory held `before`.
abbrev pub segment_byte : ElfSegment → ℕ → ℕ → ℕ
segment_byte seg a before =
    if leb seg.vaddr a && ltb a (seg.vaddr + seg.memsz)
    then (if ltb a (seg.vaddr + seg.filesz) then byte_of seg.contents (a - seg.vaddr) else 0)
    else before

-- The same for segments in order: later ones lie over earlier ones.
abbrev pub image_byte : List ElfSegment → ℕ → ℕ → ℕ
image_byte [] a before = before
image_byte (seg ∷ rest) a before = image_byte rest a (segment_byte seg a before)

write_byte-put :
    (m : Memory) (a v : ℕ)
    → (write_byte m a v).1 ≡ true
    → (write_byte m a v ≡ (record m { bytes = put m.bytes a v }, true)) × (a + 1 ≤ m.size)
unfolding write_byte in_bounds
write_byte-put m a v done = elim (Bool-cases (leb (a + 1) m.size)) [
  | inl e ↦ (rw e refl, ground arith)
  | inr e ↦ absurd (ground arith)
]

-- A round of the loop that succeeds, and the round before it.
place_round :
    (f : ℕ → ℕ) (vaddr off count : ℕ) (m : Memory)
    → vaddr + off < 2 ^ 32
    → (place f vaddr off (suc count) m).1 ≡ true
    → (place f vaddr off (suc count) m
        ≡ place f vaddr (suc off) count (record m { bytes = put m.bytes (vaddr + off) (f off) }))
      × (vaddr + off + 1 ≤ m.size)
unfolding place
place_round f vaddr off count m small done =
    let same_address : add32 vaddr off ≡ vaddr + off = omega arith in
    elim (Bool-cases (write_byte m (add32 vaddr off) (f off)).1) [
      | inr e ↦ absurd (cc (rw (e, place) at done))
      | inl e ↦
          let (written, fits) = write_byte-put m (add32 vaddr off) (f off) e in
          (
            rw (e, place)
                (ap (λ (r : Memory × Bool). place f vaddr (suc off) count r.0) written
                  ∙ ap
                      (λ (x : ℕ).
                        place f vaddr (suc off) count (record m { bytes = put m.bytes x (f off) }))
                      same_address),
            omega (arith, fits, same_address),
          )
    ]

abbrev Leaves : (ℕ → ℕ) → ℕ → ℕ → ℕ → Memory → Memory → Type 0
Leaves f vaddr off count m m' =
    (m'.size ≡ m.size)
    × ((a : ℕ)
        → m'.bytes a ≡ (
            if leb (vaddr + off) a && ltb a (vaddr + off + count)
            then f (a - vaddr)
            else m.bytes a))
    × ((count ≡ 0) ⊎ (vaddr + off + count ≤ m.size))

one_more :
    (f g : ℕ → ℕ) (v off count a : ℕ)
    → (if leb (v + suc off) a && ltb a (v + suc off + count)
        then f (a - v)
        else put g (v + off) (f off) a)
      ≡ (if leb (v + off) a && ltb a (v + off + suc count) then f (a - v) else g a)
one_more f g v off count a = elim (ℕ_discrete a (v + off)) [
  | yes e ↦ let same_offset : a - v ≡ off = omega arith in rw same_offset (ground arith)
  | no e ↦ ground arith
]

one_more_fits :
    (v off count size : ℕ)
    → v + off + 1 ≤ size
    → (count ≡ 0) ⊎ (v + suc off + count ≤ size)
    → v + off + suc count ≤ size
one_more_fits v off count size h (inl e) = omega arith
one_more_fits v off count size h (inr e) = omega arith

-- The contents and then the zeros of a segment.
two_parts :
    (g : ℕ → ℕ) (v filesz memsz a before : ℕ)
    → filesz ≤ memsz
    → (if leb (v + filesz) a && ltb a (v + filesz + (memsz - filesz))
        then 0
        else if leb (v + 0) a && ltb a (v + 0 + filesz)
        then g (a - v)
        else before)
      ≡ (if leb v a && ltb a (v + memsz)
          then (if ltb a (v + filesz) then g (a - v) else 0)
          else before)
two_parts g v filesz memsz a before h = ground arith

two_parts_fit :
    (v filesz memsz size : ℕ)
    → filesz ≤ memsz
    → 0 < memsz
    → (filesz ≡ 0) ⊎ (v + 0 + filesz ≤ size)
    → (memsz - filesz ≡ 0) ⊎ (v + filesz + (memsz - filesz) ≤ size)
    → v + memsz ≤ size
two_parts_fit v filesz memsz size h k (inl e) (inl e') = absurd (omega arith)
two_parts_fit v filesz memsz size h k (inr e) (inl e') = omega arith
two_parts_fit v filesz memsz size h k e (inr e') = omega arith

-- What a loop of writes leaves.
place-bytes :
    (f : ℕ → ℕ) (vaddr off count : ℕ) (m : Memory)
    → vaddr + off + count ≤ 2 ^ 32
    → (place f vaddr off count m).1 ≡ true
    → Leaves f vaddr off count m (place f vaddr off count m).0
place-bytes f vaddr off zero m h done = unfold place in (refl, (λ a. ground arith), inl refl)
place-bytes f vaddr off (suc count) m h done =
    let (round, fits) = place_round f vaddr off count m (omega arith) done in
    let m1 : Memory = record m { bytes = put m.bytes (vaddr + off) (f off) } in
    let (same_size, bytes, room) =
      place-bytes f vaddr (suc off) count m1 (omega arith)
        (sym (ap (λ (r : Memory × Bool). r.1) round) ∙ done) in
    rw round (
      same_size,
      (λ a. bytes a ∙ one_more f m.bytes vaddr off count a),
      inr (one_more_fits vaddr off count m.size fits room),
    )

place_segment-bytes :
    (seg : ElfSegment) (m : Memory)
    → seg.filesz ≤ seg.memsz
    → 0 < seg.memsz
    → seg.vaddr + seg.memsz ≤ 2 ^ 32
    → (place_segment seg m).1 ≡ true
    → ((place_segment seg m).0.size ≡ m.size)
      × ((a : ℕ) → (place_segment seg m).0.bytes a ≡ segment_byte seg a (m.bytes a))
      × (seg.vaddr + seg.memsz ≤ m.size)
unfolding place_segment
place_segment-bytes seg m holds some_bytes fits done =
    elim (Bool-cases (place (byte_of seg.contents) seg.vaddr 0 seg.filesz m).1) [
      | inr e ↦ absurd (cc (rw (e, place_segment) at done))
      | inl e ↦
          let m1 = (place (byte_of seg.contents) seg.vaddr 0 seg.filesz m).0 in
          let (size1, bytes1, room1) =
            place-bytes (byte_of seg.contents) seg.vaddr 0 seg.filesz m (omega arith) e in
          let (size2, bytes2, room2) =
            place-bytes (λ _. 0) seg.vaddr seg.filesz (seg.memsz - seg.filesz) m1 (omega arith)
              (rw (e, place_segment) at done) in
          rw (e, place_segment)
            (
              size2 ∙ size1,
              (λ a.
                  bytes2 a
                  ∙ ap
                      (λ (x : ℕ).
                        if leb (seg.vaddr + seg.filesz) a
                          && ltb a (seg.vaddr + seg.filesz + (seg.memsz - seg.filesz))
                        then 0
                        else x)
                      (bytes1 a)
                  ∙ two_parts (byte_of seg.contents) seg.vaddr seg.filesz seg.memsz a (m.bytes a)
                      holds),
              two_parts_fit seg.vaddr seg.filesz seg.memsz m.size holds some_bytes room1 (
                  subst
                    (λ (n : ℕ).
                      (seg.memsz - seg.filesz ≡ 0)
                      ⊎ (seg.vaddr + seg.filesz + (seg.memsz - seg.filesz) ≤ n))
                    size1 room2),
            )
    ]

place_segments-bytes :
    (file : List ℕ) (segs : List ElfSegment) (m : Memory)
    → All (IsSegment file) segs
    → (place_segments segs m).1 ≡ none
    → ((place_segments segs m).0.size ≡ m.size)
      × ((a : ℕ) → (place_segments segs m).0.bytes a ≡ image_byte segs a (m.bytes a))
      × All (λ (seg : ElfSegment). seg.vaddr + seg.memsz ≤ m.size) segs
unfolding place_segments
place_segments-bytes file [] m h done = (refl, λ a. refl, tt)
place_segments-bytes file (seg ∷ rest) m h done = elim (Bool-cases (place_segment seg m).1) [
  | inr e ↦ absurd (cc (rw (e, place_segments) at done))
  | inl e ↦
      let m1 = (place_segment seg m).0 in
      let (size1, bytes1, fits1) =
        place_segment-bytes seg m h.0.holds h.0.not_empty h.0.in_space e in
      let (size2, bytes2, fits2) =
        place_segments-bytes file rest m1 h.1 (rw (e, place_segments) at done) in
      rw (e, place_segments)
        (
          size2 ∙ size1,
          (λ a. bytes2 a ∙ ap (image_byte rest a) (bytes1 a)),
          (
            fits1,
            subst (λ (n : ℕ). All (λ (x : ElfSegment). x.vaddr + x.memsz ≤ n) rest) size1 fits2,
          ),
        )
]

-- The load as one record, where it gives no error.
load_elf_into_processor-done :
    (cpu : Cpu) (image : ElfImage)
    → (load_elf_into_processor cpu image).1 ≡ none
    → (image.error ≡ none)
      × ((place_segments image.segments cpu.mem).1 ≡ none)
      × ((load_elf_into_processor cpu image).0
          ≡ record cpu { mem = (place_segments image.segments cpu.mem).0; pc = image.entry })
unfolding load_elf_into_processor
load_elf_into_processor-done cpu image h = elim (Option-cases image.error) [
  | inr (msg, e) ↦ absurd (cc (rw (e, load_elf_into_processor) at h))
  | inl e ↦ elim (Option-cases (place_segments image.segments cpu.mem).1) [
    | inr (msg, q) ↦
        absurd (cc (rw (q, load_elf_into_processor) at (rw (e, load_elf_into_processor) at h)))
    | inl q ↦ (e, q, rw (e, load_elf_into_processor) (rw (q, load_elf_into_processor) refl))
  ]
]

-- If loading a parsed file into a processor gives no error, the file parsed without one and every
-- segment fits the memory. The memory then has the size that it had, every byte of it is what the
-- segments put there, contents, then zeros, later segments over earlier ones, or else what it was,
-- and the processor is as it was but for its memory and its pc, which is the entry point.
pub load_elf_into_processor-image :
    (cpu : Cpu) (file : List ℕ)
    → (load_elf_into_processor cpu (parse_elf file)).1 ≡ none
    → ((parse_elf file).error ≡ none)
      × All (λ (seg : ElfSegment). seg.vaddr + seg.memsz ≤ cpu.mem.size) (parse_elf file).segments
      × (m : Memory) × ((load_elf_into_processor cpu (parse_elf file)).0
          ≡ record cpu { mem = m; pc = (parse_elf file).entry })
      × (m.size ≡ cpu.mem.size)
      × ((a : ℕ) → m.bytes a ≡ image_byte (parse_elf file).segments a (cpu.mem.bytes a))
load_elf_into_processor-image cpu file h =
    let (parsed, placed, result) = load_elf_into_processor-done cpu (parse_elf file) h in
    let segs = (parse_elf file).segments in
    let (same_size, bytes, fits) =
      place_segments-bytes file segs cpu.mem (parse_elf-IsSegment file) placed in
    (parsed, fits, (place_segments segs cpu.mem).0, result, same_size, bytes)
