-- ===== src/ElfLoader.antt =====
-- src/mips/elf_loader.cpp, include/mips/elf_loader.h: ELF files to segments, and segments to memory.
-- The structures have the fields that the code reads. The input stream is the list of the file's
-- bytes; its words are read in the host's order, little-endian, and a seek succeeds in the file.
pub mod Parsed
pub mod Placed
use Prim.Native.String.{String}
use clear_core.SingleCycle.{Cpu}
use clear_core.Memory.{Memory, write_byte}
use clear_core.Text.{Text, codes, take, drop, to_lower, is_empty}
use clear_core.Text.Numbers.{to_decimal, to_upper_hex}
use clear_core.Prelude.{
  ℕ, zero, suc, ◌+◌, ◌-◌, ◌*◌, ◌^◌, Bool, true, false, not, ◌&&◌, ◌||◌, Option, none, some, List,
  [], ◌∷◌, ◌++◌, map, ◌==◌, leb, ltb, if◌then◌else◌, length, get_elem?, add32,
}

pub record Ehdr : Type 0 where
  pub e_ident : List ℕ
  pub e_type : ℕ
  pub e_machine : ℕ
  pub e_entry : ℕ
  pub e_phoff : ℕ
  pub e_phentsize : ℕ
  pub e_phnum : ℕ

pub record Phdr : Type 0 where
  pub p_type : ℕ
  pub p_offset : ℕ
  pub p_vaddr : ℕ
  pub p_filesz : ℕ
  pub p_memsz : ℕ

pub record ElfSegment : Type 0 where
  pub vaddr : ℕ
  pub filesz : ℕ
  pub memsz : ℕ
  pub contents : List ℕ

pub record ElfImage : Type 0 where
  pub segments : List ElfSegment
  pub entry : ℕ
  pub error : Option Text

abbrev pub byte_of : List ℕ → ℕ → ℕ
byte_of file i = elim (get_elem? file i) [ none ↦ 0 | some b ↦ b ]

abbrev pub half_of : List ℕ → ℕ → ℕ
half_of file i = byte_of file i + byte_of file (i + 1) * 2 ^ 8

abbrev pub word_of : List ℕ → ℕ → ℕ
word_of file i = half_of file i + half_of file (i + 2) * 2 ^ 16

-- `sizeof` of the two structures.
abbrev pub ehdr_size : ℕ
ehdr_size = 52

abbrev pub phdr_size : ℕ
phdr_size = 32

unfoldable pub read_ehdr : List ℕ → Option Ehdr
read_ehdr file =
    if ltb (length file) ehdr_size
    then none
    else some (record {
      e_ident = take file 16;
      e_type = half_of file 16;
      e_machine = half_of file 18;
      e_entry = word_of file 24;
      e_phoff = word_of file 28;
      e_phentsize = half_of file 42;
      e_phnum = half_of file 44;
    })

unfoldable pub read_phdr : List ℕ → ℕ → Option Phdr
read_phdr file off =
    if ltb (length file) (off + phdr_size)
    then none
    else some (record {
      p_type = word_of file off;
      p_offset = word_of file (off + 4);
      p_vaddr = word_of file (off + 8);
      p_filesz = word_of file (off + 16);
      p_memsz = word_of file (off + 20);
    })

-- Bare hexadecimal.
abbrev pub hex_text : ℕ → Text
hex_text v = map to_lower (to_upper_hex v)

abbrev pub em_dash : Text
em_dash = 0xe2 ∷ 0x80 ∷ 0x94 ∷ []

-- The checks of the file header, in order: the message of the first that fails.
unfoldable pub header_error : List ℕ → Ehdr → Option Text
header_error file e =
    if not (byte_of e.e_ident 0 == 0x7f)
      || (not (byte_of e.e_ident 1 == b'E')
          || (not (byte_of e.e_ident 2 == b'L') || not (byte_of e.e_ident 3 == b'F')))
    then some (codes "not an ELF file (bad magic)")
    else if not (byte_of e.e_ident 4 == 1)
    then some (codes "only ELF32 is supported (got ELF64)")
    else if not (byte_of e.e_ident 5 == 1)
    then some (
        codes "only little-endian MIPS ELF (mipsel) is supported; "
        ++ codes "recompile with mipsel-linux-gnu-gcc or mipsel-linux-musl-gcc")
    else if not (e.e_machine == 8)
    then some
        (codes "ELF machine type is not MIPS (e_machine=" ++ (to_decimal e.e_machine ++ codes ")"))
    else if not (e.e_type == 2) && not (e.e_type == 1)
    then some (codes "only ET_EXEC and ET_REL ELF types are supported")
    else if e.e_phnum == 0 || e.e_phoff == 0
    then some (
        codes "ELF has no program headers "
        ++ (em_dash
            ++ (codes " is this a relocatable object without a linker script?"
                ++ codes "  Use -static -Ttext=0x0 or link with a MEMORY script.")))
    else if not (e.e_phentsize == phdr_size)
    then some (
        codes "unsupported program-header entry size (e_phentsize="
        ++ (to_decimal e.e_phentsize
            ++ (codes ", expected " ++ (to_decimal phdr_size ++ codes ")"))))
    else if ltb (length file) (e.e_phoff + e.e_phnum * e.e_phentsize)
    then some (
        codes "program-header table ("
        ++ (to_decimal e.e_phnum
            ++ (codes " entries at file offset 0x"
                ++ (hex_text e.e_phoff ++ codes ") extends past the end of the file"))))
    else none

-- What a program header comes to: nothing, a message, or a segment.
pub data Loaded : Type 0 where
  skipped : Loaded
  bad : Text → Loaded
  loaded : ElfSegment → Loaded

abbrev pub address_space_end : ℕ
address_space_end = 2 ^ 32

abbrev pub about_segment : ℕ → Text → Text
about_segment i msg = codes "segment " ++ (to_decimal i ++ msg)

unfoldable pub segment_of : List ℕ → ℕ → Phdr → Loaded
segment_of file i p =
    if not (p.p_type == 1)
    then skipped
    else if p.p_filesz == 0 && p.p_memsz == 0
    then skipped
    else if ltb p.p_memsz p.p_filesz
    then bad (
        about_segment i (
          codes " has p_memsz (0x"
          ++ (hex_text p.p_memsz
              ++ (codes ") smaller than p_filesz (0x" ++ (hex_text p.p_filesz ++ codes ")")))))
    else if ltb address_space_end (p.p_vaddr + p.p_memsz)
    then bad (
        about_segment i (
          codes " at 0x"
          ++ (hex_text p.p_vaddr
              ++ (codes " (0x"
                  ++ (hex_text p.p_memsz
                      ++ codes " bytes) wraps past the end of the 32-bit address space")))))
    else if ltb 0 p.p_filesz && ltb (length file) (p.p_offset + p.p_filesz)
    then bad (
        about_segment i (
          codes " data (0x"
          ++ (hex_text p.p_filesz
              ++ (codes " bytes at file offset 0x"
                  ++ (hex_text p.p_offset ++ codes ") extends past the end of the file")))))
    else loaded (record {
      vaddr = p.p_vaddr;
      filesz = p.p_filesz;
      memsz = p.p_memsz;
      contents = take (drop file p.p_offset) p.p_filesz;
    })

-- The loop over the program headers from the `i`th on, this many of them.
unfoldable pub read_segments : List ℕ → Ehdr → ℕ → ℕ → List ElfSegment → ElfImage
read_segments file e i zero segments = record {
  segments = segments;
  entry = e.e_entry;
  error = none;
}
read_segments file e i (suc count) segments =
    elim (read_phdr file (e.e_phoff + i * e.e_phentsize)) [
      | none ↦ record {
        segments = segments;
        entry = e.e_entry;
        error = some (codes "failed to read program header " ++ to_decimal i);
      }
      | some p ↦ elim (segment_of file i p) [
        | skipped ↦ read_segments file e (suc i) count segments
        | bad msg ↦ record { segments = segments; entry = e.e_entry; error = some msg }
        | loaded seg ↦ read_segments file e (suc i) count (segments ++ seg ∷ [])
      ]
    ]

-- The check behind the loop.
unfoldable pub some_segments : ElfImage → ElfImage
some_segments image = elim image.error [
  | some msg ↦ image
  | none ↦
      if is_empty image.segments
      then record image {
        error =
            some (codes "ELF has no PT_LOAD segments " ++ (em_dash ++ codes " nothing to load"));
      }
      else image
]

abbrev pub refused_image : Text → ElfImage
refused_image msg = record { segments = []; entry = 0; error = some msg }

unfoldable pub parse_elf : List ℕ → ElfImage
parse_elf file = elim (read_ehdr file) [
  | none ↦ refused_image (codes "failed to read ELF header (file too short)")
  | some e ↦ elim (header_error file e) [
    | some msg ↦ refused_image msg
    | none ↦ some_segments (read_segments file e 0 e.e_phnum [])
  ]
]

-- Both loops of `load_elf_into_processor` over a segment: this many bytes from offset `off` on.
unfoldable pub place : (ℕ → ℕ) → ℕ → ℕ → ℕ → Memory → Memory × Bool
place f vaddr off zero m = (m, true)
place f vaddr off (suc count) m =
    let (m', written) = write_byte m (add32 vaddr off) (f off) in
    elim written [ false ↦ (m', false) | true ↦ place f vaddr (suc off) count m' ]

unfoldable pub place_segment : ElfSegment → Memory → Memory × Bool
place_segment seg m =
    let (m', copied) = place (byte_of seg.contents) seg.vaddr 0 seg.filesz m in
    elim copied [
      | false ↦ (m', false)
      | true ↦ place (λ _. 0) seg.vaddr seg.filesz (seg.memsz - seg.filesz) m'
    ]

abbrev pub out_of_range : Memory → ElfSegment → Text
out_of_range m seg =
    codes "segment at 0x"
    ++ (hex_text seg.vaddr
        ++ (codes " extends outside the processor's address space (0x"
            ++ (hex_text m.size
                ++ codes " bytes); increase mem_bytes in the IProcessor constructor")))

unfoldable pub place_segments : List ElfSegment → Memory → Memory × Option Text
place_segments [] m = (m, none)
place_segments (seg ∷ rest) m =
    let (m', placed) = place_segment seg m in
    elim placed [ false ↦ (m', some (out_of_range m' seg)) | true ↦ place_segments rest m' ]

-- The processor after it and the error, if there is one.
unfoldable pub load_elf_into_processor : Cpu → ElfImage → Cpu × Option Text
load_elf_into_processor cpu image = elim image.error [
  | some msg ↦ (cpu, some msg)
  | none ↦
      let (m, failure) = place_segments image.segments cpu.mem in
      elim failure [
        | some msg ↦ (record cpu { mem = m }, some msg)
        | none ↦ (record cpu { mem = m; pc = image.entry }, none)
      ]
]
