-- ===== src/Tests/Debugger.antt =====
-- Concrete runs of the GDB server, and an instance of each theorem about it.
use clear_core.ElfLoader.Placed.{image_byte, load_elf_into_processor-image}
use clear_core.ElfLoader.Parsed.{IsSegment, parse_elf-IsSegment}
use clear_core.ElfLoader.{
  ElfSegment, load_elf_into_processor, parse_elf, read_ehdr, header_error, some_segments,
  read_segments, read_phdr, segment_of, place_segments, place_segment, place,
}
use clear_core.Text.Numbers.{uint32_from_chars}
use clear_core.Cp0.{in_exception, ExceptionCode}
use clear_core.SingleCycle
use clear_core.Cp0
use clear_core.Registers
use clear_core.GdbStub.{
  Stub, insert_breakpoint, remove_breakpoint, is_inserted, break_word, dispatch, InputPoll,
  send_packet, resume_at, handle_continue,
}
use clear_core.GdbStub.Packets.{
  recv_packet, packet, received, for_dollar, recv_from, to_hex_le, checksum_matches, parse_hex,
  unescape, parse_hex_byte, checksum, hex_byte,
}
use clear_core.GdbStub.Access.{handle_read_reg, handle_write_reg, handle_read_mem}
use clear_core.GdbStub.Framing.{recv_packet-packet, recv_packet-refuses}
use clear_core.GdbStub.Breakpoints.{remove_breakpoint-insert_breakpoint}
use clear_core.GdbStub.RegisterCommands.{handle_read_reg-handle_write_reg}
use clear_core.GdbStub.Continue.{IsRun, handle_continue-run}
use clear_core.Memory.{read_word, read_byte, Memory, write_byte}
use clear_core.Processor
use clear_core.Processor.{ok, no_control, no_pipeline_state}
use clear_core.Text.{codes, find}
use clear_core.Prelude.{
  ℕ, ◌≡◌, refl, ◌⊎◌, inl, inr, true, false, none, some, [], ◌∷◌, ◌++◌, arith, ◌%◌, All, List, ◌+◌,
  ◌≤◌,
}

abbrev cpu16 : SingleCycle.Cpu
cpu16 = record {
  regs = Registers.fresh;
  mem = record { size = 16; bytes = λ a. a % 256 };
  cp0 = Cp0.fresh;
  pc = 0;
  hi = 0;
  lo = 0;
  ctrl = no_control;
  cycle = 0;
  ps = no_pipeline_state;
}

abbrev stub : Stub
stub = record {
  cpu = cpu16;
  breakpoints = [];
  running = false;
  detached = false;
  last_result = ok;
  sent = [];
}

read_memory : (dispatch (λ _. InputPoll.idle) 0 (codes "m4,4") stub).sent ≡ codes "$04050607#96"
unfolding dispatch send_packet packet handle_read_mem find parse_hex uint32_from_chars checksum
    hex_byte read_byte
read_memory = refl

recv_packet-packet_example :
    recv_packet (codes "+" ++ (packet (codes "m}\u{1},4") ++ codes "$?"))
    ≡ record { status = received; out = codes "m!,4"; acks = codes "+"; rest = codes "$?" }
unfolding unescape
recv_packet-packet_example =
    recv_packet-packet (codes "+") (codes "m}\u{1},4") (codes "$?") ((refl, refl), tt)
      (refl, (refl, (refl, (refl, (refl, tt))))) (omega arith) refl

recv_packet-refuses_example :
    recv_packet (codes "" ++ (b'$' ∷ (codes "g" ++ b'#' ∷ b'0' ∷ b'0' ∷ codes "x")))
    ≡ recv_from for_dollar (b'-' ∷ []) (codes "x")
unfolding checksum_matches parse_hex_byte checksum uint32_from_chars
recv_packet-refuses_example =
    recv_packet-refuses (codes "") (codes "g") b'0' b'0' (codes "x") tt (refl, tt) (inr (inl refl))

remove_breakpoint-insert_breakpoint_example :
    ((read_word stub.cpu.mem 8 ≡ none) × (insert_breakpoint 8 stub ≡ (stub, false)))
    ⊎ (((insert_breakpoint 8 stub).1 ≡ true)
        × (read_word (insert_breakpoint 8 stub).0.cpu.mem 8 ≡ some break_word)
        × (remove_breakpoint 8 (insert_breakpoint 8 stub).0 ≡ (stub, true)))
unfolding is_inserted
remove_breakpoint-insert_breakpoint_example =
    remove_breakpoint-insert_breakpoint 8 stub (λ b. omega arith) refl

handle_read_reg-handle_write_reg_example :
    ((handle_write_reg (codes "8" ++ b'=' ∷ to_hex_le 0xdead_beef) cpu16).1 ≡ true)
    × (handle_read_reg
          (codes "8")
          (handle_write_reg (codes "8" ++ b'=' ∷ to_hex_le 0xdead_beef) cpu16).0
        ≡ to_hex_le 0xdead_beef)
unfolding parse_hex uint32_from_chars
handle_read_reg-handle_write_reg_example =
    handle_read_reg-handle_write_reg (codes "8") (codes "8") 8 8 0xdead_beef cpu16 refl refl
      (refl, tt) (omega arith) (omega arith) (omega arith) (omega arith)

-- The memory holds no instruction, so the first step is an exception.
handle_continue-run_example :
    IsRun stub
      (Processor.run SingleCycle.step 2 (resume_at [] stub).cpu)
      (handle_continue (λ _. InputPoll.idle) 2 [] stub)
handle_continue-run_example = handle_continue-run (λ _. InputPoll.idle) (λ k. refl) 2 [] stub

-- A file of one program header and one segment of eight bytes, of which four are in the file.
abbrev elf_file : List ℕ
elf_file =
    (0x7f ∷ b'E' ∷ b'L' ∷ b'F' ∷ 1 ∷ 1 ∷ 1 ∷ 0 ∷ 0 ∷ 0 ∷ 0 ∷ 0 ∷ 0 ∷ 0 ∷ 0 ∷ 0 ∷ [])
    ++ ((2 ∷ 0 ∷ 8 ∷ 0 ∷ 1 ∷ 0 ∷ 0 ∷ 0 ∷ 4 ∷ 0 ∷ 0 ∷ 0 ∷ 52 ∷ 0 ∷ 0 ∷ 0 ∷ [])
        ++ ((0 ∷ 0 ∷ 0 ∷ 0 ∷ 0 ∷ 0 ∷ 0 ∷ 0 ∷ 52 ∷ 0 ∷ 32 ∷ 0 ∷ 1 ∷ 0 ∷ 0 ∷ 0 ∷ 0 ∷ 0 ∷ 0 ∷ 0 ∷ [])
            ++ ((1 ∷ 0 ∷ 0 ∷ 0 ∷ 84 ∷ 0 ∷ 0 ∷ 0 ∷ 4 ∷ 0 ∷ 0 ∷ 0 ∷ 0 ∷ 0 ∷ 0 ∷ 0 ∷ [])
                ++ ((4 ∷ 0 ∷ 0 ∷ 0 ∷ 8 ∷ 0 ∷ 0 ∷ 0 ∷ 5 ∷ 0 ∷ 0 ∷ 0 ∷ 4 ∷ 0 ∷ 0 ∷ 0 ∷ [])
                    ++ (9 ∷ 8 ∷ 7 ∷ 6 ∷ [])))))

abbrev elf_segment : ElfSegment
elf_segment = record { vaddr = 4; filesz = 4; memsz = 8; contents = 9 ∷ 8 ∷ 7 ∷ 6 ∷ [] }

elf_parses : parse_elf elf_file ≡ record { segments = elf_segment ∷ []; entry = 4; error = none }
unfolding parse_elf read_ehdr header_error some_segments read_segments read_phdr segment_of
elf_parses = refl

elf_loads : (load_elf_into_processor cpu16 (parse_elf elf_file)).1 ≡ none
unfolding parse_elf read_ehdr header_error some_segments read_segments read_phdr segment_of
    load_elf_into_processor place_segments place_segment place write_byte
elf_loads = refl

parse_elf-IsSegment_example : All (IsSegment elf_file) (parse_elf elf_file).segments
parse_elf-IsSegment_example = parse_elf-IsSegment elf_file

load_elf_into_processor-image_example :
    ((parse_elf elf_file).error ≡ none)
    × All
        (λ (seg : ElfSegment). seg.vaddr + seg.memsz ≤ cpu16.mem.size)
        (parse_elf elf_file).segments
    × (m : Memory) × ((load_elf_into_processor cpu16 (parse_elf elf_file)).0
        ≡ record cpu16 { mem = m; pc = (parse_elf elf_file).entry })
    × (m.size ≡ cpu16.mem.size)
    × ((a : ℕ) → m.bytes a ≡ image_byte (parse_elf elf_file).segments a (cpu16.mem.bytes a))
load_elf_into_processor-image_example = load_elf_into_processor-image cpu16 elf_file elf_loads
