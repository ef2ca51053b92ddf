-- ===== src/Lib.antt =====
-- The core of clearCore, a MIPS emulator: a flat memory, a register file, a decoder, an ALU, the
-- exception part of coprocessor 0, and two machines over them behind one interface, a single-cycle
-- one and a five-stage pipeline; six tools: the assembler, the disassembler, the loaders of ELF files
-- and of hexadecimal listings, the GDB server and the number converter; the controller that steps a
-- machine for the graphical front ends; and what the Qt Quick front end keeps and does over it,
-- with the log of hazard events and the pipeline diagram of the Qt front end.
--
-- Parts and files
--   Prelude           shared names; Boolean tests, words (wrap-around written out), signed numbers
--   Bits              lemmas that read masks, shifts and bit operations as arithmetic
--   Memory            src/mips/memory.cpp, include/isa/memory.h
--   Registers         src/mips/registers.cpp, include/isa/registers.h
--   Decoder           src/mips/decoder.cpp, include/mips/decoder.h
--   Alu               src/mips/alu.cpp, include/mips/alu.h
--   Cp0               src/mips/cp0.cpp, include/mips/cp0.h
--   DataMemory        src/mips/data_memory.cpp
--   Processor         include/isa/processor.h and the control word of include/mips/processor.h; the
--                     virtual functions are the record of Processor/Backend, which SingleCycle/Restart
--                     and Pipeline/Restart fill
--   Control           derive_control of src/mips/single_cycle_cpu.cpp
--   SingleCycle       src/mips/single_cycle_cpu.cpp, include/mips/single_cycle_cpu.h
--   Pipeline          src/mips/pipelined_cpu.cpp, include/mips/pipelined_cpu.h; its stages in
--                     Pipeline/Stages, the inter-stage registers (include/mips/pipeline_regs.h) in
--                     Pipeline/Regs, the hazard and forwarding units (src/mips/pipeline_units.cpp)
--                     in Pipeline/Units
--   Text              byte strings and what the tools use of the standard library on them
--   Assembler         src/nsc_qt/assembler.cpp, include/nsc_qt/assembler.h: pass 1 in Assembler/Lines,
--                     operands in Assembler/Operands, the encoders in Assembler/Encoders, the kinds of
--                     instruction in Assembler/Instructions, pass 2 in Assembler; what a line stands
--                     for, in the decoder's words, is in Assembler/Meaning
--   Disassembler      src/mips/disassembler.cpp, include/nsc_qt/instr_format.h
--   Controller        src/nsc_qt/simulator_controller.cpp, include/nsc_qt/simulator_controller.h
--   QuickSimulator    src/nsc_quick/quick_simulator.cpp, include/nsc_quick/quick_simulator.h: the
--                     choice of a machine in QuickSimulator/Backends, the trace grid in
--                     QuickSimulator/Trace, the hex dump in QuickSimulator/Dump, what is shown of
--                     registers and stages in QuickSimulator/View
--   PipelineDiagram   src/nsc_qt/widgets/pipeline_trace_widget.cpp and its header
--   PipelineEvents    src/nsc_qt/widgets/pipeline_events_widget.cpp and its header
--   Converter         src/nsc/parse.cpp, src/nsc/format.cpp, src/nsc/converter.cpp
--   ElfLoader         src/mips/elf_loader.cpp, include/mips/elf_loader.h
--   ProgramLoader     src/mips/program_loader.cpp, include/mips/program_loader.h
--   GdbStub           src/mips/gdb_stub.cpp, include/mips/gdb_stub.h: framing in GdbStub/Packets,
--                     registers and memory in GdbStub/Access, the rest in GdbStub
--   Tests             concrete runs
-- The other modules below a part hold what is proved of it and are named for that.
--
-- How the state corresponds
--   A C++ object is a record with its fields; a method that changes it takes the record and returns
--   the one after, with its result. `Memory` is the length of its vector and a function from indices
--   to bytes; `RegisterFile` a function from indices to words. A `uint32_t` is a natural number and
--   every operation that wraps says so (`add32`, `sub32`, `shl32`); an `int32_t` is an integer
--   (`signed32`). `std::optional` is `Option`, a register index of -1 is `none`. An enum that is cast
--   from a field of a word has a constructor `unlisted` for the values with no enumerator. `Expects`
--   in `load_words` is an `Option`, whose `none` ends the program.
--
--   `SingleCycle.step` fetches through `Memory.read_word`, decodes, derives the control word, and runs
--   `exec_rtype` or `exec_itype`; what these return by reference is the record `Executed`.
--   `Pipeline.step` runs the stages oldest first (`run_stages`): WB and MEM give the register file and
--   memory after them, EX, ID and IF an outcome; `commit` then takes the oldest trap or redirect
--   (`resolve`), flushes or stalls (`front_end`), and fills the registers and the snapshot.
--
--   `run` of the processor interface is recursion on its budget of steps, as in the code, for any
--   type of state and any `step`. `load_words` recurses on its words.
--
--   A `std::string` is the list of its bytes (`Text`), a dictionary a list of entries, newest first.
--   `std::from_chars`, `std::stoull`, `std::to_string`, `std::getline` and the searches are written
--   out for what the code uses of them. `to_binary` and the number formats are recursion on `Acc`;
--   the padding of `group_bits` has three rounds, which reach the next multiple of four.
--
--   An ELF file is the list of its bytes. A loop that places bytes counts those that
--   are left.
--
--   A line of assembly is encoded to a word or a message (`Encoded`); the assembler's result is a
--   record of words and an optional message, as in the code. The GDB server's socket is a list of
--   bytes to read, with `recv_packet` as a machine that waits for a byte at each of the four places
--   where the code does, and a list of bytes sent. `handle_continue` takes a number of rounds and, as
--   a parameter, what `poll_input` answers; when the rounds are used up it is still running.
--
--   The controller is over any `Backend`; what its theorems need of one is `IsRestartable`. Its timer
--   is whether it is active and its interval, and a timeout of Qt's event loop a call of
--   `on_run_timer`. An operation returns the controller after it and the signals it sends, in order;
--   the Qt Quick front end handles each by clauses (`handle`), on the controller as it is after the
--   operation, which is what the code reads: a signal is the last thing an operation does. `none` of
--   `load_program` and `reset` is again a violation of what `load_words` expects.
--
-- Not modelled
--   Logging and tracing, the accessors that only return a field or set `pc`, `hi` or `lo`, and
--   `last_exception`'s display. Of the GDB server, the sockets, the receive buffer and the loop
--   `serve`; its processor is the single-cycle machine, as is that of the ELF loader. The loaders are
--   given a file's bytes: opening it is left out. Of the Qt Quick front end, the notifications to QML
--   (no state depends on them), the catalogue of examples and the ratio CPI, a double. The terminal
--   interface and the other widgets of the Qt interface are outside this library.
pub mod Prelude
pub mod Bits
pub mod Memory
pub mod Registers
pub mod Decoder
pub mod Disassembler
pub mod Alu
pub mod DataMemory
pub mod Processor
pub mod ProgramLoader
pub mod Control
pub mod Cp0
pub mod SingleCycle
pub mod Pipeline
pub mod Text
pub mod Assembler
pub mod Converter
pub mod GdbStub
pub mod Controller
pub mod QuickSimulator
pub mod PipelineEvents
pub mod PipelineDiagram
pub mod ElfLoader
pub mod Tests
