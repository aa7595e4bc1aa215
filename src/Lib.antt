-- ===== src/Lib.antt =====
-- libcpu translates guest machine code to native code. Before it can translate, it has to find the
-- code: starting from the entries that a client names, the tagger follows the control flow of the
-- guest program through `tag_instr` of a frontend, marks what it reaches and notes how it was
-- reached. The marks decide which basic blocks exist. The translator then fills the blocks, one
-- instruction after the other, and joins them by branches and by a dispatch block that switches on
-- the guest's PC.
--
-- What is modelled:
--   Frontend libcpu/frontend.h and libcpu/frontend.cpp, the helpers with which a frontend emits code.
--            Emitted code is modelled by what it does when it runs: a function (Code) from the state
--            of the guest (`Guest`: registers, flags, PC, RAM) to a value and a state, or to the end
--            of the function with a code. Value has the integers and operators of frontend.h, each
--            the LLVM instruction of its name; Code pointers, loads and stores; Registers
--            `arch_get_reg` and `arch_put_reg`; Arith the flags N and Z, shifts, rotates and
--            addition with carry; Flags the flags as a word; Memory bytes and halves in words.
--   Tag      libcpu/tag.cpp, libcpu/tag.h: `or_tag`, `get_tag`, `is_code` (Store), `tag_recursive`
--            (Dfs), the entry cache (Cache), `tag_start` and `init_tagging` (Start); also
--            `is_start_of_basicblock` of libcpu/basicblock.cpp (Store). Tag.Arch is the interface
--            `arch_func_t::tag_instr` of libcpu/libcpu.h, which stores through pointers: a value
--            that it does not store is `none`, and the caller's variable keeps what it held.
--            Tag.Flow says, without the search, which address may run after which; Tag.Visits is
--            the calculus that follows the sequence of the search.
--   M6502    arch/6502/6502_isa.h and arch/6502/6502_tag.cpp: `get_instr`, `get_addmode`,
--            `get_length`, `arch_6502_tag_instr` (Isa, Tag). arch/6502/6502_arch.cpp (Arch) and
--            arch/6502/6502_translate.cpp (Translate): the operands, `arch_6502_translate_cond` and
--            `arch_6502_translate_instr`. Mos is an independent description of the 6502: what an
--            instruction does to registers, flags and memory, and where it goes on. Step puts the
--            frontend into the `Machine` of the translator and compares its steps with Mos.
--   X86      arch/x86/x86_instr.h, x86_decode.h and x86_decode.cpp: the opcodes, the flags, the
--            decode tables and `arch_x86_decode_instr`; arch/x86/x86_tag.cpp: `arch_x86_tag_instr`.
--   Mips, Arm, Fapra
--            `arch_mips_tag_instr`, `arch_arm_tag_instr` and `arch_fapra_tag_instr` of
--            arch/mips/mips_translate.cpp, arch/arm/arm_translate.cpp and
--            arch/fapra/fapra_translate.cpp; Frontend has `RAM32BE` and `RAM32LE` of
--            libcpu/frontend.cpp. Fapra also has arch/fapra/fapra_arch.cpp (Arch),
--            `arch_fapra_translate_cond` and `arch_fapra_translate_instr` (Translate) and an
--            independent description of the processor (Isa).
--   Translate
--            libcpu/basicblock.cpp (Builder), `translate_instr` of libcpu/translate.cpp (Instr),
--            `cpu_translate_all` of libcpu/translate_all.cpp (All). The calls that build LLVM code
--            are a trace of entries, each with the block that it appends to. Meaning says what a
--            block does when it runs, and Native what the function does: that a branch goes to its
--            target and a switch to its case is LLVM's documented meaning. The code that a frontend
--            emits for an instruction, and its condition, are a `Machine`. Guest is the independent
--            description: the guest program, one instruction at a time, as its tags say. Last,
--            Refines, Function and Runs go from an instruction to a block, to all blocks and to
--            runs; Tagged, Frontends and Whole join tagger, frontends and translator. SingleStep
--            is libcpu/translate_singlestep.cpp.
--   Run      `cpu_run` and `cpu_translate` of libcpu/interface.cpp: the loop that runs the translated
--            functions, and tags and translates more where none goes on. The functions themselves,
--            what LLVM compiles, are a parameter.
--   Base     shared helpers: tests, arrays as lists, the bit operators and their laws.
--   Tests    runs on small programs.
--
-- How the state corresponds: `cpu_t` is `Cpu` (the fields that the tagger reads) and `Tagging` (the
-- tag array, `tags_dirty` and the open cache file, as the bytes appended to it). Memory is a
-- function from addresses to bytes. Addresses are numbers below 2^64 with the wrap-around written
-- out. `exit` is an outcome. Signed fields are the bits that hold them.
--
-- Bounds and fuel: the tagger's loop and its recursion share one fuel, which falls with every
-- round; every round marks an address that was not marked, so more fuel than the code area has
-- addresses is enough. The decoder's loop goes on for a prefix, for 0x0F and for an opcode group:
-- its fuel is two more than the number of prefixes. The loop that fills a block goes to higher
-- addresses, so more fuel than the end of the code area is enough. `cpu_run` need not end, as the
-- guest need not: its fuel bounds the rounds, and running out of it is an outcome with its state.
--
-- The RAM of an emitted program is a function on all addresses, of which the 6502 reaches 64 KB; the
-- host is little-endian. A local variable of a piece of emitted code (`alloca`) is a pointer that
-- holds its value and is only read. The bits above the width of a flag or register are not there.
--
-- Addresses of the guest are numbers; where they become constants of the emitted code (the PC that is
-- stored, the cases of the dispatch block) they are reduced to the `address_size` bits of the
-- `Machine`. A pointer into RAM that the helpers of frontend.cpp make extends the sign of its index.
--
-- Not modelled: the single-stepping of whole blocks, the code that the frontends other than those of
-- the 6502 and FAPRA emit and LLVM's own work, the floating-point, count-zeros and wider byte-swap helpers of
-- frontend.cpp (they hand over to LLVM), the frontends for m68k and m88k, the set-up of a machine,
-- the disassemblers, the debugger and upcl. The digest that names the cache file and the file system
-- are outside. Logging is left out.
pub mod Arm
pub mod Base
pub mod Fapra
pub mod Frontend
pub mod M6502
pub mod Mips
pub mod Run
pub mod Tag
pub mod Tests
pub mod Translate
pub mod X86
