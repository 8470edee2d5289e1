-- ===== src/Lib.antt =====
-- The verification library of ppcsimbooke, a simulator of the PowerPC e500v2 core (sim/src).
--
-- The simulated core fetches and runs instructions (sim/src/cpu_ppc.cpp, sim/src/cpu_ppc_instr.cc) on
-- its registers (sim/src/globals.h). Every access goes through `cpu::xlate`, which asks the TLB
-- (sim/src/tlb_booke.cpp) with each of three PIDs, and then to the host page of the physical address
-- (sim/src/memory.cpp). What fails is thrown as an exception (sim/src/exception.h) and delivered
-- to the guest by `cpu::ppc_exception`. A breakpoint manager (sim/src/bm.cpp) is asked about each PC.
--
-- Base       lists, bits and words that the other modules share; Base.Error has the exceptions.
-- Utils      sim/src/utils.h: fields of a mask (IBF, EBF), MASK, page rounding, byte order.
-- Tlb        sim/src/tlb_booke.h, sim/src/tlb_booke.cpp: Tlb.Mas is tlbwe and tlbre, Tlb.Invalidate
--            tlbse and tlbive, Tlb.Translate xlate, Tlb.Cache what the TLB needs of the LRU cache.
-- Cpu        `cpu::xlate` of sim/src/cpu_ppc.cpp, in Cpu.Resv the reservations, and in Cpu.Access
--            read8 to write64, each a translation and an access of the memory.
-- Core       the instructions of sim/src/cpu_ppc_instr.cc on the registers that they use: Core.Add,
--            Core.Subf, Core.Logical, Core.Compare, Core.Branch, Core.Rotate, Core.Load, Core.Store,
--            Core.Cache, Core.System, Core.Vector, Core.Accumulator and Core.Multiply, one definition
--            for each RTL_BEGIN. Core.Host has the host's instructions, and
--            Core.Bus the memory that loads and stores run on, which Core.Bus.Cpu makes of Cpu.Access.
-- Exception  `cpu::ppc_exception` of sim/src/cpu_ppc.cpp, rfi, rfci, rfmci of
--            sim/src/cpu_ppc_instr.cc, and in Exception.Msr mtmsr, mfmsr, wrtee, wrteei.
-- Regs       CR, XER and SPEFSCR of `ppc_regs`, sim/src/globals.cpp.
-- Instr      the condition register logical instructions of sim/src/cpu_ppc_instr.cc.
-- Bm         sim/src/bm.h and sim/src/bm.cpp, with the counter that the managers of all CPUs share.
-- Memory     sim/src/memory.h and sim/src/memory.cpp: targets, host pages and bytes.
-- Tests      runs at concrete inputs.
--
-- State is passed explicitly. A function that may throw returns `Outcome`, where `no_return` is a
-- loop that does not end or the end of the program, as where `select_mem_tgt` throws what its
-- specification excludes; `xlate` also returns the TLB that it leaves when it throws. A machine word
-- is the natural number that it holds, and the wrap-around of uint8_t, uint32_t and uint64_t is
-- written out. The loop of `rshift` has 64 rounds of fuel, which is enough for every mask of 64 bits
-- but 0, and for 0 no number is. The other loops run over lists.
--
-- A form of an instruction that ends in a dot has a name that ends in _dot. The loops of cntlzw, evcntlzw,
-- evcntlsw, mtcrf, lmw, stmw and dcbz run over the bits, registers or doublewords that are left, 32 at most.
--
-- Third-party code is a parameter: the cache of sim/src/third_party/lru is the record LruCache with the
-- laws LruLaws. So are the x86 instructions of the inline assembly in sim/src/utils.h (Host with the
-- laws IsX86) and the shifts of the host by counts that C++ leaves undefined (Shifts with IsMasked).
-- The words that lie after the table of page masks, which `xlate` reads, are an argument. Logging,
-- printing, files, the Python bindings and the tables of registers and opcodes are not modelled. Nor
-- are the run loop, the disassembler, the instructions on TLB and special registers, floating point, and
-- of the vector instructions the multiplications of words and some of halfwords, the right shifts, the
-- loads and the stores. Division is left out, since the assembly of x86_div leaves the high half of
-- the dividend undefined.
pub mod Base
pub mod Utils
pub mod Tlb
pub mod Exception
pub mod Bm
pub mod Core
pub mod Cpu
pub mod Regs
pub mod Memory
pub mod Tests
pub mod Instr
