-- ===== src/Lib.antt =====
-- v64, an emulator of an AArch64 machine: its CPU state, decoder, interpreter, interrupt
-- controller and serial console.
--
-- The machine fetches a word at a virtual address that crates/interp/src/mmu.rs translates, the
-- crate crates/decoder turns it into an instruction, and crates/interp executes that on the state
-- of crates/cpu; devices of crates/platform raise interrupts through the controller of
-- crates/platform/src/gic.rs, and crates/interp/src/exception.rs takes them.
--
-- Base.antt        shared names: tests, lists, machine words and the laws of their bits, and rules
--                  for what a chain of steps that may panic ensures (Ensures, Chains)
-- Cpu.antt         crates/cpu/src: Flags (flags.rs), Tlb (tlb.rs), State (state.rs)
-- Decoder.antt     crates/decoder/src: Insn (insn.rs), Fields (bits.rs), Bitmask (bitmask.rs),
--                  DpImm and DpReg (dp_imm.rs, dp_reg.rs and a file for each class), Branch
--                  (branch.rs, its classes, system.rs), Ldst (ldst.rs, ldst/), Fp (fp.rs, fp/), Neon
--                  (neon.rs, neon/), Decode (lib.rs), Block (block.rs); Operands and Registers are
--                  about what the decoders return
-- Interp.antt      crates/interp/src: Memory (memory.rs), Mmu (mmu.rs), MemAccess (mem_access.rs),
--                  Alu (alu.rs, cond.rs, regs.rs), Exception (exception.rs), Integer (a file of the
--                  source for each executor), Ldst (ldst.rs, ldst/), Simd (simd.rs and ldst_struct.rs,
--                  copy.rs, dup.rs, permute.rs, ext.rs and tbl.rs of simd/), Psci (psci.rs), Timer
--                  (timer.rs), System (system.rs), Execute (execute.rs), Run (run.rs)
-- Platform.antt    crates/platform/src: Gic (gic.rs), Uart (uart.rs)
-- Tests.antt       the theorems at concrete inputs
--
-- A function of the source keeps its name; a method that changes its receiver returns the new one.
-- A word is a native number with its wrap-around written out, and a signed word is its bit
-- pattern. `none` is a panic of the source: an index out of range, an overflow that a checked
-- build refuses, or `unreachable!()`. A `Result` of the source is `Result`. The map of system
-- registers and the controller's arrays are functions of the key.
--
-- The walk of the translation tables has 6 rounds: a walk starts at level 0 to 4, each round goes
-- one level down, and level 3 ends it, so the rounds are not used up. A block has room for at most
-- 1024 words, the source's own limit. A gathering or scattering access has one round more than it
-- has bytes, and a round moves a byte at least. The copies of a broadcast element are at most 16. A
-- bounded run has more rounds than the count it is given; the loop of a run with no count has no
-- bound of its own, and the rounds stand for one.
--
-- An access that faults is not an error of the model: as in the source it leaves the fault in
-- `pending_abort`, later accesses of the instruction may still run, and the step delivers it.
--
-- Parameters: a memory is any implementation of the trait `GuestMem`, with the hypotheses that
-- reading a table does not change it (`ReadsPure`) or does not panic (`ReadsTotal`), or that every
-- byte can be read (`BytesTotal`); the flat image meets the first. A block is formed over any
-- decoder of the word at an address. The dispatch takes the executors of floating point and of
-- SIMD instructions that compute on lanes as a parameter; where it matters, their hypothesis is that
-- they return no target (`ReturnNone`), as all of them do in the source. The handle by which the
-- UART shares the controller is a field of its record.
--
-- Not modelled: floating-point arithmetic and the arithmetic on SIMD lanes (their decoders are), the
-- other devices and the bus, the machine loop, the JIT compiler (its target language has no
-- semantics in the repository), the device tree, the loader, the web front end and the test tools.
pub mod Base
pub mod Cpu
pub mod Decoder
pub mod Interp
pub mod Platform
pub mod Tests
