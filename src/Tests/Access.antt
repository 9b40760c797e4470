-- ===== src/Tests/Access.antt =====
-- Accesses, steps and the decoder at concrete inputs.
use mathlib.Core.Path.{subst}
use v.Base.{ℕ, zero, suc, ◌%◌, ◌^◌, ◌<◌, ◌≡◌, refl, true, false, none, some}
use v.Base.{[], ◌∷◌, ok, arith, replicate, get_elem?}
use v.Cpu.State.{CpuState, Abort, new, read_gpr, write_gpr, write_gpr_w, clear_excl}
use v.Cpu.State.{excl}
use v.Cpu.State.Banking.{IsValid}
use v.Decoder.Insn.{Insn}
use v.Decoder.Fields.{field}
use v.Decoder.Decode.{decode}
use v.Decoder.Ldst
use v.Decoder.Ldst.Excl as ExclForm
use v.Decoder.Registers.{InRange}
use v.Decoder.Registers.Whole.{decode-InRange}
use v.Interp.Memory.{GuestMem, Memory, flat, read_at, read_le, write_at, write_le}
use v.Interp.Mmu.{Access, translate}
use v.Interp.MemAccess.{align_check, page_end, read_across, read_within, gather, gather_from}
use v.Interp.MemAccess.{aborted, recorded, xlate, write_within, read_sized, write_sized}
use v.Interp.MemAccess
use v.Cpu.Tlb
use v.Interp.Mmu.{translate_miss, walk_va, walk, walk_from, round, after, descend, region}
use v.Interp.Mmu.{starting_level}
use v.Interp.MemAccess.Frame.{Untouched}
use v.Interp.MemAccess.Total.{HasLegalRegions, gather_total}
use v.Interp.MemAccess.Bytewise.{HasBytes, read_across-read_within}
use v.Interp.Integer.{Outcome}
use v.Interp.Ldst.Excl.{aligned, store, load, still_armed, concluded, store_one}
use v.Interp.Ldst.Excl.Monitor.{store-store}
use v.Interp.Simd.Struct
use v.Interp.Simd.Struct.Retry.{KeepsBase, multi-KeepsBase}
use v.Interp.Simd.Permute.{arranged, collected}
use v.Interp.Simd.Permute.Inverse.{arranged-arranged}
use v.Interp.Execute.{execute, sequential}
use v.Interp.Run.{Step, step, run}
use v.Interp.Run.Bounded.{steps, run-steps}
use v.Interp.Run.Faults.{is_restartable, FaultTaken, step-FaultTaken, execute-Untouched}

-- No executor of another class is called.
abbrev never : CpuState → Insn → ℕ → Outcome
never cpu insn pc = none

-- ldxr x1, [x0], with x0 = 1.
abbrev misaligned : CpuState
misaligned = record new { x = 1 ∷ replicate 30 0; pc = 0 }

abbrev program : Memory
program = record { base = 0; bytes = 0x01 ∷ 0x7c ∷ 0x5f ∷ 0xc8 ∷ [] }

abbrev alignment : Abort
alignment = record { far = 1; write = false; fsc = 33 }

abbrev faulted : CpuState
faulted = record misaligned { pending_abort = some alignment }

misaligned-IsValid : IsValid misaligned
misaligned-IsValid = record { banks = refl; level = omega arith; masks = omega arith }

fetches :
    translate flat misaligned program 0 Access.exec misaligned.el ≡ some (ok 0, misaligned, program)
unfolding translate
fetches = refl

holds : read_at 4 program 0 ≡ some (0xc85f_7c01, program)
unfolding read_at read_le
holds = refl

decodes : decode 0xc85f_7c01 ≡ Insn.load_exclusive 3 1 0
unfolding decode Ldst.decode ExclForm.decode field
decodes = refl

faults :
    execute flat never misaligned program (Insn.load_exclusive 3 1 0) 0
    ≡ some (faulted, none, program)
unfolding execute sequential load aligned align_check read_gpr
faults = refl

fetched_access : is_restartable (decode 0xc85f_7c01) ≡ true
fetched_access = rw decodes refl

faults_decoded :
    execute flat never misaligned program (decode 0xc85f_7c01) 0 ≡ some (faulted, none, program)
faults_decoded = rw decodes faults

execute-Untouched_example : Untouched misaligned faulted
execute-Untouched_example =
    execute-Untouched flat never misaligned faulted program program (Insn.load_exclusive 3 1 0) 0
      none refl faults refl

-- casp x0, x1, x2, x3, [x4]
decode-InRange_example : InRange 0x4820_7c82 (decode 0x4820_7c82)
decode-InRange_example = decode-InRange 0x4820_7c82

run-steps_example :
    run flat never 5 misaligned program 0x1000 4 ≡ steps flat never 4 misaligned program 0x1000
run-steps_example = run-steps flat never 5 4 0x1000 misaligned program (omega arith) (omega arith)

-- The same table entry and the same byte at every address.
abbrev uniform : GuestMem
uniform = record {
  Mem = ℕ;
  base = λ m. 0;
  read_u8 = λ m a. some (m % 2 ^ 8, m);
  read_u16 = λ m a. some (m % 2 ^ 16, m);
  read_u32 = λ m a. some (m % 2 ^ 32, m);
  read_u64 = λ m a. some (m, m);
  write_u8 = λ m a x. some m;
  write_u16 = λ m a x. some m;
  write_u32 = λ m a x. some m;
  write_u64 = λ m a x. some m;
}

abbrev paged : CpuState
paged = record new { sctlr_el1 = 1; tcr_el1 = 0x19_0019 }

paged-HasLegalRegions : HasLegalRegions paged
paged-HasLegalRegions = record {
  low = (omega arith, omega arith);
  high = (omega arith, omega arith);
}

-- Eight bytes across a page boundary.
gather_total_example :
    (r : ℕ × CpuState × ℕ) × (gather uniform paged 0x4000_0401 0xffc 8 1 ≡ some r)
    × (gather_from uniform 20 paged 0x4000_0401 0xffc 8 1 0 0 ≡ some r)
gather_total_example =
    gather_total uniform (λ m a. ((m, m), refl)) (λ m a. ((m % 2 ^ 8, m), refl)) paged 0x4000_0401
      0xffc 8 1 20 paged-HasLegalRegions (omega arith) (omega arith)

step-FaultTaken_example :
    (cpu' : CpuState) × (step flat never misaligned program
      ≡ some (Step.next cpu'.pc, cpu', program))
    × FaultTaken misaligned alignment cpu'
step-FaultTaken_example =
    step-FaultTaken flat never misaligned misaligned faulted program program program program 0
      0xc85f_7c01 none alignment misaligned-IsValid fetches holds fetched_access faults_decoded refl

-- stxr w2, x1, [x0] twice, with x0 = 8, x1 = 0x77 and the monitor armed for what is at 8.
abbrev armed : CpuState
armed = record new { x = 8 ∷ 0x77 ∷ replicate 29 0; excl_valid = 1; excl_addr = 8 }

abbrev zeroes : Memory
zeroes = record { base = 0; bytes = replicate 16 0 }

abbrev released : CpuState
released = record armed { excl_valid = 0 }

abbrev stored : Memory
stored = record { base = 0; bytes = 0 ∷ 0 ∷ 0 ∷ 0 ∷ 0 ∷ 0 ∷ 0 ∷ 0 ∷ 0x77 ∷ replicate 7 0 }

abbrev failed : CpuState
failed = record released { x = 8 ∷ 0x77 ∷ 1 ∷ replicate 28 0 }

stores : store flat armed zeroes 3 2 1 0 ≡ some (released, stored)
unfolding store aligned align_check still_armed concluded read_gpr write_gpr_w write_gpr clear_excl
    excl store_one MemAccess.read MemAccess.write MemAccess.read_at MemAccess.write_at read_within
    write_within read_sized write_sized xlate recorded translate read_at write_at read_le write_le
stores = refl

fails : store flat released stored 3 2 1 0 ≡ some (failed, stored)
unfolding store aligned align_check still_armed concluded read_gpr write_gpr_w write_gpr clear_excl
    excl
fails = refl

reads_base : read_gpr armed 0 true ≡ some 8
unfolding read_gpr
reads_base = refl

store-store_example : stored ≡ stored
store-store_example =
    store-store flat armed released failed zeroes stored stored 3 2 1 0 8 3 2 1 0 reads_base refl
      stores fails

under : {a b : ℕ} → a < 256 → some a ≡ some b → b < 256
under {a} {b} lt e = subst (λ c. c < 256) same lt
  where
    same : a ≡ b
    same = cc

small_bytes : (j b : ℕ) → get_elem? program.bytes j ≡ some b → b < 256
small_bytes zero b e = under (omega arith) e
small_bytes (suc zero) b e = under (omega arith) e
small_bytes (suc (suc zero)) b e = under (omega arith) e
small_bytes (suc (suc (suc zero))) b e = under (omega arith) e
small_bytes (suc (suc (suc (suc j)))) b e = cc

program-HasBytes : HasBytes program
program-HasBytes = record { byte = λ j b e. small_bytes j b e }

read_across-read_within_example :
    read_across flat misaligned program 1 2 1 ≡ read_within flat misaligned program 1 1 1
read_across-read_within_example =
    read_across-read_within misaligned program 1 1 1 program-HasBytes (omega arith) (omega arith)
      (omega arith)

-- ld2 {v0.2d, v1.2d}, [x0], #32 through tables with nothing in them.
abbrev mapped : CpuState
mapped = record new { sctlr_el1 = 1; tcr_el1 = 0x19_0019 }

abbrev empty_table : Memory
empty_table = record { base = 0; bytes = replicate 8 0 }

abbrev missing : CpuState
missing = record mapped { pending_abort = some (record { far = 0; write = false; fsc = 5 }) }

misses :
    Struct.multi flat mapped empty_table true true true 31 0 0 3 1 2 ≡ some (missing, empty_table)
unfolding Struct.multi Struct.multi_from Struct.multi_element Struct.load_into Struct.copies
    read_gpr recorded xlate gather gather_from read_at read_le translate translate_miss walk_va walk
    walk_from round after descend region starting_level Tlb.lookup Tlb.new Tlb.index MemAccess.read
    MemAccess.read_at read_within
misses = refl

multi-KeepsBase_example : KeepsBase mapped missing
multi-KeepsBase_example =
    multi-KeepsBase flat mapped missing empty_table empty_table true true true 31 0 0 3 1 2 misses
      refl

zips_low : arranged 0b011 (1 ∷ 2 ∷ []) (3 ∷ 4 ∷ []) ≡ some (1 ∷ 3 ∷ [])
unfolding arranged collected
zips_low = refl

zips_high : arranged 0b111 (1 ∷ 2 ∷ []) (3 ∷ 4 ∷ []) ≡ some (2 ∷ 4 ∷ [])
unfolding arranged collected
zips_high = refl

arranged-arranged_example :
    (arranged 0b001 (1 ∷ 3 ∷ []) (2 ∷ 4 ∷ []) ≡ some (1 ∷ 2 ∷ []))
    × (arranged 0b101 (1 ∷ 3 ∷ []) (2 ∷ 4 ∷ []) ≡ some (3 ∷ 4 ∷ []))
arranged-arranged_example =
    arranged-arranged (1 ∷ 2 ∷ []) (3 ∷ 4 ∷ []) (1 ∷ 3 ∷ []) (2 ∷ 4 ∷ []) 1 refl refl zips_low
      zips_high
