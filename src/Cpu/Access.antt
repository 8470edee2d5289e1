-- ===== src/Cpu/Access.antt =====
-- The accesses of the CPU to memory, `cpu::read8` to `cpu::write64` of sim/src/cpu_ppc.cpp: a translation and then an
-- access of the physical memory in the byte order that the E bit of the page says.
pub mod Errors
pub mod RoundTrip
use ppcsimbooke.Base.{ℕ, ◌%◌, ◌^◌, bit_and, Bool, true, false, Option, none, some}
use ppcsimbooke.Base.Error.{Outcome, ok, throw, no_return, sim_except_fatal}
use ppcsimbooke.Utils.{Endianness, to_endianness}
use ppcsimbooke.Memory.{Memory, read8, write8}
use ppcsimbooke.Memory.Access.{read16, read32, read64, write16, write32, write64}
use ppcsimbooke.Tlb.{Tlb}
use ppcsimbooke.Tlb.Translate.{Request, Xlated}
use ppcsimbooke.Cpu.{MmuRegs, cpu_xlate}

-- The registers of translation, the TLB, and the memory module that is registered, if any.
pub record CpuBus (C : Type 0) : Type 0 where
  pub mmu : MmuRegs
  pub tlb : Tlb C
  pub mem : Option Memory

-- What comes behind a translation: the memory has to be there.
unfoldable pub with_memory :
    {C A : Type 0}
    → CpuBus C
    → Outcome Xlated
    → (Xlated → Memory → Outcome (A × Memory))
    → CpuBus C × Outcome A
with_memory {C} {A} s (throw ex) access = (s, throw ex)
with_memory {C} {A} s no_return access = (s, no_return)
with_memory {C} {A} s (ok x) access = elim s.mem as (λ _. CpuBus C × Outcome A) [
  | none ↦ (s, throw sim_except_fatal)
  | some m ↦ elim (access x m) as (λ _. CpuBus C × Outcome A) [
    | ok (v, n) ↦ (record s { mem = some n }, ok v)
    | throw ex ↦ (s, throw ex)
    | no_return ↦ (s, no_return)
  ]
]

-- std::get<1>(res) & 0x1
unfoldable pub byte_order : Xlated → Endianness
byte_order x = to_endianness (bit_and x.wimge 0x1)

-- A write has no value.
unfoldable pub no_value : Outcome Memory → Outcome (Unit {0} × Memory)
no_value (ok m) = ok (tt, m)
no_value (throw ex) = throw ex
no_value no_return = no_return

module _ {C : Type 0} (lookup : Tlb C → Request → Tlb C × Outcome Xlated) (addr : ℕ) where
  unfoldable pub cpu_read :
      (ℕ → Endianness → Memory → Outcome (ℕ × Memory)) → CpuBus C → CpuBus C × Outcome ℕ
  unfolding with_memory byte_order
  cpu_read access s =
      let r = cpu_xlate lookup s.tlb s.mmu addr false false in
      with_memory (record s { tlb = r.0 }) r.1 (λ x. access x.address (byte_order x))

  unfoldable pub cpu_write :
      (ℕ → Endianness → Memory → Outcome Memory) → CpuBus C → CpuBus C × Outcome (Unit {0})
  unfolding with_memory byte_order no_value
  cpu_write access s =
      let r = cpu_xlate lookup s.tlb s.mmu addr true false in
      with_memory (record s { tlb = r.0 }) r.1 (λ x m. no_value (access x.address (byte_order x) m))

  unfoldable pub cpu_read8 : CpuBus C → CpuBus C × Outcome ℕ
  cpu_read8 = cpu_read (λ a e. read8 a)

  unfoldable pub cpu_write8 : ℕ → CpuBus C → CpuBus C × Outcome (Unit {0})
  cpu_write8 value = cpu_write (λ a e. write8 a value)

  unfoldable pub cpu_read16 : CpuBus C → CpuBus C × Outcome ℕ
  cpu_read16 = cpu_read read16

  unfoldable pub cpu_write16 : ℕ → CpuBus C → CpuBus C × Outcome (Unit {0})
  cpu_write16 value = cpu_write (λ a. write16 a value)

  unfoldable pub cpu_read32 : CpuBus C → CpuBus C × Outcome ℕ
  cpu_read32 = cpu_read read32

  unfoldable pub cpu_write32 : ℕ → CpuBus C → CpuBus C × Outcome (Unit {0})
  cpu_write32 value = cpu_write (λ a. write32 a value)

  unfoldable pub cpu_read64 : CpuBus C → CpuBus C × Outcome ℕ
  cpu_read64 = cpu_read read64

  unfoldable pub cpu_write64 : ℕ → CpuBus C → CpuBus C × Outcome (Unit {0})
  cpu_write64 value = cpu_write (λ a. write64 a value)
