-- ===== src/Core/Bus/Cpu.antt =====
-- The bus of the CPU: LOAD8 to LOAD64 and STORE8 to STORE64 of sim/src/cpu_ppc_instr.cc.
use ppcsimbooke.Base.{◌==◌, if◌then◌else◌}
use ppcsimbooke.Base.Error.{Outcome}
use ppcsimbooke.Tlb.{Tlb}
use ppcsimbooke.Tlb.Translate.{Request, Xlated}
use ppcsimbooke.Cpu.Access.{
  CpuBus, cpu_read8, cpu_read16, cpu_read32, cpu_read64, cpu_write8, cpu_write16, cpu_write32,
  cpu_write64,
}
use ppcsimbooke.Core.Bus.{Bus}

unfoldable pub cpu_bus : {C : Type 0} → (Tlb C → Request → Tlb C × Outcome Xlated) → Bus (CpuBus C)
cpu_bus lookup = record {
  load = λ n ea s.
      if n == 1
      then cpu_read8 lookup ea s
      else if n == 2
      then cpu_read16 lookup ea s
      else if n == 4
      then cpu_read32 lookup ea s
      else cpu_read64 lookup ea s;
  store = λ n ea v s.
      if n == 1
      then cpu_write8 lookup ea v s
      else if n == 2
      then cpu_write16 lookup ea v s
      else if n == 4
      then cpu_write32 lookup ea v s
      else cpu_write64 lookup ea v s;
}
