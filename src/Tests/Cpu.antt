-- ===== src/Tests/Cpu.antt =====
-- Exceptions, translation by the CPU and breakpoints at concrete inputs.
use ppcsimbooke.Base.{
  ℕ, ◌+◌, ◌≡◌, ◌⊎◌, ◌&&◌, Bool, true, false, none, some, [], ◌∷◌, ◌==◌, if◌then◌else◌, arith, u64,
}
use ppcsimbooke.Base.Error.{Outcome, ok, throw, sim_except, einval}
use ppcsimbooke.Exception.{ExcRegs}
use ppcsimbooke.Exception.Debug.{returned, checkstop}
use ppcsimbooke.Exception.Dispatch.{ppc_exception, dsi, dbg}
use ppcsimbooke.Exception.Dispatch.Outcomes.{Outcome3, ppc_exception_outcome}
use ppcsimbooke.Exception.Msr.{mtmsr}
use ppcsimbooke.Exception.Msr.Privileged.{privileged, IsMove}
use ppcsimbooke.Exception.Return.{return_address, in_user_mode}
use ppcsimbooke.Exception.Return.RoundTrip.{return-ppc_exception, return_from}
use ppcsimbooke.Tlb.{Tlb}
use ppcsimbooke.Tlb.Translate.{Request, Xlated, no_match}
use ppcsimbooke.Cpu.{MmuRegs, cpu_xlate, miss}
use ppcsimbooke.Cpu.Miss.{IsMiss, IsAnswer, try0, try1, try2, cpu_xlate_cases}
use ppcsimbooke.Cpu.Resv.{Resv, granule, set_resv, clear_resv, check_resv}
use ppcsimbooke.Cpu.Resv.Granule.{reserve, check_resv-set_resv}
use ppcsimbooke.Bm.{Bkpt, BreakptMngr, Managers, with_counter, find, check_pc, add_breakpoint}
use ppcsimbooke.Bm.Hits.{check_pc_lem}
use ppcsimbooke.Bm.Numbers.{IsCounted, IsNumbered, added, Call-IsNumbered}

abbrev user_regs : ExcRegs
user_regs = record {
  pc = 0x1000;
  nip = 0x1000;
  msr = 0xd000;
  srr0 = 0;
  srr1 = 0;
  csrr0 = 0;
  csrr1 = 0;
  mcsrr0 = 0;
  mcsrr1 = 0;
  dear = 0;
  esr = 0;
  mcar = 0;
  mcsr = 0;
  tsr = 0;
  tcr = 0;
  dbsr = 0;
  dbcr0 = 0;
  spefscr = 0;
  ivpr = 0xfff0;
  ivor = λ n. n;
}

ppc_exception_outcome_example : Outcome3 dsi user_regs (ppc_exception dsi 2 0x5004 user_regs)
ppc_exception_outcome_example = ppc_exception_outcome dsi 2 0x5004 user_regs

return-ppc_exception_example :
    (ppc_exception dsi 2 0x5004 user_regs ≡ returned user_regs)
    ⊎ (ppc_exception dsi 2 0x5004 user_regs ≡ checkstop)
    ⊎ ((s : ExcRegs) × (u : ExcRegs) × (ppc_exception dsi 2 0x5004 user_regs ≡ returned s)
        × (return_from dsi s ≡ (u, ok tt))
        × (u.msr ≡ 0xd000)
        × ((dsi ≡ dbg) ⊎ ((u.pc ≡ return_address 0x1000) × (u.nip ≡ return_address 0x1000))))
return-ppc_exception_example = return-ppc_exception dsi 2 0x5004 user_regs

-- A lookup that answers for PID 7 alone.
abbrev only_seven : Tlb ℕ → Request → Tlb ℕ × Outcome Xlated
only_seven t q = (
  t,
  if q.pid == 7
      then ok (record { address = 0x100; wimge = 0; page_size = 0x1000 })
      else ok no_match,
)

abbrev mmu_regs : MmuRegs
mmu_regs = record { msr = 0; pid0 = 1; pid1 = 7; pid2 = 2 }

abbrev tlb_empty : Tlb ℕ
tlb_empty = record { tlb4k = []; tlb_cam = []; cache = 0 }

cpu_xlate_cases_example :
    ((true ≡ true)
      × (false ≡ true)
      × (cpu_xlate only_seven tlb_empty mmu_regs 0x100 true false
          ≡ (tlb_empty, throw (sim_except einval))))
    ⊎ (((true && false) ≡ false)
        × (((cpu_xlate only_seven tlb_empty mmu_regs 0x100 true false
                ≡ try0 only_seven tlb_empty mmu_regs 0x100 true false)
              × IsAnswer (try0 only_seven tlb_empty mmu_regs 0x100 true false).1)
            ⊎ (IsMiss (try0 only_seven tlb_empty mmu_regs 0x100 true false)
                × (cpu_xlate only_seven tlb_empty mmu_regs 0x100 true false
                    ≡ try1 only_seven tlb_empty mmu_regs 0x100 true false)
                × IsAnswer (try1 only_seven tlb_empty mmu_regs 0x100 true false).1)
            ⊎ (IsMiss (try0 only_seven tlb_empty mmu_regs 0x100 true false)
                × IsMiss (try1 only_seven tlb_empty mmu_regs 0x100 true false)
                × (cpu_xlate only_seven tlb_empty mmu_regs 0x100 true false
                    ≡ try2 only_seven tlb_empty mmu_regs 0x100 true false)
                × IsAnswer (try2 only_seven tlb_empty mmu_regs 0x100 true false).1)
            ⊎ (IsMiss (try0 only_seven tlb_empty mmu_regs 0x100 true false)
                × IsMiss (try1 only_seven tlb_empty mmu_regs 0x100 true false)
                × IsMiss (try2 only_seven tlb_empty mmu_regs 0x100 true false)
                × (cpu_xlate only_seven tlb_empty mmu_regs 0x100 true false ≡ (
                  (try2 only_seven tlb_empty mmu_regs 0x100 true false).0,
                  miss 0x100 true false,
                )))))
cpu_xlate_cases_example = cpu_xlate_cases only_seven tlb_empty mmu_regs 0x100 true false

abbrev one_bkpt : BreakptMngr
one_bkpt = record {
  bk_map = record { ea = 0x100; num = 0; hits = 4 } ∷ [];
  bkpts_enabled = true;
  last_bkpt = (0, false);
}

-- Two CPUs and more, of which the first has the breakpoint.
abbrev managers : Managers
managers = record {
  bk_num = 1;
  mngr = λ i. if i == 0 then one_bkpt else record one_bkpt { bk_map = [] };
}

managers-IsNumbered : IsNumbered managers
managers-IsNumbered i = go (i == 0)
  where
    go : (b : Bool) → IsCounted 1 (if b then one_bkpt else record one_bkpt { bk_map = [] }).bk_map
    go true = ((tt, tt), (omega arith, tt))
    go false = (tt, tt)

check_pc_lem_example :
    (((find 0x100 one_bkpt.bk_map ≡ none) ⊎ (true ≡ false))
      × (check_pc 0x100 one_bkpt ≡ (false, one_bkpt)))
    ⊎ ((b : Bkpt) × (find 0x100 one_bkpt.bk_map ≡ some b)
        × (true ≡ true)
        × ((check_pc 0x100 one_bkpt).0 ≡ true)
        × (find 0x100 (check_pc 0x100 one_bkpt).1.bk_map
            ≡ some (record b { hits = u64 (b.hits + 1) }))
        × (find 0x104 (check_pc 0x100 one_bkpt).1.bk_map ≡ find 0x104 one_bkpt.bk_map)
        × ((check_pc 0x100 one_bkpt).1.last_bkpt ≡ (0x100, true)))
check_pc_lem_example = check_pc_lem 0x100 0x104 one_bkpt (λ e. omega (arith, e))

Call-IsNumbered_example : IsNumbered (with_counter 1 (add_breakpoint 0x80) managers)
Call-IsNumbered_example =
    Call-IsNumbered managers (with_counter 1 (add_breakpoint 0x80) managers) (added 1 0x80)
      (omega arith) managers-IsNumbered

abbrev first_cpu : Resv
first_cpu = record { resv_addr = 0; resv_set = false; resv_size = 0; cpu_no = 0 }

abbrev second_cpu : Resv
second_cpu = record first_cpu { cpu_no = 1 }

abbrev word_at : ℕ → Xlated
word_at a = record { address = a; wimge = 0; page_size = 0x1000 }

check_resv-set_resv_example :
    (set_resv (ok (word_at 0x104)) 4 first_cpu [] ≡ ok (reserve (word_at 0x104) 4 first_cpu []))
    × (check_resv
          (ok (word_at 0x104))
          4
          (reserve (word_at 0x104) 4 first_cpu []).0
          (reserve (word_at 0x104) 4 first_cpu []).1
        ≡ ok true)
    × (check_resv
          (ok (word_at 0x104))
          4
          (reserve (word_at 0x104) 4 first_cpu []).0
          (reserve (word_at 0x110) 4 second_cpu (reserve (word_at 0x104) 4 first_cpu []).1).1
        ≡ ok false)
    × (check_resv
          (ok (word_at 0x104))
          4
          (reserve (word_at 0x104) 4 first_cpu []).0
          (clear_resv
            (record second_cpu { resv_addr = 0x110 })
            (reserve (word_at 0x104) 4 first_cpu []).1).1
        ≡ ok false)
unfolding granule
check_resv-set_resv_example =
    check_resv-set_resv (word_at 0x104) (word_at 0x110) 4 4 4 first_cpu second_cpu [] (omega arith)
      (λ e. omega (arith, e))

privileged_example : IsMove 0x8000 user_regs (in_user_mode user_regs) (mtmsr 0x8000 user_regs)
privileged_example = (privileged 0x8000 15 user_regs (omega arith)).0
