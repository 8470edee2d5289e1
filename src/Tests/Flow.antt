-- ===== src/Tests/Flow.antt =====
-- Branches, comparisons and accesses of instructions at concrete inputs.
use ppcsimbooke.Base.{
  ℕ, ◌+◌, ◌≡◌, refl, true, false, if◌then◌else◌, ◌==◌, u8, u32, bit, bit_and, arith, some, [],
  not32, not64, truthy,
}
use ppcsimbooke.Base.Error.{Outcome, ok}
use ppcsimbooke.Regs.{get_crf_field, get_field}
use ppcsimbooke.Regs.Spefscr.{update_spefscr, update_spefscr_lem, transient, x86_mxcsr_e}
use ppcsimbooke.Memory.Access.{write_word}
use ppcsimbooke.Tlb.{Tlb}
use ppcsimbooke.Tlb.{to_virt}
use ppcsimbooke.Tlb.Invalidate.{page_mask}
use ppcsimbooke.Utils.{extr_bf, rshift, rshift_loop}
use ppcsimbooke.Tests.Cache.{Table, table_cache}
use ppcsimbooke.Tests.Tlb.{tlb0}
use ppcsimbooke.Tlb.Translate.{
  Request, Xlated, no_match, xlate, search_arrays, scan_tlb, scan_sets, scan_ways, is_match,
  probe_cache, cache_key,
}
use ppcsimbooke.Cpu.{MmuRegs, cpu_xlate, request_with, access_perm, to_rwx}
use ppcsimbooke.Cpu.Access.{CpuBus, cpu_read8, cpu_write}
use ppcsimbooke.Cpu.Access.Errors.{IsMissed, access_misses}
use ppcsimbooke.Cpu.Access.RoundTrip.{IsBack, cpu_read-cpu_write}
use ppcsimbooke.Core.{Core}
use ppcsimbooke.Core.Branch.{bc, bl, bla, bclr}
use ppcsimbooke.Core.Branch.Taken.{IsBranch, branches}
use ppcsimbooke.Core.Branch.Loops.{runs, IsBody, IsLap, bdnz_loop}
use ppcsimbooke.Core.Branch.Calls.{call_return}
use ppcsimbooke.Core.Compare.{cmp}
use ppcsimbooke.Core.Compare.Order.{IsOrdered, compare_lem}
use ppcsimbooke.Core.Bus.Cpu.{cpu_bus}
use ppcsimbooke.Core.Bus.Precise.{accesses-IsPrecise}
use ppcsimbooke.Core.Bus.Steps.{IsPrecise}
use ppcsimbooke.Core.Load.{lbz}
use ppcsimbooke.Core.System.{Reserve, stwcx_dot, mtcrf}
use ppcsimbooke.Core.System.Reserved.{IsSummary, stwcx_lem}
use ppcsimbooke.Core.System.Fields.{mtcrf_lem}
use ppcsimbooke.Tests.Memory.{fresh_memory}
use ppcsimbooke.Tests.Instr.{start}

branches_example : IsBranch 0x3000 2 0x2000 (bc 16 0 0x3000 start)
branches_example = (branches 16 0 0x3000 start).0

-- A body that counts in a register and ends at 0x1004.
abbrev counting : Core → Core
counting s = record s { gpr = λ r. s.gpr r + 1; nip = 0x1004; pc = 0x1004 }

counting-IsBody : IsBody 0x1000 0x1004 counting
counting-IsBody = record { leads = λ s e. refl; keeps_ctr = λ s. refl; keeps_mode = λ s. refl }

bdnz_loop_example : IsLap 0x1000 0x1004 2 3 (runs 3 (λ s. bc 16 0 0x1000 (counting s)) start)
bdnz_loop_example =
    bdnz_loop 0 0x1000 0x1004 counting counting-IsBody 2 3 start refl refl refl (omega arith)
      (omega arith)

call_return_example :
    ((bclr 20 0 (counting (bl 0x3000 start))).pc ≡ 0x1004)
    × ((bclr 20 0 (counting (bl 0x3000 start))).nip ≡ 0x1004)
    × ((bclr 20 0 (counting (bla 0x3000 start))).pc ≡ 0x1004)
    × ((bclr 20 0 (counting (bla 0x3000 start))).nip ≡ 0x1004)
    × ((bl 0x3000 start).pc ≡ 0x3000)
call_return_example = call_return counting 0 0x3000 start refl refl refl

compare_lem_example : IsOrdered 2 2 true false start (cmp 2 0 1 2 start)
compare_lem_example = (compare_lem 2 2 0 1 start (omega arith) (omega arith) 2 0).0

abbrev no_regs : MmuRegs
no_regs = record { msr = 0; pid0 = 0; pid1 = 0; pid2 = 0 }

-- A lookup with no match, and one that answers every request with the address itself, little endian.
abbrev blind : Tlb ℕ → Request → Tlb ℕ × Outcome Xlated
blind t q = (t, ok no_match)

abbrev identity : Tlb ℕ → Request → Tlb ℕ × Outcome Xlated
identity t q = (t, ok (record { address = q.ea; wimge = 1; page_size = 0x1000 }))

abbrev empty_tlb : Tlb ℕ
empty_tlb = record { tlb4k = []; tlb_cam = []; cache = 0 }

abbrev bus_state : CpuBus ℕ
bus_state = record { mmu = no_regs; tlb = empty_tlb; mem = some fresh_memory }

-- The TLB's own lookup, on arrays with two pages of which none has the address.
abbrev mapped : CpuBus Table
mapped = record { mmu = no_regs; tlb = tlb0; mem = some fresh_memory }

access_misses_example :
    IsMissed (xlate table_cache []) 0x9004 1 mapped (cpu_read8 (xlate table_cache []) 0x9004 mapped)
unfolding xlate search_arrays scan_tlb scan_sets scan_ways is_match probe_cache cache_key to_virt
    page_mask request_with access_perm to_rwx extr_bf rshift rshift_loop
access_misses_example =
    (access_misses (xlate table_cache []) 0x9004 9 mapped
      ((no_match, refl, refl), (no_match, refl, refl), (no_match, refl, refl))
      ((no_match, refl, refl), (no_match, refl, refl), (no_match, refl, refl))).0.0

cpu_read-cpu_write_example :
    IsBack identity 4 0x8010 0xdead_beef bus_state
      (cpu_write identity 0x8010 (λ a. write_word 4 a 0xdead_beef) bus_state)
unfolding cpu_xlate request_with
cpu_read-cpu_write_example =
    cpu_read-cpu_write identity 4 0x8010 0xdead_beef bus_state empty_tlb empty_tlb
      (record { address = 0x8010; wimge = 1; page_size = 0x1000 })
      (record { address = 0x8010; wimge = 1; page_size = 0x1000 }) fresh_memory refl refl refl refl
      refl refl (omega arith)

accesses-IsPrecise_example :
    IsPrecise start
      (lbz (cpu_bus blind) 5 8 2 start bus_state).0
      (lbz (cpu_bus blind) 5 8 2 start bus_state).2
accesses-IsPrecise_example = (accesses-IsPrecise (cpu_bus blind) 5 2 3 8 0 start bus_state).0.0

-- Reservations that are always there.
abbrev reserved : Reserve (CpuBus ℕ)
reserved = record {
  set_resv = λ ea n m. (m, ok tt);
  check_resv = λ ea n m. (m, ok true);
  clear_resv = λ ea m. m;
}

stwcx_lem_example :
    IsSummary 0 start
      (stwcx_dot (cpu_bus identity) reserved 3 0 3 start bus_state).0
      (stwcx_dot (cpu_bus identity) reserved 3 0 3 start bus_state).2
stwcx_lem_example = stwcx_lem (cpu_bus identity) reserved 3 0 3 0 start (omega arith) bus_state

mtcrf_lem_example :
    get_crf_field 1 (mtcrf 0x40 3 start).cond
    ≡ (if bit (u8 0x40) 6 == 1 then get_field 1 (u32 0xffff_fff0) else get_crf_field 1 start.cond)
mtcrf_lem_example = mtcrf_lem 0x40 3 1 start (omega arith)

update_spefscr_lem_example : update_spefscr 0x10 true 0xf_ffff ≡ (
    if truthy (bit_and 0x10 x86_mxcsr_e)
    then (0xf_ffff, 0x10)
    else (bit_and 0xf_ffff (not64 transient), bit_and 0x10 (not32 x86_mxcsr_e)))
update_spefscr_lem_example = update_spefscr_lem 0x10 0xf_ffff true
