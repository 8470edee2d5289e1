-- ===== src/Cpu.antt =====
-- Translation as the CPU asks for it: `cpu::xlate` of sim/src/cpu_ppc.cpp.
pub mod Miss
pub mod Resv
pub mod Access
use ppcsimbooke.Base.{
  ℕ, ◌+◌, ◌-◌, ◌*◌, ◌/◌, ◌%◌, ◌^◌, bit_and, bit_or, Bool, true, false, ◌==◌, ◌&&◌, if◌then◌else◌,
  to_num, u8, ◌<<<◌, List,
}
use ppcsimbooke.Base.Error.{Outcome, ok, throw, no_return, sim_except, sim_except_ppc, einval}
use ppcsimbooke.Utils.{extr_bf}
use ppcsimbooke.Tlb.{Tlb}
use ppcsimbooke.Tlb.Cache.{LruCache}
use ppcsimbooke.Tlb.Translate.{Request, Xlated}

-- The registers that it reads.
pub record MmuRegs : Type 0 where
  pub msr : ℕ
  pub pid0 : ℕ
  pub pid1 : ℕ
  pub pid2 : ℕ

abbrev pub msr_ds_mask : ℕ
msr_ds_mask = 0x10

abbrev pub msr_pr_mask : ℕ
msr_pr_mask = 0x4000

-- TO_RWX.
unfoldable pub to_rwx : ℕ → ℕ → ℕ → ℕ
to_rwx r w x = bit_or (bit_or (bit_and r 0x1 <<< 2) (bit_and w 0x1 <<< 1)) (bit_and x 0x1)

unfoldable pub access_perm : Bool → Bool → ℕ
unfolding to_rwx
access_perm wr ex = u8 (bit_or (if wr then to_rwx 0 1 0 else to_rwx 1 0 0) (to_rwx 0 0 (to_num ex)))

-- The request with one PID, which the TLB takes as a uint8_t.
unfoldable pub request_with : MmuRegs → ℕ → Bool → Bool → ℕ → Request
unfolding access_perm
request_with g addr wr ex pid = record {
  ea = addr;
  space = extr_bf g.msr msr_ds_mask;
  pid = u8 pid;
  rwx = access_perm wr ex;
  pr = extr_bf g.msr msr_pr_mask;
}

-- The exception of a miss: ITLB, or DTLB on a store or on a load.
unfoldable pub miss : {A : Type 0} → ℕ → Bool → Bool → Outcome A
miss addr wr true = throw (sim_except_ppc 0xf 1 addr)
miss addr true false = throw (sim_except_ppc 0xe 2 addr)
miss addr false false = throw (sim_except_ppc 0xe 1 addr)

-- A try with one PID, and what follows where its address is -1. An exception ends the search.
unfoldable pub or_else :
    {C : Type 0}
    → Tlb C × Outcome Xlated
    → (Tlb C → Tlb C × Outcome Xlated)
    → Tlb C × Outcome Xlated
or_else tried next = elim tried.1 [
  | ok x ↦ if x.address == 0xffff_ffff_ffff_ffff then next tried.0 else tried
  | throw ex ↦ tried
  | no_return ↦ tried
]

-- `cpu::xlate`: `lookup` is the `xlate` of the TLB.
unfoldable pub cpu_xlate :
    {C : Type 0}
    → (Tlb C → Request → Tlb C × Outcome Xlated)
    → Tlb C
    → MmuRegs
    → ℕ
    → Bool
    → Bool
    → Tlb C × Outcome Xlated
unfolding or_else
cpu_xlate lookup t g addr wr ex =
    if wr && ex
    then (t, throw (sim_except einval))
    else or_else (lookup t (request_with g addr wr ex g.pid0)) λ t1.
      or_else (lookup t1 (request_with g addr wr ex g.pid1))
        λ t2. or_else (lookup t2 (request_with g addr wr ex g.pid2)) λ t3. (t3, miss addr wr ex)
