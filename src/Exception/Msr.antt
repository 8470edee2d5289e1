-- ===== src/Exception/Msr.antt =====
-- The system instructions that read and write MSR, of sim/src/cpu_ppc_instr.cc. An operand is the value of the register,
-- or the field E.
pub mod Privileged
use ppcsimbooke.Base.{
  ℕ, ◌+◌, ◌-◌, ◌*◌, ◌^◌, ◌%◌, bit_and, bit_or, if◌then◌else◌, truthy, ◌==◌, ◌&&◌, u32, u64, not64,
  ◌<<<◌,
}
use ppcsimbooke.Base.Error.{Outcome}
use ppcsimbooke.Exception.{ExcRegs}
use ppcsimbooke.Exception.Return.{rtl_exc, if_privileged}

-- The macro MSR_CM is the bit of the present MSR as 0 or 1, and stands for a mask in the test of the new one.
unfoldable pub msr_cm : ExcRegs → ℕ
msr_cm r = if truthy (bit_and r.msr 0x8000_0000) then 1 else 0

unfoldable pub mtmsr_code : ℕ → ExcRegs → ExcRegs
mtmsr_code v r =
    let newmsr = u32 (bit_and v 0xffff_ffff) in
    let newmsr_cm = if truthy (bit_and newmsr (msr_cm r)) then 1 else 0 in
    record r {
      msr = newmsr;
      nip = if msr_cm r == 0 && newmsr_cm == 1 then bit_and r.nip 0xffff_ffff else r.nip;
    }

unfoldable pub mtmsr : ℕ → ExcRegs → ExcRegs × Outcome (Unit {0})
mtmsr v = rtl_exc (if_privileged (mtmsr_code v))

-- The registers, and the value that REG0 gets.
unfoldable pub mfmsr : ExcRegs → ExcRegs × ℕ
mfmsr r = let n = u64 (r.nip + 4) in (record r { pc = n; nip = n }, u32 (bit_and r.msr 0xffff_ffff))

unfoldable pub wrtee_code : ℕ → ExcRegs → ExcRegs
wrtee_code v r = record r { msr = bit_or (bit_and r.msr (not64 (1 <<< 15))) (bit_and v (1 <<< 15)) }

unfoldable pub wrtee : ℕ → ExcRegs → ExcRegs × Outcome (Unit {0})
wrtee v = rtl_exc (if_privileged (wrtee_code v))

unfoldable pub wrteei_code : ℕ → ExcRegs → ExcRegs
wrteei_code e r = record r {
  msr = bit_or (bit_and r.msr (not64 (1 <<< 15))) (bit_and e 0x1 <<< 15);
}

unfoldable pub wrteei : ℕ → ExcRegs → ExcRegs × Outcome (Unit {0})
wrteei e = rtl_exc (if_privileged (wrteei_code e))
