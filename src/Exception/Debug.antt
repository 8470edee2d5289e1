-- ===== src/Exception/Debug.antt =====
-- The cases of `ppc_exception` for machine check, debug and the SPE.
use ppcsimbooke.Base.{ℕ, ◌+◌, bit_and, bit_or, Bool, ◌==◌, ◌&&◌, ◌||◌, if◌then◌else◌, truthy, u64}
use ppcsimbooke.Exception.{
  ExcRegs, msr_me, msr_de, esr_spv, flag, clr_default_msr_bits, clr_msr, jump, save,
  save_machine_check,
}

-- What `ppc_exception` comes to: it returns, or the process exits in checkstop.
pub data Delivery : Type 0 where
  returned : ExcRegs → Delivery
  checkstop : Delivery

unfoldable pub machine_check_causes : ℕ → ℕ → ℕ
machine_check_causes subtype mcsr =
    let a = flag subtype 0x2 0x1000_0000 mcsr in
    let b = flag subtype 0x800 0x1 (flag subtype 0x100 0x8 (flag subtype 0x20 0x40 a)) in
    let c = flag subtype 0x8 0x2000_0000 (flag subtype 0x200 0x4 (flag subtype 0x40 0x20 b)) in
    let d = flag subtype 0x10 0x80 (flag subtype 0x4 0x4000_0000 c) in
    flag subtype 0x400 0x2 (flag subtype 0x80 0x10 d)

unfoldable pub machine_check : ℕ → ℕ → ExcRegs → Delivery
machine_check subtype ea r =
    if bit_and r.msr msr_me == 0
    then checkstop
    else (let s = save_machine_check r in
        let t = record s {
          mcar = ea;
          mcsr = if truthy subtype then machine_check_causes subtype s.mcsr else s.mcsr;
        } in
        returned (jump 1 (clr_msr msr_me (clr_default_msr_bits t))))

-- One cause of a debug exception: it sets CSRR0, to PC or to the next address, and a bit of DBSR.
unfoldable pub debug_cause : ℕ → ℕ → ℕ → ℕ → ExcRegs → ExcRegs
debug_cause subtype cause bits next r =
    if bit_and subtype cause == cause
    then record r { csrr0 = u64 (r.pc + next); dbsr = bit_or r.dbsr bits }
    else r

unfoldable pub debug_causes : ℕ → ExcRegs → ExcRegs
debug_causes subtype r =
    let a =
      debug_cause subtype 0x4 0x40_0000 0
        (debug_cause subtype 0x2 0x80_0000 0 (debug_cause subtype 0x1 0x100_0000 0 r)) in
    let b = debug_cause subtype 0x10 0x4_0000 0 (debug_cause subtype 0x8 0x8_0000 0 a) in
    let c = debug_cause subtype 0x40 0x1_0000 0 (debug_cause subtype 0x20 0x2_0000 0 b) in
    let d =
      debug_cause subtype 0x200 0x8000 4
        (debug_cause subtype 0x100 0x400_0000 0 (debug_cause subtype 0x80 0x800_0000 4 c)) in
    let e = record d { dbsr = flag subtype 0x400 0x200_0000 d.dbsr } in
    debug_cause subtype 0x800 0x4000_0000 4 e

-- DBCR0[IDM] and MSR[DE] enable it. Without a cause CSRR0 stays as it is.
unfoldable pub debug : ℕ → ExcRegs → ExcRegs
debug subtype r =
    if bit_and r.dbcr0 0x4000_0000 == 0
    then r
    else if bit_and r.msr msr_de == 0
    then r
    else (let s = if truthy subtype then debug_causes subtype r else r in
        let t = record s { csrr1 = s.msr } in jump 15 (clr_msr msr_de (clr_default_msr_bits t)))

-- What the three SPE cases share.
unfoldable pub spe : ℕ → ExcRegs → ExcRegs
spe n r = let s = save r in let t = record s { esr = esr_spv } in jump n (clr_default_msr_bits t)

-- An enable bit of SPEFSCR with one of two status bits.
unfoldable pub raised : ExcRegs → ℕ → ℕ → ℕ → Bool
raised r enable high low =
    truthy (bit_and r.spefscr enable)
    && (truthy (bit_and r.spefscr high) || truthy (bit_and r.spefscr low))

unfoldable pub fp_data : ExcRegs → ExcRegs
fp_data r =
    if raised r 0x20 0x800_0000 0x800
      || raised r 0x10 0x400_0000 0x400
      || raised r 0x8 0x200_0000 0x200
      || raised r 0x4 0x100_0000 0x100
    then spe 33 r
    else r

unfoldable pub fp_round : ExcRegs → ExcRegs
fp_round r =
    if (raised r 0x40 0x2000_0000 0x1000_0000 || raised r 0x40 0x2000 0x1000)
      || (bit_and r.spefscr 0x3 == 0x2 || bit_and r.spefscr 0x3 == 0x3)
    then spe 34 r
    else r
