-- ===== src/Exception/Storage.antt =====
-- The cases of `ppc_exception` that use SRR0 and SRR1, and the critical ones but debug.
use ppcsimbooke.Base.{ℕ, bit_and, bit_or, Bool, ◌==◌, ◌&&◌, if◌then◌else◌, truthy}
use ppcsimbooke.Exception.{
  ExcRegs, msr_ce, msr_ee, esr_pil, esr_ppr, esr_ptr, esr_st, esr_dlk, esr_bo, esr_spv, flag,
  clr_default_msr_bits, clr_msr, jump, save, save_critical,
}

unfoldable pub critical : ExcRegs → ExcRegs
critical r =
    if bit_and r.msr msr_ce == 0
    then r
    else jump 0 (clr_msr msr_ce (clr_default_msr_bits (save_critical r)))

-- ESR starts at 0 in each case that sets it.
unfoldable pub dsi_esr : ℕ → ℕ
dsi_esr subtype = flag subtype 0x20 esr_bo (flag subtype 0x10 esr_dlk (flag subtype 0x2 esr_st 0))

unfoldable pub data_storage : ℕ → ℕ → ExcRegs → ExcRegs
data_storage subtype ea r =
    let s = save r in
    let t = record s { dear = ea; esr = if truthy subtype then dsi_esr subtype else 0 } in
    jump 2 (clr_default_msr_bits t)

unfoldable pub instruction_storage : ℕ → ExcRegs → ExcRegs
instruction_storage subtype r =
    let s = save r in
    let t = record s { esr = if truthy subtype then flag subtype 0x2 esr_bo 0 else 0 } in
    jump 3 (clr_default_msr_bits t)

unfoldable pub external_input : ExcRegs → ExcRegs
external_input r = if bit_and r.msr msr_ee == 0 then r else jump 4 (clr_default_msr_bits (save r))

unfoldable pub align_esr : ℕ → ℕ
align_esr subtype = flag subtype 0x4 esr_st (flag subtype 0x8 esr_spv 0)

unfoldable pub alignment : ℕ → ℕ → ExcRegs → ExcRegs
alignment subtype ea r =
    let s = save r in
    let t = record s { dear = ea; esr = if truthy subtype then align_esr subtype else 0 } in
    jump 5 (clr_default_msr_bits t)

unfoldable pub program_esr : ℕ → ℕ
program_esr subtype =
    flag subtype 0x4 esr_ptr (flag subtype 0x2 esr_ppr (flag subtype 0x1 esr_pil 0))

unfoldable pub program : ℕ → ExcRegs → ExcRegs
program subtype r =
    let s = save r in
    let t = record s { esr = if truthy subtype then program_esr subtype else 0 } in
    jump 6 (clr_default_msr_bits t)

unfoldable pub system_call : ExcRegs → ExcRegs
system_call r = jump 8 (clr_default_msr_bits (save r))

-- The timers: the bits are TSR[DIS], TCR[DIE]; TSR[FIS], TCR[FIE]; TSR[WIS], TCR[WIE].
unfoldable pub timer_enabled : ℕ → ℕ → ℕ → ExcRegs → Bool
timer_enabled status enable msr_bit r =
    truthy (bit_and r.tsr status) && truthy (bit_and r.tcr enable) && truthy (bit_and r.msr msr_bit)

unfoldable pub set_tsr : ℕ → ExcRegs → ExcRegs
set_tsr bits r = record r { tsr = bit_or r.tsr bits }

unfoldable pub decrementer : ExcRegs → ExcRegs
decrementer r =
    if timer_enabled 0x800_0000 0x400_0000 msr_ee r
    then jump 10 (set_tsr 0x800_0000 (clr_default_msr_bits (save r)))
    else r

unfoldable pub fixed_interval : ExcRegs → ExcRegs
fixed_interval r =
    if timer_enabled 0x400_0000 0x80_0000 msr_ee r
    then jump 11 (set_tsr 0x400_0000 (clr_default_msr_bits (save r)))
    else r

unfoldable pub watchdog : ExcRegs → ExcRegs
watchdog r =
    if timer_enabled 0x4000_0000 0x800_0000 msr_ce r
    then jump 12 (set_tsr 0x4000_0000 (clr_msr msr_ce (clr_default_msr_bits (save_critical r))))
    else r

unfoldable pub data_tlb : ℕ → ℕ → ExcRegs → ExcRegs
data_tlb subtype ea r =
    let s = save r in
    let t = record s { dear = ea; esr = if truthy subtype then flag subtype 0x2 esr_st 0 else 0 } in
    jump 13 (clr_default_msr_bits t)

unfoldable pub instruction_tlb : ExcRegs → ExcRegs
instruction_tlb r = jump 14 (clr_default_msr_bits (save r))
