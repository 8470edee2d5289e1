-- ===== src/Exception/Dispatch/Outcomes.antt =====
-- What every case of the switch has in common: it is ignored, it stops the machine, or it enters a
-- handler.
use ppcsimbooke.Base.{
  ℕ, ◌+◌, ◌-◌, ◌^◌, ◌≡◌, refl, ap, bit_and, Bool, true, false, ◌==◌, ==_iff, if◌then◌else◌, ◌⊎◌,
  inl, inr, arith, bit, bit_ext, bit-bit_and, zero-bit, bit_le_one, truthy, not64, ◌%◌, bit_or,
  Bool-cases,
}
use ppcsimbooke.Exception.{
  ExcRegs, flag, kept_bits, clr_default_msr_bits, clr_msr, jump, save, save_critical,
  save_machine_check, pc_from_ivor_num, msr_ce, msr_ee, msr_me, msr_de, msr_pr,
}
use ppcsimbooke.Exception.Storage.{
  critical, data_storage, instruction_storage, external_input, alignment, program, system_call,
  decrementer, fixed_interval, watchdog, data_tlb, instruction_tlb, set_tsr, timer_enabled,
}
use ppcsimbooke.Exception.Debug.{
  Delivery, returned, checkstop, machine_check, debug, debug_cause, debug_causes, spe, fp_data,
  fp_round,
}
use ppcsimbooke.Exception.Dispatch.{
  ExceptionNr, cr, mc, dsi, isi, ei, align, prg, fpu, sc, dec, fit, wtd, dtlb, itlb, dbg, spe_ua,
  em_fp_d, em_fp_r, pmm, db, db_cr, unlisted, exception_nr, ppc_exception,
}

-- Bits that a mask has not are not in what it keeps.
mask_off : (m k b : ℕ) → bit_and k b ≡ 0 → bit_and (bit_and m k) b ≡ 0
mask_off m k b none = bit_ext _ _ λ i. ground (
  arith,
  bit-bit_and (bit_and m k) b i,
  bit-bit_and m k i,
  bit-bit_and k b i,
  zero-bit i,
  bit_le_one m i,
  ap (λ (t : ℕ). bit t i) none,
)

mask_still_off : (m k b : ℕ) → bit_and m b ≡ 0 → bit_and (bit_and m k) b ≡ 0
mask_still_off m k b none = bit_ext _ _ λ i. ground (
  arith,
  bit-bit_and (bit_and m k) b i,
  bit-bit_and m k i,
  bit-bit_and m b i,
  zero-bit i,
  ap (λ (t : ℕ). bit t i) none,
)

kept_pr : bit_and kept_bits msr_pr ≡ 0
unfolding kept_bits
kept_pr = refl

kept_ee : bit_and kept_bits msr_ee ≡ 0
unfolding kept_bits
kept_ee = refl

-- Where each class keeps PC and MSR: machine check and the critical ones have pairs of their own.
abbrev pub saved_pc : ExceptionNr → ExcRegs → ℕ
saved_pc mc s = s.mcsrr0
saved_pc cr s = s.csrr0
saved_pc wtd s = s.csrr0
saved_pc dbg s = s.csrr0
saved_pc _ s = s.srr0

abbrev pub saved_msr : ExceptionNr → ExcRegs → ℕ
saved_msr mc s = s.mcsrr1
saved_msr cr s = s.csrr1
saved_msr wtd s = s.csrr1
saved_msr dbg s = s.csrr1
saved_msr _ s = s.srr1

-- The handler of an exception number: PC is at the IVOR one below the number, NIP is as it was,
-- the handler is privileged with external interrupts off, and the class's registers hold MSR and, but for debug, PC.
abbrev pub Entered : ExceptionNr → ExcRegs → ExcRegs → Type 0
Entered nr r s =
    (s.pc ≡ pc_from_ivor_num r (exception_nr nr - 1))
    × (s.nip ≡ r.nip)
    × (bit_and s.msr msr_pr ≡ 0)
    × (bit_and s.msr msr_ee ≡ 0)
    × (saved_msr nr s ≡ r.msr)
    × ((nr ≡ dbg) ⊎ (saved_pc nr s ≡ r.pc))

pr_off : (m : ℕ) → bit_and (bit_and m kept_bits) msr_pr ≡ 0
pr_off m = mask_off m kept_bits msr_pr kept_pr

ee_off : (m : ℕ) → bit_and (bit_and m kept_bits) msr_ee ≡ 0
ee_off m = mask_off m kept_bits msr_ee kept_ee

pr_off2 : (m k : ℕ) → bit_and (bit_and (bit_and m kept_bits) k) msr_pr ≡ 0
pr_off2 m k = mask_still_off _ k msr_pr (pr_off m)

ee_off2 : (m k : ℕ) → bit_and (bit_and (bit_and m kept_bits) k) msr_ee ≡ 0
ee_off2 m k = mask_still_off _ k msr_ee (ee_off m)

abbrev pub Outcome3 : ExceptionNr → ExcRegs → Delivery → Type 0
Outcome3 nr r d =
    (d ≡ returned r)
    ⊎ ((d ≡ checkstop) × (exception_nr nr ≡ 2) × (bit_and r.msr msr_me ≡ 0))
    ⊎ ((s : ExcRegs) × (d ≡ returned s) × Entered nr r s)

entered : (nr : ExceptionNr) (r s : ExcRegs) → Entered nr r s → Outcome3 nr r (returned s)
entered nr r s e = inr (inr (s, refl, e))

unless :
    (b : Bool) (nr : ExceptionNr) (r s : ExcRegs)
    → Entered nr r s
    → Outcome3 nr r (returned (if b then r else s))
unless true nr r s e = inl refl
unless false nr r s e = inr (inr (s, refl, e))

only_if :
    (b : Bool) (nr : ExceptionNr) (r s : ExcRegs)
    → Entered nr r s
    → Outcome3 nr r (returned (if b then s else r))
only_if true nr r s e = inr (inr (s, refl, e))
only_if false nr r s e = inl refl

-- The causes of a debug exception touch CSRR0 and DBSR alone.
abbrev pub OnlyDebug : ExcRegs → ExcRegs → Type 0
OnlyDebug r s = (x : ℕ) × (y : ℕ) × (s ≡ record r { csrr0 = x; dbsr = y })

debug_cause-OnlyDebug :
    (subtype cause bits next : ℕ) (r s : ExcRegs)
    → OnlyDebug r s
    → OnlyDebug r (debug_cause subtype cause bits next s)
unfolding debug_cause
debug_cause-OnlyDebug subtype cause bits next r s (x, y, form) = go (bit_and subtype cause == cause)
  where
    go :
        (b : Bool)
        → OnlyDebug r (
            if b then record s { csrr0 = (s.pc + next) % 2 ^ 64; dbsr = bit_or s.dbsr bits } else s)
    go true = (
      (s.pc + next) % 2 ^ 64,
      bit_or s.dbsr bits,
      ap (λ (t : ExcRegs). record t { csrr0 = (s.pc + next) % 2 ^ 64; dbsr = bit_or s.dbsr bits })
          form,
    )
    go false = (x, y, form)

debug_causes-OnlyDebug : (subtype : ℕ) (r : ExcRegs) → OnlyDebug r (debug_causes subtype r)
unfolding debug_causes
debug_causes-OnlyDebug subtype r =
    let none_yet : OnlyDebug r r = (r.csrr0, r.dbsr, refl) in
    let k =
      λ (c b n : ℕ) (s : ExcRegs) (o : OnlyDebug r s). debug_cause-OnlyDebug subtype c b n r s o in
    let a = k 0x4 0x40_0000 0 _ (k 0x2 0x80_0000 0 _ (k 0x1 0x100_0000 0 _ none_yet)) in
    let b = k 0x10 0x4_0000 0 _ (k 0x8 0x8_0000 0 _ a) in
    let c = k 0x40 0x1_0000 0 _ (k 0x20 0x2_0000 0 _ b) in
    let (x, y, form) = k 0x200 0x8000 4 _ (k 0x100 0x400_0000 0 _ (k 0x80 0x800_0000 4 _ c)) in
    k 0x800 0x4000_0000 4 _
      (x, _, ap (λ (t : ExcRegs). record t { dbsr = flag subtype 0x400 0x200_0000 t.dbsr }) form)

module _ (r : ExcRegs) where
  critical_outcome : Outcome3 cr r (returned (critical r))
  unfolding critical clr_default_msr_bits clr_msr jump save_critical pc_from_ivor_num exception_nr
  critical_outcome =
      unless (bit_and r.msr msr_ce == 0) cr r _
        (refl, refl, pr_off2 r.msr (not64 msr_ce), ee_off2 r.msr (not64 msr_ce), refl, inr refl)

  watchdog_outcome : Outcome3 wtd r (returned (watchdog r))
  unfolding watchdog clr_default_msr_bits clr_msr set_tsr jump save_critical pc_from_ivor_num
      exception_nr
  watchdog_outcome =
      only_if (timer_enabled 0x4000_0000 0x800_0000 msr_ce r) wtd r _
        (refl, refl, pr_off2 r.msr (not64 msr_ce), ee_off2 r.msr (not64 msr_ce), refl, inr refl)

  machine_check_outcome : (subtype ea : ℕ) → Outcome3 mc r (machine_check subtype ea r)
  unfolding machine_check clr_default_msr_bits clr_msr jump save_machine_check pc_from_ivor_num
      exception_nr
  machine_check_outcome subtype ea = elim (Bool-cases (bit_and r.msr msr_me == 0)) [
    | inl off ↦ rw off (inr (inl (refl, refl, (==_iff _ _).0 off)))
    | inr on ↦ rw on (
        inr (
          inr (
            _,
            refl,
            (
              refl,
              refl,
              pr_off2 r.msr (not64 msr_me),
              ee_off2 r.msr (not64 msr_me),
              refl,
              inr refl,
            ),
          )))
  ]

  debug-Entered :
      (s : ExcRegs)
      → OnlyDebug r s
      → Entered dbg r (jump 15 (clr_msr msr_de (clr_default_msr_bits (record s { csrr1 = s.msr }))))
  unfolding clr_default_msr_bits clr_msr jump pc_from_ivor_num exception_nr
  debug-Entered s (x, y, form) =
      rw form
        (refl, refl, pr_off2 r.msr (not64 msr_de), ee_off2 r.msr (not64 msr_de), refl, inl refl)

  debug_outcome : (subtype : ℕ) → Outcome3 dbg r (returned (debug subtype r))
  unfolding debug
  debug_outcome subtype = go (bit_and r.dbcr0 0x4000_0000 == 0) (truthy subtype)
    where
      go :
          (b c : Bool)
          → Outcome3 dbg r (
              returned (
                if b
                then r
                else if bit_and r.msr msr_de == 0
                then r
                else (let s = if c then debug_causes subtype r else r in
                    jump 15 (clr_msr msr_de (clr_default_msr_bits (record s { csrr1 = s.msr }))))))
      go true c = inl refl
      go false true =
          unless (bit_and r.msr msr_de == 0) dbg r _
            (debug-Entered _ (debug_causes-OnlyDebug subtype r))
      go false false =
          unless (bit_and r.msr msr_de == 0) dbg r _ (debug-Entered r (r.csrr0, r.dbsr, refl))

-- Every exception is ignored and leaves the registers as they are, or it is a machine check with
-- MSR[ME] clear and stops the machine, or it enters its handler: at the IVOR one below the number, with NIP untouched,
-- PR and EE clear, MSR saved in the pair of its class and, but for debug, PC too.
pub ppc_exception_outcome :
    (nr : ExceptionNr) (subtype ea : ℕ) (r : ExcRegs)
    → Outcome3 nr r (ppc_exception nr subtype ea r)
unfolding ppc_exception data_storage instruction_storage external_input alignment program
    system_call decrementer fixed_interval data_tlb instruction_tlb set_tsr spe fp_data fp_round
    clr_default_msr_bits jump save pc_from_ivor_num exception_nr
ppc_exception_outcome cr subtype ea r = critical_outcome r
ppc_exception_outcome mc subtype ea r = machine_check_outcome r subtype ea
ppc_exception_outcome dsi subtype ea r =
    entered dsi r _ (refl, refl, pr_off r.msr, ee_off r.msr, refl, inr refl)
ppc_exception_outcome isi subtype ea r =
    entered isi r _ (refl, refl, pr_off r.msr, ee_off r.msr, refl, inr refl)
ppc_exception_outcome ei subtype ea r =
    unless (bit_and r.msr msr_ee == 0) ei r _
      (refl, refl, pr_off r.msr, ee_off r.msr, refl, inr refl)
ppc_exception_outcome align subtype ea r =
    entered align r _ (refl, refl, pr_off r.msr, ee_off r.msr, refl, inr refl)
ppc_exception_outcome prg subtype ea r =
    entered prg r _ (refl, refl, pr_off r.msr, ee_off r.msr, refl, inr refl)
ppc_exception_outcome fpu subtype ea r = inl refl
ppc_exception_outcome sc subtype ea r =
    entered sc r _ (refl, refl, pr_off r.msr, ee_off r.msr, refl, inr refl)
ppc_exception_outcome dec subtype ea r =
    only_if (timer_enabled 0x800_0000 0x400_0000 msr_ee r) dec r _
      (refl, refl, pr_off r.msr, ee_off r.msr, refl, inr refl)
ppc_exception_outcome fit subtype ea r =
    only_if (timer_enabled 0x400_0000 0x80_0000 msr_ee r) fit r _
      (refl, refl, pr_off r.msr, ee_off r.msr, refl, inr refl)
ppc_exception_outcome wtd subtype ea r = watchdog_outcome r
ppc_exception_outcome dtlb subtype ea r =
    entered dtlb r _ (refl, refl, pr_off r.msr, ee_off r.msr, refl, inr refl)
ppc_exception_outcome itlb subtype ea r =
    entered itlb r _ (refl, refl, pr_off r.msr, ee_off r.msr, refl, inr refl)
ppc_exception_outcome dbg subtype ea r = debug_outcome r subtype
ppc_exception_outcome spe_ua subtype ea r =
    entered spe_ua r _ (refl, refl, pr_off r.msr, ee_off r.msr, refl, inr refl)
ppc_exception_outcome em_fp_d subtype ea r =
    only_if _ em_fp_d r _ (refl, refl, pr_off r.msr, ee_off r.msr, refl, inr refl)
ppc_exception_outcome em_fp_r subtype ea r =
    only_if _ em_fp_r r _ (refl, refl, pr_off r.msr, ee_off r.msr, refl, inr refl)
ppc_exception_outcome pmm subtype ea r = inl refl
ppc_exception_outcome db subtype ea r = inl refl
ppc_exception_outcome db_cr subtype ea r = inl refl
ppc_exception_outcome (unlisted n) subtype ea r = inl refl
