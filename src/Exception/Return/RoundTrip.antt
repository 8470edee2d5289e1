-- ===== src/Exception/Return/RoundTrip.antt =====
-- A handler that returns with the instruction of its class gets back where it came from.
use ppcsimbooke.Base.{ℕ, ◌+◌, u64, ◌≡◌, refl, ap, bit_and, false, ◌⊎◌, inl, inr}
use ppcsimbooke.Base.Error.{Outcome, ok}
use ppcsimbooke.Exception.{ExcRegs, msr_pr}
use ppcsimbooke.Exception.Debug.{returned, checkstop}
use ppcsimbooke.Exception.Dispatch.{
  ExceptionNr, cr, mc, dsi, isi, ei, align, prg, fpu, sc, dec, fit, wtd, dtlb, itlb, dbg, spe_ua,
  em_fp_d, em_fp_r, pmm, db, db_cr, unlisted, ppc_exception,
}
use ppcsimbooke.Exception.Dispatch.Outcomes.{saved_pc, saved_msr, ppc_exception_outcome}
use ppcsimbooke.Exception.Return.{
  rfi, rfci, rfmci, in_user_mode, return_address, rtl_exc, if_privileged, either_mode,
}

-- The instruction that returns from each exception.
abbrev pub return_from : ExceptionNr → ExcRegs → ExcRegs × Outcome (Unit {0})
return_from mc s = rfmci s
return_from cr s = rfci s
return_from wtd s = rfci s
return_from dbg s = rfci s
return_from _ s = rfi s

supervisor : (s : ExcRegs) → bit_and s.msr msr_pr ≡ 0 → in_user_mode s ≡ false
unfolding in_user_mode
supervisor s off = rw off refl

-- The registers behind the return: PC and NIP are both the address.
abbrev back : ExceptionNr → ExcRegs → ExcRegs
back nr s = record s {
  msr = saved_msr nr s;
  nip = return_address (saved_pc nr s);
  pc = return_address (saved_pc nr s);
}

allowed :
    (rest : ExcRegs → ExcRegs) (s : ExcRegs)
    → bit_and s.msr msr_pr ≡ 0
    → (let t = rest (record s { nip = u64 (s.nip + 4) }) in
        rtl_exc (if_privileged rest) s ≡ (record t { pc = t.nip }, ok tt))
allowed rest s off =
    let t = rest (record s { nip = u64 (s.nip + 4) }) in
    either_mode rest s (λ c o. c ≡ false → o ≡ (record t { pc = t.nip }, ok tt)) (λ e. cc)
      (λ e. refl) (supervisor s off)

returns :
    (nr : ExceptionNr) (s : ExcRegs)
    → bit_and s.msr msr_pr ≡ 0
    → return_from nr s ≡ (back nr s, ok tt)
unfolding rfi rfci rfmci
returns cr s off = allowed _ s off
returns mc s off = allowed _ s off
returns dsi s off = allowed _ s off
returns isi s off = allowed _ s off
returns ei s off = allowed _ s off
returns align s off = allowed _ s off
returns prg s off = allowed _ s off
returns fpu s off = allowed _ s off
returns sc s off = allowed _ s off
returns dec s off = allowed _ s off
returns fit s off = allowed _ s off
returns wtd s off = allowed _ s off
returns dtlb s off = allowed _ s off
returns itlb s off = allowed _ s off
returns dbg s off = allowed _ s off
returns spe_ua s off = allowed _ s off
returns em_fp_d s off = allowed _ s off
returns em_fp_r s off = allowed _ s off
returns pmm s off = allowed _ s off
returns db s off = allowed _ s off
returns db_cr s off = allowed _ s off
returns (unlisted n) s off = allowed _ s off

-- Once an exception has entered its handler, the return instruction of its class, run from those
-- registers, does not fault: it gives MSR back, and but for debug it sets PC and NIP to the PC of the exception, cut to a 32-bit
-- word address. An exception that is ignored leaves the registers as they are, and the other case is checkstop.
pub return-ppc_exception :
    (nr : ExceptionNr) (subtype ea : ℕ) (r : ExcRegs)
    → (ppc_exception nr subtype ea r ≡ returned r)
      ⊎ (ppc_exception nr subtype ea r ≡ checkstop)
      ⊎ ((s : ExcRegs) × (u : ExcRegs) × (ppc_exception nr subtype ea r ≡ returned s)
          × (return_from nr s ≡ (u, ok tt))
          × (u.msr ≡ r.msr)
          × ((nr ≡ dbg) ⊎ ((u.pc ≡ return_address r.pc) × (u.nip ≡ return_address r.pc))))
return-ppc_exception nr subtype ea r = elim (ppc_exception_outcome nr subtype ea r) [
  | inl ignored ↦ inl ignored
  | inr (inl stopped) ↦ inr (inl stopped.0)
  | inr (inr entered) ↦
      let (s, d, e) = entered in
      let (at, next, pr, ee, msr, pc) = e in
      inr (
        inr (
          s,
          back nr s,
          d,
          returns nr s pr,
          msr,
          elim pc [
            | inl debug ↦ inl debug
            | inr same ↦ inr (ap return_address same, ap return_address same)
          ],
        ))
]
