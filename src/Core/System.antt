-- ===== src/Core/System.antt =====
-- Traps, moves of CR and XER, isel, and the loads and stores with reservation of sim/src/cpu_ppc_instr.cc.
pub mod Fields
pub mod Reserved
use ppcsimbooke.Base.{
  ℕ, zero, suc, ◌+◌, ◌-◌, ◌*◌, ◌^◌, ◌%◌, ◌/◌, Bool, true, false, ltb, ◌==◌, ◌&&◌, ◌||◌, not,
  if◌then◌else◌, u8, u32, u64, not64, truthy, bit_and, bit_or, ◌>>>◌, ◌<<<◌,
}
use ppcsimbooke.Base.Error.{Outcome, ok, throw, no_return, sim_except_ppc}
use ppcsimbooke.Regs.{widen_int, update_crf_field, get_xerf_field}
use ppcsimbooke.Core.{Core, rtl, set_reg, so, sign_exts}
use ppcsimbooke.Core.Logical.{b_n}
use ppcsimbooke.Core.Compare.{less_signed}
use ppcsimbooke.Core.Bus.{Bus, Ran, on_ok, rtl_bus, load_to, store_to, ea_x}

-- The tests of tw and twi: signed operands a and b, unsigned ones au and bu.
unfoldable pub traps : ℕ → ℕ → ℕ → ℕ → ℕ → Bool
traps to a b au bu =
    (less_signed a b && truthy (bit_and (to >>> 0) 0x1))
    || (less_signed b a && truthy (bit_and (to >>> 1) 0x1))
    || ((a == b) && truthy (bit_and (to >>> 2) 0x1))
    || (ltb au bu && truthy (bit_and (to >>> 3) 0x1))
    || (ltb bu au && truthy (bit_and (to >>> 4) 0x1))

-- throw PPC_EXCEPT(PPC_EXCEPTION_PRG, PPC_EXCEPT_PRG_TRAP, ...) or nothing.
unfoldable pub trap_if : {S : Type 0} → Bool → Core → S → Ran S
trap_if c s m = if c then (s, m, throw (sim_except_ppc 0x7 0x4 0)) else (s, m, ok tt)

unfoldable pub twi : {S : Type 0} → ℕ → ℕ → ℕ → Core → S → Ran S
twi to a si = rtl_bus λ s.
    trap_if
      (traps to (sign_exts 64 32 (u32 (bit_and (s.gpr a) 0xffff_ffff))) (sign_exts 64 16 si)
        (s.gpr a) si)
      s

unfoldable pub tw : {S : Type 0} → ℕ → ℕ → ℕ → Core → S → Ran S
tw to a b = rtl_bus λ s.
    trap_if
      (traps to (sign_exts 64 32 (u32 (bit_and (s.gpr a) 0xffff_ffff)))
        (sign_exts 64 32 (u32 (bit_and (s.gpr b) 0xffff_ffff))) (s.gpr a) (s.gpr b))
      s

-- The loop of mtcrf over the n fields from i: `0xf << 28` is a negative int, whose sign the mask of 64 bits takes.
unfoldable pub crm_mask : ℕ → ℕ → ℕ → ℕ → ℕ
crm_mask zero i tmp m = m
crm_mask (suc n) i tmp m =
    crm_mask n (i + 1) (u8 (tmp <<< 1))
      (bit_or m (if truthy (bit_and tmp 0x80) then widen_int (0xf <<< ((7 - i) * 4)) else 0))

unfoldable pub mtcrf : ℕ → ℕ → Core → Core
mtcrf crm r = rtl λ s.
    let m = crm_mask 8 0 (u8 crm) 0 in
    record s {
      cond = record (s.cond) {
        cr = bit_or (bit_and (u32 (bit_and (s.gpr r) 0xffff_ffff)) m) (bit_and s.cond.cr (not64 m));
      };
    }

unfoldable pub mcrxr : ℕ → Core → Core
mcrxr crd = rtl λ s.
    let g = update_crf_field crd (get_xerf_field 0 s.cond) s.cond in
    record s { cond = record g { xer = bit_and g.xer 0xfff_ffff } }

-- mfcr_code(ARG0) assigns to the operand field of the decoded instruction, which holds the number of the register: the
-- result is that field.
unfoldable pub mfcr : ℕ → Core → Core × ℕ
mfcr d s = (rtl (λ t. t) s, u32 (bit_and s.cond.cr 0xffff_ffff))

unfoldable pub isel : ℕ → ℕ → ℕ → ℕ → Core → Core
isel d a b crb = rtl λ s.
    let x = if truthy a then s.gpr a else 0 in
    if b_n s.cond.cr (32 + crb) then set_reg d (s.gpr b) s else set_reg d x s

-- SET_RESV, CHECK_RESV and CLEAR_RESV on a state S.
pub record Reserve (S : Type 0) : Type 0 where
  pub set_resv : ℕ → ℕ → S → S × Outcome (Unit {0})
  pub check_resv : ℕ → ℕ → S → S × Outcome Bool
  pub clear_resv : ℕ → S → S

unfoldable pub lwarx : {S : Type 0} → Bus S → Reserve S → ℕ → ℕ → ℕ → Core → S → Ran S
lwarx bus res d a b = rtl_bus λ s m.
    let ea = ea_x a b s in
    let r = res.set_resv ea 4 m in on_ok (s, r.0, r.1) (load_to bus 4 d (λ v. v) ea)

-- `update_crF(0, v)`
unfoldable pub put_field_0 : ℕ → Core → Core
put_field_0 v s = record s { cond = update_crf_field 0 v s.cond }

-- The store that follows a check.
unfoldable pub store_if : {S : Type 0} → Bus S → Bool → ℕ → ℕ → Core → S → Ran S
store_if bus reserved ea value s m =
    if reserved
    then on_ok (store_to bus 4 ea value s m) (λ t n. (put_field_0 (bit_or 0x20 (so t)) t, n, ok tt))
    else (put_field_0 (so s) s, m, ok tt)

unfoldable pub stwcx_dot : {S : Type 0} → Bus S → Reserve S → ℕ → ℕ → ℕ → Core → S → Ran S
stwcx_dot {S} bus res d a b = rtl_bus λ s m.
    let ea = ea_x a b s in
    let r = res.check_resv ea 4 m in
    elim r.1 as (λ _. Ran S) [
      | ok reserved ↦
          on_ok (store_if bus reserved ea (s.gpr d) s r.0) λ t n. (t, res.clear_resv ea n, ok tt)
      | throw ex ↦ (s, r.0, throw ex)
      | no_return ↦ (s, r.0, no_return)
    ]
