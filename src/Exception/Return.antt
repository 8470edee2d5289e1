-- ===== src/Exception/Return.antt =====
-- `rfi`, `rfci` and `rfmci` of sim/src/cpu_ppc_instr.cc, which compiles them for 32-bit addresses.
pub mod RoundTrip
use ppcsimbooke.Base.{
  ℕ, ◌+◌, ◌-◌, ◌^◌, ◌%◌, bit_and, Bool, true, false, if◌then◌else◌, truthy, u32, u64, not64,
}
use ppcsimbooke.Base.Error.{Outcome, ok, throw, no_return, sim_except_ppc}
use ppcsimbooke.Exception.{ExcRegs, msr_pr}

-- The program exception of privileged instructions in user mode.
unfoldable pub in_user_mode : ExcRegs → Bool
in_user_mode r = truthy (bit_and r.msr msr_pr)

unfoldable pub return_address : ℕ → ℕ
return_address a = bit_and (u32 a) (not64 3)

-- RTL_BEGIN and RTL_END: NIP is advanced before the body, also where that throws, and PC is set behind it.
unfoldable pub rtl_exc :
    (ExcRegs → ExcRegs × Outcome (Unit {0})) → ExcRegs → ExcRegs × Outcome (Unit {0})
rtl_exc body r =
    let t = body (record r { nip = u64 (r.nip + 4) }) in
    elim t.1 as (λ _. ExcRegs × Outcome (Unit {0})) [
      | ok u ↦ (record t.0 { pc = t.0.nip }, ok tt)
      | throw ex ↦ (t.0, throw ex)
      | no_return ↦ (t.0, no_return)
    ]

-- The test for user mode before the rest of a body.
unfoldable pub if_privileged : (ExcRegs → ExcRegs) → ExcRegs → ExcRegs × Outcome (Unit {0})
if_privileged rest r = if in_user_mode r then (r, throw (sim_except_ppc 7 2 0)) else (rest r, ok tt)

unfoldable pub rfi : ExcRegs → ExcRegs × Outcome (Unit {0})
rfi = rtl_exc (if_privileged λ r. record r { msr = r.srr1; nip = return_address r.srr0 })

unfoldable pub rfmci : ExcRegs → ExcRegs × Outcome (Unit {0})
rfmci = rtl_exc (if_privileged λ r. record r { msr = r.mcsrr1; nip = return_address r.mcsrr0 })

unfoldable pub rfci : ExcRegs → ExcRegs × Outcome (Unit {0})
rfci = rtl_exc (if_privileged λ r. record r { msr = r.csrr1; nip = return_address r.csrr0 })

-- Both ways that a privileged instruction may go.
pub either_mode :
    (rest : ExcRegs → ExcRegs) (r : ExcRegs) (P : Bool → ExcRegs × Outcome (Unit {0}) → Type 0)
    → P true (record r { nip = u64 (r.nip + 4) }, throw (sim_except_ppc 7 2 0))
    → (let t = rest (record r { nip = u64 (r.nip + 4) }) in
        P false (record t { pc = t.nip }, ok tt))
    → P (in_user_mode r) (rtl_exc (if_privileged rest) r)
unfolding rtl_exc if_privileged in_user_mode
either_mode rest r P user system = go (truthy (bit_and r.msr msr_pr))
  where
    start : ExcRegs
    start = record r { nip = u64 (r.nip + 4) }

    go :
        (c : Bool)
        → P c (
            let t : ExcRegs × Outcome (Unit {0}) =
              if c then (start, throw (sim_except_ppc 7 2 0)) else (rest start, ok tt) in
            elim t.1 as (λ _. ExcRegs × Outcome (Unit {0})) [
              | ok u ↦ (record t.0 { pc = t.0.nip }, ok tt)
              | throw ex ↦ (t.0, throw ex)
              | no_return ↦ (t.0, no_return)
            ])
    go true = user
    go false = system
