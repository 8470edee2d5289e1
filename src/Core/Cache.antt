-- ===== src/Core/Cache.antt =====
-- The cache instructions of sim/src/cpu_ppc_instr.cc: no cache is simulated, and they access memory for the exceptions of the translation.
-- `msr` is MSR.
use ppcsimbooke.Base.{
  ℕ, zero, suc, ◌+◌, ◌-◌, ◌*◌, ◌/◌, Bool, ◌&&◌, not, if◌then◌else◌, u32, u64, not64, truthy,
  bit_and,
}
use ppcsimbooke.Base.Error.{ok, throw, no_return, sim_except_ppc}
use ppcsimbooke.Cpu.Resv.{cache_line_size}
use ppcsimbooke.Core.{Core}
use ppcsimbooke.Core.Bus.{Bus, Ran, on_ok, rtl_bus, store_to, ea_x}

-- `LOAD32(ea)` and `STORE32(ea, LOAD32(ea))`.
unfoldable pub touch_load : {S : Type 0} → Bus S → ℕ → Core → S → Ran S
touch_load {S} bus ea s m =
    let r = bus.load 4 ea m in
    elim r.1 as (λ _. Ran S) [
      | ok v ↦ (s, r.0, ok tt)
      | throw ex ↦ (s, r.0, throw ex)
      | no_return ↦ (s, r.0, no_return)
    ]

unfoldable pub touch_store : {S : Type 0} → Bus S → ℕ → Core → S → Ran S
touch_store {S} bus ea s m =
    let r = bus.load 4 ea m in
    elim r.1 as (λ _. Ran S) [
      | ok v ↦ store_to bus 4 ea v s r.0
      | throw ex ↦ (s, r.0, throw ex)
      | no_return ↦ (s, r.0, no_return)
    ]

-- MSR_PR && !MSR_UCLE: then a lock throws PPC_EXCEPTION_DSI, PPC_EXCEPT_DSI_CL.
unfoldable pub locks_denied : ℕ → Bool
locks_denied msr = truthy (bit_and msr 0x4000) && not (truthy (bit_and msr 0x400_0000))

unfoldable pub if_locks_allowed : {S : Type 0} → ℕ → (Core → S → Ran S) → Core → S → Ran S
if_locks_allowed msr body s m =
    if locks_denied msr then (s, m, throw (sim_except_ppc 0x3 0x10 0)) else body s m

-- The loop of dcbz over the n doublewords from i.
unfoldable pub zero_line : {S : Type 0} → Bus S → ℕ → ℕ → ℕ → Core → S → Ran S
zero_line bus zero i ea s m = (s, m, ok tt)
zero_line bus (suc n) i ea s m =
    on_ok (store_to bus 8 (ea + i * 8) 0 s m) (zero_line bus n (i + 1) ea)

unfoldable pub dcbz : {S : Type 0} → Bus S → ℕ → ℕ → Core → S → Ran S
dcbz bus a b = rtl_bus λ s.
    zero_line bus (cache_line_size / 8) 0
      (u32 (
        bit_and (u64 ((if truthy a then u32 (s.gpr a) else 0) + s.gpr b))
          (not64 (cache_line_size - 1))))
      s

unfoldable pub dcbf : {S : Type 0} → Bus S → ℕ → ℕ → Core → S → Ran S
dcbf bus a b = rtl_bus λ s. touch_load bus (ea_x a b s) s

unfoldable pub dcbst : {S : Type 0} → Bus S → ℕ → ℕ → Core → S → Ran S
dcbst bus a b = rtl_bus λ s. touch_load bus (ea_x a b s) s

unfoldable pub dcbt : {S : Type 0} → Bus S → ℕ → ℕ → Core → S → Ran S
dcbt bus a b = rtl_bus λ s. touch_load bus (ea_x a b s) s

unfoldable pub icbi : {S : Type 0} → Bus S → ℕ → ℕ → Core → S → Ran S
icbi bus a b = rtl_bus λ s. touch_load bus (ea_x a b s) s

unfoldable pub icbt : {S : Type 0} → Bus S → ℕ → ℕ → Core → S → Ran S
icbt bus a b = rtl_bus λ s. touch_load bus (ea_x a b s) s

unfoldable pub dcba : {S : Type 0} → Bus S → ℕ → ℕ → Core → S → Ran S
dcba bus a b = rtl_bus λ s. touch_store bus (ea_x a b s) s

unfoldable pub dcbi : {S : Type 0} → Bus S → ℕ → ℕ → Core → S → Ran S
dcbi bus a b = rtl_bus λ s. touch_store bus (ea_x a b s) s

unfoldable pub dcbtst : {S : Type 0} → Bus S → ℕ → ℕ → Core → S → Ran S
dcbtst bus a b = rtl_bus λ s. touch_store bus (ea_x a b s) s

unfoldable pub dcblc : {S : Type 0} → Bus S → ℕ → ℕ → ℕ → Core → S → Ran S
dcblc bus msr a b = rtl_bus (if_locks_allowed msr λ s. touch_load bus (ea_x a b s) s)

unfoldable pub dcbtls : {S : Type 0} → Bus S → ℕ → ℕ → ℕ → Core → S → Ran S
dcbtls bus msr a b = rtl_bus (if_locks_allowed msr λ s. touch_load bus (ea_x a b s) s)

unfoldable pub icblc : {S : Type 0} → Bus S → ℕ → ℕ → ℕ → Core → S → Ran S
icblc bus msr a b = rtl_bus (if_locks_allowed msr λ s. touch_load bus (ea_x a b s) s)

unfoldable pub icbtls : {S : Type 0} → Bus S → ℕ → ℕ → ℕ → Core → S → Ran S
icbtls bus msr a b = rtl_bus (if_locks_allowed msr λ s. touch_load bus (ea_x a b s) s)

unfoldable pub dcbtstls : {S : Type 0} → Bus S → ℕ → ℕ → ℕ → Core → S → Ran S
dcbtstls bus msr a b = rtl_bus (if_locks_allowed msr λ s. touch_store bus (ea_x a b s) s)
