-- ===== src/Core/Load.antt =====
-- The loads of sim/src/cpu_ppc_instr.cc. `d`, `a` and `b` are numbers of registers and `disp` is the displacement, in
-- the order of the operands.
use ppcsimbooke.Base.{ℕ, zero, suc, ◌+◌, ◌-◌, if◌then◌else◌, u32, ◌==◌, ◌||◌}
use ppcsimbooke.Base.Error.{ok}
use ppcsimbooke.Regs.{widen_int}
use ppcsimbooke.Core.{Core, sign_exts}
use ppcsimbooke.Core.Bus.{
  Bus, Ran, on_ok, rtl_bus, load_to, then_update, ea_d, ea_x, ea_du, ea_xu, illegal, swapb16,
  swapb32,
}

-- EXTS_H2N of a halfword, as the register gets it.
unfoldable pub algebraic : ℕ → ℕ
algebraic v = widen_int (sign_exts 32 16 v)

unfoldable pub lbz : {S : Type 0} → Bus S → ℕ → ℕ → ℕ → Core → S → Ran S
lbz bus d disp a = rtl_bus λ s. load_to bus 1 d (λ v. v) (ea_d a disp s) s

unfoldable pub lbzx : {S : Type 0} → Bus S → ℕ → ℕ → ℕ → Core → S → Ran S
lbzx bus d a b = rtl_bus λ s. load_to bus 1 d (λ v. v) (ea_x a b s) s

unfoldable pub lbzu : {S : Type 0} → Bus S → ℕ → ℕ → ℕ → Core → S → Ran S
lbzu bus d disp a = rtl_bus λ s m.
    if a == 0 || d == a
    then illegal s m
    else then_update a (ea_du a disp s) (load_to bus 1 d (λ v. v) (ea_du a disp s) s m)

unfoldable pub lbzux : {S : Type 0} → Bus S → ℕ → ℕ → ℕ → Core → S → Ran S
lbzux bus d a b = rtl_bus λ s m.
    if a == 0 || d == a
    then illegal s m
    else then_update a (ea_xu a b s) (load_to bus 1 d (λ v. v) (ea_xu a b s) s m)

unfoldable pub lha : {S : Type 0} → Bus S → ℕ → ℕ → ℕ → Core → S → Ran S
lha bus d disp a = rtl_bus λ s. load_to bus 2 d algebraic (ea_d a disp s) s

unfoldable pub lhax : {S : Type 0} → Bus S → ℕ → ℕ → ℕ → Core → S → Ran S
lhax bus d a b = rtl_bus λ s. load_to bus 2 d algebraic (ea_x a b s) s

unfoldable pub lhau : {S : Type 0} → Bus S → ℕ → ℕ → ℕ → Core → S → Ran S
lhau bus d disp a = rtl_bus λ s m.
    if a == 0 || d == a
    then illegal s m
    else then_update a (ea_du a disp s) (load_to bus 2 d algebraic (ea_du a disp s) s m)

unfoldable pub lhaux : {S : Type 0} → Bus S → ℕ → ℕ → ℕ → Core → S → Ran S
lhaux bus d a b = rtl_bus λ s m.
    if a == 0 || d == a
    then illegal s m
    else then_update a (ea_xu a b s) (load_to bus 2 d algebraic (ea_xu a b s) s m)

unfoldable pub lhz : {S : Type 0} → Bus S → ℕ → ℕ → ℕ → Core → S → Ran S
lhz bus d disp a = rtl_bus λ s. load_to bus 2 d (λ v. v) (ea_d a disp s) s

unfoldable pub lhzx : {S : Type 0} → Bus S → ℕ → ℕ → ℕ → Core → S → Ran S
lhzx bus d a b = rtl_bus λ s. load_to bus 2 d (λ v. v) (ea_x a b s) s

unfoldable pub lhzu : {S : Type 0} → Bus S → ℕ → ℕ → ℕ → Core → S → Ran S
lhzu bus d disp a = rtl_bus λ s m.
    if a == 0 || d == a
    then illegal s m
    else then_update a (ea_du a disp s) (load_to bus 2 d (λ v. v) (ea_du a disp s) s m)

unfoldable pub lhzux : {S : Type 0} → Bus S → ℕ → ℕ → ℕ → Core → S → Ran S
lhzux bus d a b = rtl_bus λ s m.
    if a == 0 || d == a
    then illegal s m
    else then_update a (ea_xu a b s) (load_to bus 2 d (λ v. v) (ea_xu a b s) s m)

unfoldable pub lwz : {S : Type 0} → Bus S → ℕ → ℕ → ℕ → Core → S → Ran S
lwz bus d disp a = rtl_bus λ s. load_to bus 4 d (λ v. v) (ea_d a disp s) s

unfoldable pub lwzx : {S : Type 0} → Bus S → ℕ → ℕ → ℕ → Core → S → Ran S
lwzx bus d a b = rtl_bus λ s. load_to bus 4 d (λ v. v) (ea_x a b s) s

unfoldable pub lwzu : {S : Type 0} → Bus S → ℕ → ℕ → ℕ → Core → S → Ran S
lwzu bus d disp a = rtl_bus λ s m.
    if a == 0 || d == a
    then illegal s m
    else then_update a (ea_du a disp s) (load_to bus 4 d (λ v. v) (ea_du a disp s) s m)

unfoldable pub lwzux : {S : Type 0} → Bus S → ℕ → ℕ → ℕ → Core → S → Ran S
lwzux bus d a b = rtl_bus λ s m.
    if a == 0 || d == a
    then illegal s m
    else then_update a (ea_xu a b s) (load_to bus 4 d (λ v. v) (ea_xu a b s) s m)

unfoldable pub lhbrx : {S : Type 0} → Bus S → ℕ → ℕ → ℕ → Core → S → Ran S
lhbrx bus d a b = rtl_bus λ s. load_to bus 2 d swapb16 (ea_x a b s) s

unfoldable pub lwbrx : {S : Type 0} → Bus S → ℕ → ℕ → ℕ → Core → S → Ran S
lwbrx bus d a b = rtl_bus λ s. load_to bus 4 d swapb32 (ea_x a b s) s

-- The loop of lmw over the n registers from r, up to 31.
unfoldable pub load_multiple : {S : Type 0} → Bus S → ℕ → ℕ → ℕ → Core → S → Ran S
load_multiple bus zero r ea s m = (s, m, ok tt)
load_multiple bus (suc n) r ea s m =
    on_ok (load_to bus 4 r (λ v. v) ea s m) (load_multiple bus n (r + 1) (u32 (ea + 4)))

unfoldable pub lmw : {S : Type 0} → Bus S → ℕ → ℕ → ℕ → Core → S → Ran S
lmw bus d disp a = rtl_bus λ s. load_multiple bus (32 - d) d (ea_d a disp s) s
