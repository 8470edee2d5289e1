-- ===== src/Core/Store.antt =====
-- The stores of sim/src/cpu_ppc_instr.cc, with the operands of the loads; `d` is the register that is stored.
use ppcsimbooke.Base.{ℕ, zero, suc, ◌+◌, ◌-◌, if◌then◌else◌, u16, u32, ◌==◌}
use ppcsimbooke.Base.Error.{ok}
use ppcsimbooke.Core.{Core}
use ppcsimbooke.Core.Bus.{
  Bus, Ran, on_ok, rtl_bus, store_to, then_update, ea_d, ea_x, ea_du, ea_xu, illegal, swapb16,
  swapb32,
}

unfoldable pub stb : {S : Type 0} → Bus S → ℕ → ℕ → ℕ → Core → S → Ran S
stb bus d disp a = rtl_bus λ s. store_to bus 1 (ea_d a disp s) (s.gpr d) s

unfoldable pub stbx : {S : Type 0} → Bus S → ℕ → ℕ → ℕ → Core → S → Ran S
stbx bus d a b = rtl_bus λ s. store_to bus 1 (ea_x a b s) (s.gpr d) s

unfoldable pub stbu : {S : Type 0} → Bus S → ℕ → ℕ → ℕ → Core → S → Ran S
stbu bus d disp a = rtl_bus λ s m.
    if a == 0
    then illegal s m
    else then_update a (ea_du a disp s) (store_to bus 1 (ea_du a disp s) (s.gpr d) s m)

unfoldable pub stbux : {S : Type 0} → Bus S → ℕ → ℕ → ℕ → Core → S → Ran S
stbux bus d a b = rtl_bus λ s m.
    if a == 0
    then illegal s m
    else then_update a (ea_xu a b s) (store_to bus 1 (ea_xu a b s) (s.gpr d) s m)

unfoldable pub sth : {S : Type 0} → Bus S → ℕ → ℕ → ℕ → Core → S → Ran S
sth bus d disp a = rtl_bus λ s. store_to bus 2 (ea_d a disp s) (s.gpr d) s

unfoldable pub sthx : {S : Type 0} → Bus S → ℕ → ℕ → ℕ → Core → S → Ran S
sthx bus d a b = rtl_bus λ s. store_to bus 2 (ea_x a b s) (s.gpr d) s

unfoldable pub sthu : {S : Type 0} → Bus S → ℕ → ℕ → ℕ → Core → S → Ran S
sthu bus d disp a = rtl_bus λ s m.
    if a == 0
    then illegal s m
    else then_update a (ea_du a disp s) (store_to bus 2 (ea_du a disp s) (s.gpr d) s m)

unfoldable pub sthux : {S : Type 0} → Bus S → ℕ → ℕ → ℕ → Core → S → Ran S
sthux bus d a b = rtl_bus λ s m.
    if a == 0
    then illegal s m
    else then_update a (ea_xu a b s) (store_to bus 2 (ea_xu a b s) (s.gpr d) s m)

unfoldable pub stw : {S : Type 0} → Bus S → ℕ → ℕ → ℕ → Core → S → Ran S
stw bus d disp a = rtl_bus λ s. store_to bus 4 (ea_d a disp s) (s.gpr d) s

unfoldable pub stwx : {S : Type 0} → Bus S → ℕ → ℕ → ℕ → Core → S → Ran S
stwx bus d a b = rtl_bus λ s. store_to bus 4 (ea_x a b s) (s.gpr d) s

unfoldable pub stwu : {S : Type 0} → Bus S → ℕ → ℕ → ℕ → Core → S → Ran S
stwu bus d disp a = rtl_bus λ s m.
    if a == 0
    then illegal s m
    else then_update a (ea_du a disp s) (store_to bus 4 (ea_du a disp s) (s.gpr d) s m)

unfoldable pub stwux : {S : Type 0} → Bus S → ℕ → ℕ → ℕ → Core → S → Ran S
stwux bus d a b = rtl_bus λ s m.
    if a == 0
    then illegal s m
    else then_update a (ea_xu a b s) (store_to bus 4 (ea_xu a b s) (s.gpr d) s m)

unfoldable pub sthbrx : {S : Type 0} → Bus S → ℕ → ℕ → ℕ → Core → S → Ran S
sthbrx bus d a b = rtl_bus λ s. store_to bus 2 (ea_x a b s) (swapb16 (u16 (s.gpr d))) s

unfoldable pub stwbrx : {S : Type 0} → Bus S → ℕ → ℕ → ℕ → Core → S → Ran S
stwbrx bus d a b = rtl_bus λ s. store_to bus 4 (ea_x a b s) (swapb32 (u32 (s.gpr d))) s

-- The loop of stmw.
unfoldable pub store_multiple : {S : Type 0} → Bus S → ℕ → ℕ → ℕ → Core → S → Ran S
store_multiple bus zero r ea s m = (s, m, ok tt)
store_multiple bus (suc n) r ea s m =
    on_ok (store_to bus 4 ea (s.gpr r) s m) (store_multiple bus n (r + 1) (u32 (ea + 4)))

unfoldable pub stmw : {S : Type 0} → Bus S → ℕ → ℕ → ℕ → Core → S → Ran S
stmw bus d disp a = rtl_bus λ s. store_multiple bus (32 - d) d (ea_d a disp s) s
