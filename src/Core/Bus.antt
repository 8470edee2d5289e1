-- ===== src/Core/Bus.antt =====
-- The memory as the instructions of sim/src/cpu_ppc_instr.cc see it: LOAD8 to STORE64 are cpu::read8 to cpu::write64.
-- An exception that they throw leaves an instruction where it stands, with what was done before kept.
pub mod Cpu
pub mod Steps
pub mod Precise
use ppcsimbooke.Base.{
  ℕ, ◌+◌, ◌-◌, ◌*◌, ◌^◌, ◌%◌, if◌then◌else◌, u32, u64, truthy, ◌==◌, ◌||◌, to_num, bit_and, ◌>>>◌,
  ◌<<<◌,
}
use ppcsimbooke.Base.Error.{Outcome, ok, throw, no_return, sim_except_ppc}
use ppcsimbooke.Regs.{widen_int}
use ppcsimbooke.Core.{Core, set_reg}
use ppcsimbooke.Core.Add.{simm}

-- Accesses of n bytes at an address, on a state S.
pub record Bus (S : Type 0) : Type 0 where
  pub load : ℕ → ℕ → S → S × Outcome ℕ
  pub store : ℕ → ℕ → ℕ → S → S × Outcome (Unit {0})

-- The registers and the state behind the bus, with the outcome of what ran on them.
abbrev pub Ran : Type 0 → Type 0
Ran S = Core × S × Outcome (Unit {0})

-- What follows where nothing was thrown.
abbrev pub on_ok : {S : Type 0} → Ran S → (Core → S → Ran S) → Ran S
on_ok {S} r next = elim r.2 as (λ _. Ran S) [
  | ok u ↦ next r.0 r.1
  | throw ex ↦ (r.0, r.1, throw ex)
  | no_return ↦ (r.0, r.1, no_return)
]

-- RTL_BEGIN and RTL_END: NIP is advanced before the body, and PC set behind it.
unfoldable pub rtl_bus : {S : Type 0} → (Core → S → Ran S) → Core → S → Ran S
rtl_bus body s m =
    on_ok (body (record s { nip = u64 (s.nip + 4) }) m) λ t n. (record t { pc = t.nip }, n, ok tt)

-- `REG = f(LOAD(ea))` and `STORE(ea, value)`.
unfoldable pub load_to : {S : Type 0} → Bus S → ℕ → ℕ → (ℕ → ℕ) → ℕ → Core → S → Ran S
load_to {S} bus n d f ea s m =
    let r = bus.load n ea m in
    elim r.1 as (λ _. Ran S) [
      | ok v ↦ (set_reg d (f v) s, r.0, ok tt)
      | throw ex ↦ (s, r.0, throw ex)
      | no_return ↦ (s, r.0, no_return)
    ]

unfoldable pub store_to : {S : Type 0} → Bus S → ℕ → ℕ → ℕ → Core → S → Ran S
store_to bus n ea value s m = let r = bus.store n ea value m in (s, r.0, r.1)

-- `REGa = ea` behind an access.
unfoldable pub then_update : {S : Type 0} → ℕ → ℕ → Ran S → Ran S
then_update a ea r = on_ok r λ s m. (set_reg a ea s, m, ok tt)

-- The effective addresses, an UMODE: rA or 0 and a displacement or rB; rA is not 0 in the forms with update.
unfoldable pub ea_d : ℕ → ℕ → Core → ℕ
ea_d a disp s = u32 ((if truthy a then u32 (s.gpr a) else 0) + simm disp)

unfoldable pub ea_x : ℕ → ℕ → Core → ℕ
ea_x a b s = u32 (u64 ((if truthy a then u32 (s.gpr a) else 0) + s.gpr b))

unfoldable pub ea_du : ℕ → ℕ → Core → ℕ
ea_du a disp s = u32 (u64 (s.gpr a + widen_int (simm disp)))

unfoldable pub ea_xu : ℕ → ℕ → Core → ℕ
ea_xu a b s = u32 (u64 (s.gpr a + s.gpr b))

-- throw PPC_EXCEPT(PPC_EXCEPTION_PRG, PPC_EXCEPT_PRG_ILG, ...)
unfoldable pub illegal : {S : Type 0} → Core → S → Ran S
illegal s m = (s, m, throw (sim_except_ppc 0x7 0x1 0))

-- SWAPB16 and SWAPB32, which join the moved bytes with the operator of C on truth values.
unfoldable pub swapb16 : ℕ → ℕ
swapb16 v = to_num (truthy (bit_and (v >>> 8) 0xff) || truthy (bit_and v 0xff <<< 8))

unfoldable pub swapb32 : ℕ → ℕ
swapb32 v = to_num (
    truthy (bit_and (v >>> 24) 0xff)
    || truthy (bit_and (v >>> 16) 0xff <<< 8)
    || truthy (bit_and (v >>> 8) 0xff <<< 16)
    || truthy (u32 (bit_and v 0xff <<< 24)))
