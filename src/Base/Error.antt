-- ===== src/Base/Error.antt =====
-- The exceptions that the simulator throws (sim/src/exception.h), and results that carry them.
use Prim.Native.Nat.{ℕ}

-- `sim_except` with its code, `sim_except_fatal`, `sim_except_ppc` with its two codes and the
-- address, `sim_except_ppc_halt`. Messages are left out.
pub data SimExcept : Type 0 where
  sim_except : ℕ → SimExcept
  sim_except_fatal : SimExcept
  sim_except_ppc : ℕ → ℕ → ℕ → SimExcept
  sim_except_ppc_halt : SimExcept

-- `no_return` is a call that never comes back: a loop that does not end, or the end of the program.
pub data Outcome {ℓ} (A : Type ℓ) : Type ℓ where
  ok : A → Outcome A
  throw : SimExcept → Outcome A
  no_return : Outcome A

infixl 5 ◌>>=◌
abbrev pub ◌>>=◌ {ℓ κ} : {A : Type ℓ} {B : Type κ} → Outcome A → (A → Outcome B) → Outcome B
ok a >>= f = f a
throw e >>= f = throw e
no_return >>= f = no_return

-- SIM_EXCEPT_EINVAL, SIM_EXCEPT_EFAULT, SIM_EXCEPT_SBKPT
abbrev pub einval : ℕ
einval = 22

abbrev pub efault : ℕ
efault = 14

abbrev pub sbkpt : ℕ
sbkpt = 100
