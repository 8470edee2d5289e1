-- ===== src/Instr.antt =====
-- The condition register logical instructions of sim/src/cpu_ppc_instr.cc. An operand is the number of
-- a bit; `~` of a bool is that of an int, and an int becomes a bool by the test for 0.
pub mod CrLogical
use ppcsimbooke.Base.{ℕ, ◌-◌, ◌^◌, bit_and, bit_or, bit_xor, Bool, truthy, to_num, not32}
use ppcsimbooke.Regs.{CondRegs, get_crf, update_crf, get_crf_field, update_crf_field}

-- `get_crf` as the int that the operators see.
unfoldable pub crf_int : ℕ → CondRegs → ℕ
crf_int n g = to_num (get_crf n g)

unfoldable pub crand : ℕ → ℕ → ℕ → CondRegs → CondRegs
crand d a b g = update_crf d (truthy (bit_and (crf_int a g) (crf_int b g))) g

unfoldable pub crandc : ℕ → ℕ → ℕ → CondRegs → CondRegs
crandc d a b g = update_crf d (truthy (bit_and (crf_int a g) (not32 (crf_int b g)))) g

unfoldable pub creqv : ℕ → ℕ → ℕ → CondRegs → CondRegs
creqv d a b g = update_crf d (truthy (not32 (bit_xor (crf_int a g) (crf_int b g)))) g

unfoldable pub crnand : ℕ → ℕ → ℕ → CondRegs → CondRegs
crnand d a b g = update_crf d (truthy (not32 (bit_and (crf_int a g) (crf_int b g)))) g

unfoldable pub crnor : ℕ → ℕ → ℕ → CondRegs → CondRegs
crnor d a b g = update_crf d (truthy (not32 (bit_or (crf_int a g) (crf_int b g)))) g

unfoldable pub cror : ℕ → ℕ → ℕ → CondRegs → CondRegs
cror d a b g = update_crf d (truthy (bit_or (crf_int a g) (crf_int b g))) g

unfoldable pub crorc : ℕ → ℕ → ℕ → CondRegs → CondRegs
crorc d a b g = update_crf d (truthy (bit_or (crf_int a g) (not32 (crf_int b g)))) g

unfoldable pub crxor : ℕ → ℕ → ℕ → CondRegs → CondRegs
crxor d a b g = update_crf d (truthy (bit_xor (crf_int a g) (crf_int b g))) g

unfoldable pub mcrf : ℕ → ℕ → CondRegs → CondRegs
mcrf d s g = update_crf_field d (get_crf_field s g) g
