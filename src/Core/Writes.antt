-- ===== src/Core/Writes.antt =====
-- What an instruction that writes one register leaves: the shape of the theorems on
-- sim/src/cpu_ppc_instr.cc.
use ppcsimbooke.Base.{ℕ, ◌+◌, ◌^◌, ◌≡◌, ◌<◌, if◌then◌else◌, ◌==◌, u32, u64, arith, List, All}
use ppcsimbooke.Core.{Core}

-- The register d holds w, another register what it held, and the flow goes on to the next word.
abbrev pub IsWrite : ℕ → ℕ → ℕ → Core → Core → Type 0
IsWrite d w other s t =
    (t.gpr other ≡ (if other == d then w else s.gpr other))
    × (t.pc ≡ u64 (s.nip + 4))
    × (t.nip ≡ t.pc)
    × (t.lr ≡ s.lr)
    × (t.ctr ≡ s.ctr)

-- The same of each of several forms of an instruction, run on the same state.
abbrev pub AllWrite : ℕ → ℕ → ℕ → Core → List Core → Type 0
AllWrite d w other s forms = All (IsWrite d w other s) forms

pub u32_lt : (x : ℕ) → u32 x < 2 ^ 32
u32_lt x = omega arith
