-- ===== src/Cpu/Resv.antt =====
-- Reservations: `set_resv`, `clear_resv` and `check_resv` of sim/src/cpu_ppc.cpp. The map is shared by all
-- CPUs. Each function starts with `cpu::xlate`, whose result is the argument `translated`.
pub mod Granule
use ppcsimbooke.Base.{
  ℕ, ◌+◌, ◌-◌, ◌*◌, ◌%◌, ◌^◌, bit_and, Bool, true, false, Option, none, some, List, [], ◌∷◌, ◌==◌,
  ◌&&◌, u8, not64,
}
use ppcsimbooke.Base.Error.{Outcome, ok, throw, no_return, ◌>>=◌}
use ppcsimbooke.Tlb.Translate.{Xlated}

-- `sm_resv_map`: a granule, and whether it is reserved and by which CPU.
abbrev pub ResvMap : Type 0
ResvMap = List (ℕ × Bool × ℕ)

unfoldable pub find_resv : ℕ → ResvMap → Option (Bool × ℕ)
find_resv g [] = none
find_resv g (entry ∷ entries) = elim (entry.0 == g) [
  | true ↦ some (entry.1, entry.2)
  | false ↦ find_resv g entries
]

-- The reservation of one CPU.
pub record Resv : Type 0 where
  pub resv_addr : ℕ
  pub resv_set : Bool
  pub resv_size : ℕ
  pub cpu_no : ℕ

abbrev pub cache_line_size : ℕ
cache_line_size = 32

unfoldable pub granule : ℕ → ℕ
granule a = bit_and a (not64 (cache_line_size - 1))

unfoldable pub set_resv : Outcome Xlated → ℕ → Resv → ResvMap → Outcome (Resv × ResvMap)
set_resv translated size r shared = do
  x ← translated
  ok (
    record r { resv_addr = x.address; resv_set = true; resv_size = u8 size },
    (granule x.address, true, r.cpu_no) ∷ shared,
  )

-- The CPU of the entry stays, and is 0 for an entry that `operator[]` makes.
unfoldable pub owner_of : Option (Bool × ℕ) → ℕ
owner_of none = 0
owner_of (some entry) = entry.1

unfoldable pub clear_resv : Resv → ResvMap → Resv × ResvMap
unfolding find_resv owner_of
clear_resv r shared =
    let g = granule r.resv_addr in
    (record r { resv_set = false }, (g, false, owner_of (find_resv g shared)) ∷ shared)

unfoldable pub check_resv : Outcome Xlated → ℕ → Resv → ResvMap → Outcome Bool
check_resv translated size r shared = do
  x ← translated
  elim (find_resv (granule x.address) shared) [
    | none ↦ ok false
    | some entry ↦ ok (
        x.address == r.resv_addr
        && r.resv_set
        && r.resv_size == size
        && entry.0
        && entry.1 == r.cpu_no)
  ]
