-- ===== src/Bm.antt =====
-- The breakpoint manager, sim/src/bm.h and sim/src/bm.cpp. The map is a list in the order of its keys.
pub mod Hits
pub mod Numbers
use ppcsimbooke.Base.{
  ℕ, ◌+◌, ◌%◌, ◌^◌, Bool, true, false, Option, none, some, List, [], ◌∷◌, ltb, ◌==◌, ◌||◌, not,
  if◌then◌else◌, u32, u64, ◌^◌, ◌%◌,
}

-- A pair of the map: the address, and the number and the hits.
pub record Bkpt : Type 0 where
  pub ea : ℕ
  pub num : ℕ
  pub hits : ℕ

pub record BreakptMngr : Type 0 where
  pub bk_map : List Bkpt
  pub bkpts_enabled : Bool
  pub last_bkpt : ℕ × Bool

-- `std::map::find`, `operator[]` as a target of an assignment, and `erase` of a key.
unfoldable pub find : ℕ → List Bkpt → Option Bkpt
find ea [] = none
find ea (b ∷ bs) = elim (b.ea == ea) [ true ↦ some b | false ↦ find ea bs ]

unfoldable pub assign : Bkpt → List Bkpt → List Bkpt
assign new [] = new ∷ []
assign new (b ∷ bs) = elim (b.ea == new.ea) [
  | true ↦ new ∷ bs
  | false ↦ elim (ltb new.ea b.ea) [ true ↦ new ∷ b ∷ bs | false ↦ b ∷ assign new bs ]
]

unfoldable pub erase : ℕ → List Bkpt → List Bkpt
erase ea [] = []
erase ea (b ∷ bs) = elim (b.ea == ea) [ true ↦ erase ea bs | false ↦ b ∷ erase ea bs ]

unfoldable pub enable_breakpoints : BreakptMngr → BreakptMngr
enable_breakpoints m = record m { bkpts_enabled = true }

unfoldable pub disable_breakpoints : BreakptMngr → BreakptMngr
disable_breakpoints m = record m { bkpts_enabled = false }

unfoldable pub clear_last_breakpoint : BreakptMngr → BreakptMngr
clear_last_breakpoint m = record m { last_bkpt = (0, false) }

unfoldable pub check_pc : ℕ → BreakptMngr → Bool × BreakptMngr
check_pc pc m = elim (find pc m.bk_map) [
  | none ↦ (false, m)
  | some b ↦ if not m.bkpts_enabled then (false, m) else (
    true,
    record m {
      bk_map = assign (record b { hits = u64 (b.hits + 1) }) m.bk_map;
      last_bkpt = (pc, true);
    },
  )
]

-- `m_bk_num` is static: one counter, an int, that the managers of all CPUs share. The operations that use it take and
-- return it; it is taken to wrap where C++ leaves the overflow undefined.
unfoldable pub add_breakpoint : ℕ → ℕ × BreakptMngr → ℕ × BreakptMngr
add_breakpoint ea (bk_num, m) = (
  u32 (bk_num + 1),
  record m { bk_map = assign (record { ea = ea; num = bk_num; hits = 0 }) m.bk_map },
)

unfoldable pub delete_breakpoint : ℕ → BreakptMngr → BreakptMngr
delete_breakpoint ea m = record m { bk_map = erase ea m.bk_map }

unfoldable pub has_num : ℕ → List Bkpt → Bool
has_num nbk [] = false
has_num nbk (b ∷ bs) = b.num == nbk || has_num nbk bs

-- The loop erases the element of its iterator and then advances the iterator, which has no defined
-- result: `none`. Only where no number matches does it end as written.
unfoldable pub delete_breakpoint_num : ℕ → BreakptMngr → Option BreakptMngr
delete_breakpoint_num nbk m = if has_num nbk m.bk_map then none else some m

unfoldable pub delete_all : ℕ × BreakptMngr → ℕ × BreakptMngr
delete_all (bk_num, m) = (0, record m { bk_map = [] })

-- The managers of the CPUs, by number, and their counter.
pub record Managers : Type 0 where
  pub bk_num : ℕ
  pub mngr : ℕ → BreakptMngr

-- A call of one manager, without the counter and with it.
unfoldable pub at_mngr : ℕ → BreakptMngr → Managers → Managers
at_mngr i m s = record s { mngr = λ j. if j == i then m else s.mngr j }

unfoldable pub with_counter : ℕ → (ℕ × BreakptMngr → ℕ × BreakptMngr) → Managers → Managers
unfolding at_mngr
with_counter i call s =
    let r = call (s.bk_num, s.mngr i) in at_mngr i r.1 (record s { bk_num = r.0 })
