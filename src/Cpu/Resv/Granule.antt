-- ===== src/Cpu/Resv/Granule.antt =====
-- When a reservation holds.
use ppcsimbooke.Base.{ℕ, ◌<◌, ◌≡◌, refl, ◌≢◌, true, ◌∷◌, ◌==◌, ◌&&◌, not, arith, u8}
use ppcsimbooke.Base.Error.{ok}
use ppcsimbooke.Tlb.Translate.{Xlated}
use ppcsimbooke.Cpu.Resv.{Resv, ResvMap, find_resv, granule, set_resv, clear_resv, check_resv}

-- One CPU sets a reservation, and then another sets one, or clears the one that it has.
abbrev pub reserve : Xlated → ℕ → Resv → ResvMap → Resv × ResvMap
reserve x size r shared = (
  record r { resv_addr = x.address; resv_set = true; resv_size = u8 size },
  (granule x.address, true, r.cpu_no) ∷ shared,
)

-- A CPU that sets a reservation of fewer than 256 bytes finds it again at the same address, and only with the same
-- size; once another CPU sets a reservation in the same granule, or clears one that it had
-- there, it no longer does; and a reservation in another granule does not matter.
pub check_resv-set_resv :
    (x y : Xlated) (size asked other_size : ℕ) (a b : Resv) (shared : ResvMap)
    → size < 256
    → a.cpu_no ≢ b.cpu_no
    → (set_resv (ok x) size a shared ≡ ok (reserve x size a shared))
      × (check_resv (ok x) asked (reserve x size a shared).0 (reserve x size a shared).1
          ≡ ok (size == asked))
      × (check_resv
            (ok x)
            asked
            (reserve x size a shared).0
            (reserve y other_size b (reserve x size a shared).1).1
          ≡ ok (size == asked && not (granule x.address == granule y.address)))
      × (check_resv
            (ok x)
            asked
            (reserve x size a shared).0
            (clear_resv (record b { resv_addr = y.address }) (reserve x size a shared).1).1
          ≡ ok (size == asked && not (granule x.address == granule y.address)))
unfolding set_resv check_resv clear_resv find_resv
check_resv-set_resv x y size asked other_size a b shared small others =
    (refl, ground (arith, small), ground (arith, small, others), ground (arith, small, others))
