-- ===== src/Tests/Regs.antt =====
-- The condition register and XER at concrete inputs.
use ppcsimbooke.Base.{true, ℕ, ◌≡◌, false, arith, ◌||◌, ◌&&◌, not}
use ppcsimbooke.Regs.{CondRegs}
use ppcsimbooke.Regs.{get_crf}
use ppcsimbooke.Instr.{crand, crandc, creqv, crnand, crnor, cror, crorc, crxor}
use ppcsimbooke.Instr.CrLogical.{cr_logical_lem}

abbrev regs0 : CondRegs
regs0 = record { cm = false; cr = 0x8000_0001; xer = 0xe000_0000 }

abbrev zero_value : ℕ
zero_value = 0

cr_logical_lem_example :
    (get_crf 3 (crand 3 0 31 regs0) ≡ get_crf 0 regs0 && get_crf 31 regs0)
    × (get_crf 3 (crandc 3 0 31 regs0) ≡ get_crf 0 regs0 && not (get_crf 31 regs0))
    × (get_crf 3 (cror 3 0 31 regs0) ≡ get_crf 0 regs0 || get_crf 31 regs0)
    × (get_crf 3 (crxor 3 0 31 regs0)
        ≡ (get_crf 0 regs0 && not (get_crf 31 regs0))
          || (not (get_crf 0 regs0) && get_crf 31 regs0))
    × (get_crf 3 (creqv 3 0 31 regs0) ≡ true)
    × (get_crf 3 (crnand 3 0 31 regs0) ≡ true)
    × (get_crf 3 (crnor 3 0 31 regs0) ≡ true)
    × (get_crf 3 (crorc 3 0 31 regs0) ≡ true)
cr_logical_lem_example = cr_logical_lem 3 0 31 3 regs0 (omega arith) (omega arith)
