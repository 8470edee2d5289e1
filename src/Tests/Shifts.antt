-- ===== src/Tests/Shifts.antt =====
-- Logical instructions, rotations and shifts at concrete inputs.
use ppcsimbooke.Base.{
  ◌*◌, ◌/◌, ◌%◌, ◌^◌, ◌≡◌, refl, if◌then◌else◌, ◌==◌, u32, bit, arith, min, ◌&&◌, ◌||◌, not,
}
use ppcsimbooke.Regs.{get_xer_ca}
use ppcsimbooke.Core.{Core}
use ppcsimbooke.Core.Logical.{and, cntlzw}
use ppcsimbooke.Core.Logical.Digits.{logical_digits}
use ppcsimbooke.Core.Logical.Zeros.{IsCount, cntlzw-IsCount}
use ppcsimbooke.Core.Rotate.{Shifts, IsMasked, rlwinm, slw, srawi}
use ppcsimbooke.Core.Rotate.Turn.{turned, in_mask, rotations}
use ppcsimbooke.Core.Rotate.Shift.{word_shifts}
use ppcsimbooke.Core.Rotate.Signed.{sra_digit, is_negative, srawi_lem}
use ppcsimbooke.Tests.Instr.{x86_host, x86_host-IsX86, start}

abbrev x86_shifts : Shifts
x86_shifts = record { shl = λ x n. u32 (x * 2 ^ (n % 32)); shr = λ x n. x / 2 ^ (n % 32) }

x86_shifts-IsMasked : IsMasked x86_shifts
x86_shifts-IsMasked = record { shl_law = λ x n p. refl; shr_law = λ x n p. refl }

logical_digits_example :
    bit ((and x86_host 5 1 3 start).gpr 5) 31
    ≡ min (bit 0xffff_ffff_8000_0000 31) (bit 0xffff_fff0 31)
logical_digits_example =
    (logical_digits x86_host x86_host-IsX86 5 1 3 31 start (omega arith) (omega arith)
      (omega arith)).0.0

cntlzw-IsCount_example : IsCount 7 ((cntlzw 5 2 start).gpr 5)
cntlzw-IsCount_example = (cntlzw-IsCount 5 2 start).0

rotations_example :
    bit ((rlwinm x86_shifts 5 2 4 16 31 start).gpr 5) 5
    ≡ (if in_mask 16 31 58 then turned 4 7 5 else 0)
rotations_example =
    (rotations x86_shifts x86_shifts-IsMasked 5 2 16 31 58 start (omega arith) (omega arith)
      (omega arith) 4 3).0.0

word_shifts_example : (slw x86_shifts 5 2 2 start).gpr 5 ≡ u32 (7 * 2 ^ 7)
word_shifts_example = (word_shifts x86_shifts x86_shifts-IsMasked 5 2 2 start).0.0

-- A shift to the left by 31 gives 3 where 7 is shifted.
abbrev by_31 : Core
by_31 = record start { gpr = λ r. if r == 2 then 7 else 31 }

left_by_31 : (slw x86_shifts 5 2 6 by_31).gpr 5 ≡ 3
left_by_31 = (word_shifts x86_shifts x86_shifts-IsMasked 5 2 6 by_31).0.0

srawi_lem_example :
    (bit ((srawi x86_shifts 5 1 4 start).gpr 5) 40 ≡ sra_digit 0xffff_ffff_8000_0000 4 40)
    × (get_xer_ca (srawi x86_shifts 5 1 4 start).cond ≡ (
        get_xer_ca start.cond
        || (is_negative 0xffff_ffff_8000_0000
            && (4 == 31 || not (u32 0xffff_ffff_8000_0000 % 2 ^ 4 == 0)))))
srawi_lem_example = (srawi_lem x86_shifts x86_shifts-IsMasked 5 1 4 40 start (omega arith)).0
