-- ===== src/Core/Branch.antt =====
-- The branches of sim/src/cpu_ppc_instr.cc. A target address is an operand: the disassembler makes it
-- from the fields of the instruction.
pub mod Taken
pub mod Loops
pub mod Calls
use ppcsimbooke.Base.{
  ℕ, ◌+◌, ◌-◌, ◌*◌, ◌^◌, ◌%◌, ◌/◌, Bool, true, false, ltb, ◌==◌, if◌then◌else◌, u64, to_num, truthy,
  not64, bit_and, bit_or, bit_xor, ◌>>>◌,
}
use ppcsimbooke.Regs.{get_crf}
use ppcsimbooke.Core.{Core, cm_bit, rtl, ◌▷◌}

unfoldable pub b_code : ℕ → Core → Core
b_code tgtaddr s = record s { nip = tgtaddr }

-- LR = PC + 4, where PC is that of the branch.
unfoldable pub put_lr : Core → Core
put_lr s = record s { lr = u64 (s.pc + 4) }

unfoldable pub b : ℕ → Core → Core
b tgtaddr = rtl (b_code tgtaddr)

unfoldable pub ba : ℕ → Core → Core
ba tgtaddr = rtl (b_code tgtaddr)

unfoldable pub bl : ℕ → Core → Core
bl tgtaddr = rtl (b_code tgtaddr ▷ put_lr)

unfoldable pub bla : ℕ → Core → Core
bla tgtaddr = rtl (b_code tgtaddr ▷ put_lr)

-- BO0 to BO3.
abbrev pub bo3 : ℕ → ℕ
bo3 bo = bit_and (bo >>> 1) 0x1

abbrev pub bo2 : ℕ → ℕ
bo2 bo = bit_and (bo >>> 2) 0x1

abbrev pub bo1 : ℕ → ℕ
bo1 bo = bit_and (bo >>> 3) 0x1

abbrev pub bo0 : ℕ → ℕ
bo0 bo = bit_and (bo >>> 4) 0x1

-- `if(!BO2(BO)) CTR = CTR - 1`
unfoldable pub count_down : ℕ → Core → Core
count_down bo s =
    if truthy (bo2 bo) then s else record s { ctr = u64 (s.ctr + 0xffff_ffff_ffff_ffff) }

unfoldable pub ctr_ok : ℕ → Core → ℕ
ctr_ok bo s =
    let counter = if cm_bit s then s.ctr else bit_and s.ctr 0xffff_ffff in
    bit_or (bo2 bo) (bit_xor (to_num (truthy counter)) (bo3 bo))

unfoldable pub cond_ok : ℕ → ℕ → Core → ℕ
cond_ok bo bi s = bit_or (bo0 bo) (to_num (to_num (get_crf bi s.cond) == bo1 bo))

unfoldable pub bc_code : ℕ → ℕ → ℕ → Core → Core
bc_code bo bi tgtaddr s =
    let t = count_down bo s in
    if truthy (bit_and (ctr_ok bo t) (cond_ok bo bi t)) then record t { nip = tgtaddr } else t

unfoldable pub bc : ℕ → ℕ → ℕ → Core → Core
bc bo bi tgtaddr = rtl (bc_code bo bi tgtaddr)

unfoldable pub bca : ℕ → ℕ → ℕ → Core → Core
bca bo bi tgtaddr = rtl (bc_code bo bi tgtaddr)

unfoldable pub bcl : ℕ → ℕ → ℕ → Core → Core
bcl bo bi tgtaddr = rtl (bc_code bo bi tgtaddr ▷ put_lr)

unfoldable pub bcla : ℕ → ℕ → ℕ → Core → Core
bcla bo bi tgtaddr = rtl (bc_code bo bi tgtaddr ▷ put_lr)

unfoldable pub bclr_code : ℕ → ℕ → Core → Core
bclr_code bo bi s =
    let t = count_down bo s in
    if truthy (bit_and (ctr_ok bo t) (cond_ok bo bi t))
    then record t { nip = bit_and t.lr (not64 0x3) }
    else t

unfoldable pub bclr : ℕ → ℕ → Core → Core
bclr bo bi = rtl (bclr_code bo bi)

unfoldable pub bclrl : ℕ → ℕ → Core → Core
bclrl bo bi = rtl (bclr_code bo bi ▷ put_lr)

unfoldable pub bcctr_code : ℕ → ℕ → Core → Core
bcctr_code bo bi s =
    if truthy (cond_ok bo bi s) then record s { nip = bit_and s.ctr (not64 0x3) } else s

unfoldable pub bcctr : ℕ → ℕ → Core → Core
bcctr bo bi = rtl (bcctr_code bo bi)

unfoldable pub bcctrl : ℕ → ℕ → Core → Core
bcctrl bo bi = rtl (bcctr_code bo bi ▷ put_lr)
