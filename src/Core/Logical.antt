-- ===== src/Core/Logical.antt =====
-- The logical instructions of sim/src/cpu_ppc_instr.cc. `a` is the register that is written, `r` the source.
pub mod Digits
pub mod Zeros
use ppcsimbooke.Base.{
  zero, suc, ℕ, ◌+◌, ◌-◌, ◌*◌, ◌^◌, ◌%◌, ◌/◌, Bool, true, false, ltb, leb, ◌==◌, if◌then◌else◌, u8,
  u16, u32, u64, to_num, truthy, not64, not32, bit_and, bit_or, bit_xor, ◌<<<◌, ◌>>>◌,
}
use ppcsimbooke.Regs.{widen_int, get_crf, get_crf_field, update_crf_field}
use ppcsimbooke.Utils.{gen_bmask_rng}
use ppcsimbooke.Core.{
  Core, rtl, ◌▷◌, put_ca, put_so_ov, put_cr0_host, put_ca_v, put_so_ov_v, put_cr0_v, ca, so,
  sign_exts, set_reg,
}
use ppcsimbooke.Core.Host.{
  Host, add_code, and_code, or_code, xor_code, neg_code, mulhw_code, mullw_code, mulhwu_code,
}

unfoldable pub and : Host → ℕ → ℕ → ℕ → Core → Core
and h a r b = rtl λ s. and_code h a (s.gpr r) (s.gpr b) s

unfoldable pub and_dot : Host → ℕ → ℕ → ℕ → Core → Core
and_dot h a r b = rtl ((λ s. and_code h a (s.gpr r) (s.gpr b) s) ▷ put_cr0_host)

unfoldable pub andc : Host → ℕ → ℕ → ℕ → Core → Core
andc h a r b = rtl λ s. and_code h a (s.gpr r) (u32 (not64 (s.gpr b))) s

unfoldable pub andc_dot : Host → ℕ → ℕ → ℕ → Core → Core
andc_dot h a r b = rtl ((λ s. and_code h a (s.gpr r) (u32 (not64 (s.gpr b))) s) ▷ put_cr0_host)

unfoldable pub andi_dot : Host → ℕ → ℕ → ℕ → Core → Core
andi_dot h a r imm = rtl ((λ s. and_code h a (s.gpr r) (u16 imm) s) ▷ put_cr0_host)

unfoldable pub andis_dot : Host → ℕ → ℕ → ℕ → Core → Core
andis_dot h a r imm = rtl ((λ s. and_code h a (s.gpr r) (u32 (u16 imm <<< 16)) s) ▷ put_cr0_host)

unfoldable pub extsb : ℕ → ℕ → Core → Core
extsb a r = rtl λ s. set_reg a (sign_exts 64 8 (s.gpr r)) s

unfoldable pub extsb_dot : ℕ → ℕ → Core → Core
extsb_dot a r = rtl ((λ s. set_reg a (sign_exts 64 8 (s.gpr r)) s) ▷ (λ s. put_cr0_v (s.gpr a) s))

unfoldable pub extsh : ℕ → ℕ → Core → Core
extsh a r = rtl λ s. set_reg a (sign_exts 64 16 (s.gpr r)) s

unfoldable pub extsh_dot : ℕ → ℕ → Core → Core
extsh_dot a r = rtl ((λ s. set_reg a (sign_exts 64 16 (s.gpr r)) s) ▷ (λ s. put_cr0_v (s.gpr a) s))

-- B_N: the bit n, where 0 is the highest of 64.
unfoldable pub b_n : ℕ → ℕ → Bool
b_n x n = truthy (bit_and (x >>> (63 - n)) 0x1)

-- The loop of cntlzw; the fuel is the number of bits that are left.
unfoldable pub count_zeros : ℕ → ℕ → ℕ → ℕ
count_zeros zero x n = n
count_zeros (suc fuel) x n =
    let rest = count_zeros fuel x (n + 1) in if ltb n 64 then if b_n x n then n else rest else n

unfoldable pub cntlzw : ℕ → ℕ → Core → Core
cntlzw a r = rtl λ s. set_reg a (count_zeros 32 (s.gpr r) 32 - 32) s

unfoldable pub cntlzw_dot : ℕ → ℕ → Core → Core
cntlzw_dot a r =
    rtl ((λ s. set_reg a (count_zeros 32 (s.gpr r) 32 - 32) s) ▷ (λ s. put_cr0_v (s.gpr a) s))

unfoldable pub eqv : ℕ → ℕ → ℕ → Core → Core
eqv a r b = rtl λ s. set_reg a (not64 (bit_xor (s.gpr r) (s.gpr b))) s

unfoldable pub eqv_dot : ℕ → ℕ → ℕ → Core → Core
eqv_dot a r b =
    rtl ((λ s. set_reg a (not64 (bit_xor (s.gpr r) (s.gpr b))) s) ▷ (λ s. put_cr0_v (s.gpr a) s))

unfoldable pub nand : ℕ → ℕ → ℕ → Core → Core
nand a r b = rtl λ s. set_reg a (not64 (bit_and (s.gpr r) (s.gpr b))) s

unfoldable pub nand_dot : ℕ → ℕ → ℕ → Core → Core
nand_dot a r b =
    rtl ((λ s. set_reg a (not64 (bit_and (s.gpr r) (s.gpr b))) s) ▷ (λ s. put_cr0_v (s.gpr a) s))

unfoldable pub nor : ℕ → ℕ → ℕ → Core → Core
nor a r b = rtl λ s. set_reg a (not64 (bit_or (s.gpr r) (s.gpr b))) s

unfoldable pub nor_dot : ℕ → ℕ → ℕ → Core → Core
nor_dot a r b =
    rtl ((λ s. set_reg a (not64 (bit_or (s.gpr r) (s.gpr b))) s) ▷ (λ s. put_cr0_v (s.gpr a) s))

unfoldable pub or : Host → ℕ → ℕ → ℕ → Core → Core
or h a r b = rtl λ s. or_code h a (s.gpr r) (s.gpr b) s

unfoldable pub or_dot : Host → ℕ → ℕ → ℕ → Core → Core
or_dot h a r b = rtl ((λ s. or_code h a (s.gpr r) (s.gpr b) s) ▷ put_cr0_host)

unfoldable pub orc : Host → ℕ → ℕ → ℕ → Core → Core
orc h a r b = rtl λ s. or_code h a (s.gpr r) (u32 (not64 (s.gpr b))) s

unfoldable pub orc_dot : Host → ℕ → ℕ → ℕ → Core → Core
orc_dot h a r b = rtl ((λ s. or_code h a (s.gpr r) (u32 (not64 (s.gpr b))) s) ▷ put_cr0_host)

unfoldable pub ori : Host → ℕ → ℕ → ℕ → Core → Core
ori h a r imm = rtl λ s. or_code h a (s.gpr r) (u16 imm) s

unfoldable pub oris : Host → ℕ → ℕ → ℕ → Core → Core
oris h a r imm = rtl λ s. or_code h a (s.gpr r) (u32 (u16 imm <<< 16)) s

unfoldable pub xor : Host → ℕ → ℕ → ℕ → Core → Core
xor h a r b = rtl λ s. xor_code h a (s.gpr r) (s.gpr b) s

unfoldable pub xor_dot : Host → ℕ → ℕ → ℕ → Core → Core
xor_dot h a r b = rtl ((λ s. xor_code h a (s.gpr r) (s.gpr b) s) ▷ put_cr0_host)

unfoldable pub xori : Host → ℕ → ℕ → ℕ → Core → Core
xori h a r imm = rtl λ s. xor_code h a (s.gpr r) (u16 imm) s

unfoldable pub xoris : Host → ℕ → ℕ → ℕ → Core → Core
xoris h a r imm = rtl λ s. xor_code h a (s.gpr r) (u32 (u16 imm <<< 16)) s
