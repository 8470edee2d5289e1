-- ===== src/Core/Add.antt =====
-- The additions of sim/src/cpu_ppc_instr.cc, in the order of the source. The name of the form that
-- ends in a dot ends in _dot. `d`, `a` and `b` are numbers of registers, `imm` is a field of the
-- instruction, and the bodies that the forms share come first.
pub mod Sum
pub mod Carry
use ppcsimbooke.Base.{
  ℕ, ◌+◌, ◌-◌, ◌*◌, ◌^◌, ◌%◌, ◌/◌, Bool, true, false, ltb, leb, ◌==◌, if◌then◌else◌, u8, u16, u32,
  u64, to_num, truthy, not64, not32, bit_and, bit_or, bit_xor, ◌<<<◌, ◌>>>◌,
}
use ppcsimbooke.Regs.{widen_int, get_crf, get_crf_field, update_crf_field}
use ppcsimbooke.Utils.{gen_bmask_rng}
use ppcsimbooke.Core.{
  Core, rtl, ◌▷◌, put_ca, put_so_ov, put_cr0_host, put_ca_v, put_so_ov_v, put_cr0_v, ca, so,
  sign_exts, set_reg,
}
use ppcsimbooke.Core.Host.{
  Host, add_code, and_code, or_code, xor_code, neg_code, mulhw_code, mullw_code, mulhwu_code,
}

unfoldable pub add : Host → ℕ → ℕ → ℕ → Core → Core
add h d a b = rtl λ s. add_code h d (s.gpr a) (s.gpr b) s

unfoldable pub add_dot : Host → ℕ → ℕ → ℕ → Core → Core
add_dot h d a b = rtl ((λ s. add_code h d (s.gpr a) (s.gpr b) s) ▷ put_cr0_host)

unfoldable pub addo : Host → ℕ → ℕ → ℕ → Core → Core
addo h d a b = rtl ((λ s. add_code h d (s.gpr a) (s.gpr b) s) ▷ put_so_ov)

unfoldable pub addo_dot : Host → ℕ → ℕ → ℕ → Core → Core
addo_dot h d a b = rtl ((λ s. add_code h d (s.gpr a) (s.gpr b) s) ▷ put_so_ov ▷ put_cr0_host)

unfoldable pub addc : Host → ℕ → ℕ → ℕ → Core → Core
addc h d a b = rtl ((λ s. add_code h d (s.gpr a) (s.gpr b) s) ▷ put_ca)

unfoldable pub addc_dot : Host → ℕ → ℕ → ℕ → Core → Core
addc_dot h d a b = rtl ((λ s. add_code h d (s.gpr a) (s.gpr b) s) ▷ put_ca ▷ put_cr0_host)

unfoldable pub addco : Host → ℕ → ℕ → ℕ → Core → Core
addco h d a b = rtl ((λ s. add_code h d (s.gpr a) (s.gpr b) s) ▷ put_ca ▷ put_so_ov)

unfoldable pub addco_dot : Host → ℕ → ℕ → ℕ → Core → Core
addco_dot h d a b =
    rtl ((λ s. add_code h d (s.gpr a) (s.gpr b) s) ▷ put_ca ▷ put_so_ov ▷ put_cr0_host)

-- The word `REG2 + GET_CA()`, an UMODE.
unfoldable pub adde_code : Host → ℕ → ℕ → ℕ → Core → Core
adde_code h d a b s = add_code h d (s.gpr a) (u32 (u64 (s.gpr b + ca s))) s

unfoldable pub adde : Host → ℕ → ℕ → ℕ → Core → Core
adde h d a b = rtl (adde_code h d a b ▷ put_ca)

unfoldable pub adde_dot : Host → ℕ → ℕ → ℕ → Core → Core
adde_dot h d a b = rtl (adde_code h d a b ▷ put_ca ▷ put_cr0_host)

unfoldable pub addeo : Host → ℕ → ℕ → ℕ → Core → Core
addeo h d a b = rtl (adde_code h d a b ▷ put_ca ▷ put_so_ov)

unfoldable pub addeo_dot : Host → ℕ → ℕ → ℕ → Core → Core
addeo_dot h d a b = rtl (adde_code h d a b ▷ put_ca ▷ put_so_ov ▷ put_cr0_host)

-- `(int16_t)ARG2` as an SMODE.
unfoldable pub simm : ℕ → ℕ
simm imm = sign_exts 32 16 imm

unfoldable pub addi : Host → ℕ → ℕ → ℕ → Core → Core
addi h d a imm = rtl λ s.
    if truthy a then add_code h d (s.gpr a) (simm imm) s else set_reg d (widen_int (simm imm)) s

unfoldable pub addic : Host → ℕ → ℕ → ℕ → Core → Core
addic h d a imm = rtl ((λ s. add_code h d (s.gpr a) (simm imm) s) ▷ put_ca)

unfoldable pub addic_dot : Host → ℕ → ℕ → ℕ → Core → Core
addic_dot h d a imm = rtl ((λ s. add_code h d (s.gpr a) (simm imm) s) ▷ put_ca ▷ put_cr0_host)

unfoldable pub addis : Host → ℕ → ℕ → ℕ → Core → Core
addis h d a imm = rtl λ s.
    let tmp = u32 (simm imm <<< 16) in
    if truthy a then add_code h d (s.gpr a) tmp s else set_reg d (widen_int tmp) s

-- `GET_CA() - 1` as an SMODE.
unfoldable pub ca_minus_1 : Core → ℕ
ca_minus_1 s = u32 (ca s + (2 ^ 32 - 1))

unfoldable pub addme : Host → ℕ → ℕ → Core → Core
addme h d a = rtl ((λ s. add_code h d (s.gpr a) (ca_minus_1 s) s) ▷ put_ca)

unfoldable pub addme_dot : Host → ℕ → ℕ → Core → Core
addme_dot h d a = rtl ((λ s. add_code h d (s.gpr a) (ca_minus_1 s) s) ▷ put_ca ▷ put_cr0_host)

unfoldable pub addmeo : Host → ℕ → ℕ → Core → Core
addmeo h d a = rtl ((λ s. add_code h d (s.gpr a) (ca_minus_1 s) s) ▷ put_ca ▷ put_so_ov)

unfoldable pub addmeo_dot : Host → ℕ → ℕ → Core → Core
addmeo_dot h d a =
    rtl ((λ s. add_code h d (s.gpr a) (ca_minus_1 s) s) ▷ put_ca ▷ put_so_ov ▷ put_cr0_host)

unfoldable pub addze : Host → ℕ → ℕ → Core → Core
addze h d a = rtl ((λ s. add_code h d (s.gpr a) (ca s) s) ▷ put_ca)

unfoldable pub addze_dot : Host → ℕ → ℕ → Core → Core
addze_dot h d a = rtl ((λ s. add_code h d (s.gpr a) (ca s) s) ▷ put_ca ▷ put_cr0_host)

unfoldable pub addzeo : Host → ℕ → ℕ → Core → Core
addzeo h d a = rtl ((λ s. add_code h d (s.gpr a) (ca s) s) ▷ put_ca ▷ put_so_ov)

unfoldable pub addzeo_dot : Host → ℕ → ℕ → Core → Core
addzeo_dot h d a = rtl ((λ s. add_code h d (s.gpr a) (ca s) s) ▷ put_ca ▷ put_so_ov ▷ put_cr0_host)
