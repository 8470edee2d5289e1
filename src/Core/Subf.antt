-- ===== src/Core/Subf.antt =====
-- The subtractions, multiplications and negations of sim/src/cpu_ppc_instr.cc: every subtraction adds
-- a complement. Names are formed as for the additions.
pub mod Difference
use ppcsimbooke.Base.{
  ℕ, ◌+◌, ◌-◌, ◌*◌, ◌^◌, ◌%◌, ◌/◌, Bool, true, false, ltb, leb, ◌==◌, if◌then◌else◌, u8, u16, u32,
  u64, to_num, truthy, not64, not32, bit_and, bit_or, bit_xor, ◌<<<◌, ◌>>>◌,
}
use ppcsimbooke.Regs.{widen_int, get_crf, get_crf_field, update_crf_field}
use ppcsimbooke.Utils.{gen_bmask_rng}
use ppcsimbooke.Core.{
  Core, rtl, ◌▷◌, put_ca, put_so_ov, put_cr0_host, put_ca_v, put_so_ov_v, put_cr0_v, ca, so,
  sign_exts, set_reg,
}
use ppcsimbooke.Core.Host.{
  Host, add_code, and_code, or_code, xor_code, neg_code, mulhw_code, mullw_code, mulhwu_code,
}
use ppcsimbooke.Core.Add.{simm, ca_minus_1}

-- `rB + 1` is a uint64_t, and so is `~rA`.
unfoldable pub subf_code : Host → ℕ → ℕ → ℕ → Core → Core
subf_code h d x y = add_code h d (not64 x) (u64 (y + 1))

unfoldable pub subf : Host → ℕ → ℕ → ℕ → Core → Core
subf h d a b = rtl λ s. subf_code h d (s.gpr a) (s.gpr b) s

unfoldable pub subf_dot : Host → ℕ → ℕ → ℕ → Core → Core
subf_dot h d a b = rtl ((λ s. subf_code h d (s.gpr a) (s.gpr b) s) ▷ put_cr0_host)

unfoldable pub subfo : Host → ℕ → ℕ → ℕ → Core → Core
subfo h d a b = rtl ((λ s. subf_code h d (s.gpr a) (s.gpr b) s) ▷ put_so_ov)

unfoldable pub subfo_dot : Host → ℕ → ℕ → ℕ → Core → Core
subfo_dot h d a b = rtl ((λ s. subf_code h d (s.gpr a) (s.gpr b) s) ▷ put_so_ov ▷ put_cr0_host)

unfoldable pub subfic : Host → ℕ → ℕ → ℕ → Core → Core
subfic h d a imm = rtl ((λ s. subf_code h d (s.gpr a) (widen_int (simm imm)) s) ▷ put_ca)

unfoldable pub subfc : Host → ℕ → ℕ → ℕ → Core → Core
subfc h d a b = rtl ((λ s. subf_code h d (s.gpr a) (s.gpr b) s) ▷ put_ca)

unfoldable pub subfc_dot : Host → ℕ → ℕ → ℕ → Core → Core
subfc_dot h d a b = rtl ((λ s. subf_code h d (s.gpr a) (s.gpr b) s) ▷ put_ca ▷ put_cr0_host)

unfoldable pub subfco : Host → ℕ → ℕ → ℕ → Core → Core
subfco h d a b = rtl ((λ s. subf_code h d (s.gpr a) (s.gpr b) s) ▷ put_ca ▷ put_so_ov)

unfoldable pub subfco_dot : Host → ℕ → ℕ → ℕ → Core → Core
subfco_dot h d a b =
    rtl ((λ s. subf_code h d (s.gpr a) (s.gpr b) s) ▷ put_ca ▷ put_so_ov ▷ put_cr0_host)

unfoldable pub subfe_code : Host → ℕ → ℕ → ℕ → Core → Core
subfe_code h d a b =
    (λ s. add_code h d (u32 (not64 (s.gpr a))) (u32 (u64 (ca s + s.gpr b))) s) ▷ put_ca

unfoldable pub subfe : Host → ℕ → ℕ → ℕ → Core → Core
subfe h d a b = rtl (subfe_code h d a b)

unfoldable pub subfe_dot : Host → ℕ → ℕ → ℕ → Core → Core
subfe_dot h d a b = rtl (subfe_code h d a b ▷ put_cr0_host)

unfoldable pub subfeo : Host → ℕ → ℕ → ℕ → Core → Core
subfeo h d a b = rtl (subfe_code h d a b ▷ put_so_ov)

unfoldable pub subfeo_dot : Host → ℕ → ℕ → ℕ → Core → Core
subfeo_dot h d a b = rtl (subfe_code h d a b ▷ put_so_ov ▷ put_cr0_host)

unfoldable pub subfme_code : Host → ℕ → ℕ → Core → Core
subfme_code h d a = (λ s. add_code h d (u32 (not64 (s.gpr a))) (ca_minus_1 s) s) ▷ put_ca

unfoldable pub subfme : Host → ℕ → ℕ → Core → Core
subfme h d a = rtl (subfme_code h d a)

unfoldable pub subfme_dot : Host → ℕ → ℕ → Core → Core
subfme_dot h d a = rtl (subfme_code h d a ▷ put_cr0_host)

unfoldable pub subfmeo : Host → ℕ → ℕ → Core → Core
subfmeo h d a = rtl (subfme_code h d a ▷ put_so_ov)

unfoldable pub subfmeo_dot : Host → ℕ → ℕ → Core → Core
subfmeo_dot h d a = rtl (subfme_code h d a ▷ put_so_ov ▷ put_cr0_host)

unfoldable pub subfze_code : Host → ℕ → ℕ → Core → Core
subfze_code h d a = (λ s. add_code h d (u32 (not64 (s.gpr a))) (ca s) s) ▷ put_ca

unfoldable pub subfze : Host → ℕ → ℕ → Core → Core
subfze h d a = rtl (subfze_code h d a)

unfoldable pub subfze_dot : Host → ℕ → ℕ → Core → Core
subfze_dot h d a = rtl (subfze_code h d a ▷ put_cr0_host)

unfoldable pub subfzeo : Host → ℕ → ℕ → Core → Core
subfzeo h d a = rtl (subfze_code h d a ▷ put_so_ov)

unfoldable pub subfzeo_dot : Host → ℕ → ℕ → Core → Core
subfzeo_dot h d a = rtl (subfze_code h d a ▷ put_so_ov ▷ put_cr0_host)

unfoldable pub mulhw : Host → ℕ → ℕ → ℕ → Core → Core
mulhw h d a b = rtl λ s. mulhw_code h d (s.gpr a) (s.gpr b) s

unfoldable pub mulhw_dot : Host → ℕ → ℕ → ℕ → Core → Core
mulhw_dot h d a b = rtl ((λ s. mulhw_code h d (s.gpr a) (s.gpr b) s) ▷ (λ s. put_cr0_v (s.gpr d) s))

unfoldable pub mulli : Host → ℕ → ℕ → ℕ → Core → Core
mulli h d a imm = rtl λ s. mullw_code h d (s.gpr a) (simm imm) s

unfoldable pub mulhwu : Host → ℕ → ℕ → ℕ → Core → Core
mulhwu h d a b = rtl λ s. mulhwu_code h d (s.gpr a) (s.gpr b) s

unfoldable pub mulhwu_dot : Host → ℕ → ℕ → ℕ → Core → Core
mulhwu_dot h d a b =
    rtl ((λ s. mulhwu_code h d (s.gpr a) (s.gpr b) s) ▷ (λ s. put_cr0_v (s.gpr d) s))

unfoldable pub mullw : Host → ℕ → ℕ → ℕ → Core → Core
mullw h d a b = rtl ((λ s. mullw_code h d (s.gpr a) (s.gpr b) s))

unfoldable pub mullw_dot : Host → ℕ → ℕ → ℕ → Core → Core
mullw_dot h d a b = rtl ((λ s. mullw_code h d (s.gpr a) (s.gpr b) s) ▷ (λ s. put_cr0_v (s.gpr d) s))

unfoldable pub mullwo : Host → ℕ → ℕ → ℕ → Core → Core
mullwo h d a b = rtl ((λ s. mullw_code h d (s.gpr a) (s.gpr b) s) ▷ put_so_ov)

unfoldable pub mullwo_dot : Host → ℕ → ℕ → ℕ → Core → Core
mullwo_dot h d a b =
    rtl ((λ s. mullw_code h d (s.gpr a) (s.gpr b) s) ▷ put_so_ov ▷ (λ s. put_cr0_v (s.gpr d) s))

unfoldable pub neg : Host → ℕ → ℕ → Core → Core
neg h d a = rtl λ s. neg_code h d (s.gpr a) s

unfoldable pub neg_dot : Host → ℕ → ℕ → Core → Core
neg_dot h d a = rtl ((λ s. neg_code h d (s.gpr a) s) ▷ put_cr0_host)

unfoldable pub nego : Host → ℕ → ℕ → Core → Core
nego h d a = rtl ((λ s. neg_code h d (s.gpr a) s) ▷ put_so_ov)

unfoldable pub nego_dot : Host → ℕ → ℕ → Core → Core
nego_dot h d a = rtl ((λ s. neg_code h d (s.gpr a) s) ▷ put_so_ov ▷ put_cr0_host)
