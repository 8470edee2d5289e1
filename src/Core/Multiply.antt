-- ===== src/Core/Multiply.antt =====
-- The multiplications of halfwords of sim/src/cpu_ppc_instr.cc, those that end in a or w with the accumulator. `d` is the
-- register that is written.
use ppcsimbooke.Base.{
  ℕ, ◌+◌, ◌-◌, ◌*◌, ◌^◌, Bool, true, false, ◌||◌, ◌&&◌, ◌==◌, if◌then◌else◌, u16, u32, u64, bit_and,
  ◌<<<◌, ◌>>>◌,
}
use ppcsimbooke.Core.{set_reg, sign_exts}
use ppcsimbooke.Core.Host.{Host}
use ppcsimbooke.Core.Vector.{b_0_31, b_32_63, pack_2w}
use ppcsimbooke.Core.Accumulator.{Spe, rtl_spe, put_acc, update_spefscr_ov, add_ss, sub_ss}

unfoldable pub b_0_15 : ℕ → ℕ
b_0_15 x = u16 (bit_and (x >>> 48) 0xffff)

unfoldable pub b_16_31 : ℕ → ℕ
b_16_31 x = u16 (bit_and (x >>> 32) 0xffff)

unfoldable pub b_32_47 : ℕ → ℕ
b_32_47 x = u16 (bit_and (x >>> 16) 0xffff)

unfoldable pub b_48_63 : ℕ → ℕ
b_48_63 x = u16 (bit_and x 0xffff)

unfoldable pub sf : ℕ → ℕ → ℕ
sf a b =
    let p = u64 (sign_exts 64 16 a * sign_exts 64 16 b) in
    bit_and (u64 (sign_exts 64 32 (b_32_63 p) <<< 1)) 0xffff_fffe

unfoldable pub gsf : ℕ → ℕ → ℕ
gsf a b =
    let p = u64 (sign_exts 64 16 a * sign_exts 64 16 b) in
    bit_and (u64 (sign_exts 64 32 (b_32_63 p) <<< 1)) 0xffff_ffff_ffff_fffe

-- `tmp` and `mov` of the saturating fractions.
unfoldable pub sf_saturated : ℕ → ℕ → ℕ × Bool
sf_saturated a b = if a == 0x8000 && b == 0x8000 then (0x7fff_ffff, true) else (u32 (sf a b), false)

-- EXTS_H2W(a) * EXTS_H2W(b), and the product without a sign, which the code computes as an int.
unfoldable pub mul_words : ℕ → ℕ → ℕ
mul_words a b = b_32_63 (u32 (sign_exts 32 16 a * sign_exts 32 16 b))

unfoldable pub mul_halves : ℕ → ℕ → ℕ
mul_halves a b = b_32_63 (u32 (a * b))

unfoldable pub put_reg : ℕ → ℕ → Spe → Spe
put_reg d v s = record s { core = set_reg d v s.core }

unfoldable pub evmhegsmfaa : ℕ → ℕ → ℕ → Spe → Spe
evmhegsmfaa d a b =
    rtl_spe λ s. put_acc d (u64 (s.acc + gsf (b_32_47 (s.core.gpr a)) (b_32_47 (s.core.gpr b)))) s

unfoldable pub evmhegsmfan : ℕ → ℕ → ℕ → Spe → Spe
evmhegsmfan d a b = rtl_spe λ s.
    put_acc d (u64 (s.acc + (2 ^ 64 - gsf (b_32_47 (s.core.gpr a)) (b_32_47 (s.core.gpr b))))) s

unfoldable pub evmhegsmiaa : ℕ → ℕ → ℕ → Spe → Spe
evmhegsmiaa d a b = rtl_spe λ s.
    put_acc d
      (u64 (s.acc + sign_exts 64 32 (mul_words (b_32_47 (s.core.gpr a)) (b_32_47 (s.core.gpr b)))))
      s

-- The code adds here too.
unfoldable pub evmhegsmian : ℕ → ℕ → ℕ → Spe → Spe
evmhegsmian d a b = rtl_spe λ s.
    put_acc d
      (u64 (s.acc + sign_exts 64 32 (mul_words (b_32_47 (s.core.gpr a)) (b_32_47 (s.core.gpr b)))))
      s

unfoldable pub evmhegumiaa : ℕ → ℕ → ℕ → Spe → Spe
evmhegumiaa d a b =
    rtl_spe
      λ s. put_acc d (u64 (s.acc + mul_halves (b_32_47 (s.core.gpr a)) (b_32_47 (s.core.gpr b)))) s

unfoldable pub evmhegumian : ℕ → ℕ → ℕ → Spe → Spe
evmhegumian d a b = rtl_spe λ s.
    put_acc d
      (u64 (s.acc + (2 ^ 64 - mul_halves (b_32_47 (s.core.gpr a)) (b_32_47 (s.core.gpr b))))) s

unfoldable pub evmhogsmfaa : ℕ → ℕ → ℕ → Spe → Spe
evmhogsmfaa d a b =
    rtl_spe λ s. put_acc d (u64 (s.acc + gsf (b_48_63 (s.core.gpr a)) (b_48_63 (s.core.gpr b)))) s

unfoldable pub evmhogsmfan : ℕ → ℕ → ℕ → Spe → Spe
evmhogsmfan d a b = rtl_spe λ s.
    put_acc d (u64 (s.acc + (2 ^ 64 - gsf (b_48_63 (s.core.gpr a)) (b_48_63 (s.core.gpr b))))) s

unfoldable pub evmhesmf : ℕ → ℕ → ℕ → Spe → Spe
evmhesmf d a b = rtl_spe λ s.
    put_reg d
      (pack_2w (b_32_63 (sf (b_0_15 (s.core.gpr a)) (b_0_15 (s.core.gpr b))))
        (b_32_63 (sf (b_32_47 (s.core.gpr a)) (b_32_47 (s.core.gpr b)))))
      s

unfoldable pub evmhesmfa : ℕ → ℕ → ℕ → Spe → Spe
evmhesmfa d a b = rtl_spe λ s.
    put_acc d
      (pack_2w (b_32_63 (sf (b_0_15 (s.core.gpr a)) (b_0_15 (s.core.gpr b))))
        (b_32_63 (sf (b_32_47 (s.core.gpr a)) (b_32_47 (s.core.gpr b)))))
      s

unfoldable pub evmhesmfaaw : ℕ → ℕ → ℕ → Spe → Spe
evmhesmfaaw d a b = rtl_spe λ s.
    put_acc d
      (pack_2w (b_32_63 (u64 (b_0_31 s.acc + sf (b_0_15 (s.core.gpr a)) (b_0_15 (s.core.gpr b)))))
        (b_32_63 (u64 (b_32_63 s.acc + sf (b_32_47 (s.core.gpr a)) (b_32_47 (s.core.gpr b))))))
      s

unfoldable pub evmhesmfanw : ℕ → ℕ → ℕ → Spe → Spe
evmhesmfanw d a b = rtl_spe λ s.
    put_acc d
      (pack_2w
        (b_32_63
          (u64 (b_0_31 s.acc + (2 ^ 64 - sf (b_0_15 (s.core.gpr a)) (b_0_15 (s.core.gpr b))))))
        (b_32_63
          (u64 (b_32_63 s.acc + (2 ^ 64 - sf (b_32_47 (s.core.gpr a)) (b_32_47 (s.core.gpr b)))))))
      s

unfoldable pub evmhesmi : ℕ → ℕ → ℕ → Spe → Spe
evmhesmi d a b = rtl_spe λ s.
    put_reg d
      (pack_2w (mul_words (b_0_15 (s.core.gpr a)) (b_0_15 (s.core.gpr b)))
        (mul_words (b_32_47 (s.core.gpr a)) (b_32_47 (s.core.gpr b))))
      s

unfoldable pub evmhesmia : ℕ → ℕ → ℕ → Spe → Spe
evmhesmia d a b = rtl_spe λ s.
    put_acc d
      (pack_2w (mul_words (b_0_15 (s.core.gpr a)) (b_0_15 (s.core.gpr b)))
        (mul_words (b_32_47 (s.core.gpr a)) (b_32_47 (s.core.gpr b))))
      s

unfoldable pub evmhesmiaaw : ℕ → ℕ → ℕ → Spe → Spe
evmhesmiaaw d a b = rtl_spe λ s.
    put_acc d
      (pack_2w (u32 (b_0_31 s.acc + mul_words (b_0_15 (s.core.gpr a)) (b_0_15 (s.core.gpr b))))
        (u32 (b_32_63 s.acc + mul_words (b_32_47 (s.core.gpr a)) (b_32_47 (s.core.gpr b)))))
      s

unfoldable pub evmhesmianw : ℕ → ℕ → ℕ → Spe → Spe
evmhesmianw d a b = rtl_spe λ s.
    put_acc d
      (pack_2w
        (u32 (b_0_31 s.acc + (2 ^ 32 - mul_words (b_0_15 (s.core.gpr a)) (b_0_15 (s.core.gpr b)))))
        (u32
          (b_32_63 s.acc + (2 ^ 32 - mul_words (b_32_47 (s.core.gpr a)) (b_32_47 (s.core.gpr b))))))
      s

unfoldable pub evmhosmf : ℕ → ℕ → ℕ → Spe → Spe
evmhosmf d a b = rtl_spe λ s.
    put_reg d
      (pack_2w (u32 (sf (b_16_31 (s.core.gpr a)) (b_16_31 (s.core.gpr b))))
        (u32 (sf (b_48_63 (s.core.gpr a)) (b_48_63 (s.core.gpr b)))))
      s

unfoldable pub evmhosmfa : ℕ → ℕ → ℕ → Spe → Spe
evmhosmfa d a b = rtl_spe λ s.
    put_acc d
      (pack_2w (u32 (sf (b_16_31 (s.core.gpr a)) (b_16_31 (s.core.gpr b))))
        (u32 (sf (b_48_63 (s.core.gpr a)) (b_48_63 (s.core.gpr b)))))
      s

unfoldable pub evmhosmfaaw : ℕ → ℕ → ℕ → Spe → Spe
evmhosmfaaw d a b = rtl_spe λ s.
    put_acc d
      (pack_2w (u32 (b_0_31 s.acc + u32 (sf (b_16_31 (s.core.gpr a)) (b_16_31 (s.core.gpr b)))))
        (u32 (b_32_63 s.acc + u32 (sf (b_48_63 (s.core.gpr a)) (b_48_63 (s.core.gpr b))))))
      s

unfoldable pub evmhosmfanw : ℕ → ℕ → ℕ → Spe → Spe
evmhosmfanw d a b = rtl_spe λ s.
    put_acc d
      (pack_2w
        (u32 (b_0_31 s.acc + (2 ^ 32 - u32 (sf (b_16_31 (s.core.gpr a)) (b_16_31 (s.core.gpr b))))))
        (u32
          (b_32_63 s.acc + (2 ^ 32 - u32 (sf (b_48_63 (s.core.gpr a)) (b_48_63 (s.core.gpr b)))))))
      s

unfoldable pub evmhessf : ℕ → ℕ → ℕ → Spe → Spe
evmhessf d a b = rtl_spe λ s.
    let h = sf_saturated (b_0_15 (s.core.gpr a)) (b_0_15 (s.core.gpr b)) in
    let l = sf_saturated (b_32_47 (s.core.gpr a)) (b_32_47 (s.core.gpr b)) in
    update_spefscr_ov (h.1) (l.1) (put_reg d (pack_2w (h.0) (l.0)) s)

unfoldable pub evmhessfa : ℕ → ℕ → ℕ → Spe → Spe
evmhessfa d a b = rtl_spe λ s.
    let h = sf_saturated (b_0_15 (s.core.gpr a)) (b_0_15 (s.core.gpr b)) in
    let l = sf_saturated (b_32_47 (s.core.gpr a)) (b_32_47 (s.core.gpr b)) in
    update_spefscr_ov (h.1) (l.1) (put_acc d (pack_2w (h.0) (l.0)) s)

-- `tmp` of the high halves of evmhossf and evmhossfa: the product takes both factors from the first register, the test
-- for 0x8000 takes one from each.
unfoldable pub sf_high : ℕ → ℕ → ℕ × Bool
sf_high a b = if a == 0x8000 && b == 0x8000 then (0x7fff_ffff, true) else (u32 (sf a a), false)

unfoldable pub evmhossf : ℕ → ℕ → ℕ → Spe → Spe
evmhossf d a b = rtl_spe λ s.
    let h = sf_high (b_16_31 (s.core.gpr a)) (b_16_31 (s.core.gpr b)) in
    let l = sf_saturated (b_48_63 (s.core.gpr a)) (b_48_63 (s.core.gpr b)) in
    update_spefscr_ov (h.1) (l.1) (put_reg d (pack_2w (h.0) (l.0)) s)

unfoldable pub evmhossfa : ℕ → ℕ → ℕ → Spe → Spe
evmhossfa d a b = rtl_spe λ s.
    let h = sf_high (b_16_31 (s.core.gpr a)) (b_16_31 (s.core.gpr b)) in
    let l = sf_saturated (b_48_63 (s.core.gpr a)) (b_48_63 (s.core.gpr b)) in
    update_spefscr_ov (h.1) (l.1) (put_acc d (pack_2w (h.0) (l.0)) s)

unfoldable pub evmhessfaaw : ℕ → ℕ → ℕ → Spe → Spe
evmhessfaaw d a b = rtl_spe λ s.
    let h = sf_saturated (b_0_15 (s.core.gpr a)) (b_0_15 (s.core.gpr b)) in
    let l = sf_saturated (b_32_47 (s.core.gpr a)) (b_32_47 (s.core.gpr b)) in
    let u = add_ss (b_0_31 s.acc) (h.0) in
    let v = add_ss (b_32_63 s.acc) (l.0) in
    update_spefscr_ov (h.1) (l.1) (put_acc d (pack_2w (u.0) (v.0)) s)

unfoldable pub evmhessfanw : ℕ → ℕ → ℕ → Spe → Spe
evmhessfanw d a b = rtl_spe λ s.
    let h = sf_saturated (b_0_15 (s.core.gpr a)) (b_0_15 (s.core.gpr b)) in
    let l = sf_saturated (b_32_47 (s.core.gpr a)) (b_32_47 (s.core.gpr b)) in
    let u = sub_ss (b_0_31 s.acc) (h.0) in
    let v = sub_ss (b_32_63 s.acc) (l.0) in
    update_spefscr_ov (h.1) (l.1) (put_acc d (pack_2w (u.0) (v.0)) s)

unfoldable pub evmhossfaaw : ℕ → ℕ → ℕ → Spe → Spe
evmhossfaaw d a b = rtl_spe λ s.
    let h = sf_saturated (b_16_31 (s.core.gpr a)) (b_16_31 (s.core.gpr b)) in
    let l = sf_saturated (b_48_63 (s.core.gpr a)) (b_48_63 (s.core.gpr b)) in
    let u = add_ss (b_0_31 s.acc) (h.0) in
    let v = add_ss (b_32_63 s.acc) (l.0) in
    update_spefscr_ov (u.1 || h.1) (v.1 || l.1) (put_acc d (pack_2w (u.0) (v.0)) s)

unfoldable pub evmhossfanw : ℕ → ℕ → ℕ → Spe → Spe
evmhossfanw d a b = rtl_spe λ s.
    let h = sf_saturated (b_16_31 (s.core.gpr a)) (b_16_31 (s.core.gpr b)) in
    let l = sf_saturated (b_48_63 (s.core.gpr a)) (b_48_63 (s.core.gpr b)) in
    let u = sub_ss (b_0_31 s.acc) (h.0) in
    let v = sub_ss (b_32_63 s.acc) (l.0) in
    update_spefscr_ov (u.1 || h.1) (v.1 || l.1) (put_acc d (pack_2w (u.0) (v.0)) s)

-- The products by the host of the high and then of the low halves: X86_MULW_L and X86_MULUW_L, which take the halves
-- without a sign. The flags of the second stay.
unfoldable pub products : Bool → Host → ℕ → ℕ → ℕ → ℕ → Spe → ℕ × ℕ × Spe
products signed h x y z w s =
    let f = if signed then h.imul else h.mul in
    ((f x y).0, (f z w).0, record s { core = record s.core { hf = (f z w).2 } })

unfoldable pub evmheumi : Host → ℕ → ℕ → ℕ → Spe → Spe
evmheumi host d a b = rtl_spe λ s.
    let p =
      products false host (b_0_15 (s.core.gpr a)) (b_0_15 (s.core.gpr b)) (b_32_47 (s.core.gpr a))
        (b_32_47 (s.core.gpr b)) s in
    put_reg d (pack_2w (p.0) (p.1)) p.2

unfoldable pub evmheumia : Host → ℕ → ℕ → ℕ → Spe → Spe
evmheumia host d a b = rtl_spe λ s.
    let p =
      products false host (b_0_15 (s.core.gpr a)) (b_0_15 (s.core.gpr b)) (b_32_47 (s.core.gpr a))
        (b_32_47 (s.core.gpr b)) s in
    put_acc d (pack_2w (p.0) (p.1)) p.2

unfoldable pub evmheumiaaw : Host → ℕ → ℕ → ℕ → Spe → Spe
evmheumiaaw host d a b = rtl_spe λ s.
    let p =
      products false host (b_0_15 (s.core.gpr a)) (b_0_15 (s.core.gpr b)) (b_32_47 (s.core.gpr a))
        (b_32_47 (s.core.gpr b)) s in
    put_acc d (pack_2w (u32 (b_0_31 s.acc + p.0)) (u32 (b_32_63 s.acc + p.1))) p.2

unfoldable pub evmheumianw : Host → ℕ → ℕ → ℕ → Spe → Spe
evmheumianw host d a b = rtl_spe λ s.
    let p =
      products false host (b_0_15 (s.core.gpr a)) (b_0_15 (s.core.gpr b)) (b_32_47 (s.core.gpr a))
        (b_32_47 (s.core.gpr b)) s in
    put_acc d (pack_2w (u32 (b_0_31 s.acc + (2 ^ 32 - p.0))) (u32 (b_32_63 s.acc + (2 ^ 32 - p.1))))
      p.2

unfoldable pub evmhosmi : Host → ℕ → ℕ → ℕ → Spe → Spe
evmhosmi host d a b = rtl_spe λ s.
    let p =
      products true host (b_16_31 (s.core.gpr a)) (b_16_31 (s.core.gpr b)) (b_48_63 (s.core.gpr a))
        (b_48_63 (s.core.gpr b)) s in
    put_reg d (pack_2w (p.0) (p.1)) p.2

unfoldable pub evmhosmia : Host → ℕ → ℕ → ℕ → Spe → Spe
evmhosmia host d a b = rtl_spe λ s.
    let p =
      products true host (b_16_31 (s.core.gpr a)) (b_16_31 (s.core.gpr b)) (b_48_63 (s.core.gpr a))
        (b_48_63 (s.core.gpr b)) s in
    put_acc d (pack_2w (p.0) (p.1)) p.2

unfoldable pub evmhosmiaaw : Host → ℕ → ℕ → ℕ → Spe → Spe
evmhosmiaaw host d a b = rtl_spe λ s.
    let p =
      products true host (b_16_31 (s.core.gpr a)) (b_16_31 (s.core.gpr b)) (b_48_63 (s.core.gpr a))
        (b_48_63 (s.core.gpr b)) s in
    put_acc d (pack_2w (u32 (b_0_31 s.acc + p.0)) (u32 (b_32_63 s.acc + p.1))) p.2

unfoldable pub evmhosmianw : Host → ℕ → ℕ → ℕ → Spe → Spe
evmhosmianw host d a b = rtl_spe λ s.
    let p =
      products true host (b_16_31 (s.core.gpr a)) (b_16_31 (s.core.gpr b)) (b_48_63 (s.core.gpr a))
        (b_48_63 (s.core.gpr b)) s in
    put_acc d (pack_2w (u32 (b_0_31 s.acc + (2 ^ 32 - p.0))) (u32 (b_32_63 s.acc + (2 ^ 32 - p.1))))
      p.2

unfoldable pub evmhoumi : Host → ℕ → ℕ → ℕ → Spe → Spe
evmhoumi host d a b = rtl_spe λ s.
    let p =
      products false host (b_16_31 (s.core.gpr a)) (b_16_31 (s.core.gpr b)) (b_48_63 (s.core.gpr a))
        (b_48_63 (s.core.gpr b)) s in
    put_reg d (pack_2w (p.0) (p.1)) p.2

unfoldable pub evmhoumia : Host → ℕ → ℕ → ℕ → Spe → Spe
evmhoumia host d a b = rtl_spe λ s.
    let p =
      products false host (b_16_31 (s.core.gpr a)) (b_16_31 (s.core.gpr b)) (b_48_63 (s.core.gpr a))
        (b_48_63 (s.core.gpr b)) s in
    put_acc d (pack_2w (p.0) (p.1)) p.2

unfoldable pub evmhoumiaaw : Host → ℕ → ℕ → ℕ → Spe → Spe
evmhoumiaaw host d a b = rtl_spe λ s.
    let p =
      products false host (b_16_31 (s.core.gpr a)) (b_16_31 (s.core.gpr b)) (b_48_63 (s.core.gpr a))
        (b_48_63 (s.core.gpr b)) s in
    put_acc d (pack_2w (u32 (b_0_31 s.acc + p.0)) (u32 (b_32_63 s.acc + p.1))) p.2

unfoldable pub evmhoumianw : Host → ℕ → ℕ → ℕ → Spe → Spe
evmhoumianw host d a b = rtl_spe λ s.
    let p =
      products false host (b_16_31 (s.core.gpr a)) (b_16_31 (s.core.gpr b)) (b_48_63 (s.core.gpr a))
        (b_48_63 (s.core.gpr b)) s in
    put_acc d (pack_2w (u32 (b_0_31 s.acc + (2 ^ 32 - p.0))) (u32 (b_32_63 s.acc + (2 ^ 32 - p.1))))
      p.2
