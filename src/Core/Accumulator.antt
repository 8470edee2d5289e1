-- ===== src/Core/Accumulator.antt =====
-- The vector instructions of sim/src/cpu_ppc_instr.cc that add to the accumulator or subtract from it. `d` is the
-- register that is written.
pub mod Saturate
pub mod Words
use ppcsimbooke.Base.{
  ℕ, ◌+◌, ◌-◌, ◌*◌, ◌^◌, ◌%◌, Bool, not, ◌==◌, if◌then◌else◌, u32, u64, to_num, not64, bit_and,
  bit_or, ◌<<<◌,
}
use ppcsimbooke.Core.{Core, set_reg, sign_exts}
use ppcsimbooke.Core.Logical.{b_n}
use ppcsimbooke.Core.Vector.{b_0_31, b_32_63, pack_2w}

-- The registers that these instructions use besides those of Core.
pub record Spe : Type 0 where
  pub core : Core
  pub acc : ℕ
  pub spefscr : ℕ

abbrev pub spefscr_sovh : ℕ
spefscr_sovh = 0x80000000

abbrev pub spefscr_ovh : ℕ
spefscr_ovh = 0x40000000

abbrev pub spefscr_sov : ℕ
spefscr_sov = 0x00008000

abbrev pub spefscr_ov : ℕ
spefscr_ov = 0x00004000

unfoldable pub update_spefscr_ov : Bool → Bool → Spe → Spe
update_spefscr_ov ovh ovl s = record s {
  spefscr = bit_or (bit_and s.spefscr (not64 (bit_or spefscr_ovh spefscr_ov))) (
      bit_or
        (bit_or (bit_or (if ovh then spefscr_ovh else 0) (if ovl then spefscr_ov else 0))
          (if ovh then spefscr_sovh else 0))
        (if ovl then spefscr_sov else 0));
}

-- RTL_BEGIN and RTL_END.
unfoldable pub rtl_spe : (Spe → Spe) → Spe → Spe
rtl_spe body s =
    let t = body (record s { core = record s.core { nip = u64 (s.core.nip + 4) } }) in
    record t { core = record t.core { pc = t.core.nip } }

-- SATURATE(ov, carry, sat_ovn, sat_ov, val).
unfoldable pub saturate : Bool → Bool → ℕ → ℕ → ℕ → ℕ
saturate ov carry sat_ovn sat_ov val = if ov then if carry then sat_ovn else sat_ov else val

-- The value of one word and whether it overflows, for the signed sum and difference and the unsigned ones.
unfoldable pub add_ss : ℕ → ℕ → ℕ × Bool
add_ss x y =
    let tmp = u64 (sign_exts 64 32 x + sign_exts 64 32 y) in
    let ov = not (to_num (b_n tmp 31) == to_num (b_n tmp 32)) in
    (saturate ov (b_n tmp 31) 0x8000_0000 0x7fff_ffff (b_32_63 tmp), ov)

unfoldable pub sub_ss : ℕ → ℕ → ℕ × Bool
sub_ss x y =
    let tmp = u64 (sign_exts 64 32 x + (2 ^ 64 - sign_exts 64 32 y)) in
    let ov = not (to_num (b_n tmp 31) == to_num (b_n tmp 32)) in
    (saturate ov (b_n tmp 31) 0x8000_0000 0x7fff_ffff (b_32_63 tmp), ov)

-- The sum of two uint32_t is a uint32_t.
unfoldable pub add_us : ℕ → ℕ → ℕ × Bool
add_us x y =
    let tmp = u32 (x + y) in
    (saturate (b_n tmp 31) (b_n tmp 31) 0xffff_ffff 0xffff_ffff (b_32_63 tmp), b_n tmp 31)

unfoldable pub sub_us : ℕ → ℕ → ℕ × Bool
sub_us x y =
    let tmp = u64 (x + (2 ^ 64 - y)) in
    (saturate (b_n tmp 31) (b_n tmp 31) 0 0 (b_32_63 tmp), b_n tmp 31)

-- `REG0 = v` and `ACC = REG0`.
unfoldable pub put_acc : ℕ → ℕ → Spe → Spe
put_acc d v s = record s { core = set_reg d v s.core; acc = v }

unfoldable pub evmra : ℕ → ℕ → Spe → Spe
evmra d a = rtl_spe λ s. put_acc d (s.core.gpr a) s

unfoldable pub evaddsmiaaw : ℕ → ℕ → Spe → Spe
evaddsmiaaw d a = rtl_spe λ s.
    put_acc d
      (pack_2w (b_32_63 (u32 ((b_0_31 s.acc) + (b_0_31 (s.core.gpr a)))))
        (b_32_63 (u32 ((b_32_63 s.acc) + (b_32_63 (s.core.gpr a))))))
      s

unfoldable pub evaddumiaaw : ℕ → ℕ → Spe → Spe
evaddumiaaw d a = rtl_spe λ s.
    put_acc d
      (pack_2w (b_32_63 (u32 ((b_0_31 s.acc) + (b_0_31 (s.core.gpr a)))))
        (b_32_63 (u32 ((b_32_63 s.acc) + (b_32_63 (s.core.gpr a))))))
      s

unfoldable pub evsubfsmiaaw : ℕ → ℕ → Spe → Spe
evsubfsmiaaw d a = rtl_spe λ s.
    put_acc d
      (pack_2w (u32 ((b_0_31 s.acc) + (2 ^ 32 - (b_0_31 (s.core.gpr a)))))
        (u32 ((b_32_63 s.acc) + (2 ^ 32 - (b_32_63 (s.core.gpr a))))))
      s

unfoldable pub evsubfumiaaw : ℕ → ℕ → Spe → Spe
evsubfumiaaw d a = rtl_spe λ s.
    put_acc d
      (pack_2w (u32 ((b_0_31 s.acc) + (2 ^ 32 - (b_0_31 (s.core.gpr a)))))
        (u32 ((b_32_63 s.acc) + (2 ^ 32 - (b_32_63 (s.core.gpr a))))))
      s

unfoldable pub evaddssiaaw : ℕ → ℕ → Spe → Spe
evaddssiaaw d a = rtl_spe λ s.
    let h = add_ss (b_0_31 s.acc) (b_0_31 (s.core.gpr a)) in
    let l = add_ss (b_32_63 s.acc) (b_32_63 (s.core.gpr a)) in
    update_spefscr_ov (h.1) (l.1) (put_acc d (pack_2w (h.0) (l.0)) s)

unfoldable pub evaddusiaaw : ℕ → ℕ → Spe → Spe
evaddusiaaw d a = rtl_spe λ s.
    let h = add_us (b_0_31 s.acc) (b_0_31 (s.core.gpr a)) in
    let l = add_us (b_32_63 s.acc) (b_32_63 (s.core.gpr a)) in
    update_spefscr_ov (h.1) (l.1) (put_acc d (pack_2w (h.0) (l.0)) s)

unfoldable pub evsubfssiaaw : ℕ → ℕ → Spe → Spe
evsubfssiaaw d a = rtl_spe λ s.
    let h = sub_ss (b_0_31 s.acc) (b_0_31 (s.core.gpr a)) in
    let l = sub_ss (b_32_63 s.acc) (b_32_63 (s.core.gpr a)) in
    update_spefscr_ov (h.1) (l.1) (put_acc d (pack_2w (h.0) (l.0)) s)

unfoldable pub evsubfusiaaw : ℕ → ℕ → Spe → Spe
evsubfusiaaw d a = rtl_spe λ s.
    let h = sub_us (b_0_31 s.acc) (b_0_31 (s.core.gpr a)) in
    let l = sub_us (b_32_63 s.acc) (b_32_63 (s.core.gpr a)) in
    update_spefscr_ov (h.1) (l.1) (put_acc d (pack_2w (h.0) (l.0)) s)
