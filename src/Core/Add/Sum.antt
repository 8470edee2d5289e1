-- ===== src/Core/Add/Sum.antt =====
-- The registers after the additions.
use ppcsimbooke.Base.{
  ℕ, ◌+◌, ◌-◌, ◌^◌, ◌≡◌, ◌<◌, refl, ap, ◌∙◌, if◌then◌else◌, ◌==◌, u32, u64, arith, truthy, ◌∷◌, [],
  ◌<<<◌, Bool, true, false,
}
use ppcsimbooke.Regs.{widen_int}
use ppcsimbooke.Core.{Core, rtl, put_ca, put_so_ov, put_cr0_host, ca, set_reg, sign_exts}
use ppcsimbooke.Core.Host.{Host, IsX86, add_code}
use ppcsimbooke.Core.Writes.{IsWrite, AllWrite, u32_lt}
use ppcsimbooke.Core.Add.{
  add, add_dot, addo, addo_dot, addc, addc_dot, addco, addco_dot, adde_code, adde, adde_dot, addeo,
  addeo_dot, simm, addi, addic, addic_dot, addis, ca_minus_1, addme, addme_dot, addmeo, addmeo_dot,
  addze, addze_dot, addzeo, addzeo_dot,
}

-- What the host adds, as the sum of the whole registers cut to a word.
pub add_value : (h : Host) → IsX86 h → (x y : ℕ) → (h.add (u32 x) (u32 y)).0 ≡ u32 (x + y)
add_value h law x y =
    ap (λ r. r.0) (law.add_law (u32 x) (u32 y) (u32_lt x) (u32_lt y)) ∙ omega arith

simm_lt : (imm : ℕ) → simm imm < 2 ^ 32
unfolding simm sign_exts
simm_lt imm = ground arith

module _ (h : Host) (law : IsX86 h) (d a other : ℕ) (s : Core) where
  put :
      (x y w : ℕ)
      → u32 (x + y) ≡ w
      → (if other == d then widen_int (h.add (u32 x) (u32 y)).0 else s.gpr other)
        ≡ (if other == d then widen_int w else s.gpr other)
  put x y w e = ap (λ v. if other == d then widen_int v else s.gpr other) (add_value h law x y ∙ e)

  plain :
      (b : ℕ)
      → AllWrite d (widen_int (u32 (s.gpr a + s.gpr b))) other s (
          add h d a b s
          ∷ add_dot h d a b s
          ∷ addo h d a b s
          ∷ addo_dot h d a b s
          ∷ addc h d a b s
          ∷ addc_dot h d a b s
          ∷ addco h d a b s
          ∷ addco_dot h d a b s
          ∷ [])
  unfolding add add_dot addo addo_dot addc addc_dot addco addco_dot rtl add_code set_reg put_ca
      put_so_ov put_cr0_host
  plain b =
      let p = put (s.gpr a) (s.gpr b) _ refl in
      let q : IsWrite d (widen_int (u32 (s.gpr a + s.gpr b))) other s (add h d a b s) =
        (p, refl, refl, refl, refl) in
      (q, (q, (q, (q, (q, (q, (q, (q, tt))))))))

  extended :
      (b : ℕ)
      → AllWrite d
          (widen_int (u32 (s.gpr a + s.gpr b + ca s)))
          other
          s
          (adde h d a b s ∷ adde_dot h d a b s ∷ addeo h d a b s ∷ addeo_dot h d a b s ∷ [])
  unfolding adde adde_dot addeo addeo_dot adde_code rtl add_code set_reg put_ca put_so_ov
      put_cr0_host ca
  extended b =
      let p =
        put (s.gpr a) (u32 (u64 (s.gpr b + ca s))) (u32 (s.gpr a + s.gpr b + ca s)) (omega arith) in
      let q : IsWrite d (widen_int (u32 (s.gpr a + s.gpr b + ca s))) other s (adde h d a b s) =
        (p, refl, refl, refl, refl) in
      (q, (q, (q, (q, tt))))

  to_minus_one :
      AllWrite d
        (widen_int (u32 (s.gpr a + ca s + (2 ^ 32 - 1))))
        other
        s
        (addme h d a s ∷ addme_dot h d a s ∷ addmeo h d a s ∷ addmeo_dot h d a s ∷ [])
  unfolding addme addme_dot addmeo addmeo_dot ca_minus_1 rtl add_code set_reg put_ca put_so_ov
      put_cr0_host ca
  to_minus_one =
      let p =
        put (s.gpr a) (u32 (ca s + (2 ^ 32 - 1))) (u32 (s.gpr a + ca s + (2 ^ 32 - 1)))
          (omega arith) in
      let q : IsWrite d (widen_int (u32 (s.gpr a + ca s + (2 ^ 32 - 1)))) other s (addme h d a s) =
        (p, refl, refl, refl, refl) in
      (q, (q, (q, (q, tt))))

  to_zero :
      AllWrite d
        (widen_int (u32 (s.gpr a + ca s)))
        other
        s
        (addze h d a s ∷ addze_dot h d a s ∷ addzeo h d a s ∷ addzeo_dot h d a s ∷ [])
  unfolding addze addze_dot addzeo addzeo_dot rtl add_code set_reg put_ca put_so_ov put_cr0_host ca
  to_zero =
      let p = put (s.gpr a) (ca s) _ refl in
      let q : IsWrite d (widen_int (u32 (s.gpr a + ca s))) other s (addze h d a s) =
        (p, refl, refl, refl, refl) in
      (q, (q, (q, (q, tt))))

  -- addi and addis, where register 0 stands for 0.
  or_zero :
      (v : ℕ)
      → v < 2 ^ 32
      → (b : Bool)
      → IsWrite d (widen_int (u32 ((if b then s.gpr a else 0) + v))) other s (
          rtl (λ (t : Core). if b then add_code h d (t.gpr a) v t else set_reg d (widen_int v) t) s)
  unfolding rtl add_code set_reg
  or_zero v small true = (put (s.gpr a) v _ refl, refl, refl, refl, refl)
  or_zero v small false = (
    ap (λ w. if other == d then widen_int w else s.gpr other) (omega (arith, small)),
    refl,
    refl,
    refl,
    refl,
  )

  immediate :
      (imm : ℕ)
      → IsWrite d
          (widen_int (u32 ((if truthy a then s.gpr a else 0) + simm imm)))
          other
          s
          (addi h d a imm s)
        × IsWrite d
            (widen_int (u32 ((if truthy a then s.gpr a else 0) + u32 (simm imm <<< 16))))
            other
            s
            (addis h d a imm s)
        × AllWrite d
            (widen_int (u32 (s.gpr a + simm imm)))
            other
            s
            (addic h d a imm s ∷ addic_dot h d a imm s ∷ [])
  unfolding addi addis addic addic_dot rtl add_code set_reg put_ca put_cr0_host
  immediate imm =
      let p = put (s.gpr a) (simm imm) _ refl in
      let q : IsWrite d (widen_int (u32 (s.gpr a + simm imm))) other s (addic h d a imm s) =
        (p, refl, refl, refl, refl) in
      (
        or_zero (simm imm) (simm_lt imm) (truthy a),
        or_zero (u32 (simm imm <<< 16)) (u32_lt _) (truthy a),
        (q, (q, tt)),
      )

  -- Every addition, with its forms, writes the low 32 bits of its sum to the target, extended with
  -- their sign, keeps every other register, LR and CTR, and goes on to the next instruction. The sums are
  -- rA + rB, rA + rB + CA, rA + CA - 1, rA + CA, and rA, or 0 for register 0, plus the immediate
  -- field.
  pub additions :
      (b imm : ℕ)
      → AllWrite d (widen_int (u32 (s.gpr a + s.gpr b))) other s (
          add h d a b s
          ∷ add_dot h d a b s
          ∷ addo h d a b s
          ∷ addo_dot h d a b s
          ∷ addc h d a b s
          ∷ addc_dot h d a b s
          ∷ addco h d a b s
          ∷ addco_dot h d a b s
          ∷ [])
        × AllWrite d
            (widen_int (u32 (s.gpr a + s.gpr b + ca s)))
            other
            s
            (adde h d a b s ∷ adde_dot h d a b s ∷ addeo h d a b s ∷ addeo_dot h d a b s ∷ [])
        × AllWrite d
            (widen_int (u32 (s.gpr a + ca s + (2 ^ 32 - 1))))
            other
            s
            (addme h d a s ∷ addme_dot h d a s ∷ addmeo h d a s ∷ addmeo_dot h d a s ∷ [])
        × AllWrite d
            (widen_int (u32 (s.gpr a + ca s)))
            other
            s
            (addze h d a s ∷ addze_dot h d a s ∷ addzeo h d a s ∷ addzeo_dot h d a s ∷ [])
        × IsWrite d
            (widen_int (u32 ((if truthy a then s.gpr a else 0) + simm imm)))
            other
            s
            (addi h d a imm s)
        × IsWrite d
            (widen_int (u32 ((if truthy a then s.gpr a else 0) + u32 (simm imm <<< 16))))
            other
            s
            (addis h d a imm s)
        × AllWrite d
            (widen_int (u32 (s.gpr a + simm imm)))
            other
            s
            (addic h d a imm s ∷ addic_dot h d a imm s ∷ [])
  additions b imm =
      let i = immediate imm in (plain b, extended b, to_minus_one, to_zero, i.0, i.1, i.2)
