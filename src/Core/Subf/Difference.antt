-- ===== src/Core/Subf/Difference.antt =====
-- The registers after the subtractions and negations, and the carry of subfc.
use ppcsimbooke.Base.{
  ℕ, ◌+◌, ◌-◌, ◌^◌, ◌≡◌, ◌<◌, refl, ap, ◌∙◌, if◌then◌else◌, ◌==◌, u32, u64, not64, arith, leb, ◌&&◌,
  ◌||◌, not, Bool, ◌∷◌, [],
}
use ppcsimbooke.Regs.{widen_int, get_xer_ca}
use ppcsimbooke.Core.{Core, rtl, put_ca, put_so_ov, put_cr0_host, ca, set_reg}
use ppcsimbooke.Core.Host.{Host, IsX86, add_code, neg_code}
use ppcsimbooke.Core.Writes.{IsWrite, AllWrite, u32_lt}
use ppcsimbooke.Core.Add.{simm, ca_minus_1}
use ppcsimbooke.Core.Add.Sum.{add_value}
use ppcsimbooke.Core.Add.Carry.{put_ca-ca, add_flags}
use ppcsimbooke.Core.Subf.{
  subf_code, subf, subf_dot, subfo, subfo_dot, subfic, subfc, subfc_dot, subfco, subfco_dot,
  subfe_code, subfe, subfe_dot, subfeo, subfeo_dot, subfme_code, subfme, subfme_dot, subfmeo,
  subfmeo_dot, subfze_code, subfze, subfze_dot, subfzeo, subfzeo_dot, neg, neg_dot, nego, nego_dot,
}

-- y less x, as a word.
abbrev pub minus : ℕ → ℕ → ℕ
minus y x = u32 (u32 y + (2 ^ 32 - u32 x))

module _ (h : Host) (law : IsX86 h) (d a other : ℕ) (s : Core) (fits : s.gpr a < 2 ^ 64) where
  put :
      (x y w : ℕ)
      → u32 (x + y) ≡ w
      → (if other == d then widen_int (h.add (u32 x) (u32 y)).0 else s.gpr other)
        ≡ (if other == d then widen_int w else s.gpr other)
  put x y w e = ap (λ v. if other == d then widen_int v else s.gpr other) (add_value h law x y ∙ e)

  plain :
      (b : ℕ)
      → AllWrite d (widen_int (minus (s.gpr b) (s.gpr a))) other s (
          subf h d a b s
          ∷ subf_dot h d a b s
          ∷ subfo h d a b s
          ∷ subfo_dot h d a b s
          ∷ subfc h d a b s
          ∷ subfc_dot h d a b s
          ∷ subfco h d a b s
          ∷ subfco_dot h d a b s
          ∷ [])
  unfolding subf subf_dot subfo subfo_dot subfc subfc_dot subfco subfco_dot subf_code rtl add_code
      set_reg put_ca put_so_ov put_cr0_host
  plain b =
      let p =
        put (not64 (s.gpr a)) (u64 (s.gpr b + 1)) (minus (s.gpr b) (s.gpr a))
          (omega (arith, fits)) in
      let q : IsWrite d (widen_int (minus (s.gpr b) (s.gpr a))) other s (subf h d a b s) =
        (p, refl, refl, refl, refl) in
      (q, (q, (q, (q, (q, (q, (q, (q, tt))))))))

  immediate :
      (imm : ℕ) → IsWrite d (widen_int (minus (simm imm) (s.gpr a))) other s (subfic h d a imm s)
  unfolding subfic subf_code rtl add_code set_reg put_ca widen_int
  immediate imm = (
    put (not64 (s.gpr a)) (u64 (widen_int (simm imm) + 1)) (minus (simm imm) (s.gpr a))
        (ground (arith, fits)),
    refl,
    refl,
    refl,
    refl,
  )

  extended :
      (b : ℕ)
      → AllWrite d
          (widen_int (u32 (minus (s.gpr b) (s.gpr a + 1) + ca s)))
          other
          s
          (subfe h d a b s ∷ subfe_dot h d a b s ∷ subfeo h d a b s ∷ subfeo_dot h d a b s ∷ [])
  unfolding subfe subfe_dot subfeo subfeo_dot subfe_code rtl add_code set_reg put_ca put_so_ov
      put_cr0_host ca
  extended b =
      let w = u32 (minus (s.gpr b) (s.gpr a + 1) + ca s) in
      let p = put (u32 (not64 (s.gpr a))) (u32 (u64 (ca s + s.gpr b))) w (omega (arith, fits)) in
      let q : IsWrite d (widen_int w) other s (subfe h d a b s) = (p, refl, refl, refl, refl) in
      (q, (q, (q, (q, tt))))

  to_minus_one :
      AllWrite d
        (widen_int (u32 (minus (2 ^ 32 - 1) (s.gpr a + 1) + ca s)))
        other
        s
        (subfme h d a s ∷ subfme_dot h d a s ∷ subfmeo h d a s ∷ subfmeo_dot h d a s ∷ [])
  unfolding subfme subfme_dot subfmeo subfmeo_dot subfme_code ca_minus_1 rtl add_code set_reg put_ca
      put_so_ov put_cr0_host ca
  to_minus_one =
      let w = u32 (minus (2 ^ 32 - 1) (s.gpr a + 1) + ca s) in
      let p = put (u32 (not64 (s.gpr a))) (u32 (ca s + (2 ^ 32 - 1))) w (omega (arith, fits)) in
      let q : IsWrite d (widen_int w) other s (subfme h d a s) = (p, refl, refl, refl, refl) in
      (q, (q, (q, (q, tt))))

  to_zero :
      AllWrite d
        (widen_int (u32 (minus 0 (s.gpr a + 1) + ca s)))
        other
        s
        (subfze h d a s ∷ subfze_dot h d a s ∷ subfzeo h d a s ∷ subfzeo_dot h d a s ∷ [])
  unfolding subfze subfze_dot subfzeo subfzeo_dot subfze_code rtl add_code set_reg put_ca put_so_ov
      put_cr0_host ca
  to_zero =
      let w = u32 (minus 0 (s.gpr a + 1) + ca s) in
      let p = put (u32 (not64 (s.gpr a))) (ca s) w (omega (arith, fits)) in
      let q : IsWrite d (widen_int w) other s (subfze h d a s) = (p, refl, refl, refl, refl) in
      (q, (q, (q, (q, tt))))

  negation :
      AllWrite d
        (minus 0 (s.gpr a))
        other
        s
        (neg h d a s ∷ neg_dot h d a s ∷ nego h d a s ∷ nego_dot h d a s ∷ [])
  unfolding neg neg_dot nego nego_dot rtl neg_code set_reg put_so_ov put_cr0_host
  negation =
      let p : (if other == d then (h.neg (u32 (s.gpr a))).0 else s.gpr other)
          ≡ (if other == d then minus 0 (s.gpr a) else s.gpr other) =
        ap (λ v. if other == d then v else s.gpr other)
          (ap (λ r. r.0) (law.neg_law (u32 (s.gpr a)) (u32_lt (s.gpr a))) ∙ omega arith) in
      let q : IsWrite d (minus 0 (s.gpr a)) other s (neg h d a s) = (p, refl, refl, refl, refl) in
      (q, (q, (q, (q, tt))))

  -- Every subtraction, with its forms, writes the low 32 bits of its difference to the target, extended with
  -- their sign, keeps every other register, LR and CTR, and goes on to the next instruction. The
  -- differences are rB - rA, the immediate field - rA, rB - rA - 1 + CA, -1 - rA - 1 + CA and
  -- 0 - rA - 1 + CA. neg does the same with 0 - rA, but extends it with zeros.
  pub subtractions :
      (b imm : ℕ)
      → AllWrite d (widen_int (minus (s.gpr b) (s.gpr a))) other s (
          subf h d a b s
          ∷ subf_dot h d a b s
          ∷ subfo h d a b s
          ∷ subfo_dot h d a b s
          ∷ subfc h d a b s
          ∷ subfc_dot h d a b s
          ∷ subfco h d a b s
          ∷ subfco_dot h d a b s
          ∷ [])
        × IsWrite d (widen_int (minus (simm imm) (s.gpr a))) other s (subfic h d a imm s)
        × AllWrite d
            (widen_int (u32 (minus (s.gpr b) (s.gpr a + 1) + ca s)))
            other
            s
            (subfe h d a b s ∷ subfe_dot h d a b s ∷ subfeo h d a b s ∷ subfeo_dot h d a b s ∷ [])
        × AllWrite d
            (widen_int (u32 (minus (2 ^ 32 - 1) (s.gpr a + 1) + ca s)))
            other
            s
            (subfme h d a s ∷ subfme_dot h d a s ∷ subfmeo h d a s ∷ subfmeo_dot h d a s ∷ [])
        × AllWrite d
            (widen_int (u32 (minus 0 (s.gpr a + 1) + ca s)))
            other
            s
            (subfze h d a s ∷ subfze_dot h d a s ∷ subfzeo h d a s ∷ subfzeo_dot h d a s ∷ [])
        × AllWrite d
            (minus 0 (s.gpr a))
            other
            s
            (neg h d a s ∷ neg_dot h d a s ∷ nego h d a s ∷ nego_dot h d a s ∷ [])
  subtractions b imm = (plain b, immediate imm, extended b, to_minus_one, to_zero, negation)

module _ (h : Host) (law : IsX86 h) (d a : ℕ) (s : Core) (fits : s.gpr a < 2 ^ 64) where
  -- subfc sets CA if the word of rB is not below that of rA, as the ISA has it, except where the word of
  -- rB is the highest: rB + 1 is computed first and its carry is lost. CA stays set once it is.
  pub subfc-ca :
      (b : ℕ)
      → get_xer_ca (subfc h d a b s).cond ≡ (
          get_xer_ca s.cond
          || (leb (u32 (s.gpr a)) (u32 (s.gpr b)) && not (u32 (s.gpr b) == 2 ^ 32 - 1)))
  unfolding subfc subf_code rtl add_code set_reg put_ca
  subfc-ca b =
      put_ca-ca (h.add (u32 (not64 (s.gpr a))) (u32 (u64 (s.gpr b + 1)))).1 s.cond
      ∙ ap (λ (c : Bool). get_xer_ca s.cond || c)
          ((add_flags h law (not64 (s.gpr a)) (u64 (s.gpr b + 1))).0 ∙ ground (arith, fits))
