-- ===== src/Core/Add/Carry.antt =====
-- The carry and the overflow that the additions leave in XER, and sums of two words.
use ppcsimbooke.Base.{
  ℕ, ◌+◌, ◌*◌, ◌^◌, ◌%◌, ◌≡◌, ◌≢◌, ap, ◌∙◌, sym, if◌then◌else◌, ◌==◌, u32, u64, arith, leb, ◌||◌,
  Bool, false, to_num,
}
use ppcsimbooke.Regs.{
  CondRegs, X86Flags, widen_int, get_xer_ca, get_xer_so, get_xer_ov, update_xer_ca,
  update_xer_ca_host, update_xer_so_ov_host,
}
use ppcsimbooke.Regs.Flags.{update_xer_ca_lem, update_xer_so_ov_host_lem}
use ppcsimbooke.Core.{Core, rtl, put_ca, put_so_ov, ca, set_reg}
use ppcsimbooke.Core.Host.{Host, IsX86, add_code, overflow}
use ppcsimbooke.Core.Writes.{u32_lt}
use ppcsimbooke.Core.Add.{addo, addc, addco, adde_code, adde, addeo}
use ppcsimbooke.Core.Add.Sum.{additions}

pub put_ca-ca :
    (hf : X86Flags) (g : CondRegs) → get_xer_ca (update_xer_ca_host hf g) ≡ (get_xer_ca g || hf.cf)
unfolding update_xer_ca_host update_xer_ca
put_ca-ca hf g = (update_xer_ca_lem hf.cf g).2

if-eq : (d v w : ℕ) → (if d == d then v else w) ≡ v
if-eq d v w = ground arith

if-ne : (o d v w : ℕ) → d ≢ o → (if o == d then v else w) ≡ w
if-ne o d v w ne = ground (arith, ne)

pub u32-widen_int : (v : ℕ) → u32 (widen_int (u32 v)) ≡ u32 v
unfolding widen_int
u32-widen_int v = ground arith

two_words :
    (a1 a0 b1 b0 c : ℕ)
    → c ≡ to_num (leb (2 ^ 32) (u32 a0 + u32 b0))
    → u32 (widen_int (u32 (a1 + b1 + c))) * 2 ^ 32 + u32 (widen_int (u32 (a0 + b0)))
      ≡ (u32 a1 * 2 ^ 32 + u32 a0 + (u32 b1 * 2 ^ 32 + u32 b0)) % 2 ^ 64
two_words a1 a0 b1 b0 c e = ground (arith, u32-widen_int (a1 + b1 + c), u32-widen_int (a0 + b0))

module _ (h : Host) (law : IsX86 h) where
  pub add_flags :
      (x y : ℕ)
      → ((h.add (u32 x) (u32 y)).1.cf ≡ leb (2 ^ 32) (u32 x + u32 y))
        × ((h.add (u32 x) (u32 y)).1.of ≡ overflow (u32 x) (u32 y))
  add_flags x y = (
    ap (λ r. r.1.cf) (law.add_law (u32 x) (u32 y) (u32_lt x) (u32_lt y)),
    ap (λ r. r.1.of) (law.add_law (u32 x) (u32 y) (u32_lt x) (u32_lt y)),
  )

  -- After addc CA is the carry of the words, or it was set before.
  addc-ca :
      (d a b : ℕ) (s : Core)
      → get_xer_ca (addc h d a b s).cond
        ≡ (get_xer_ca s.cond || leb (2 ^ 32) (u32 (s.gpr a) + u32 (s.gpr b)))
  unfolding addc rtl add_code set_reg put_ca
  addc-ca d a b s =
      put_ca-ca (h.add (u32 (s.gpr a)) (u32 (s.gpr b))).1 s.cond
      ∙ ap (λ (c : Bool). get_xer_ca s.cond || c) (add_flags (s.gpr a) (s.gpr b)).0

  -- The same for every addition, by the step that puts CA and the one that puts OV and SO.
  put_xer :
      (x y : ℕ) (g : CondRegs)
      → (get_xer_ca (update_xer_ca_host (h.add (u32 x) (u32 y)).1 g)
          ≡ (get_xer_ca g || leb (2 ^ 32) (u32 x + u32 y)))
        × (get_xer_so (update_xer_so_ov_host (h.add (u32 x) (u32 y)).1 g)
            ≡ overflow (u32 x) (u32 y))
        × (get_xer_ov (update_xer_so_ov_host (h.add (u32 x) (u32 y)).1 g)
            ≡ overflow (u32 x) (u32 y))
        × (get_xer_ca (update_xer_so_ov_host (h.add (u32 x) (u32 y)).1 g) ≡ get_xer_ca g)
  put_xer x y g =
      let f = add_flags x y in
      let o = update_xer_so_ov_host_lem (h.add (u32 x) (u32 y)).1 g in
      (
        put_ca-ca (h.add (u32 x) (u32 y)).1 g ∙ ap (λ (c : Bool). get_xer_ca g || c) f.0,
        o.0 ∙ f.1,
        o.1 ∙ f.1,
        o.2,
      )

  -- The flags of XER. addo sets OV and SO exactly if the sum of the signed words overflows, so SO is
  -- cleared by a sum that does not, and keeps CA. addco does the same and sets CA if the sum of the
  -- unsigned words has a carry; it never clears CA. addeo takes these flags from rA and the
  -- word rB + CA, so that a carry of rB + CA itself is lost.
  pub sum_flags :
      (d a b : ℕ) (s : Core)
      → (get_xer_ov (addo h d a b s).cond ≡ overflow (u32 (s.gpr a)) (u32 (s.gpr b)))
        × (get_xer_so (addo h d a b s).cond ≡ overflow (u32 (s.gpr a)) (u32 (s.gpr b)))
        × (get_xer_ca (addo h d a b s).cond ≡ get_xer_ca s.cond)
        × (get_xer_ov (addco h d a b s).cond ≡ overflow (u32 (s.gpr a)) (u32 (s.gpr b)))
        × (get_xer_so (addco h d a b s).cond ≡ overflow (u32 (s.gpr a)) (u32 (s.gpr b)))
        × (get_xer_ca (addco h d a b s).cond
            ≡ (get_xer_ca s.cond || leb (2 ^ 32) (u32 (s.gpr a) + u32 (s.gpr b))))
        × (get_xer_ov (addeo h d a b s).cond ≡ overflow (u32 (s.gpr a)) (u32 (s.gpr b + ca s)))
        × (get_xer_so (addeo h d a b s).cond ≡ overflow (u32 (s.gpr a)) (u32 (s.gpr b + ca s)))
        × (get_xer_ca (addeo h d a b s).cond
            ≡ (get_xer_ca s.cond || leb (2 ^ 32) (u32 (s.gpr a) + u32 (s.gpr b + ca s))))
  unfolding addo addco addeo adde_code rtl add_code set_reg put_ca put_so_ov ca
  sum_flags d a b s =
      let x = s.gpr a in
      let y = s.gpr b in
      let z = u32 (u64 (s.gpr b + ca s)) in
      let mid = update_xer_ca_host (h.add (u32 x) (u32 y)).1 s.cond in
      let midz = update_xer_ca_host (h.add (u32 x) (u32 z)).1 s.cond in
      let p = put_xer x y s.cond in
      let q = put_xer x y mid in
      let v = put_xer x z midz in
      let e : u32 z ≡ u32 (s.gpr b + ca s) = omega arith in
      (
        p.2,
        p.1,
        p.3,
        q.2,
        q.1,
        q.3 ∙ p.0,
        v.2 ∙ ap (overflow (u32 x)) e,
        v.1 ∙ ap (overflow (u32 x)) e,
        v.3
            ∙ (put_xer x z s.cond).0
            ∙ ap (λ (w : ℕ). get_xer_ca s.cond || leb (2 ^ 32) (u32 x + w)) e,
      )

  -- With CA clear, addc on the low words and then adde on the high words adds two numbers of 64 bits,
  -- where the low result replaces no operand of the second addition.
  pub wide_sum :
      (d1 d0 a1 a0 b1 b0 : ℕ) (s : Core)
      → get_xer_ca s.cond ≡ false
      → d0 ≢ d1
      → d0 ≢ a1
      → d0 ≢ b1
      → u32 ((adde h d1 a1 b1 (addc h d0 a0 b0 s)).gpr d1) * 2 ^ 32
          + u32 ((adde h d1 a1 b1 (addc h d0 a0 b0 s)).gpr d0)
        ≡ (u32 (s.gpr a1) * 2 ^ 32 + u32 (s.gpr a0) + (u32 (s.gpr b1) * 2 ^ 32 + u32 (s.gpr b0)))
          % 2 ^ 64
  unfolding ca
  wide_sum d1 d0 a1 a0 b1 b0 s clear p q r =
      let t = addc h d0 a0 b0 s in
      let low = λ (o : ℕ). (additions h law d0 a0 o s b0 0).0.1.1.1.1.0.0 in
      let high = λ (o : ℕ). (additions h law d1 a1 o t b1 0).1.0.0 in
      let kept = λ (o : ℕ) (ne : d0 ≢ o). low o ∙ if-ne o d0 _ (s.gpr o) ne in
      let x : (adde h d1 a1 b1 t).gpr d1 ≡ widen_int (u32 (s.gpr a1 + s.gpr b1 + ca t)) =
        high d1
        ∙ if-eq d1 _ _
        ∙ ap (λ (v : ℕ). widen_int (u32 (v + ca t))) (cc (kept a1 q, kept b1 r)) in
      let y : (adde h d1 a1 b1 t).gpr d0 ≡ widen_int (u32 (s.gpr a0 + s.gpr b0)) =
        high d0 ∙ if-ne d0 d1 _ _ (λ e. p (sym e)) ∙ low d0 ∙ if-eq d0 _ _ in
      let c : ca t ≡ to_num (leb (2 ^ 32) (u32 (s.gpr a0) + u32 (s.gpr b0))) =
        ap (λ (g : Bool). to_num g)
          (addc-ca d0 a0 b0 s
            ∙ ap (λ (g : Bool). g || leb (2 ^ 32) (u32 (s.gpr a0) + u32 (s.gpr b0))) clear) in
      ap (λ (v : ℕ). u32 v * 2 ^ 32 + u32 ((adde h d1 a1 b1 t).gpr d0)) x
      ∙ ap (λ (v : ℕ). u32 (widen_int (u32 (s.gpr a1 + s.gpr b1 + ca t))) * 2 ^ 32 + u32 v) y
      ∙ two_words (s.gpr a1) (s.gpr a0) (s.gpr b1) (s.gpr b0) (ca t) c
