-- ===== src/Core/Logical/Digits.antt =====
-- The digits of the results of the logical instructions.
use ppcsimbooke.Base.{
  ℕ, ◌-◌, ◌^◌, ◌≡◌, ◌<◌, ap, ◌∙◌, if◌then◌else◌, ◌==◌, u32, not64, arith, ltb, ◌∷◌, [], All, min,
  max, bit, bit-bit_and, bit-bit_or, bit-bit_xor, bit_xor-test, bit-mod, bit-complement, bit_xor,
  bit_and_le, bit_or-lt, List, lt_of_bits, bit_of_lt,
}
use ppcsimbooke.Core.{Core, rtl, put_cr0_host, put_cr0_v, set_reg}
use ppcsimbooke.Core.Host.{Host, IsX86, and_code, or_code, xor_code}
use ppcsimbooke.Core.Writes.{u32_lt}
use ppcsimbooke.Core.Logical.{
  and, and_dot, andc, andc_dot, or, or_dot, orc, orc_dot, xor, xor_dot, eqv, eqv_dot, nand,
  nand_dot, nor, nor_dot,
}

low : (x k : ℕ) → bit (u32 x) k ≡ (if ltb k 32 then bit x k else 0)
low x k = bit-mod 32 x k

flipped :
    (y k : ℕ) → y < 2 ^ 64 → bit (u32 (u32 (not64 y))) k ≡ (if ltb k 32 then 1 - bit y k else 0)
flipped y k h = ground (arith, low (u32 (not64 y)) k, low (not64 y) k, bit-complement 64 y k h)

-- The digit k of the register a in each of several final states.
abbrev pub AllDigit : ℕ → ℕ → ℕ → List Core → Type 0
AllDigit a k v forms = All (λ (t : Core). bit (t.gpr a) k ≡ v) forms

module _ (h : Host) (law : IsX86 h) (a r b k : ℕ) (s : Core) (x_fits : s.gpr r < 2 ^ 64)
    (y_fits : s.gpr b < 2 ^ 64) (in_reg : k < 64) where
  abbrev x : ℕ
  x = bit (s.gpr r) k

  abbrev y : ℕ
  y = bit (s.gpr b) k

  own : (v : ℕ) → (if a == a then v else s.gpr a) ≡ v
  own v = ground arith

  by_and :
      (w : ℕ)
      → bit (if a == a then (h.and (u32 (s.gpr r)) (u32 w)).0 else s.gpr a) k
        ≡ (if ltb k 32 then min x (bit (u32 w) k) else 0)
  by_and w =
      ap (λ v. bit v k)
        (own _ ∙ ap (λ p. p.0) (law.and_law (u32 (s.gpr r)) (u32 w) (u32_lt _) (u32_lt _)))
      ∙ ground (arith, bit-bit_and (u32 (s.gpr r)) (u32 w) k, low (s.gpr r) k)

  by_or :
      (w : ℕ)
      → bit (if a == a then (h.or (u32 (s.gpr r)) (u32 w)).0 else s.gpr a) k
        ≡ (if ltb k 32 then max x (bit (u32 w) k) else 0)
  by_or w =
      ap (λ v. bit v k)
        (own _ ∙ ap (λ p. p.0) (law.or_law (u32 (s.gpr r)) (u32 w) (u32_lt _) (u32_lt _)))
      ∙ ground (arith, bit-bit_or (u32 (s.gpr r)) (u32 w) k, low (s.gpr r) k, low w k)

  by_xor :
      (w : ℕ)
      → bit (if a == a then (h.xor (u32 (s.gpr r)) (u32 w)).0 else s.gpr a) k
        ≡ (if ltb k 32 then (if x == bit (u32 w) k then 0 else 1) else 0)
  by_xor w =
      ap (λ v. bit v k)
        (own _ ∙ ap (λ p. p.0) (law.xor_law (u32 (s.gpr r)) (u32 w) (u32_lt _) (u32_lt _)))
      ∙ ground (arith, bit_xor-test (u32 (s.gpr r)) (u32 w) k, low (s.gpr r) k, low w k)

  by_not : (w : ℕ) → w < 2 ^ 64 → bit (if a == a then not64 w else s.gpr a) k ≡ 1 - bit w k
  by_not w small = ap (λ v. bit v k) (own _) ∙ ground (arith, bit-complement 64 w k small, in_reg)

  conjunctions :
      AllDigit a k (if ltb k 32 then min x y else 0) (and h a r b s ∷ and_dot h a r b s ∷ [])
      × AllDigit a k
          (if ltb k 32 then min x (1 - y) else 0)
          (andc h a r b s ∷ andc_dot h a r b s ∷ [])
  unfolding and and_dot andc andc_dot rtl and_code set_reg put_cr0_host
  conjunctions =
      let p = by_and (s.gpr b) ∙ ground (arith, low (s.gpr b) k) in
      let q = by_and (u32 (not64 (s.gpr b))) ∙ ground (arith, flipped (s.gpr b) k y_fits) in
      ((p, (p, tt)), (q, (q, tt)))

  disjunctions :
      AllDigit a k (if ltb k 32 then max x y else 0) (or h a r b s ∷ or_dot h a r b s ∷ [])
      × AllDigit a k
          (if ltb k 32 then max x (1 - y) else 0)
          (orc h a r b s ∷ orc_dot h a r b s ∷ [])
      × AllDigit a k
          (if ltb k 32 then (if x == y then 0 else 1) else 0)
          (xor h a r b s ∷ xor_dot h a r b s ∷ [])
  unfolding or or_dot orc orc_dot xor xor_dot rtl or_code xor_code set_reg put_cr0_host
  disjunctions =
      let p = by_or (s.gpr b) ∙ ground (arith, low (s.gpr b) k) in
      let q = by_or (u32 (not64 (s.gpr b))) ∙ ground (arith, flipped (s.gpr b) k y_fits) in
      let v = by_xor (s.gpr b) ∙ ground (arith, low (s.gpr b) k) in
      ((p, (p, tt)), (q, (q, tt)), (v, (v, tt)))

  bit_xor-lt : bit_xor (s.gpr r) (s.gpr b) < 2 ^ 64
  bit_xor-lt = lt_of_bits 64 _ λ i far. ground (
    arith,
    bit-bit_xor (s.gpr r) (s.gpr b) i,
    bit_of_lt 64 (s.gpr r) i x_fits far,
    bit_of_lt 64 (s.gpr b) i y_fits far,
  )

  complements :
      AllDigit a k (1 - min x y) (nand a r b s ∷ nand_dot a r b s ∷ [])
      × AllDigit a k (1 - max x y) (nor a r b s ∷ nor_dot a r b s ∷ [])
      × AllDigit a k (if x == y then 1 else 0) (eqv a r b s ∷ eqv_dot a r b s ∷ [])
  unfolding nand nand_dot nor nor_dot eqv eqv_dot rtl set_reg put_cr0_v
  complements =
      let p =
        by_not _ (bit_and_le 64 (s.gpr r) (s.gpr b) x_fits)
        ∙ omega (arith, bit-bit_and (s.gpr r) (s.gpr b) k) in
      let q =
        by_not _ (bit_or-lt 64 (s.gpr r) (s.gpr b) x_fits y_fits)
        ∙ omega (arith, bit-bit_or (s.gpr r) (s.gpr b) k) in
      let v = by_not _ bit_xor-lt ∙ ground (arith, bit_xor-test (s.gpr r) (s.gpr b) k) in
      ((p, (p, tt)), (q, (q, tt)), (v, (v, tt)))

  -- and, andc, or, orc and xor put their function of the two source digits into each of the low 32 digits of the
  -- target and 0 into the high ones; nand, nor and eqv put theirs into all 64, so that the high word is
  -- not 0. The forms with a dot put the same.
  pub logical_digits :
      AllDigit a k (if ltb k 32 then min x y else 0) (and h a r b s ∷ and_dot h a r b s ∷ [])
      × AllDigit a k
          (if ltb k 32 then min x (1 - y) else 0)
          (andc h a r b s ∷ andc_dot h a r b s ∷ [])
      × AllDigit a k (if ltb k 32 then max x y else 0) (or h a r b s ∷ or_dot h a r b s ∷ [])
      × AllDigit a k
          (if ltb k 32 then max x (1 - y) else 0)
          (orc h a r b s ∷ orc_dot h a r b s ∷ [])
      × AllDigit a k
          (if ltb k 32 then (if x == y then 0 else 1) else 0)
          (xor h a r b s ∷ xor_dot h a r b s ∷ [])
      × AllDigit a k (1 - min x y) (nand a r b s ∷ nand_dot a r b s ∷ [])
      × AllDigit a k (1 - max x y) (nor a r b s ∷ nor_dot a r b s ∷ [])
      × AllDigit a k (if x == y then 1 else 0) (eqv a r b s ∷ eqv_dot a r b s ∷ [])
  logical_digits =
      let p = conjunctions in
      let q = disjunctions in let v = complements in (p.0, p.1, q.0, q.1, q.2, v.0, v.1, v.2)
