-- ===== src/Core/Compare/Order.antt =====
-- The field of CR after a comparison.
use ppcsimbooke.Base.{
  ℕ, ◌+◌, ◌-◌, ◌^◌, ◌%◌, ◌≡◌, ◌<◌, refl, ap, ◌∙◌, sym, subst, if◌then◌else◌, ◌==◌, u16, u32, u64,
  arith, ltb, bit_and-low, bit_or, Bool, true, false, ◌<<<◌, to_num,
}
use ppcsimbooke.Regs.{get_crf_field, update_crf_field, get_xer_so}
use ppcsimbooke.Regs.Fields.{get_field-update_field}
use ppcsimbooke.Core.{Core, rtl, sign_exts, so}
use ppcsimbooke.Core.Compare.{
  less_signed, put_order, signed_operand, operand, cmp, cmpi, cmpl, cmpli,
}

-- LT, GT or EQ, and SO.
abbrev pub order_code : Bool → Bool → ℕ → ℕ
order_code less more o = (if less then 8 else if more then 4 else 2) + o

put_order_lem :
    (crd other : ℕ) (less more : Bool) (s : Core)
    → crd < 8
    → other < 8
    → get_crf_field other (put_order crd less more s).cond
      ≡ (if other == crd then order_code less more (so s) else get_crf_field other s.cond)
unfolding put_order get_crf_field update_crf_field so
put_order_lem crd other less more s p q =
    get_field-update_field crd other _ s.cond.cr p q
    ∙ ap (λ (v : ℕ). if other == crd then v else get_crf_field other s.cond)
        (go less more (get_xer_so s.cond))
  where
    go :
        (l m o : Bool)
        → bit_or ((if l then 0x4 else if m then 0x2 else 0x1) <<< 1) (to_num o) % 16
          ≡ order_code l m (to_num o)
    go true m true = refl
    go true m false = refl
    go false true true = refl
    go false true false = refl
    go false false true = refl
    go false false false = refl

-- A word, or the whole register if l is not 0, moved up so that the order of the signed numbers is that of the
-- results; the same of an immediate field of 16 bits.
abbrev pub rank : ℕ → ℕ → ℕ
rank l x = if l == 0 then u32 (x + 2 ^ 31) else u64 (x + 2 ^ 63)

abbrev pub rank_imm : ℕ → ℕ → ℕ
rank_imm l imm = u16 (imm + 2 ^ 15) + (if l == 0 then 2 ^ 31 - 2 ^ 15 else 2 ^ 63 - 2 ^ 15)

abbrev pub word : ℕ → ℕ → ℕ
word l x = if l == 0 then u32 x else x

less_words :
    (l x y : ℕ) → less_signed (signed_operand l x) (signed_operand l y) ≡ ltb (rank l x) (rank l y)
unfolding less_signed signed_operand sign_exts
less_words l x y = ground (arith, bit_and-low 32 x, bit_and-low 32 y)

less_imm :
    (l x imm : ℕ)
    → (less_signed (signed_operand l x) (sign_exts 64 16 imm) ≡ ltb (rank l x) (rank_imm l imm))
      × (less_signed (sign_exts 64 16 imm) (signed_operand l x) ≡ ltb (rank_imm l imm) (rank l x))
unfolding less_signed signed_operand sign_exts
less_imm l x imm = (ground (arith, bit_and-low 32 x), ground (arith, bit_and-low 32 x))

operand_lem : (l x : ℕ) → operand l x ≡ word l x
unfolding operand
operand_lem l x = ground (arith, bit_and-low 32 x)

-- The field other of CR after an order was put into the field crd, and the flow behind it.
abbrev pub IsOrdered : ℕ → ℕ → Bool → Bool → Core → Core → Type 0
IsOrdered crd other less more s t =
    (get_crf_field other t.cond
      ≡ (if other == crd then order_code less more (so s) else get_crf_field other s.cond))
    × (t.pc ≡ u64 (s.nip + 4))
    × (t.nip ≡ t.pc)

module _ (crd other l a : ℕ) (s : Core) (in_crd : crd < 8) (in_other : other < 8) where
  ordered :
      (less more p q : Bool) (t : Core)
      → less ≡ p
      → more ≡ q
      → t ≡ rtl (put_order crd less more) s
      → IsOrdered crd other p q s t
  unfolding rtl put_order so
  ordered less more p q t e f is = subst (IsOrdered crd other p q s) (sym is) (
    put_order_lem crd other less more s in_crd in_other
        ∙ ap
            (λ (v : Bool).
              if other == crd then order_code v more (so s) else get_crf_field other s.cond)
            e
        ∙ ap
            (λ (v : Bool).
              if other == crd then order_code p v (so s) else get_crf_field other s.cond)
            f,
    refl,
    refl,
  )

  -- A comparison puts LT, GT or EQ, by the order of its operands, and the SO of XER into its field of CR, keeps every
  -- other field, and goes on to the next instruction. cmp and cmpi compare signed numbers, cmpl and cmpli unsigned ones:
  -- the low words if L is 0, and else the whole registers; the immediate field of cmpi is a signed number of 16 bits, and cmpli takes
  -- its own as it is.
  pub compare_lem :
      (b imm : ℕ)
      → IsOrdered crd other
          (ltb (rank l (s.gpr a)) (rank l (s.gpr b)))
          (ltb (rank l (s.gpr b)) (rank l (s.gpr a)))
          s
          (cmp crd l a b s)
        × IsOrdered crd other
            (ltb (rank l (s.gpr a)) (rank_imm l imm))
            (ltb (rank_imm l imm) (rank l (s.gpr a)))
            s
            (cmpi crd l a imm s)
        × IsOrdered crd other
            (ltb (word l (s.gpr a)) (word l (s.gpr b)))
            (ltb (word l (s.gpr b)) (word l (s.gpr a)))
            s
            (cmpl crd l a b s)
        × IsOrdered crd other
            (ltb (word l (s.gpr a)) imm)
            (ltb imm (word l (s.gpr a)))
            s
            (cmpli crd l a imm s)
  unfolding cmp cmpi cmpl cmpli rtl
  compare_lem b imm =
      let x = s.gpr a in
      let y = s.gpr b in
      let wx = operand_lem l x in
      let wy = operand_lem l y in
      (
        ordered _ _ _ _ _ (less_words l x y) (less_words l y x) refl,
        ordered _ _ _ _ _ (less_imm l x imm).0 (less_imm l x imm).1 refl,
        ordered _ _ _ _ _ (cc (wx, wy)) (cc (wx, wy)) refl,
        ordered _ _ _ _ _ (ap (λ (v : ℕ). ltb v imm) wx) (ap (ltb imm) wx) refl,
      )
