-- ===== src/Instr/CrLogical.antt =====
-- What the condition register logical instructions put into CR.
use ppcsimbooke.Base.{
  ℕ, ◌<◌, ◌≡◌, refl, ap, ◌∙◌, bit_and, bit_or, bit_xor, Bool, true, false, ◌&&◌, ◌||◌, not, ◌==◌,
  if◌then◌else◌, truthy, to_num, not32,
}
use ppcsimbooke.Regs.{CondRegs, get_crf, update_crf, get_bit}
use ppcsimbooke.Regs.Bits.{get_bit-update_bit}
use ppcsimbooke.Instr.{crf_int, crand, crandc, creqv, crnand, crnor, cror, crorc, crxor}

module _ (d a b other : ℕ) (g : CondRegs) (in_d : d < 32) (in_other : other < 32) where
  written :
      (v w : Bool)
      → v ≡ w
      → get_crf other (update_crf d v g) ≡ (if other == d then w else get_crf other g)
  unfolding get_crf update_crf
  written v w e =
      get_bit-update_bit d other v g.cr in_d in_other
      ∙ ap (λ (t : Bool). if other == d then t else get_bit other g.cr) e

  -- crand, crandc, cror and crxor put their function of the two bits into the target and keep
  -- every other bit; creqv, crnand, crnor and crorc, whose function ends in a complement, put true there
  -- whatever the bits are.
  pub cr_logical_lem :
      (get_crf other (crand d a b g)
        ≡ (if other == d then get_crf a g && get_crf b g else get_crf other g))
      × (get_crf other (crandc d a b g)
          ≡ (if other == d then get_crf a g && not (get_crf b g) else get_crf other g))
      × (get_crf other (cror d a b g)
          ≡ (if other == d then get_crf a g || get_crf b g else get_crf other g))
      × (get_crf other (crxor d a b g) ≡ (
          if other == d
          then (get_crf a g && not (get_crf b g)) || (not (get_crf a g) && get_crf b g)
          else get_crf other g))
      × (get_crf other (creqv d a b g) ≡ (if other == d then true else get_crf other g))
      × (get_crf other (crnand d a b g) ≡ (if other == d then true else get_crf other g))
      × (get_crf other (crnor d a b g) ≡ (if other == d then true else get_crf other g))
      × (get_crf other (crorc d a b g) ≡ (if other == d then true else get_crf other g))
  unfolding crand crandc creqv crnand crnor cror crorc crxor crf_int
  cr_logical_lem = go (get_crf a g) (get_crf b g)
    where
      Put : Bool → Bool → Type 0
      Put v w = get_crf other (update_crf d v g) ≡ (if other == d then w else get_crf other g)

      go :
          (p q : Bool)
          → Put (truthy (bit_and (to_num p) (to_num q))) (p && q)
            × Put (truthy (bit_and (to_num p) (not32 (to_num q)))) (p && not q)
            × Put (truthy (bit_or (to_num p) (to_num q))) (p || q)
            × Put (truthy (bit_xor (to_num p) (to_num q))) ((p && not q) || (not p && q))
            × Put (truthy (not32 (bit_xor (to_num p) (to_num q)))) true
            × Put (truthy (not32 (bit_and (to_num p) (to_num q)))) true
            × Put (truthy (not32 (bit_or (to_num p) (to_num q)))) true
            × Put (truthy (bit_or (to_num p) (not32 (to_num q)))) true
      go true true = (
        written _ _ refl,
        written _ _ refl,
        written _ _ refl,
        written _ _ refl,
        written _ _ refl,
        written _ _ refl,
        written _ _ refl,
        written _ _ refl,
      )
      go true false = (
        written _ _ refl,
        written _ _ refl,
        written _ _ refl,
        written _ _ refl,
        written _ _ refl,
        written _ _ refl,
        written _ _ refl,
        written _ _ refl,
      )
      go false true = (
        written _ _ refl,
        written _ _ refl,
        written _ _ refl,
        written _ _ refl,
        written _ _ refl,
        written _ _ refl,
        written _ _ refl,
        written _ _ refl,
      )
      go false false = (
        written _ _ refl,
        written _ _ refl,
        written _ _ refl,
        written _ _ refl,
        written _ _ refl,
        written _ _ refl,
        written _ _ refl,
        written _ _ refl,
      )
