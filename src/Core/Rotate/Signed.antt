-- ===== src/Core/Rotate/Signed.antt =====
-- What the arithmetic shifts leave in their target and in CA.
use ppcsimbooke.Base.{
  ℕ, ◌+◌, ◌-◌, ◌*◌, ◌^◌, ◌%◌, ◌/◌, ◌≡◌, ◌<◌, ap, ◌∙◌, Bool, true, false, ◌==◌, if◌then◌else◌, u32,
  not64, bit_and, bit_or, arith, ltb, leb, ◌&&◌, ◌||◌, not, bit, bit-bit_and, bit-bit_or,
  bit-complement, bit_and-low, bit_le_one, bit_mask, zero-bit, truthy, to_num, two_pow_pos, zero,
  suc, lt_of_bits, bit-mul, bit-mod, ◌>>>◌, ◌∷◌, [], All,
}
use ppcsimbooke.Regs.{get_xer_ca, update_cr0, put_cr0}
use ppcsimbooke.Regs.Flags.{update_xer_ca_lem}
use ppcsimbooke.Utils.{gen_bmask_rng}
use ppcsimbooke.Utils.Masks.{gen_bmask_rng-lt}
use ppcsimbooke.Core.{Core, rtl, set_reg, put_cr0_v, put_ca_v}
use ppcsimbooke.Core.Rotate.{
  Shifts, IsMasked, rotl32, sra_code, srawi_code, srawi, srawi_dot, put_cr0_of,
}
use ppcsimbooke.Core.Rotate.Turn.{bit-rotl32}
use ppcsimbooke.Core.Rotate.Shift.{mask_digit, bit_at, dropped}

-- The sign of the low word.
abbrev pub is_negative : ℕ → Bool
is_negative x = leb (2 ^ 31) (u32 x)

sign_lem : (x : ℕ) → truthy (bit_and (x >>> 31) 0x1) ≡ is_negative x
sign_lem x = ground (arith, bit_and-low 1 (x / 2 ^ 31))

-- The digit i of an arithmetic shift by n: below 31 the word moves down and its sign fills the register; by 31 the word moves up by
-- one and its sign comes round.
abbrev pub sra_digit : ℕ → ℕ → ℕ → ℕ
sra_digit x n i =
    if n == 31
    then (if i == 0 then to_num (is_negative x) else if ltb i 32 then bit (u32 x) (i - 1) else 0)
    else if ltb i (32 - n)
    then bit (u32 x) (i + n)
    else to_num (is_negative x)

all_ones :
    (sign : Bool) (i : ℕ) → i < 64 → bit (if sign then 0xffff_ffff_ffff_ffff else 0) i ≡ to_num sign
all_ones true i h = bit_mask 64 i ∙ ground (arith, h)
all_ones false i h = zero-bit i

times_zero : (r k : ℕ) → (r * 2 ^ k == 0) ≡ (r == 0)
times_zero zero k = ground arith
times_zero (suc r) k = ground (arith, two_pow_pos k)

raised_lt : (w n : ℕ) → n < 32 → w % 2 ^ n * 2 ^ (32 - n) < 2 ^ 32
raised_lt w n few =
    lt_of_bits 32 _
      λ i high. ground (arith, bit-mul (32 - n) (w % 2 ^ n) i, bit-mod n w (i - (32 - n)))

module _ (h : Shifts) (law : IsMasked h) (x n : ℕ) (few : n < 32) where
  abbrev m : ℕ
  m = gen_bmask_rng (n + 32) 63

  filled :
      (sign : Bool) (i : ℕ)
      → sign ≡ is_negative x
      → i < 64
      → bit
          (bit_or
            (bit_and (rotl32 h x (64 - n)) m)
            (bit_and (if sign then 0xffff_ffff_ffff_ffff else 0) (not64 m)))
          i
        ≡ sra_digit x n i
  filled sign i e below = ground (
    arith,
    bit-bit_or (bit_and (rotl32 h x (64 - n)) m)
        (bit_and (if sign then 0xffff_ffff_ffff_ffff else 0) (not64 m)) i,
    bit-bit_and (rotl32 h x (64 - n)) m i,
    bit-bit_and (if sign then 0xffff_ffff_ffff_ffff else 0) (not64 m) i,
    all_ones sign i below,
    bit-complement 64 m i (gen_bmask_rng-lt (n + 32) 63 (omega (arith, few)) (omega arith)),
    bit-rotl32 h law x (64 - n) i,
    mask_digit (n + 32) 63 i,
    ap to_num e,
    bit_le_one (u32 x) ((i + (32 - (64 - n) % 32)) % 32),
    bit_at (u32 x) ((i + (32 - (64 - n) % 32)) % 32) (i + n),
    bit_at (u32 x) ((i + (32 - (64 - n) % 32)) % 32) (i - 1),
  )

  carried :
      (sign : Bool)
      → sign ≡ is_negative x
      → (sign && not (u32 (bit_and (bit_and (rotl32 h x (64 - n)) (not64 m)) 0xffff_ffff) == 0))
        ≡ (is_negative x && (n == 31 || not (u32 x % 2 ^ n == 0)))
  carried sign e =
      let v = if n == 31 then u32 x / 2 ^ 31 else u32 x % 2 ^ n * 2 ^ (32 - n) in
      let low : u32 (bit_and v 0xffff_ffff) ≡ v =
        ground (arith, bit_and-low 32 v, raised_lt (u32 x) n few) in
      ap (λ (w : ℕ). sign && not (u32 (bit_and w 0xffff_ffff) == 0)) (dropped h law x n few)
      ∙ ap (λ (w : ℕ). sign && not (w == 0)) low
      ∙ ground (arith, e, times_zero (u32 x % 2 ^ n) (32 - n))

module _ (h : Shifts) (law : IsMasked h) (a r sh i : ℕ) (s : Core) (in_reg : i < 64) where
  abbrev n : ℕ
  n = sh % 32

  -- srawi shifts the low word of the source, a signed number, to the right by the low five bits of its count and fills the
  -- register with the sign; a count of 31 turns the word to the left by one instead. CA is set if it was set before,
  -- or if the number is negative and either a digit that is not 0 was shifted out or the count is 31. The form
  -- with a dot puts the same.
  pub srawi_lem :
      All
        (λ (t : Core).
          (bit (t.gpr a) i ≡ sra_digit (s.gpr r) n i)
          × (get_xer_ca t.cond ≡ (
              get_xer_ca s.cond
              || (is_negative (s.gpr r) && (n == 31 || not (u32 (s.gpr r) % 2 ^ n == 0))))))
        (srawi h a r sh s ∷ srawi_dot h a r sh s ∷ [])
  unfolding srawi srawi_dot srawi_code sra_code rtl set_reg put_ca_v put_cr0_of put_cr0_v update_cr0
      put_cr0 get_xer_ca
  srawi_lem =
      let x = s.gpr r in
      let few : n < 32 = omega arith in
      let sign = truthy (bit_and (x >>> 31) 0x1) in
      let five = bit_and-low 5 sh in
      let own : (v : ℕ) → (if a == a then v else s.gpr a) ≡ v = λ v. ground arith in
      let word = λ (c : ℕ).
        bit_or (bit_and (rotl32 h x (64 - c)) (gen_bmask_rng (c + 32) 63)) (
          bit_and (if sign then 0xffff_ffff_ffff_ffff else 0)
            (not64 (gen_bmask_rng (c + 32) 63))) in
      let carry = λ (c : ℕ).
        sign
        && not (
            u32 (
              bit_and (bit_and (rotl32 h x (64 - c)) (not64 (gen_bmask_rng (c + 32) 63)))
                0xffff_ffff)
            == 0) in
      let p =
        ap (λ (v : ℕ). bit v i) (own _ ∙ ap word five)
        ∙ filled h law x n few sign i (sign_lem x) in_reg in
      let q =
        (update_xer_ca_lem (carry (bit_and sh 0x1f)) s.cond).2
        ∙ ap (λ (c : ℕ). get_xer_ca s.cond || carry c) five
        ∙ ap (λ (c : Bool). get_xer_ca s.cond || c) (carried h law x n few sign (sign_lem x)) in
      ((p, q), ((p, q), tt))
