-- ===== src/Core/Rotate/Shift.antt =====
-- What the shifts of a word leave, by their counts.
use ppcsimbooke.Base.{
  ℕ, ◌+◌, ◌-◌, ◌*◌, ◌^◌, ◌%◌, ◌/◌, ◌≡◌, ◌<◌, refl, ap, ◌∙◌, Bool, true, false, ◌==◌, if◌then◌else◌,
  u32, not64, bit_and, arith, ltb, leb, ◌&&◌, ◌||◌, bit, bit_ext, bit-bit_and, bit-mul, bit-div,
  bit-mod, bit_of_lt, bit_le_one, bit-complement, bit_and-low, dec_lt, zero-bit, not, ◌∷◌, [], All,
}
use ppcsimbooke.Utils.{gen_bmask_rng}
use ppcsimbooke.Utils.Masks.{bit-gen_bmask_rng, gen_bmask_rng-lt}
use ppcsimbooke.Core.{Core, rtl, set_reg, put_cr0_v}
use ppcsimbooke.Core.Rotate.{
  Shifts, IsMasked, rotl32, slw_code, slw, slw_dot, srw_code, srw, srw_dot, rb_58, put_cr0_of,
}
use ppcsimbooke.Core.Rotate.Turn.{bit-rotl32}

-- A digit of MASK(x, y) from the lowest.
pub mask_digit :
    (x y i : ℕ)
    → x < 64
    → y < 64
    → i < 64
    → bit (gen_bmask_rng x y) i ≡ (
        if ltb x y
        then (if leb x (63 - i) && leb (63 - i) y then 1 else 0)
        else if ltb (63 - i) y || ltb x (63 - i)
        then 1
        else 0)
mask_digit x y i p q r =
    ap (bit (gen_bmask_rng x y)) (omega (arith, r))
    ∙ bit-gen_bmask_rng x y (63 - i) p q (omega (arith, r))

-- The digits of two sources agree where the first place is counted by another number.
pub bit_at : (w i j : ℕ) → i ≡ j → bit w i ≡ bit w j
bit_at w i j e = ap (bit w) e

module _ (h : Shifts) (law : IsMasked h) (x n : ℕ) (few : n < 32) where
  -- What slw keeps of a word: it is shifted to the left, but by 31 it is shifted by one to the right.
  left_word :
      bit_and (rotl32 h x n) (gen_bmask_rng 32 (63 - n))
      ≡ (if n == 31 then u32 x / 2 ^ 1 else u32 (u32 x * 2 ^ n))
  left_word = bit_ext _ _ λ i. elim (dec_lt i 32) [
    | yes low ↦ ground (
      arith,
      bit-bit_and (rotl32 h x n) (gen_bmask_rng 32 (63 - n)) i,
      bit-rotl32 h law x n i,
      mask_digit 32 (63 - n) i,
      bit-mod 32 (u32 x * 2 ^ n) i,
      bit-mul n (u32 x) i,
      bit-div 1 (u32 x) i,
      bit_le_one (u32 x) ((i + (32 - n % 32)) % 32),
      bit_at (u32 x) ((i + (32 - n % 32)) % 32) (i - n),
      bit_at (u32 x) ((i + (32 - n % 32)) % 32) (i + 1),
      bit_of_lt 32 (u32 x) (i + 1),
    )
    | no high ↦ ground (
      arith,
      bit-bit_and (rotl32 h x n) (gen_bmask_rng 32 (63 - n)) i,
      bit-rotl32 h law x n i,
      bit-mod 32 (u32 x * 2 ^ n) i,
      bit-div 1 (u32 x) i,
      bit_of_lt 32 (u32 x) (i + 1),
    )
  ]

  -- What srw keeps: the word is shifted to the right, but by 31 it is shifted by one to the left.
  right_word :
      bit_and (rotl32 h x (64 - n)) (gen_bmask_rng (n + 32) 63)
      ≡ (if n == 31 then u32 (u32 x * 2 ^ 1) else u32 x / 2 ^ n)
  right_word = bit_ext _ _ λ i. elim (dec_lt i 32) [
    | yes low ↦ ground (
      arith,
      bit-bit_and (rotl32 h x (64 - n)) (gen_bmask_rng (n + 32) 63) i,
      bit-rotl32 h law x (64 - n) i,
      mask_digit (n + 32) 63 i,
      bit-mod 32 (u32 x * 2 ^ 1) i,
      bit-mul 1 (u32 x) i,
      bit-div n (u32 x) i,
      bit_le_one (u32 x) ((i + (32 - (64 - n) % 32)) % 32),
      bit_at (u32 x) ((i + (32 - (64 - n) % 32)) % 32) (i + n),
      bit_at (u32 x) ((i + (32 - (64 - n) % 32)) % 32) (i - 1),
      bit_of_lt 32 (u32 x) (i + n),
    )
    | no high ↦ ground (
      arith,
      bit-bit_and (rotl32 h x (64 - n)) (gen_bmask_rng (n + 32) 63) i,
      bit-rotl32 h law x (64 - n) i,
      bit-mod 32 (u32 x * 2 ^ 1) i,
      bit-div n (u32 x) i,
      bit_of_lt 32 (u32 x) (i + n),
    )
  ]

  -- What srw drops, which stands above: the low n digits, but for 31 the sign alone.
  pub dropped :
      bit_and (rotl32 h x (64 - n)) (not64 (gen_bmask_rng (n + 32) 63))
      ≡ (if n == 31 then u32 x / 2 ^ 31 else u32 x % 2 ^ n * 2 ^ (32 - n))
  dropped = bit_ext _ _ λ i. elim (dec_lt i 32) [
    | yes low ↦ ground (
      arith,
      bit-bit_and (rotl32 h x (64 - n)) (not64 (gen_bmask_rng (n + 32) 63)) i,
      bit-complement 64 (gen_bmask_rng (n + 32) 63) i
          (gen_bmask_rng-lt (n + 32) 63 (omega (arith, few)) (omega arith)),
      bit-rotl32 h law x (64 - n) i,
      mask_digit (n + 32) 63 i,
      bit-div 31 (u32 x) i,
      bit-mul (32 - n) (u32 x % 2 ^ n) i,
      bit-mod n (u32 x) (i - (32 - n)),
      bit_le_one (u32 x) ((i + (32 - (64 - n) % 32)) % 32),
      bit_at (u32 x) ((i + (32 - (64 - n) % 32)) % 32) (i - (32 - n)),
      bit_at (u32 x) ((i + (32 - (64 - n) % 32)) % 32) (i + 31),
      bit_of_lt 32 (u32 x) (i + 31),
    )
    | no high ↦ ground (
      arith,
      bit-bit_and (rotl32 h x (64 - n)) (not64 (gen_bmask_rng (n + 32) 63)) i,
      bit-rotl32 h law x (64 - n) i,
      bit-div 31 (u32 x) i,
      bit-mul (32 - n) (u32 x % 2 ^ n) i,
      bit-mod n (u32 x) (i - (32 - n)),
      bit_of_lt 32 (u32 x) (i + 31),
    )
  ]

-- Whether the count in a register is 32 or more, by its bit above the low five.
abbrev pub is_large : ℕ → Bool
is_large c = c / 2 ^ 5 % 2 == 1

pub rb_58_lem : (c : ℕ) → (rb_58 c == 0) ≡ not (is_large c)
unfolding rb_58
rb_58_lem c = ground (arith, bit_and-low 1 (c / 2 ^ 5))

pub masked :
    (c t m : ℕ)
    → bit_and t (if rb_58 c == 0 then m else 0) ≡ (if is_large c then 0 else bit_and t m)
masked c t m = ap (λ (v : Bool). bit_and t (if v then m else 0)) (rb_58_lem c) ∙ go (is_large c)
  where
    go : (v : Bool) → bit_and t (if not v then m else 0) ≡ (if v then 0 else bit_and t m)
    go true = bit_ext _ _ λ i. omega (arith, bit-bit_and t 0 i, zero-bit i)
    go false = refl

module _ (h : Shifts) (law : IsMasked h) (a r b : ℕ) (s : Core) where
  abbrev count : ℕ
  count = s.gpr b % 32

  abbrev left : ℕ
  left =
      if is_large (s.gpr b)
      then 0
      else if count == 31
      then u32 (s.gpr r) / 2 ^ 1
      else u32 (u32 (s.gpr r) * 2 ^ count)

  abbrev right : ℕ
  right =
      if is_large (s.gpr b)
      then 0
      else if count == 31
      then u32 (u32 (s.gpr r) * 2 ^ 1)
      else u32 (s.gpr r) / 2 ^ count

  low_five : bit_and (s.gpr b) 0x1f ≡ count
  low_five = bit_and-low 5 (s.gpr b)

  -- slw and srw shift the low word of the source by the low five bits of the count, and give 0 if the bit above them
  -- is set; but a shift by 31 to the left is one by 1 to the right, and a shift by 31 to the right is one by 1
  -- to the left, since the mask of one place is the complement of that place. The forms with a dot put the same.
  pub word_shifts :
      All (λ (t : Core). t.gpr a ≡ left) (slw h a r b s ∷ slw_dot h a r b s ∷ [])
      × All (λ (t : Core). t.gpr a ≡ right) (srw h a r b s ∷ srw_dot h a r b s ∷ [])
  unfolding slw slw_dot srw srw_dot slw_code srw_code rtl set_reg put_cr0_of put_cr0_v
  word_shifts =
      let own : (v : ℕ) → (if a == a then v else s.gpr a) ≡ v = λ v. ground arith in
      let p =
        own _
        ∙ masked (s.gpr b) (rotl32 h (s.gpr r) (bit_and (s.gpr b) 0x1f)) _
        ∙ ap
            (λ (n : ℕ).
              if is_large (s.gpr b)
              then 0
              else bit_and (rotl32 h (s.gpr r) n) (gen_bmask_rng 32 (63 - n)))
            low_five
        ∙ ap (λ (v : ℕ). if is_large (s.gpr b) then 0 else v)
            (left_word h law (s.gpr r) count (omega arith)) in
      let q =
        own _
        ∙ masked (s.gpr b) (rotl32 h (s.gpr r) (64 - bit_and (s.gpr b) 0x1f)) _
        ∙ ap
            (λ (n : ℕ).
              if is_large (s.gpr b)
              then 0
              else bit_and (rotl32 h (s.gpr r) (64 - n)) (gen_bmask_rng (n + 32) 63))
            low_five
        ∙ ap (λ (v : ℕ). if is_large (s.gpr b) then 0 else v)
            (right_word h law (s.gpr r) count (omega arith)) in
      ((p, (p, tt)), (q, (q, tt)))
