-- ===== src/Utils/Fields.antt =====
-- Theorems about `rshift`, `ins_bf`, `extr_bf` and `set_bf`.

use native.Mathlib.Nat.{mul-div_cancel, add-sub_cancel, zero-add}
use ppcsimbooke.Base.{
  ℕ, zero, suc, ◌+◌, ◌-◌, ◌*◌, ◌/◌, ◌%◌, ◌^◌, ◌≤◌, ◌<◌, max, bit_and, bit_or, ◌≡◌, refl, ap, ◌∙◌,
  none, some, arith, u64, field_mask, bit, bit_ext, bit-bit_and, bit-bit_or, bit-mul, bit-mod,
  bit-div, bit-field_mask, bit_and-field, two_pow_pos, two_pow_suc, mul-two_pow_suc, bit_le_one,
  zero-bit, bit_of_lt, bit-complement, if◌then◌else◌, ltb, dec_lt, div-two_pow_suc, lt_of_bits,
  not64, ◌⊎◌,
}
use ppcsimbooke.Utils.{rshift_loop, rshift, ins_bf, extr_bf, set_bf}

-- A number with bits set from place s on, the lowest of them set.
pub rshift_loop-odd :
    (s fuel res q : ℕ) → s < fuel → q % 2 ≡ 1 → rshift_loop fuel res (q * 2 ^ s) ≡ some (res + s)
unfolding rshift_loop
rshift_loop-odd s zero res q h odd = absurd (omega arith)
rshift_loop-odd zero (suc fuel) res q h odd = ground arith
rshift_loop-odd (suc s) (suc fuel) res q h odd =
    let even : q * 2 ^ suc s % 2 ≡ 0 = omega (arith, mul-two_pow_suc q s) in
    let halved : q * 2 ^ suc s / 2 ≡ q * 2 ^ s = omega (arith, mul-two_pow_suc q s) in
    ground (arith, even, halved, rshift_loop-odd s fuel (res + 1) q (omega arith) odd)

rshift_loop_lem :
    (fuel res x : ℕ)
    → 0 < x
    → x < 2 ^ fuel
    → (s : ℕ) × (rshift_loop fuel res x ≡ some (res + s))
      × (x / 2 ^ s % 2 ≡ 1)
      × (x / 2 ^ s * 2 ^ s ≡ x)
      × (s < fuel)
unfolding rshift_loop
rshift_loop_lem zero res x pos h = absurd (omega arith)
rshift_loop_lem (suc fuel) res x pos h = elim (dec_lt 0 (x % 2)) [
  | yes odd ↦ (0, ground arith, omega arith, omega arith, omega arith)
  | no even ↦
      step (rshift_loop_lem fuel (res + 1) (x / 2) (omega arith) (omega (arith, two_pow_suc fuel)))
        even
]
  where
    step :
        (s : ℕ) × (rshift_loop fuel (res + 1) (x / 2) ≡ some (res + 1 + s))
          × (x / 2 / 2 ^ s % 2 ≡ 1)
          × (x / 2 / 2 ^ s * 2 ^ s ≡ x / 2)
          × (s < fuel)
        → ¬ (0 < x % 2)
        → (s : ℕ) × (rshift_loop (suc fuel) res x ≡ some (res + s))
          × (x / 2 ^ s % 2 ≡ 1)
          × (x / 2 ^ s * 2 ^ s ≡ x)
          × (s < suc fuel)
    step (s, found, odd, back, below) even = (
      suc s,
      ground (arith, found),
      rw (div-two_pow_suc x s) odd,
      rw (div-two_pow_suc x s) (omega (arith, mul-two_pow_suc (x / 2 / 2 ^ s) s, back)),
      omega arith,
    )

-- The loop of `rshift` ends within 64 rounds on every mask of 64 bits but 0, with the place of its lowest set bit: the
-- mask shifted right by it is odd, and shifted back it is the mask again.
pub rshift_loop_total :
    (x : ℕ)
    → 0 < x
    → x < 2 ^ 64
    → (s : ℕ) × (rshift_loop 64 0 x ≡ some s)
      × (x / 2 ^ s % 2 ≡ 1)
      × (x / 2 ^ s * 2 ^ s ≡ x)
      × (s < 64)
rshift_loop_total x pos h =
    let (s, found, odd, back, below) = rshift_loop_lem 64 0 x pos h in
    (s, found ∙ ap some (zero-add s), odd, back, below)

pub rshift_loop-zero : (fuel res : ℕ) → rshift_loop fuel res 0 ≡ none
unfolding rshift_loop
rshift_loop-zero zero res = refl
rshift_loop-zero (suc fuel) res = rshift_loop-zero fuel (res + 1)

-- The shift of a mask of w ones at place s.
pub rshift-field_mask : (w s : ℕ) → 0 < w → s < 64 → rshift (field_mask w s) ≡ s
unfolding rshift
rshift-field_mask zero s h p = absurd (omega arith)
rshift-field_mask (suc w) s h p =
    let odd : (2 ^ suc w - 1) % 2 ≡ 1 = omega (arith, two_pow_suc w, two_pow_pos w) in
    ground (arith, rshift_loop-odd s 64 0 (2 ^ suc w - 1) p odd)

field_mask-lt : (w s : ℕ) → s + w ≤ 64 → field_mask w s < 2 ^ 64
field_mask-lt w s h = lt_of_bits 64 _ λ i p. ground (arith, bit-field_mask w s i)

module _ (w s : ℕ) (pos : 0 < w) (fits : s + w ≤ 64) where
  -- EBF is the field of w bits at place s.
  pub extr_bf-field : (src : ℕ) → extr_bf src (field_mask w s) ≡ src / 2 ^ s % 2 ^ w
  unfolding extr_bf
  extr_bf-field src =
      rw (rshift-field_mask w s pos (omega arith), bit_and-field w s src)
        (mul-div_cancel (src / 2 ^ s % 2 ^ w) (two_pow_pos s))

  bit-inserted :
      (val i : ℕ)
      → bit (bit_and (u64 (val * 2 ^ s)) (field_mask w s)) i
        ≡ (if ltb i s then 0 else if ltb i (s + w) then bit val (i - s) else 0)
  bit-inserted val i = ground (
    arith,
    bit-bit_and (u64 (val * 2 ^ s)) (field_mask w s) i,
    bit-mod 64 (val * 2 ^ s) i,
    bit-mul s val i,
    bit-field_mask w s i,
    bit_le_one val (i - s),
  )

  bit-ins_bf :
      (src val i : ℕ)
      → bit (ins_bf src val (field_mask w s)) i ≡ (
          if ltb i s
          then bit src i
          else if ltb i (s + w)
          then max (bit src i) (bit val (i - s))
          else bit src i)
  unfolding ins_bf
  bit-ins_bf src val i = rw (rshift-field_mask w s pos (omega arith)) (
      ground (
        arith,
        bit-bit_or src (bit_and (u64 (val * 2 ^ s)) (field_mask w s)) i,
        bit-inserted val i,
      ))

  ins_bf_own :
      (src val : ℕ)
      → extr_bf (ins_bf src val (field_mask w s)) (field_mask w s)
        ≡ bit_or (extr_bf src (field_mask w s)) (val % 2 ^ w)
  ins_bf_own src val =
      rw (extr_bf-field (ins_bf src val (field_mask w s)), extr_bf-field src)
        (bit_ext _ _ λ i. ground (
          arith,
          bit-mod w (ins_bf src val (field_mask w s) / 2 ^ s) i,
          bit-div s (ins_bf src val (field_mask w s)) i,
          bit-ins_bf src val (i + s),
          bit-bit_or (src / 2 ^ s % 2 ^ w) (val % 2 ^ w) i,
          bit-mod w (src / 2 ^ s) i,
          bit-div s src i,
          bit-mod w val i,
          ap (bit val) (add-sub_cancel i s),
        ))

  -- Inserting 0 into a field changes nothing: IBF sets bits and clears none.
  pub ins_bf-zero : (src : ℕ) → ins_bf src 0 (field_mask w s) ≡ src
  ins_bf-zero src = bit_ext _ _ λ i. ground (arith, bit-ins_bf src 0 i, zero-bit (i - s))

  bit-set_bf :
      (src val i : ℕ)
      → src < 2 ^ 64
      → bit (set_bf src val (field_mask w s)) i
        ≡ (if ltb i s then bit src i else if ltb i (s + w) then bit val (i - s) else bit src i)
  unfolding set_bf
  bit-set_bf src val i h = rw (rshift-field_mask w s pos (omega arith)) (
      ground (
        arith,
        bit-bit_or (bit_and src (not64 (field_mask w s)))
            (bit_and (u64 (val * 2 ^ s)) (field_mask w s)) i,
        bit-bit_and src (not64 (field_mask w s)) i,
        bit-complement 64 (field_mask w s) i (field_mask-lt w s fits),
        bit-field_mask w s i,
        bit-inserted val i,
        bit_le_one src i,
        bit_of_lt 64 src i h,
      ))

  -- The register's own `set_bf` clears the field first, so the value comes back.
  pub set_bf_own :
      (src val : ℕ)
      → src < 2 ^ 64
      → extr_bf (set_bf src val (field_mask w s)) (field_mask w s) ≡ val % 2 ^ w
  set_bf_own src val h = rw (extr_bf-field) (
      bit_ext _ _ λ i. ground (
        arith,
        bit-mod w (set_bf src val (field_mask w s) / 2 ^ s) i,
        bit-div s (set_bf src val (field_mask w s)) i,
        bit-set_bf src val (i + s) h,
        bit-mod w val i,
        ap (bit val) (add-sub_cancel i s),
      ))

-- EBF after IBF, for fields inside a word of 64 bits. The field that was written holds the OR of
-- what it held and of the low bits of the value, and a field that does not overlap it is unchanged.
pub extr_bf-ins_bf :
    (w s v t src val : ℕ)
    → 0 < w
    → s + w ≤ 64
    → 0 < v
    → t + v ≤ 64
    → (s + w ≤ t) ⊎ (t + v ≤ s)
    → (extr_bf (ins_bf src val (field_mask w s)) (field_mask w s)
        ≡ bit_or (extr_bf src (field_mask w s)) (val % 2 ^ w))
      × (extr_bf (ins_bf src val (field_mask w s)) (field_mask v t) ≡ extr_bf src (field_mask v t))
extr_bf-ins_bf w s v t src val w_pos w_fits v_pos v_fits apart = (
  ins_bf_own w s w_pos w_fits src val,
  rw
      (
        extr_bf-field v t v_pos v_fits (ins_bf src val (field_mask w s)),
        extr_bf-field v t v_pos v_fits src,
      )
      (bit_ext _ _ λ i. ground (
        arith,
        bit-mod v (ins_bf src val (field_mask w s) / 2 ^ t) i,
        bit-div t (ins_bf src val (field_mask w s)) i,
        bit-ins_bf w s w_pos w_fits src val (i + t),
        bit-mod v (src / 2 ^ t) i,
        bit-div t src i,
      )),
)
