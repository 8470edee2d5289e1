-- ===== src/Utils/Masks.antt =====
-- Theorems about `gen_bmask_rng` and about rounding to pages.
use ppcsimbooke.Base.{
  ℕ, zero, suc, ◌+◌, ◌-◌, ◌*◌, ◌/◌, ◌%◌, ◌^◌, ◌≤◌, ◌<◌, ◌≡◌, ◌&&◌, ◌||◌, arith, u64, bit,
  bit-bit_xor, bit_mask, bit-complement, if◌then◌else◌, ltb, leb, lt_of_bits, bit_and-high, bit_xor,
  Bool-cases, ltb_iff, inl, inr, ◌∙◌,
}
use native.Mathlib.Nat.{pow-le-pow_right}
use ppcsimbooke.Utils.{gen_bmask, gen_bmask_rng, rnd_pgsz_p, rnd_pgsz_n, rnd_pgsz_n_plus_1}

bit-gen_bmask : (bp i : ℕ) → bp ≤ 64 → bit (gen_bmask bp) i ≡ (if ltb i (64 - bp) then 1 else 0)
unfolding gen_bmask
bit-gen_bmask zero i h = bit_mask 64 i
bit-gen_bmask (suc bp) i h = ground (arith, shifted bp, bit_mask (64 - suc bp) i)
  where
    shifted : (bp : ℕ) → u64 (1 * 2 ^ (64 - suc bp)) ≡ 2 ^ (64 - suc bp)
    shifted bp =
        omega
          (arith, pow-le-pow_right {n = 2} (omega arith) {i = 64 - suc bp} {j = 63} (omega arith))

bit-between :
    (a b i : ℕ)
    → a ≤ 64
    → b ≤ 64
    → bit (bit_xor (gen_bmask a) (gen_bmask b)) i ≡ (
        if ltb i (64 - a) then if ltb i (64 - b) then 0 else 1 else if ltb i (64 - b) then 1 else 0)
bit-between a b i p q =
    ground
      (arith, bit-bit_xor (gen_bmask a) (gen_bmask b) i, bit-gen_bmask a i p, bit-gen_bmask b i q)

between-lt : (a b : ℕ) → a ≤ 64 → b ≤ 64 → bit_xor (gen_bmask a) (gen_bmask b) < 2 ^ 64
between-lt a b p q = lt_of_bits 64 _ λ i h. ground (arith, bit-between a b i p q)

rising :
    (x y k : ℕ)
    → x < 64
    → y < 64
    → k < 64
    → x < y
    → bit (bit_xor (gen_bmask x) (gen_bmask (y + 1))) (63 - k)
      ≡ (if leb x k && leb k y then 1 else 0)
rising x y k p q r h = ground (arith, bit-between x (y + 1) (63 - k) (omega arith) (omega arith))

wrapping :
    (x y k : ℕ)
    → x < 64
    → y < 64
    → k < 64
    → y ≤ x
    → (if ltb (63 - k) 64 then 1 - bit (bit_xor (gen_bmask (x + 1)) (gen_bmask y)) (63 - k) else 0)
      ≡ (if ltb k y || ltb x k then 1 else 0)
wrapping x y k p q r h = ground (arith, bit-between (x + 1) y (63 - k) (omega arith) (omega arith))

-- The digits of MASK(x, y), in the positions of the Power ISA (0 is the highest). If x < y they are the ones from x
-- to y. If not, the mask has the ones before y and after x: the two ends are left out, where the
-- ISA has them in, and for x = y it is every digit but x.
pub bit-gen_bmask_rng :
    (x y k : ℕ)
    → x < 64
    → y < 64
    → k < 64
    → bit (gen_bmask_rng x y) (63 - k) ≡ (
        if ltb x y
        then (if leb x k && leb k y then 1 else 0)
        else if ltb k y || ltb x k
        then 1
        else 0)
unfolding gen_bmask_rng
bit-gen_bmask_rng x y k p q r = elim (Bool-cases (ltb x y)) [
  | inl straight ↦ rw straight (rising x y k p q r ((ltb_iff x y).0 straight))
  | inr wrapped ↦ rw wrapped (
      bit-complement 64 _ (63 - k) (between-lt (x + 1) y (omega arith) (omega arith))
      ∙ wrapping x y k p q r (ground arith))
]

rnd_pgsz_p_lem : (x : ℕ) → x < 2 ^ 64 → rnd_pgsz_p x ≡ x / 0x1000 * 0x1000
unfolding rnd_pgsz_p
rnd_pgsz_p_lem x h = bit_and-high 64 12 x (omega arith) h

-- Rounding to 4K pages, away from the end of the address space: down to the page of x, up to the
-- least page at or after x, and up to the least page after x.
pub rnd_pgsz_bounds :
    (x : ℕ)
    → x < 2 ^ 64 - 0x1000
    → (rnd_pgsz_p x % 0x1000 ≡ 0)
      × (rnd_pgsz_p x ≤ x)
      × (x < rnd_pgsz_p x + 0x1000)
      × (rnd_pgsz_n x % 0x1000 ≡ 0)
      × (x ≤ rnd_pgsz_n x)
      × (rnd_pgsz_n x < x + 0x1000)
      × (rnd_pgsz_n_plus_1 x % 0x1000 ≡ 0)
      × (x < rnd_pgsz_n_plus_1 x)
      × (rnd_pgsz_n_plus_1 x ≤ x + 0x1000)
unfolding rnd_pgsz_n rnd_pgsz_n_plus_1
rnd_pgsz_bounds x h = ground (arith, rnd_pgsz_p_lem x (omega arith))

pub gen_bmask_rng-lt : (x y : ℕ) → x < 64 → y < 64 → gen_bmask_rng x y < 2 ^ 64
unfolding gen_bmask_rng
gen_bmask_rng-lt x y p q = ground (arith, between-lt x (y + 1) (omega arith) (omega arith))
