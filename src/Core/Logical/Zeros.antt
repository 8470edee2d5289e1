-- ===== src/Core/Logical/Zeros.antt =====
-- What cntlzw counts.
use Prim.Native.Nat.{◌≤◌}
use ppcsimbooke.Base.{
  ℕ, zero, suc, ◌+◌, ◌-◌, ◌/◌, ◌^◌, ◌≡◌, ◌<◌, refl, ap, ◌∙◌, subst, sym, ◌⊎◌, inl, inr,
  if◌then◌else◌, ◌==◌, u32, arith, truthy, bit, bit-mod, bit-div, bit-zero, bit_and-low, lt_of_bits,
  bit_of_lt, Bool-cases, Bool, true, false, dec_lt, ◌>>>◌, ◌∷◌, [], All,
}
use ppcsimbooke.Core.{Core, rtl, set_reg, put_cr0_v}
use ppcsimbooke.Core.Logical.{b_n, count_zeros, cntlzw, cntlzw_dot}

-- n zeros and then a one; or 32 zeros, and nothing follows.
abbrev pub IsCount : ℕ → ℕ → Type 0
IsCount word n =
    (n ≤ 32) × (word < 2 ^ (32 - n)) × (((word ≡ 0) × (n ≡ 32)) ⊎ (2 ^ (31 - n) ≤ word))

b_n-bit : (x n : ℕ) → n < 64 → 32 ≤ n → b_n x n ≡ truthy (bit (u32 x) (63 - n))
unfolding b_n
b_n-bit x n high low = ap truthy (
    bit_and-low 1 (x >>> (63 - n))
    ∙ ground (arith, bit-zero (x / 2 ^ (63 - n)), bit-div (63 - n) x 0, bit-mod 32 x (63 - n)))

drop_zero : (k v : ℕ) → v < 2 ^ suc k → truthy (bit v k) ≡ false → v < 2 ^ k
drop_zero k v small off = lt_of_bits k v λ i above. elim (dec_lt k i) [
  | yes over ↦ bit_of_lt (suc k) v i small over
  | no not_over ↦
      let same : k ≡ i = omega (arith, above, not_over) in
      subst (λ (t : ℕ). bit v t ≡ 0) same (ground (arith, off))
]

one-le : (k v : ℕ) → truthy (bit v k) ≡ true → 2 ^ k ≤ v
one-le k v on = elim (dec_lt v (2 ^ k)) [
  | yes small ↦ absurd (ground (arith, on, bit_of_lt k v k small (omega arith)))
  | no big ↦ omega (arith, big)
]

count_step :
    (fuel x n : ℕ)
    → n < 64
    → count_zeros (suc fuel) x n ≡ (if b_n x n then n else count_zeros fuel x (n + 1))
unfolding count_zeros
count_step fuel x n high = ground (arith, high)

count_zeros-IsCount :
    (fuel x n : ℕ)
    → fuel + n ≡ 64
    → 32 ≤ n
    → u32 x < 2 ^ (64 - n)
    → IsCount (u32 x) (count_zeros fuel x n - 32) × (32 ≤ count_zeros fuel x n)
unfolding count_zeros
count_zeros-IsCount zero x n total low small =
    let end : n ≡ 64 = omega (arith, total) in
    subst (λ (m : ℕ). IsCount (u32 x) (m - 32) × (32 ≤ m)) (sym end)
      (
        (omega arith, ground (arith, small, end), inl (ground (arith, small, end), omega arith)),
        omega arith,
      )
count_zeros-IsCount (suc fuel) x n total low small =
    let high : n < 64 = omega (arith, total) in
    let width : 64 - n ≡ suc (63 - n) = omega (arith, high) in
    let digit = b_n-bit x n high low in
    elim (Bool-cases (b_n x n)) [
      | inl on ↦
          let found : count_zeros (suc fuel) x n ≡ n =
            count_step fuel x n high
            ∙ ap (λ (b : Bool). if b then n else count_zeros fuel x (n + 1)) on in
          subst (λ (m : ℕ). IsCount (u32 x) (m - 32) × (32 ≤ m)) (sym found)
            (
              (
                omega (arith, high, low),
                subst (λ (m : ℕ). u32 x < 2 ^ m) (omega (arith, low, high)) small,
                inr (
                    subst (λ (m : ℕ). 2 ^ m ≤ u32 x) (omega (arith, low, high))
                      (one-le (63 - n) (u32 x) (sym digit ∙ on))),
              ),
              low,
            )
      | inr off ↦
          let passed : count_zeros (suc fuel) x n ≡ count_zeros fuel x (n + 1) =
            count_step fuel x n high
            ∙ ap (λ (b : Bool). if b then n else count_zeros fuel x (n + 1)) off in
          let smaller : u32 x < 2 ^ (64 - (n + 1)) =
            subst (λ (m : ℕ). u32 x < 2 ^ m) (omega (arith, high))
              (drop_zero (63 - n) (u32 x) (subst (λ (m : ℕ). u32 x < 2 ^ m) width small)
                (sym digit ∙ off)) in
          subst (λ (m : ℕ). IsCount (u32 x) (m - 32) × (32 ≤ m)) (sym passed)
            (count_zeros-IsCount fuel x (n + 1) (omega (arith, total)) (omega (arith, low)) smaller)
    ]

-- cntlzw writes the number of zeros before the first one of the low 32 digits, 32 if there is none; so does its
-- form with a dot.
pub cntlzw-IsCount :
    (a r : ℕ) (s : Core)
    → All (λ (t : Core). IsCount (u32 (s.gpr r)) (t.gpr a)) (cntlzw a r s ∷ cntlzw_dot a r s ∷ [])
unfolding cntlzw cntlzw_dot rtl set_reg put_cr0_v
cntlzw-IsCount a r s =
    let count = (count_zeros-IsCount 32 (s.gpr r) 32 refl (omega arith) (omega arith)).0 in
    let own : count_zeros 32 (s.gpr r) 32 - 32
        ≡ (if a == a then count_zeros 32 (s.gpr r) 32 - 32 else s.gpr a) =
      ground arith in
    let p = subst (IsCount (u32 (s.gpr r))) own count in (p, (p, tt))
