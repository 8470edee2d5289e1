-- ===== src/Base/Words.antt =====
-- Words of C: shifts, complements and masks of a field, with the arithmetic that they come to.
use Prim.Native.Nat.{ℕ, ◌+◌, ◌-◌, ◌*◌, ◌/◌, ◌%◌, ◌^◌, ◌≤◌, ◌<◌}
use Prim.Native.Nat.{bit_and, bit_or}
use mathlib.Core.Path.{◌≡◌, ap, ◌∙◌}
use native.Mathlib.Omega.{arith}
use native.Mathlib.Nat.{pow-le-pow_right, mul-add-div_right, div-eq_of_lt, mod_def}
use package.ppcsimbooke.Base.Tests.{ltb, if◌then◌else◌}
use package.ppcsimbooke.Base.Bits.{
  bit, bit_ext, bit-bit_and, bit-bit_or, bit-div, bit-mul, bit-mod, bit_mask, bit-complement,
  bit_of_lt, lt_of_bits, two_pow_pos, bit_le_one, zero-bit,
}

abbrev pub u8 : ℕ → ℕ
u8 x = x % 2 ^ 8

abbrev pub u16 : ℕ → ℕ
u16 x = x % 2 ^ 16

abbrev pub u32 : ℕ → ℕ
u32 x = x % 2 ^ 32

abbrev pub u64 : ℕ → ℕ
u64 x = x % 2 ^ 64

-- `~x` of a word of 32 or of 64 bits.
abbrev pub not32 : ℕ → ℕ
not32 x = 2 ^ 32 - 1 - x

abbrev pub not64 : ℕ → ℕ
not64 x = 2 ^ 64 - 1 - x

infixl 75 ◌<<<◌ ◌>>>◌
abbrev pub ◌<<<◌ : ℕ → ℕ → ℕ
x <<< k = x * 2 ^ k

abbrev pub ◌>>>◌ : ℕ → ℕ → ℕ
x >>> k = x / 2 ^ k

-- w ones, s places up.
abbrev pub field_mask : ℕ → ℕ → ℕ
field_mask w s = (2 ^ w - 1) * 2 ^ s

pub bit-field_mask :
    (w s i : ℕ) → bit (field_mask w s) i ≡ (if ltb i s then 0 else if ltb i (s + w) then 1 else 0)
bit-field_mask w s i = ground (arith, bit-mul s (2 ^ w - 1) i, bit_mask w (i - s))

pub bit_and-low : (w a : ℕ) → bit_and a (2 ^ w - 1) ≡ a % 2 ^ w
bit_and-low w a =
    bit_ext _ _
      λ i. ground (arith, bit-bit_and a (2 ^ w - 1) i, bit_mask w i, bit-mod w a i, bit_le_one a i)

pub bit-div_sub : (s a i : ℕ) → s ≤ i → bit (a / 2 ^ s) (i - s) ≡ bit a i
bit-div_sub s a i h = bit-div s a (i - s) ∙ ap (bit a) (omega arith)

-- What `src & mask` keeps of a field.
pub bit_and-field : (w s a : ℕ) → bit_and a (field_mask w s) ≡ a / 2 ^ s % 2 ^ w * 2 ^ s
bit_and-field w s a = bit_ext _ _ λ i. ground (
  arith,
  bit-bit_and a (field_mask w s) i,
  bit-field_mask w s i,
  bit-mul s (a / 2 ^ s % 2 ^ w) i,
  bit-mod w (a / 2 ^ s) (i - s),
  bit-div_sub s a i,
  bit_le_one a i,
)

-- `a & ~(2^k - 1)` rounds a word down to a multiple of 2^k.
pub bit_and-high :
    (n k a : ℕ) → k ≤ n → a < 2 ^ n → bit_and a (2 ^ n - 1 - (2 ^ k - 1)) ≡ a / 2 ^ k * 2 ^ k
bit_and-high n k a h p =
    let fits : 2 ^ k - 1 < 2 ^ n =
      omega (arith, pow-le-pow_right {n = 2} (omega arith) h, two_pow_pos n) in
    bit_ext _ _ λ i. ground (
      arith,
      bit-bit_and a (2 ^ n - 1 - (2 ^ k - 1)) i,
      bit-complement n (2 ^ k - 1) i fits,
      bit_mask k i,
      bit-mul k (a / 2 ^ k) i,
      bit-div_sub k a i,
      bit_le_one a i,
      bit_of_lt n a i p,
    )

-- A number by its high and its low digits.
bit_split : (k a i : ℕ) → bit a i ≡ (if ltb i k then bit (a % 2 ^ k) i else bit (a / 2 ^ k) (i - k))
bit_split k a i = ground (arith, bit-mod k a i, bit-div_sub k a i)

pub bit_or-add : (k q r : ℕ) → r < 2 ^ k → bit_or (q * 2 ^ k) r ≡ q * 2 ^ k + r
bit_or-add k q r h =
    let pos = two_pow_pos k in
    let high : (q * 2 ^ k + r) / 2 ^ k ≡ q =
      mul-add-div_right pos q r ∙ omega (arith, div-eq_of_lt h) in
    let low : (q * 2 ^ k + r) % 2 ^ k ≡ r =
      omega (arith, mod_def (q * 2 ^ k + r) (2 ^ k), ap (λ (t : ℕ). 2 ^ k * t) high) in
    bit_ext _ _ λ i. ground (
      arith,
      bit-bit_or (q * 2 ^ k) r i,
      bit-mul k q i,
      bit_split k (q * 2 ^ k + r) i,
      ap (λ (t : ℕ). bit t i) low,
      ap (λ (t : ℕ). bit t (i - k)) high,
      bit_of_lt k r i h,
    )

pub bit_or-zero : (a : ℕ) → bit_or a 0 ≡ a
bit_or-zero a = bit_ext _ _ λ i. omega (arith, bit-bit_or a 0 i, zero-bit i)

pub bit_or-lt : (w a b : ℕ) → a < 2 ^ w → b < 2 ^ w → bit_or a b < 2 ^ w
bit_or-lt w a b p q =
    lt_of_bits w _ λ i h. omega (arith, bit-bit_or a b i, bit_of_lt w a i p h, bit_of_lt w b i q h)

pub bit_and_le : (w a b : ℕ) → a < 2 ^ w → bit_and a b < 2 ^ w
bit_and_le w a b p = lt_of_bits w _ λ i h. omega (arith, bit-bit_and a b i, bit_of_lt w a i p h)
