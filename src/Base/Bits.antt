-- ===== src/Base/Bits.antt =====
-- Bit operations at variables, by the digit at each position: two numbers with the same digits
-- are equal, and the digits of `&`, `|`, shifts, masks and remainders are known.
mod Digits
pub use Digits.*
use Prim.Native.Nat.{ℕ, zero, suc, ◌+◌, ◌-◌, ◌*◌, ◌/◌, ◌%◌, ◌^◌, ◌≤◌, ◌<◌, min, max}
use Prim.Native.Nat.{bit_and, bit_or, bit_xor, differ}
use mathlib.Core.Path.{◌≡◌, refl, ap, ◌∙◌, sym}
use native.Mathlib.Omega.{arith}
use native.Mathlib.Nat.{
  pow-suc, one-le-pow, div-div-eq-div-mul, mod_def, mul-div-le, mul-one, sub-zero,
}
use package.ppcsimbooke.Base.Tests.{ltb, if◌then◌else◌, ◌==◌}

pub two_pow_suc : (s : ℕ) → 2 ^ suc s ≡ 2 * 2 ^ s
two_pow_suc s = omega (arith, pow-suc 2 s)

pub mul-two_pow_suc : (a s : ℕ) → a * 2 ^ suc s ≡ 2 * (a * 2 ^ s)
mul-two_pow_suc a s = omega (arith, ap (λ (t : ℕ). a * t) (two_pow_suc s))

pub two_pow_pos : (s : ℕ) → 1 ≤ 2 ^ s
two_pow_pos s = one-le-pow s 2 (omega arith)

-- Shifting right by one more place halves first.
pub div-two_pow_suc : (a s : ℕ) → a / 2 ^ suc s ≡ a / 2 / 2 ^ s
div-two_pow_suc a s = rw (two_pow_suc s) (sym (div-div-eq-div-mul a 2 (2 ^ s)))

pub mod-two_pow_suc : (a s : ℕ) → a % 2 ^ suc s ≡ a / 2 % 2 ^ s * 2 + a % 2
mod-two_pow_suc a s = omega (
  arith,
  mod_def a (2 ^ suc s),
  mod_def (a / 2) (2 ^ s),
  div-two_pow_suc a s,
  two_pow_suc s,
  ap (λ (t : ℕ). t * (a / 2 ^ suc s)) (two_pow_suc s),
  ap (λ (t : ℕ). 2 ^ s * t) (div-two_pow_suc a s),
  mul-div-le (a / 2) (2 ^ s),
)

pub bit-div : (s a i : ℕ) → bit (a / 2 ^ s) i ≡ bit a (i + s)
bit-div zero a i = ap (λ (t : ℕ). bit t i) (omega arith) ∙ ap (bit a) (omega arith)
bit-div (suc s) a i =
    rw (div-two_pow_suc a s)
      (bit-div s (a / 2) i ∙ sym (bit-suc a (i + s)) ∙ ap (bit a) (omega arith))

pub bit-mul : (s a i : ℕ) → bit (a * 2 ^ s) i ≡ (if ltb i s then 0 else bit a (i - s))
bit-mul zero a i = ground (arith, ap (λ (t : ℕ). bit t i) (mul-one a), sub-zero i)
bit-mul (suc s) a zero = ground (arith, bit-zero (a * 2 ^ suc s), mul-two_pow_suc a s)
bit-mul (suc s) a (suc i) =
    let halved : a * 2 ^ suc s / 2 ≡ a * 2 ^ s = omega (arith, mul-two_pow_suc a s) in
    ground (arith, bit-suc (a * 2 ^ suc s) i, halved, bit-mul s a i)

pub bit-mod : (w a i : ℕ) → bit (a % 2 ^ w) i ≡ (if ltb i w then bit a i else 0)
bit-mod zero a i = ground (arith, zero-bit i)
bit-mod (suc w) a zero = ground (arith, bit-zero (a % 2 ^ suc w), bit-zero a, mod-two_pow_suc a w)
bit-mod (suc w) a (suc i) =
    let halved : a % 2 ^ suc w / 2 ≡ a / 2 % 2 ^ w = omega (arith, mod-two_pow_suc a w) in
    ground (arith, bit-suc (a % 2 ^ suc w) i, bit-suc a i, halved, bit-mod w (a / 2) i)

-- A mask of w ones.
pub bit_mask : (w i : ℕ) → bit (2 ^ w - 1) i ≡ (if ltb i w then 1 else 0)
bit_mask zero i = ground (arith, zero-bit i)
bit_mask (suc w) zero = ground (arith, bit-zero (2 ^ suc w - 1), two_pow_suc w, two_pow_pos w)
bit_mask (suc w) (suc i) =
    let halved : (2 ^ suc w - 1) / 2 ≡ 2 ^ w - 1 = omega (arith, two_pow_suc w, two_pow_pos w) in
    ground (arith, bit-suc (2 ^ suc w - 1) i, halved, bit_mask w i)

-- The complement of a word of w bits.
pub bit-complement :
    (w a i : ℕ) → a < 2 ^ w → bit (2 ^ w - 1 - a) i ≡ (if ltb i w then 1 - bit a i else 0)
bit-complement zero a i h = ground (arith, zero-bit i)
bit-complement (suc w) a zero h =
    ground (arith, bit-zero (2 ^ suc w - 1 - a), bit-zero a, two_pow_suc w)
bit-complement (suc w) a (suc i) h =
    let halved : (2 ^ suc w - 1 - a) / 2 ≡ 2 ^ w - 1 - a / 2 = omega (arith, two_pow_suc w) in
    ground (
      arith,
      bit-suc (2 ^ suc w - 1 - a) i,
      bit-suc a i,
      halved,
      two_pow_suc w,
      bit-complement w (a / 2) i (omega (arith, two_pow_suc w)),
    )

-- A word of w bits has no digit from w on.
pub bit_of_lt : (w a i : ℕ) → a < 2 ^ w → w ≤ i → bit a i ≡ 0
bit_of_lt zero a i h p = ground (arith, zero-bit i)
bit_of_lt (suc w) a zero h p = absurd (omega arith)
bit_of_lt (suc w) a (suc i) h p =
    rw (bit-suc a i) (bit_of_lt w (a / 2) i (omega (arith, two_pow_suc w)) (omega arith))

pub lt_of_bits : (w a : ℕ) → ((i : ℕ) → w ≤ i → bit a i ≡ 0) → a < 2 ^ w
lt_of_bits zero a h =
    let e : a ≡ 0 = bit_ext a 0 (λ i. h i (omega arith) ∙ sym (zero-bit i)) in omega arith
lt_of_bits (suc w) a h = omega (
  arith,
  two_pow_suc w,
  lt_of_bits w (a / 2) (λ i p. sym (bit-suc a i) ∙ h (suc i) (omega arith)),
)

-- `^` by a test of the two digits.
pub bit_xor-test : (a b i : ℕ) → bit (bit_xor a b) i ≡ (if bit a i == bit b i then 0 else 1)
bit_xor-test a b i = bit-bit_xor a b i ∙ go (bit a i) (bit b i) (bit_le_one a i) (bit_le_one b i)
  where
    go : (p q : ℕ) → p ≤ 1 → q ≤ 1 → differ p q ≡ (if p == q then 0 else 1)
    go zero zero u v = refl
    go zero (suc zero) u v = refl
    go (suc zero) zero u v = refl
    go (suc zero) (suc zero) u v = refl
    go (suc (suc p)) q u v = absurd (omega (arith, u))
    go zero (suc (suc q)) u v = absurd (omega (arith, v))
    go (suc zero) (suc (suc q)) u v = absurd (omega (arith, v))
