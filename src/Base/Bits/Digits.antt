-- ===== src/Base/Bits/Digits.antt =====
-- The binary digit at a position, and what the native bit operations do to each digit.
use Prim.Native.Nat.{ℕ, zero, suc, ◌+◌, ◌*◌, ◌/◌, ◌%◌, ◌≤◌, min, max, digits, differ}
use Prim.Native.Nat.{bit_and, bit_or, bit_xor, bit_and-bitwise, bit_or-bitwise, bit_xor-bitwise}
use mathlib.Core.Path.{◌≡◌, refl}
use native.Mathlib.Omega.{arith}

-- The digit at position i, the lowest at 0.
pub bit : ℕ → ℕ → ℕ
bit a zero = a % 2
bit a (suc i) = bit (a / 2) i

pub bit-zero : (a : ℕ) → bit a 0 ≡ a % 2
unfolding bit
bit-zero a = refl

pub bit-suc : (a i : ℕ) → bit a (suc i) ≡ bit (a / 2) i
unfolding bit
bit-suc a i = refl

pub bit_le_one : (a i : ℕ) → bit a i ≤ 1
unfolding bit
bit_le_one a zero = omega arith
bit_le_one a (suc i) = bit_le_one (a / 2) i

pub zero-bit : (i : ℕ) → bit 0 i ≡ 0
unfolding bit
zero-bit zero = refl
zero-bit (suc i) = zero-bit i

-- Any operation on digits acts on each position by itself, if `z` does what it does against 0.
module _ (z : ℕ → ℕ) (f : ℕ → ℕ → ℕ) (against_zero : (b i : ℕ) → bit (z b) i ≡ f 0 (bit b i))
    (on_digits : (x y : ℕ) → x ≤ 1 → y ≤ 1 → f x y ≤ 1) where
  bit-digits : (i n a b : ℕ) → a ≤ n → bit (digits z f n a b) i ≡ f (bit a i) (bit b i)
  unfolding bit
  bit-digits i zero zero b h = rw (zero-bit i) (against_zero b i)
  bit-digits i zero (suc a) b h = absurd (omega arith)
  bit-digits i (suc n) zero b h = rw (zero-bit i) (against_zero b i)
  bit-digits zero (suc n) (suc a) b h =
      omega (arith, on_digits (suc a % 2) (b % 2) (omega arith) (omega arith))
  bit-digits (suc i) (suc n) (suc a) b h =
      let low = on_digits (suc a % 2) (b % 2) (omega arith) (omega arith) in
      let rest = digits z f n (suc a / 2) (b / 2) in
      let halved : (rest * 2 + f (suc a % 2) (b % 2)) / 2 ≡ rest = omega arith in
      rw halved (bit-digits i n (suc a / 2) (b / 2) (omega arith))

pub bit-bit_and : (a b i : ℕ) → bit (bit_and a b) i ≡ min (bit a i) (bit b i)
bit-bit_and a b i = rw bit_and-bitwise (
    bit-digits (λ _. 0) min (λ b i. rw (zero-bit i) (omega arith)) (λ x y p q. omega arith) i a a b
      (omega arith))

pub bit-bit_or : (a b i : ℕ) → bit (bit_or a b) i ≡ max (bit a i) (bit b i)
bit-bit_or a b i =
    rw bit_or-bitwise
      (bit-digits (λ b. b) max (λ b i. omega arith) (λ x y p q. omega arith) i a a b (omega arith))

differ_digits : (x y : ℕ) → x ≤ 1 → y ≤ 1 → differ x y ≤ 1
differ_digits zero y p q = q
differ_digits (suc x) zero p q = p
differ_digits (suc zero) (suc y) p q = omega arith
differ_digits (suc (suc x)) (suc y) p q = absurd (omega arith)

pub bit-bit_xor : (a b i : ℕ) → bit (bit_xor a b) i ≡ differ (bit a i) (bit b i)
bit-bit_xor a b i =
    rw bit_xor-bitwise
      (bit-digits (λ b. b) differ (λ b i. refl) differ_digits i a a b (omega arith))

bit_ext_below : (n a b : ℕ) → a ≤ n → b ≤ n → ((i : ℕ) → bit a i ≡ bit b i) → a ≡ b
bit_ext_below zero a b p q h = omega arith
bit_ext_below (suc n) a b p q h =
    let low : a % 2 ≡ b % 2 = unfold bit in h 0 in
    let rest : a / 2 ≡ b / 2 =
      bit_ext_below n (a / 2) (b / 2) (omega arith) (omega arith) (λ i. unfold bit in h (suc i)) in
    omega arith

-- Numbers with the same digits are equal.
pub bit_ext : (a b : ℕ) → ((i : ℕ) → bit a i ≡ bit b i) → a ≡ b
bit_ext a b h = bit_ext_below (a + b) a b (omega arith) (omega arith) h
