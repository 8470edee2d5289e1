-- ===== src/Core/Accumulator/Saturate.antt =====
-- The sums and differences of one word, against the exact numbers.
use ppcsimbooke.Base.{
  ℕ, ◌+◌, ◌-◌, ◌^◌, ◌%◌, ◌<◌, ◌≡◌, Bool, false, not, ◌&&◌, ltb, leb, if◌then◌else◌, u32, u64,
  truthy, bit_and-low, arith, ◌>>>◌, ap,
}
use ppcsimbooke.Core.{sign_exts}
use ppcsimbooke.Core.Logical.{b_n}
use ppcsimbooke.Core.Vector.Words.{low_word}
use ppcsimbooke.Core.Accumulator.{saturate, add_ss, sub_ss, add_us, sub_us}

-- A signed word as a number from 0: the least one is 0.
abbrev pub biased : ℕ → ℕ
biased x = u32 (x + 2 ^ 31)

-- The word for t - 2 ^ 32 as a number from 0, or the nearest there is.
abbrev pub clamp : ℕ → ℕ
clamp t = if ltb t (2 ^ 32) then 0 else if ltb t (2 ^ 33) then t - 2 ^ 32 else 2 ^ 32 - 1

abbrev pub IsClamped : ℕ → ℕ × Bool → Type 0
IsClamped t r = (biased (r.0) ≡ clamp t) × (r.1 ≡ not (leb (2 ^ 32) t && ltb t (2 ^ 33)))

b_n-digit : (x n : ℕ) → b_n x n ≡ truthy ((x >>> (63 - n)) % 2)
unfolding b_n
b_n-digit x n = ap truthy (bit_and-low 1 (x >>> (63 - n)))

module _ (x y : ℕ) (word_x : x < 2 ^ 32) (word_y : y < 2 ^ 32) where
  pub add_ss-IsClamped : IsClamped (biased x + biased y + 2 ^ 31) (add_ss x y)
  unfolding add_ss sign_exts saturate
  add_ss-IsClamped =
      let tmp = u64 (sign_exts 64 32 x + sign_exts 64 32 y) in
      (
        ground (arith, b_n-digit tmp 31, b_n-digit tmp 32, low_word tmp),
        ground (arith, b_n-digit tmp 31, b_n-digit tmp 32),
      )

  pub sub_ss-IsClamped : IsClamped (biased x + 2 ^ 31 + 2 ^ 32 - biased y) (sub_ss x y)
  unfolding sub_ss sign_exts saturate
  sub_ss-IsClamped =
      let tmp = u64 (sign_exts 64 32 x + (2 ^ 64 - sign_exts 64 32 y)) in
      (
        ground (arith, b_n-digit tmp 31, b_n-digit tmp 32, low_word tmp),
        ground (arith, b_n-digit tmp 31, b_n-digit tmp 32),
      )

  pub add_us_lem : (add_us x y).0 ≡ u32 (x + y) × (add_us x y).1 ≡ false
  unfolding add_us saturate
  add_us_lem =
      let tmp = u32 (x + y) in
      (ground (arith, b_n-digit tmp 31, low_word tmp), ground (arith, b_n-digit tmp 31))

  pub sub_us_lem : (sub_us x y).0 ≡ x - y × (sub_us x y).1 ≡ ltb x y
  unfolding sub_us saturate
  sub_us_lem =
      let tmp = u64 (x + (2 ^ 64 - y)) in
      (ground (arith, b_n-digit tmp 31, low_word tmp), ground (arith, b_n-digit tmp 31))

  pub add_ss-word : (add_ss x y).0 < 2 ^ 32
  unfolding add_ss saturate
  add_ss-word = ground (arith, low_word (u64 (sign_exts 64 32 x + sign_exts 64 32 y)))

  pub sub_ss-word : (sub_ss x y).0 < 2 ^ 32
  unfolding sub_ss saturate
  sub_ss-word = ground (arith, low_word (u64 (sign_exts 64 32 x + (2 ^ 64 - sign_exts 64 32 y))))
