-- ===== src/Core/Host.antt =====
-- The x86 instructions that the inline assembly of sim/src/utils.h names: their results and flags
-- are a parameter, with their documented behaviour as laws. Operands and results have 32 bits.
use ppcsimbooke.Base.{
  ℕ, ◌+◌, ◌-◌, ◌*◌, ◌/◌, ◌^◌, ◌<◌, ◌≡◌, bit_and, bit_or, bit_xor, Bool, false, ltb, leb, ◌==◌, ◌&&◌,
  not, u32, u64, if◌then◌else◌,
}
use ppcsimbooke.Regs.{X86Flags, widen_int}
use ppcsimbooke.Regs.Flags.{host_flags}
use ppcsimbooke.Core.{Core, set_reg}

-- `mul` and `imul` give the low and the high half of the product.
pub record Host : Type 0 where
  pub add : ℕ → ℕ → ℕ × X86Flags
  pub and : ℕ → ℕ → ℕ × X86Flags
  pub or : ℕ → ℕ → ℕ × X86Flags
  pub xor : ℕ → ℕ → ℕ × X86Flags
  pub neg : ℕ → ℕ × X86Flags
  pub mul : ℕ → ℕ → ℕ × ℕ × X86Flags
  pub imul : ℕ → ℕ → ℕ × ℕ × X86Flags

-- Whether a sum of two words of 32 bits overflows as a sum of signed words.
abbrev pub overflow : ℕ → ℕ → Bool
overflow x y =
    let v = u32 (x + y) in
    if leb (2 ^ 31) x then leb (2 ^ 31) y && ltb v (2 ^ 31) else ltb y (2 ^ 31) && leb (2 ^ 31) v

-- The product of two signed words, as a word of 64 bits.
abbrev pub signed_product : ℕ → ℕ → ℕ
unfolding widen_int
signed_product x y = u64 (widen_int x * widen_int y)

-- The documented behaviour. ZF and SF are undefined after a multiplication.
pub record IsX86 (h : Host) : Type 0 where
  pub add_law :
      (x y : ℕ)
      → x < 2 ^ 32
      → y < 2 ^ 32
      → h.add x y ≡ (u32 (x + y), host_flags (u32 (x + y)) (overflow x y) (leb (2 ^ 32) (x + y)))
  pub and_law :
      (x y : ℕ)
      → x < 2 ^ 32
      → y < 2 ^ 32
      → h.and x y ≡ (bit_and x y, host_flags (bit_and x y) false false)
  pub or_law :
      (x y : ℕ)
      → x < 2 ^ 32
      → y < 2 ^ 32
      → h.or x y ≡ (bit_or x y, host_flags (bit_or x y) false false)
  pub xor_law :
      (x y : ℕ)
      → x < 2 ^ 32
      → y < 2 ^ 32
      → h.xor x y ≡ (bit_xor x y, host_flags (bit_xor x y) false false)
  pub neg_law :
      (x : ℕ)
      → x < 2 ^ 32
      → h.neg x ≡ (u32 (2 ^ 32 - x), host_flags (u32 (2 ^ 32 - x)) (x == 2 ^ 31) (not (x == 0)))
  pub mul_law :
      (x y : ℕ)
      → x < 2 ^ 32
      → y < 2 ^ 32
      → ((h.mul x y).0 ≡ u32 (x * y)) × ((h.mul x y).1 ≡ x * y / 2 ^ 32)
  pub imul_law :
      (x y : ℕ)
      → x < 2 ^ 32
      → y < 2 ^ 32
      → ((h.imul x y).0 ≡ u32 (signed_product x y))
        × ((h.imul x y).1 ≡ signed_product x y / 2 ^ 32)
        × ((h.imul x y).2.of ≡ not (widen_int (u32 (signed_product x y)) == signed_product x y))

-- rD = X86_ADDW(x, y): the words are cut to an int32_t, and the result is extended with its sign.
unfoldable pub add_code : Host → ℕ → ℕ → ℕ → Core → Core
add_code h d x y s =
    let r = h.add (u32 x) (u32 y) in set_reg d (widen_int r.0) (record s { hf = r.1 })

-- rA = X86_ANDW(x, y), X86_ORW and X86_XORW: over uint32_t.
unfoldable pub and_code : Host → ℕ → ℕ → ℕ → Core → Core
and_code h d x y s = let r = h.and (u32 x) (u32 y) in set_reg d r.0 (record s { hf = r.1 })

unfoldable pub or_code : Host → ℕ → ℕ → ℕ → Core → Core
or_code h d x y s = let r = h.or (u32 x) (u32 y) in set_reg d r.0 (record s { hf = r.1 })

unfoldable pub xor_code : Host → ℕ → ℕ → ℕ → Core → Core
xor_code h d x y s = let r = h.xor (u32 x) (u32 y) in set_reg d r.0 (record s { hf = r.1 })

unfoldable pub neg_code : Host → ℕ → ℕ → Core → Core
neg_code h d x s = let r = h.neg (u32 x) in set_reg d r.0 (record s { hf = r.1 })

-- X86_MULW_H, X86_MULW_L and X86_MULUW_H.
unfoldable pub mulhw_code : Host → ℕ → ℕ → ℕ → Core → Core
mulhw_code h d x y s =
    let r = h.imul (u32 x) (u32 y) in set_reg d (widen_int r.1) (record s { hf = r.2 })

unfoldable pub mullw_code : Host → ℕ → ℕ → ℕ → Core → Core
mullw_code h d x y s =
    let r = h.imul (u32 x) (u32 y) in set_reg d (widen_int r.0) (record s { hf = r.2 })

unfoldable pub mulhwu_code : Host → ℕ → ℕ → ℕ → Core → Core
mulhwu_code h d x y s = let r = h.mul (u32 x) (u32 y) in set_reg d r.1 (record s { hf = r.2 })
