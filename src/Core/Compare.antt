-- ===== src/Core/Compare.antt =====
-- The comparisons of sim/src/cpu_ppc_instr.cc. `crd` is the number of a field of CR, `l` the size.
pub mod Order
use ppcsimbooke.Base.{
  ℕ, ◌+◌, ◌-◌, ◌*◌, ◌^◌, ◌%◌, Bool, true, false, ltb, ◌==◌, if◌then◌else◌, u32, u64, bit_and,
  bit_or, ◌<<<◌,
}
use ppcsimbooke.Regs.{update_crf_field}
use ppcsimbooke.Core.{Core, rtl, sign_exts, so}

-- `x < y` of two int64_t: the sign bit counts negative.
unfoldable pub less_signed : ℕ → ℕ → Bool
less_signed x y = ltb (u64 (x + 2 ^ 63)) (u64 (y + 2 ^ 63))

-- c, then `crX = (c << 1) | GET_SO()` and `update_crF(crD, crX)`; less and more are a < b and a > b.
unfoldable pub put_order : ℕ → Bool → Bool → Core → Core
put_order crd less more s =
    let c = if less then 0x4 else if more then 0x2 else 0x1 in
    record s { cond = update_crf_field crd (bit_or (c <<< 1) (so s)) s.cond }

-- EXTS_W2D(B_32_63(x)), or x itself, and the same without the sign.
unfoldable pub signed_operand : ℕ → ℕ → ℕ
signed_operand l x = if l == 0 then sign_exts 64 32 (u32 (bit_and x 0xffff_ffff)) else x

unfoldable pub operand : ℕ → ℕ → ℕ
operand l x = if l == 0 then u32 (bit_and x 0xffff_ffff) else x

unfoldable pub cmp : ℕ → ℕ → ℕ → ℕ → Core → Core
cmp crd l a b = rtl λ s.
    let x = signed_operand l (s.gpr a) in
    let y = signed_operand l (s.gpr b) in put_order crd (less_signed x y) (less_signed y x) s

unfoldable pub cmpi : ℕ → ℕ → ℕ → ℕ → Core → Core
cmpi crd l a imm = rtl λ s.
    let x = signed_operand l (s.gpr a) in
    let y = sign_exts 64 16 imm in put_order crd (less_signed x y) (less_signed y x) s

unfoldable pub cmpl : ℕ → ℕ → ℕ → ℕ → Core → Core
cmpl crd l a b = rtl λ s.
    let x = operand l (s.gpr a) in
    let y = operand l (s.gpr b) in put_order crd (ltb x y) (ltb y x) s

unfoldable pub cmpli : ℕ → ℕ → ℕ → ℕ → Core → Core
cmpli crd l a imm = rtl λ s. let x = operand l (s.gpr a) in put_order crd (ltb x imm) (ltb imm x) s
