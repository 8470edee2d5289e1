-- ===== src/Core/Rotate.antt =====
-- The rotations and shifts of sim/src/cpu_ppc_instr.cc, on `rotl` of sim/src/utils.h.
pub mod Turn
pub mod Shift
pub mod Signed
use ppcsimbooke.Base.{
  ℕ, ◌+◌, ◌-◌, ◌*◌, ◌^◌, ◌%◌, ◌/◌, ◌≡◌, ◌<◌, Bool, true, false, ◌==◌, if◌then◌else◌, u8, u32, u64,
  not64, bit_and, bit_or, truthy, ◌>>>◌, ◌&&◌, not,
}
use ppcsimbooke.Utils.{gen_bmask_rng}
use ppcsimbooke.Core.{Core, rtl, ◌▷◌, set_reg, put_ca_v, put_cr0_v}

-- The shifts of a uint32_t by an int, as the host does them. C++ leaves a count that is negative or above 31 undefined,
-- and `rotl` has such counts; the host takes the count modulo 32, which is its law.
pub record Shifts : Type 0 where
  pub shl : ℕ → ℕ → ℕ
  pub shr : ℕ → ℕ → ℕ

pub record IsMasked (h : Shifts) : Type 0 where
  pub shl_law : (x n : ℕ) → x < 2 ^ 32 → h.shl x n ≡ u32 (x * 2 ^ (n % 32))
  pub shr_law : (x n : ℕ) → x < 2 ^ 32 → h.shr x n ≡ x / 2 ^ (n % 32)

-- rotl<uint32_t>; the second count is a size_t. And ROTL32(B_32_63(x), n).
unfoldable pub rotl : Shifts → ℕ → ℕ → ℕ
rotl h n x = bit_or (h.shl n x) (h.shr n (u64 (32 + (2 ^ 64 - x))))

unfoldable pub rotl32 : Shifts → ℕ → ℕ → ℕ
rotl32 h x n = rotl h (u32 (bit_and x 0xffff_ffff)) (u32 n)

-- MASK(MB + 32, ME + 32)
unfoldable pub mask : ℕ → ℕ → ℕ
mask mb me = gen_bmask_rng (mb + 32) (me + 32)

unfoldable pub rlwimi_code : Shifts → ℕ → ℕ → ℕ → ℕ → ℕ → Core → Core
rlwimi_code h a r sh mb me s =
    let t = rotl32 h (s.gpr r) (bit_and sh 0x1f) in
    let m = mask mb me in set_reg a (bit_or (bit_and t m) (bit_and (s.gpr a) (not64 m))) s

unfoldable pub rlwimi : Shifts → ℕ → ℕ → ℕ → ℕ → ℕ → Core → Core
rlwimi h a r sh mb me = rtl (rlwimi_code h a r sh mb me)

-- UPDATE_CR0_V(UT(REG0))
unfoldable pub put_cr0_of : ℕ → Core → Core
put_cr0_of a s = put_cr0_v (u32 (s.gpr a)) s

unfoldable pub rlwimi_dot : Shifts → ℕ → ℕ → ℕ → ℕ → ℕ → Core → Core
rlwimi_dot h a r sh mb me = rtl (rlwimi_code h a r sh mb me ▷ put_cr0_of a)

-- The body of rlwinm, and of rlwnm with the count from a register.
unfoldable pub rlwinm_code : Shifts → ℕ → ℕ → ℕ → ℕ → ℕ → Core → Core
rlwinm_code h a r sh mb me s =
    let t = rotl32 h (s.gpr r) (bit_and sh 0x1f) in set_reg a (bit_and t (mask mb me)) s

unfoldable pub rlwinm : Shifts → ℕ → ℕ → ℕ → ℕ → ℕ → Core → Core
rlwinm h a r sh mb me = rtl (rlwinm_code h a r sh mb me)

unfoldable pub rlwinm_dot : Shifts → ℕ → ℕ → ℕ → ℕ → ℕ → Core → Core
rlwinm_dot h a r sh mb me = rtl (rlwinm_code h a r sh mb me ▷ put_cr0_of a)

unfoldable pub rlwnm : Shifts → ℕ → ℕ → ℕ → ℕ → ℕ → Core → Core
rlwnm h a r b mb me = rtl λ s. rlwinm_code h a r (s.gpr b) mb me s

unfoldable pub rlwnm_dot : Shifts → ℕ → ℕ → ℕ → ℕ → ℕ → Core → Core
rlwnm_dot h a r b mb me = rtl ((λ s. rlwinm_code h a r (s.gpr b) mb me s) ▷ put_cr0_of a)

-- rB_58: the bit above the count.
unfoldable pub rb_58 : ℕ → ℕ
rb_58 x = u8 (bit_and (x >>> 5) 0x1)

unfoldable pub slw_code : Shifts → ℕ → ℕ → ℕ → Core → Core
slw_code h a r b s =
    let n = bit_and (s.gpr b) 0x1f in
    let t = rotl32 h (s.gpr r) n in
    let m = if rb_58 (s.gpr b) == 0 then gen_bmask_rng 32 (63 - n) else 0 in
    set_reg a (bit_and t m) s

unfoldable pub slw : Shifts → ℕ → ℕ → ℕ → Core → Core
slw h a r b = rtl (slw_code h a r b)

unfoldable pub slw_dot : Shifts → ℕ → ℕ → ℕ → Core → Core
slw_dot h a r b = rtl (slw_code h a r b ▷ put_cr0_of a)

-- The result of sraw and srawi for the count n and the mask m, with its CA.
unfoldable pub sra_code : Shifts → ℕ → ℕ → ℕ → ℕ → Core → Core
sra_code h a r n m s =
    let t = rotl32 h (s.gpr r) (64 - n) in
    let sign = truthy (bit_and (s.gpr r >>> 31) 0x1) in
    put_ca_v (sign && not (u32 (bit_and (bit_and t (not64 m)) 0xffff_ffff) == 0)) (
      set_reg a
        (bit_or (bit_and t m) (bit_and (if sign then 0xffff_ffff_ffff_ffff else 0) (not64 m))) s)

unfoldable pub sraw_code : Shifts → ℕ → ℕ → ℕ → Core → Core
sraw_code h a r b s =
    let n = bit_and (s.gpr b) 0x1f in
    sra_code h a r n (if rb_58 (s.gpr b) == 0 then gen_bmask_rng (n + 32) 63 else 0) s

unfoldable pub sraw : Shifts → ℕ → ℕ → ℕ → Core → Core
sraw h a r b = rtl (sraw_code h a r b)

unfoldable pub sraw_dot : Shifts → ℕ → ℕ → ℕ → Core → Core
sraw_dot h a r b = rtl (sraw_code h a r b ▷ put_cr0_of a)

unfoldable pub srawi_code : Shifts → ℕ → ℕ → ℕ → Core → Core
srawi_code h a r sh s = let n = bit_and sh 0x1f in sra_code h a r n (gen_bmask_rng (n + 32) 63) s

unfoldable pub srawi : Shifts → ℕ → ℕ → ℕ → Core → Core
srawi h a r sh = rtl (srawi_code h a r sh)

unfoldable pub srawi_dot : Shifts → ℕ → ℕ → ℕ → Core → Core
srawi_dot h a r sh = rtl (srawi_code h a r sh ▷ put_cr0_of a)

unfoldable pub srw_code : Shifts → ℕ → ℕ → ℕ → Core → Core
srw_code h a r b s =
    let n = bit_and (s.gpr b) 0x1f in
    let t = rotl32 h (s.gpr r) (64 - n) in
    let m = if rb_58 (s.gpr b) == 0 then gen_bmask_rng (n + 32) 63 else 0 in
    set_reg a (bit_and t m) s

unfoldable pub srw : Shifts → ℕ → ℕ → ℕ → Core → Core
srw h a r b = rtl (srw_code h a r b)

unfoldable pub srw_dot : Shifts → ℕ → ℕ → ℕ → Core → Core
srw_dot h a r b = rtl (srw_code h a r b ▷ put_cr0_of a)
