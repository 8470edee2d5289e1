-- ===== src/Core/Vector.antt =====
-- The vector instructions on two words of sim/src/cpu_ppc_instr.cc that do not use the accumulator. `d` is the register
-- that is written, or for a comparison the field of CR.
pub mod Words
use ppcsimbooke.Base.{
  ℕ, zero, suc, ◌+◌, ◌-◌, ◌*◌, ◌/◌, ◌^◌, ◌%◌, Bool, true, false, ltb, ◌==◌, not, ◌&&◌,
  if◌then◌else◌, u8, u16, u32, u64, to_num, truthy, not64, bit_and, bit_or, bit_xor, ◌<<<◌, ◌>>>◌,
}
use ppcsimbooke.Regs.{get_crf, update_crf_field}
use ppcsimbooke.Core.{Core, rtl, set_reg, sign_exts}
use ppcsimbooke.Core.Logical.{b_n}
use ppcsimbooke.Core.Rotate.{Shifts, rotl32}

unfoldable pub b_0_31 : ℕ → ℕ
b_0_31 x = u32 (bit_and (x >>> 32) 0xffff_ffff)

unfoldable pub b_32_63 : ℕ → ℕ
b_32_63 x = u32 (bit_and x 0xffff_ffff)

-- PACK_2W(u, v) of two words.
unfoldable pub pack_2w : ℕ → ℕ → ℕ
pack_2w u v = bit_or (u64 (u <<< 32)) v

-- SL(value, cnt) of a word.
unfoldable pub sl : ℕ → ℕ → ℕ
sl value cnt = if ltb 31 cnt then 0 else u32 (value <<< cnt)

-- ch and cl as a field of CR.
unfoldable pub vector_code : Bool → Bool → ℕ
vector_code h l =
    let ch = to_num h in
    let cl = to_num l in
    bit_or (bit_or (bit_or (ch <<< 3) (cl <<< 2)) (bit_or ch cl <<< 1)) (bit_and ch cl)

-- `x < y` of two int32_t.
unfoldable pub less_int : ℕ → ℕ → Bool
less_int x y = ltb (u32 (x + 2 ^ 31)) (u32 (y + 2 ^ 31))

unfoldable pub put_vector_code : ℕ → Bool → Bool → Core → Core
put_vector_code d h l s = record s { cond = update_crf_field d (vector_code h l) s.cond }

-- The two loops of evcntlsw and evcntlzw, over the bits of a word from k + n; the fuel is the number of bits left.
unfoldable pub count_while : ℕ → ℕ → ℕ → ℕ → ℕ → ℕ
count_while zero sign x k n = n
count_while (suc fuel) sign x k n =
    let rest = count_while fuel sign x k (n + 1) in
    if ltb n 32 then if to_num (b_n x (n + k)) == sign then rest else n else n

unfoldable pub evaddiw : ℕ → ℕ → ℕ → Core → Core
evaddiw d a imm = rtl λ s.
    set_reg d
      (pack_2w (u32 (bit_and ((b_0_31 (s.gpr a)) + bit_and imm 0xf_ffff) 0xffff_ffff))
        (u32 (bit_and ((b_32_63 (s.gpr a)) + bit_and imm 0xf_ffff) 0xffff_ffff)))
      s

unfoldable pub evaddw : ℕ → ℕ → ℕ → Core → Core
evaddw d a b = rtl λ s.
    set_reg d
      (pack_2w (u32 (bit_and (u32 ((b_0_31 (s.gpr a)) + (b_0_31 (s.gpr b)))) 0xffff_ffff))
        (u32 (bit_and (u32 ((b_32_63 (s.gpr a)) + (b_32_63 (s.gpr b)))) 0xffff_ffff)))
      s

unfoldable pub evsubfw : ℕ → ℕ → ℕ → Core → Core
evsubfw d a b = rtl λ s.
    set_reg d
      (pack_2w (u32 ((b_0_31 (s.gpr b)) + (2 ^ 32 - (b_0_31 (s.gpr a)))))
        (u32 ((b_32_63 (s.gpr b)) + (2 ^ 32 - (b_32_63 (s.gpr a))))))
      s

unfoldable pub evsubifw : ℕ → ℕ → ℕ → Core → Core
evsubifw d imm b = rtl λ s.
    set_reg d
      (pack_2w (u32 (u64 ((b_0_31 (s.gpr b)) + (2 ^ 64 - bit_and imm 0x1f))))
        (u32 (u64 ((b_32_63 (s.gpr b)) + (2 ^ 64 - bit_and imm 0x1f)))))
      s

unfoldable pub evrndw : ℕ → ℕ → Core → Core
evrndw d a = rtl λ s.
    set_reg d
      (pack_2w (u32 (bit_and (u32 ((b_0_31 (s.gpr a)) + 0x8000)) 0xffff_0000))
        (u32 (bit_and (u32 ((b_32_63 (s.gpr a)) + 0x8000)) 0xffff_0000)))
      s

unfoldable pub evand : ℕ → ℕ → ℕ → Core → Core
evand d a b = rtl λ s. set_reg d (bit_and (s.gpr a) (s.gpr b)) s

unfoldable pub evandc : ℕ → ℕ → ℕ → Core → Core
evandc d a b = rtl λ s. set_reg d (bit_and (s.gpr a) (not64 (s.gpr b))) s

unfoldable pub evor : ℕ → ℕ → ℕ → Core → Core
evor d a b = rtl λ s. set_reg d (bit_or (s.gpr a) (s.gpr b)) s

unfoldable pub evorc : ℕ → ℕ → ℕ → Core → Core
evorc d a b = rtl λ s. set_reg d (bit_or (s.gpr a) (not64 (s.gpr b))) s

unfoldable pub evxor : ℕ → ℕ → ℕ → Core → Core
evxor d a b = rtl λ s. set_reg d (bit_xor (s.gpr a) (s.gpr b)) s

unfoldable pub eveqv : ℕ → ℕ → ℕ → Core → Core
eveqv d a b = rtl λ s. set_reg d (bit_xor (s.gpr a) (s.gpr b)) s

unfoldable pub evnand : ℕ → ℕ → ℕ → Core → Core
evnand d a b = rtl λ s. set_reg d (not64 (bit_and (s.gpr a) (s.gpr b))) s

unfoldable pub evnor : ℕ → ℕ → ℕ → Core → Core
evnor d a b = rtl λ s. set_reg d (not64 (bit_or (s.gpr a) (s.gpr b))) s

unfoldable pub evcmpeq : ℕ → ℕ → ℕ → Core → Core
evcmpeq d a b = rtl λ s.
    put_vector_code d ((b_0_31 (s.gpr a)) == (b_0_31 (s.gpr b)))
      ((b_32_63 (s.gpr a)) == (b_32_63 (s.gpr b))) s

unfoldable pub evcmpgts : ℕ → ℕ → ℕ → Core → Core
evcmpgts d a b = rtl λ s.
    put_vector_code d (less_int (b_0_31 (s.gpr b)) (b_0_31 (s.gpr a)))
      (less_int (b_32_63 (s.gpr b)) (b_32_63 (s.gpr a))) s

unfoldable pub evcmpgtu : ℕ → ℕ → ℕ → Core → Core
evcmpgtu d a b = rtl λ s.
    put_vector_code d (ltb (b_0_31 (s.gpr b)) (b_0_31 (s.gpr a)))
      (ltb (b_32_63 (s.gpr b)) (b_32_63 (s.gpr a))) s

unfoldable pub evcmplts : ℕ → ℕ → ℕ → Core → Core
evcmplts d a b = rtl λ s.
    put_vector_code d (less_int (b_0_31 (s.gpr a)) (b_0_31 (s.gpr b)))
      (less_int (b_32_63 (s.gpr a)) (b_32_63 (s.gpr b))) s

unfoldable pub evcmpltu : ℕ → ℕ → ℕ → Core → Core
evcmpltu d a b = rtl λ s.
    put_vector_code d (ltb (b_0_31 (s.gpr a)) (b_0_31 (s.gpr b)))
      (ltb (b_32_63 (s.gpr a)) (b_32_63 (s.gpr b))) s

unfoldable pub evcntlsw : ℕ → ℕ → Core → Core
evcntlsw d a = rtl λ s.
    set_reg d
      (bit_or (count_while 32 (to_num (b_n (s.gpr a) 0)) (s.gpr a) 0 0 <<< 32)
        (count_while 32 (to_num (b_n (s.gpr a) 32)) (s.gpr a) 32 0))
      s

unfoldable pub evcntlzw : ℕ → ℕ → Core → Core
evcntlzw d a = rtl λ s.
    set_reg d (bit_or (count_while 32 0 (s.gpr a) 0 0 <<< 32) (count_while 32 0 (s.gpr a) 32 0)) s

unfoldable pub evextsb : ℕ → ℕ → Core → Core
evextsb d a = rtl λ s.
    set_reg d
      (pack_2w (u32 (bit_and (sign_exts 64 8 (u8 (bit_and (s.gpr a >>> 32) 0xff))) 0xffff_ffff))
        (u32 (bit_and (sign_exts 64 8 (u8 (bit_and (s.gpr a) 0xff))) 0xffff_ffff)))
      s

unfoldable pub evextsh : ℕ → ℕ → Core → Core
evextsh d a = rtl λ s.
    set_reg d
      (pack_2w (u32 (bit_and (sign_exts 64 16 (u16 (bit_and (s.gpr a >>> 32) 0xffff))) 0xffff_ffff))
        (u32 (bit_and (sign_exts 64 16 (u16 (bit_and (s.gpr a) 0xffff))) 0xffff_ffff)))
      s

unfoldable pub evmergehi : ℕ → ℕ → ℕ → Core → Core
evmergehi d a b = rtl λ s. set_reg d (pack_2w ((b_0_31 (s.gpr a))) ((b_0_31 (s.gpr b)))) s

unfoldable pub evmergelo : ℕ → ℕ → ℕ → Core → Core
evmergelo d a b = rtl λ s. set_reg d (pack_2w ((b_32_63 (s.gpr a))) ((b_32_63 (s.gpr b)))) s

unfoldable pub evmergehilo : ℕ → ℕ → ℕ → Core → Core
evmergehilo d a b = rtl λ s. set_reg d (pack_2w ((b_0_31 (s.gpr a))) ((b_32_63 (s.gpr b)))) s

unfoldable pub evmergelohi : ℕ → ℕ → ℕ → Core → Core
evmergelohi d a b = rtl λ s. set_reg d (pack_2w ((b_32_63 (s.gpr a))) ((b_0_31 (s.gpr b)))) s

unfoldable pub evrlw : Shifts → ℕ → ℕ → ℕ → Core → Core
evrlw h d a b = rtl λ s.
    set_reg d
      (pack_2w (rotl32 h (b_0_31 (s.gpr a)) (bit_and (s.gpr b >>> 32) 0x1f))
        (rotl32 h (b_32_63 (s.gpr a)) (bit_and (s.gpr b) 0x1f)))
      s

unfoldable pub evrlwi : Shifts → ℕ → ℕ → ℕ → Core → Core
evrlwi h d a n =
    rtl λ s. set_reg d (pack_2w (rotl32 h (b_0_31 (s.gpr a)) n) (rotl32 h (b_32_63 (s.gpr a)) n)) s

unfoldable pub evsel : ℕ → ℕ → ℕ → ℕ → Core → Core
evsel d a b c = rtl λ s.
    set_reg d
      (pack_2w (if get_crf (4 * c) s.cond then b_0_31 (s.gpr a) else b_0_31 (s.gpr b))
        (if get_crf (4 * c + 1) s.cond then b_32_63 (s.gpr a) else b_32_63 (s.gpr b)))
      s

unfoldable pub evslw : ℕ → ℕ → ℕ → Core → Core
evslw d a b = rtl λ s.
    set_reg d
      (pack_2w (sl (b_0_31 (s.gpr a)) (bit_and (s.gpr b >>> 32) 0x3f))
        (sl (b_32_63 (s.gpr a)) (bit_and (s.gpr b) 0x3f)))
      s

-- The low word is that of the register with the number of the count.
unfoldable pub evslwi : ℕ → ℕ → ℕ → Core → Core
evslwi d a n = rtl λ s. set_reg d (pack_2w (sl (b_0_31 (s.gpr a)) n) (sl (b_32_63 (s.gpr n)) n)) s

unfoldable pub evsplatfi : ℕ → ℕ → Core → Core
evsplatfi d imm = rtl (let u = u32 (bit_and imm 0x1f <<< 27) in set_reg d (pack_2w u u))

unfoldable pub evsplati : ℕ → ℕ → Core → Core
evsplati d imm = rtl (
    let u = u32 (if truthy (bit_and imm 0x10) then bit_or imm 0xffff_ffe0 else imm) in
    set_reg d (pack_2w u u))
