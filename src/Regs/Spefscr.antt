-- ===== src/Regs/Spefscr.antt =====
-- `update_spefscr` of sim/src/globals.cpp, which takes the flags that the host's SSE unit left to SPEFSCR.
use ppcsimbooke.Base.{
  ℕ, ◌≡◌, ◌≤◌, refl, ap, ◌∙◌, bit_and, bit_or, Bool, if◌then◌else◌, truthy, not32, not64, arith,
  bit, bit-bit_and, bit_ext, Bool-cases, inl, inr, zero-bit,
}

-- Bits of SPEFSCR.
abbrev pub spefscr_fgh : ℕ
spefscr_fgh = 0x2000_0000

abbrev pub spefscr_fxh : ℕ
spefscr_fxh = 0x1000_0000

abbrev pub spefscr_finvh : ℕ
spefscr_finvh = 0x800_0000

abbrev pub spefscr_fdbzh : ℕ
spefscr_fdbzh = 0x400_0000

abbrev pub spefscr_funfh : ℕ
spefscr_funfh = 0x200_0000

abbrev pub spefscr_fovfh : ℕ
spefscr_fovfh = 0x100_0000

abbrev pub spefscr_finxs : ℕ
spefscr_finxs = 0x20_0000

abbrev pub spefscr_finvs : ℕ
spefscr_finvs = 0x10_0000

abbrev pub spefscr_fdbzs : ℕ
spefscr_fdbzs = 0x8_0000

abbrev pub spefscr_fg : ℕ
spefscr_fg = 0x2000

abbrev pub spefscr_fx : ℕ
spefscr_fx = 0x1000

abbrev pub spefscr_finv : ℕ
spefscr_finv = 0x800

abbrev pub spefscr_fdbz : ℕ
spefscr_fdbz = 0x400

abbrev pub spefscr_funf : ℕ
spefscr_funf = 0x200

abbrev pub spefscr_fovf : ℕ
spefscr_fovf = 0x100

-- Flags of MXCSR, and all errors together.
abbrev pub x86_mxcsr_ie : ℕ
x86_mxcsr_ie = 0x1

abbrev pub x86_mxcsr_ze : ℕ
x86_mxcsr_ze = 0x4

abbrev pub x86_mxcsr_oe : ℕ
x86_mxcsr_oe = 0x8

abbrev pub x86_mxcsr_ue : ℕ
x86_mxcsr_ue = 0x10

abbrev pub x86_mxcsr_pe : ℕ
x86_mxcsr_pe = 0x20

abbrev pub x86_mxcsr_e : ℕ
x86_mxcsr_e = 0x3d

-- `if(m & flag) { if(high) spefscr |= h; else spefscr |= l; spefscr |= sticky; }`
unfoldable pub raise : ℕ → ℕ → Bool → ℕ → ℕ → ℕ → ℕ → ℕ
raise m cause high h l sticky v =
    if truthy (bit_and m cause) then bit_or (bit_or v (if high then h else l)) sticky else v

-- The same for the input errors, which clear the guard and inexact bits of their half too.
unfoldable pub raise_input : ℕ → Bool → ℕ → ℕ
raise_input m high v =
    if truthy (bit_and m x86_mxcsr_ie)
    then bit_or
        (if high
          then bit_and (bit_or v spefscr_finvh) (not64 (bit_or spefscr_fgh spefscr_fxh))
          else bit_and (bit_or v spefscr_finv) (not64 (bit_or spefscr_fg spefscr_fx)))
        spefscr_finvs
    else v

-- What the last step clears.
unfoldable pub transient : ℕ
transient =
    bit_or
      (bit_or
        (bit_or
          (bit_or
            (bit_or
              (bit_or
                (bit_or
                  (bit_or
                    (bit_or (bit_or (bit_or spefscr_finvh spefscr_finv) spefscr_fgh) spefscr_fg)
                    spefscr_fxh)
                  spefscr_fx)
                spefscr_fdbzh)
              spefscr_fdbz)
            spefscr_fovfh)
          spefscr_fovf)
        spefscr_funfh)
      spefscr_funf

-- SPEFSCR and MXCSR after it.
unfoldable pub update_spefscr : ℕ → Bool → ℕ → ℕ × ℕ
unfolding raise raise_input transient
update_spefscr m high v =
    if truthy (bit_and m x86_mxcsr_e)
    then (v, m)
    else let v1 = raise_input m high v in
      let v2 = raise m x86_mxcsr_ze high spefscr_fdbzh spefscr_fdbz spefscr_fdbzs v1 in
      let v3 = raise m x86_mxcsr_pe high 0 0 spefscr_finxs v2 in
      let v4 = raise m x86_mxcsr_oe high spefscr_fovfh spefscr_fovf 0 v3 in
      let v5 = raise m x86_mxcsr_ue high spefscr_funfh spefscr_funf 0 v4 in
      (bit_and v5 (not64 transient), bit_and m (not32 x86_mxcsr_e))

-- No part of the errors is there where the whole is not.
part_clear :
    (m part : ℕ)
    → ((i : ℕ) → bit part i ≤ bit x86_mxcsr_e i)
    → bit_and m x86_mxcsr_e ≡ 0
    → bit_and m part ≡ 0
part_clear m part inside none = bit_ext _ _ λ i. omega (
  arith,
  bit-bit_and m part i,
  bit-bit_and m x86_mxcsr_e i,
  inside i,
  zero-bit i,
  ap (λ (v : ℕ). bit v i) none,
)

within : (part : ℕ) → bit_and x86_mxcsr_e part ≡ part → (i : ℕ) → bit part i ≤ bit x86_mxcsr_e i
within part e i = omega (arith, bit-bit_and x86_mxcsr_e part i, ap (λ (v : ℕ). bit v i) e)

module _ (m : ℕ) (high : Bool) (none : bit_and m x86_mxcsr_e ≡ 0) where
  quiet :
      (cause h l sticky v : ℕ)
      → bit_and x86_mxcsr_e cause ≡ cause
      → raise m cause high h l sticky v ≡ v
  unfolding raise
  quiet cause h l sticky v e =
      ap (λ (w : ℕ). if truthy w then bit_or (bit_or v (if high then h else l)) sticky else v)
        (part_clear m cause (within cause e) none)

  quiet_input : (v : ℕ) → raise_input m high v ≡ v
  unfolding raise_input
  quiet_input v = rw (part_clear m x86_mxcsr_ie (within x86_mxcsr_ie refl) none) refl

-- `update_spefscr` never sets a bit of SPEFSCR: it returns at once, with nothing changed, just when the host reports an error, and
-- else it clears the bits that are not sticky. The rest of its body, for the single errors, has no effect.
pub update_spefscr_lem :
    (m v : ℕ) (high : Bool)
    → update_spefscr m high v ≡ (
        if truthy (bit_and m x86_mxcsr_e)
        then (v, m)
        else (bit_and v (not64 transient), bit_and m (not32 x86_mxcsr_e)))
unfolding update_spefscr
update_spefscr_lem m v high = elim (Bool-cases (truthy (bit_and m x86_mxcsr_e))) [
  | inl on ↦ rw on refl
  | inr off ↦
      let none : bit_and m x86_mxcsr_e ≡ 0 = ground (arith, off) in
      let v1 = raise_input m high v in
      let v2 = raise m x86_mxcsr_ze high spefscr_fdbzh spefscr_fdbz spefscr_fdbzs v1 in
      let v3 = raise m x86_mxcsr_pe high 0 0 spefscr_finxs v2 in
      let v4 = raise m x86_mxcsr_oe high spefscr_fovfh spefscr_fovf 0 v3 in
      let all : raise m x86_mxcsr_ue high spefscr_funfh spefscr_funf 0 v4 ≡ v =
        quiet m high none x86_mxcsr_ue _ _ _ v4 refl
        ∙ quiet m high none x86_mxcsr_oe _ _ _ v3 refl
        ∙ quiet m high none x86_mxcsr_pe _ _ _ v2 refl
        ∙ quiet m high none x86_mxcsr_ze _ _ _ v1 refl
        ∙ quiet_input m high none v in
      rw off (ap (λ (w : ℕ). (bit_and w (not64 transient), bit_and m (not32 x86_mxcsr_e))) all)
]
