-- ===== src/Core/System/Fields.antt =====
-- What mtcrf and isel select.
use ppcsimbooke.Base.{
  ℕ, ◌+◌, ◌-◌, ◌*◌, ◌/◌, ◌^◌, ◌%◌, ◌≡◌, ◌<◌, refl, ap, ◌∙◌, sym, Bool, true, if◌then◌else◌, ◌==◌,
  ◌&&◌, ltb, u8, u32, not64, arith, bit, bit_ext, bit-bit_and, bit-bit_or, bit-div, bit-zero,
  bit_mask, bit_le_one, bit-complement, bit_and, bit_or, bit_and-low, every, every_lem, dec_lt,
}
use ppcsimbooke.Regs.{get_crf_field, get_field, widen_int}
use ppcsimbooke.Core.{Core, rtl}
use ppcsimbooke.Core.System.{crm_mask, mtcrf}

-- A digit of a number by division.
digit : (a i : ℕ) → bit a i ≡ a / 2 ^ i % 2
digit a i =
    let at : bit (a / 2 ^ i) 0 ≡ bit a i = bit-div i a 0 ∙ ap (bit a) (omega arith) in
    sym at ∙ bit-zero (a / 2 ^ i)

-- The mask of each of the 256 values of CRM, by evaluation.
abbrev is_mask : ℕ → ℕ → Bool
is_mask c i =
    (crm_mask 8 0 c 0 / 2 ^ i % 2 == c / 2 ^ (i / 4) % 2) && ltb (crm_mask 8 0 c 0) (2 ^ 64)

all_masks : every 256 (λ c. every 32 (is_mask c)) ≡ true
unfolding crm_mask every widen_int
all_masks = refl

mask_is : (c i : ℕ) → c < 256 → i < 32 → is_mask c i ≡ true
mask_is c i p q =
    every_lem 32 (is_mask c) i q (every_lem 256 (λ v. every 32 (is_mask v)) c p all_masks)

mask_digit :
    (crm i : ℕ)
    → i < 32
    → (bit (crm_mask 8 0 (u8 crm) 0) i ≡ bit (u8 crm) (i / 4)) × (crm_mask 8 0 (u8 crm) 0 < 2 ^ 64)
mask_digit crm i below =
    let c = u8 crm in
    let m = crm_mask 8 0 c 0 in
    let both = mask_is c i (omega arith) below in
    let same : m / 2 ^ i % 2 ≡ c / 2 ^ (i / 4) % 2 = ground (arith, both) in
    (digit m i ∙ same ∙ sym (digit c (i / 4)), ground (arith, both))

-- mtcrf takes the field k of CR from the low word of the source if the bit k of CRM, the first the highest, is set, and keeps
-- it if not.
pub mtcrf_lem :
    (crm r k : ℕ) (s : Core)
    → k < 8
    → get_crf_field k (mtcrf crm r s).cond
      ≡ (if bit (u8 crm) (7 - k) == 1 then get_field k (u32 (s.gpr r)) else get_crf_field k s.cond)
unfolding mtcrf rtl get_crf_field get_field
mtcrf_lem crm r k s in_cr = bit_ext _ _ λ i. elim (dec_lt i 4) [
  | yes low ↦
      let m = crm_mask 8 0 (u8 crm) 0 in
      let x = u32 (bit_and (s.gpr r) 0xffff_ffff) in
      let word : x ≡ u32 (s.gpr r) = ground (arith, bit_and-low 32 (s.gpr r)) in
      let z = (7 - k) * 4 in
      let at = i + z in
      let place : at / 4 ≡ 7 - k = omega (arith, low, in_cr) in
      let new = bit_or (bit_and x m) (bit_and s.cond.cr (not64 m)) in
      let md = mask_digit crm at (omega (arith, low, in_cr)) in
      ground (
        arith,
        bit-bit_and (new / 2 ^ z) 15 i,
        bit-bit_and (u32 (s.gpr r) / 2 ^ z) 15 i,
        bit-bit_and (s.cond.cr / 2 ^ z) 15 i,
        bit_mask 4 i,
        bit-div z new i,
        bit-div z (u32 (s.gpr r)) i,
        bit-div z s.cond.cr i,
        bit-bit_or (bit_and x m) (bit_and s.cond.cr (not64 m)) at,
        bit-bit_and x m at,
        bit-bit_and s.cond.cr (not64 m) at,
        bit-complement 64 m at md.1,
        md.0,
        ap (λ (v : ℕ). bit v at) word,
        ap (bit (u8 crm)) place,
        bit_le_one (u8 crm) (7 - k),
        bit_le_one s.cond.cr at,
        bit_le_one (u32 (s.gpr r)) at,
      )
  | no high ↦ ground (
    arith,
    bit-bit_and
        (bit_or (bit_and (u32 (bit_and (s.gpr r) 0xffff_ffff)) (crm_mask 8 0 (u8 crm) 0))
            (bit_and s.cond.cr (not64 (crm_mask 8 0 (u8 crm) 0)))
          / 2 ^ ((7 - k) * 4))
        15 i,
    bit-bit_and (u32 (s.gpr r) / 2 ^ ((7 - k) * 4)) 15 i,
    bit-bit_and (s.cond.cr / 2 ^ ((7 - k) * 4)) 15 i,
    bit_mask 4 i,
  )
]
