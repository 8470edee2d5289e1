-- ===== src/Regs/Fields.antt =====
-- The 4-bit fields: writing one and reading any.
use ppcsimbooke.Base.{
  ℕ, ◌+◌, ◌-◌, ◌*◌, ◌/◌, ◌%◌, ◌^◌, ◌<◌, ◌≡◌, refl, ap, ◌∙◌, bit_and, true, ltb, ◌==◌, ==_iff, arith,
  if◌then◌else◌, u32, bit, bit_ext, bit-bit_and, bit-bit_or, bit-mul, bit-div, bit-mod, bit_mask,
  bit-complement, bit-field_mask, field_mask, bit_and-low, bit_le_one, every, every_lem, dec_lt,
  ltb_iff,
}
use ppcsimbooke.Regs.{not_int, update_field, get_field}

low_masks : every 7 (λ k. not_int (15 * 2 ^ (k * 4)) == 2 ^ 64 - 1 - 15 * 2 ^ (k * 4)) ≡ true
unfolding not_int every
low_masks = refl

top_mask : not_int (15 * 2 ^ 28) ≡ 2 ^ 28 - 1
unfolding not_int
top_mask = refl

below_top : every 7 (λ k. ltb (15 * 2 ^ (k * 4)) (2 ^ 64)) ≡ true
unfolding every
below_top = refl

-- The digits of the mask, up to 32.
mask_lem :
    (k i : ℕ)
    → k < 8
    → i < 32
    → bit (not_int (15 * 2 ^ (k * 4))) i
      ≡ (if ltb i (k * 4) then 1 else if ltb i (k * 4 + 4) then 0 else 1)
mask_lem k i small low = elim (dec_lt k 7) [
  | yes lower ↦
      let value = (==_iff _ _).0 (every_lem 7 _ k lower low_masks) in
      let fits = (ltb_iff _ _).0 (every_lem 7 _ k lower below_top) in
      ground (
        arith,
        ap (λ (t : ℕ). bit t i) value,
        bit-complement 64 (field_mask 4 (k * 4)) i fits,
        bit-field_mask 4 (k * 4) i,
      )
  | no upper ↦
      let seven : k ≡ 7 = omega arith in rw seven (rw top_mask (ground (arith, bit_mask 28 i)))
]

-- The digits of a register after an update, up to 32.
bit-update_field :
    (bf val reg i : ℕ)
    → bf < 8
    → i < 32
    → bit (update_field bf val reg) i ≡ (
        if ltb i ((7 - bf) * 4)
        then bit reg i
        else if ltb i ((7 - bf) * 4 + 4)
        then bit val (i - (7 - bf) * 4)
        else bit reg i)
unfolding update_field
bit-update_field bf val reg i h low =
    let same : bit_and bf 7 ≡ bf = bit_and-low 3 bf ∙ omega arith in
    let s = (7 - bf) * 4 in
    let v = bit_and (bit_and val 15) 15 in
    rw same (
      ground (
        arith,
        bit-bit_or (bit_and reg (not_int (15 * 2 ^ s))) (u32 (v * 2 ^ s)) i,
        bit-bit_and reg (not_int (15 * 2 ^ s)) i,
        mask_lem (7 - bf) i (omega arith) low,
        bit-mod 32 (v * 2 ^ s) i,
        bit-mul s v i,
        bit-bit_and (bit_and val 15) 15 (i - s),
        bit-bit_and val 15 (i - s),
        bit_mask 4 (i - s),
        bit_le_one reg i,
        bit_le_one val (i - s),
      ))

-- Writing a field and reading any field back: the field written gives the low four bits of the value, and
-- every other field is as it was.
pub get_field-update_field :
    (bf other val reg : ℕ)
    → bf < 8
    → other < 8
    → get_field other (update_field bf val reg)
      ≡ (if other == bf then val % 16 else get_field other reg)
unfolding get_field
get_field-update_field bf other val reg h h' = bit_ext _ _ λ i. elim (dec_lt i 4) [
  | yes low ↦
      let s = (7 - other) * 4 in
      ground (
        arith,
        bit-bit_and (update_field bf val reg / 2 ^ s) 15 i,
        bit-bit_and (reg / 2 ^ s) 15 i,
        bit_mask 4 i,
        bit-div s (update_field bf val reg) i,
        bit-div s reg i,
        bit-update_field bf val reg (i + s) h (omega arith),
        bit-mod 4 val i,
        bit_le_one reg (i + s),
        bit_le_one val i,
      )
  | no high ↦
      let s = (7 - other) * 4 in
      ground (
        arith,
        bit-bit_and (update_field bf val reg / 2 ^ s) 15 i,
        bit-bit_and (reg / 2 ^ s) 15 i,
        bit_mask 4 i,
        bit-mod 4 val i,
      )
]
