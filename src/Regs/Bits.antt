-- ===== src/Regs/Bits.antt =====
-- Single bits of CR: writing one and reading any.
use ppcsimbooke.Base.{
  ℕ, ◌-◌, ◌*◌, ◌/◌, ◌^◌, ◌<◌, ◌≡◌, refl, ap, ◌∙◌, bit_and, bit_or, Bool, true, false, ltb, ltb_iff,
  ◌==◌, ==_iff, arith, if◌then◌else◌, truthy, to_num, dec_lt, bit, bit-zero, bit-bit_and,
  bit-bit_or, bit-div, bit_mask, bit-complement, bit-field_mask, field_mask, bit_and-low,
  bit_le_one, zero-bit, every, every_lem,
}
use ppcsimbooke.Regs.{not_int, widen_int, update_bit, get_bit}

low_masks : every 31 (λ k. not_int (1 * 2 ^ k) == 2 ^ 64 - 1 - 1 * 2 ^ k) ≡ true
unfolding not_int every
low_masks = refl

low_values : every 31 (λ k. ltb (1 * 2 ^ k) (2 ^ 31)) ≡ true
unfolding every
low_values = refl

top_mask : not_int (1 * 2 ^ 31) ≡ 2 ^ 31 - 1
unfolding not_int
top_mask = refl

mask_lem : (k i : ℕ) → k < 32 → i < 32 → bit (not_int (1 * 2 ^ k)) i ≡ (if i == k then 0 else 1)
mask_lem k i small low = elim (dec_lt k 31) [
  | yes lower ↦
      let value = (==_iff _ _).0 (every_lem 31 _ k lower low_masks) in
      let fits = (ltb_iff _ _).0 (every_lem 31 _ k lower low_values) in
      ground (
        arith,
        ap (λ (t : ℕ). bit t i) value,
        bit-complement 64 (field_mask 1 k) i (omega (arith, fits)),
        bit-field_mask 1 k i,
      )
  | no upper ↦
      let top : k ≡ 31 = omega arith in rw top (rw top_mask (ground (arith, bit_mask 31 i)))
]

value_lem :
    (k i : ℕ) (v : Bool)
    → k < 32
    → i < 32
    → bit (widen_int (to_num v * 2 ^ k)) i ≡ (if i == k then to_num v else 0)
unfolding widen_int
value_lem k i false small low = ground (arith, zero-bit i)
value_lem k i true small low = elim (dec_lt k 31) [
  | yes lower ↦
      let fits = (ltb_iff _ _).0 (every_lem 31 _ k lower low_values) in
      ground (arith, fits, bit-field_mask 1 k i)
  | no upper ↦ let top : k ≡ 31 = omega arith in rw top (ground (arith, bit-field_mask 33 31 i))
]

get_bit_lem : (o reg : ℕ) → o < 32 → get_bit o reg ≡ truthy (bit reg (31 - o))
unfolding get_bit
get_bit_lem o reg h = ground (
  arith,
  bit_and-low 1 (reg / 2 ^ (31 - o)),
  bit-zero (reg / 2 ^ (31 - o)),
  bit-div (31 - o) reg 0,
)

-- A bit that was written gives the value, and every other bit of the 32 is as it was.
pub get_bit-update_bit :
    (field other : ℕ) (v : Bool) (reg : ℕ)
    → field < 32
    → other < 32
    → get_bit other (update_bit field v reg) ≡ (if other == field then v else get_bit other reg)
unfolding update_bit
get_bit-update_bit field other v reg h h' =
    let same : bit_and field 31 ≡ field = bit_and-low 5 field ∙ omega arith in
    let k = 31 - field in
    let j = 31 - other in
    let new = bit_or (bit_and reg (not_int (1 * 2 ^ k))) (widen_int (to_num v * 2 ^ k)) in
    rw same (
      ground (
        arith,
        get_bit_lem other new h',
        get_bit_lem other reg h',
        bit-bit_or (bit_and reg (not_int (1 * 2 ^ k))) (widen_int (to_num v * 2 ^ k)) j,
        bit-bit_and reg (not_int (1 * 2 ^ k)) j,
        mask_lem k j (omega arith) (omega arith),
        value_lem k j v (omega arith) (omega arith),
        bit_le_one reg j,
      ))
