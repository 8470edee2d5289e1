-- ===== src/Tlb/Translate/Key.antt =====
-- What `to_virt` of sim/src/tlb_booke.h keeps of its arguments.
use ppcsimbooke.Base.{
  ℕ, ◌+◌, ◌-◌, ◌*◌, ◌/◌, ◌^◌, ◌%◌, ◌≡◌, ◌∙◌, ap, ltb, leb, ◌&&◌, if◌then◌else◌, u64, bit_and,
  bit_or, ◌<<<◌, arith, max, bit, bit_ext, bit-mod, bit-div, bit-mul, bit_mask, bit-bit_and,
  bit-bit_or, bit_le_one,
}
use ppcsimbooke.Tlb.{to_virt}

-- A field of w bits at s, by its bits.
placed :
    (x w s i : ℕ)
    → bit (u64 (bit_and x (2 ^ w - 1) <<< s)) i
      ≡ (if leb s i && ltb i 64 && ltb (i - s) w then bit x (i - s) else 0)
placed x w s i = ground (
  arith,
  bit-mod 64 (bit_and x (2 ^ w - 1) * 2 ^ s) i,
  bit-mul s (bit_and x (2 ^ w - 1)) i,
  bit-bit_and x (2 ^ w - 1) (i - s),
  bit_mask w (i - s),
  bit_le_one x (i - s),
)

low : (x i : ℕ) → bit (bit_and x 0xffff_ffff) i ≡ (if ltb i 32 then bit x i else 0)
low x i = ground (arith, bit-bit_and x 0xffff_ffff i, bit_mask 32 i, bit_le_one x i)

max_of : {a b c d : ℕ} → a ≡ b → c ≡ d → max a c ≡ max b d
max_of {a} {b} {c} {d} e f = ap (λ (v : ℕ). max v c) e ∙ ap (max b) f

module _ (pr rwx space pid ea : ℕ) where
  abbrev key : ℕ
  key = to_virt pr rwx space pid ea

  key_digit :
      (i : ℕ)
      → bit key i
        ≡ max
            (max
              (max
                (max
                  (if leb 44 i && ltb i 64 && ltb (i - 44) 1 then bit pr (i - 44) else 0)
                  (if leb 41 i && ltb i 64 && ltb (i - 41) 3 then bit rwx (i - 41) else 0))
                (if leb 40 i && ltb i 64 && ltb (i - 40) 1 then bit space (i - 40) else 0))
              (if leb 32 i && ltb i 64 && ltb (i - 32) 8 then bit pid (i - 32) else 0))
            (if ltb i 32 then bit ea i else 0)
  unfolding to_virt
  key_digit i =
      let a = u64 (bit_and pr 0x1 <<< 44) in
      let b = u64 (bit_and rwx 0x7 <<< 41) in
      let c = u64 (bit_and space 0x1 <<< 40) in
      let d = u64 (bit_and pid 0xff <<< 32) in
      let e = bit_and ea 0xffff_ffff in
      bit-bit_or (bit_or (bit_or (bit_or a b) c) d) e i
      ∙ ap (λ (v : ℕ). max v (bit e i)) (bit-bit_or (bit_or (bit_or a b) c) d i)
      ∙ ap (λ (v : ℕ). max (max v (bit d i)) (bit e i)) (bit-bit_or (bit_or a b) c i)
      ∙ ap (λ (v : ℕ). max (max (max v (bit c i)) (bit d i)) (bit e i)) (bit-bit_or a b i)
      ∙ max_of
          (max_of (max_of (max_of (placed pr 1 44 i) (placed rwx 3 41 i)) (placed space 1 40 i))
            (placed pid 8 32 i))
          (low ea i)

  pub key-page : key % 2 ^ 32 ≡ ea % 2 ^ 32
  key-page =
      bit_ext _ _
        λ i. ground (arith, bit-mod 32 key i, bit-mod 32 ea i, key_digit i, bit_le_one ea i)

  pub key-pid : key / 2 ^ 32 % 2 ^ 8 ≡ pid % 2 ^ 8
  key-pid = bit_ext _ _ λ i. ground (
    arith,
    bit-mod 8 (key / 2 ^ 32) i,
    bit-div 32 key i,
    bit-mod 8 pid i,
    key_digit (i + 32),
    bit_le_one pid i,
  )

  pub key-space : key / 2 ^ 40 % 2 ^ 1 ≡ space % 2 ^ 1
  key-space = bit_ext _ _ λ i. ground (
    arith,
    bit-mod 1 (key / 2 ^ 40) i,
    bit-div 40 key i,
    bit-mod 1 space i,
    key_digit (i + 40),
    bit_le_one space i,
  )

  pub key-rwx : key / 2 ^ 41 % 2 ^ 3 ≡ rwx % 2 ^ 3
  key-rwx = bit_ext _ _ λ i. ground (
    arith,
    bit-mod 3 (key / 2 ^ 41) i,
    bit-div 41 key i,
    bit-mod 3 rwx i,
    key_digit (i + 41),
    bit_le_one rwx i,
  )

  pub key-pr : key / 2 ^ 44 % 2 ^ 1 ≡ pr % 2 ^ 1
  key-pr = bit_ext _ _ λ i. ground (
    arith,
    bit-mod 1 (key / 2 ^ 44) i,
    bit-div 44 key i,
    bit-mod 1 pr i,
    key_digit (i + 44),
    bit_le_one pr i,
  )
