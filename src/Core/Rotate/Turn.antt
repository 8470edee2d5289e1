-- ===== src/Core/Rotate/Turn.antt =====
-- What rotl of a word is, and rlwinm and rlwimi with their masks.
use ppcsimbooke.Base.{
  ℕ, ◌+◌, ◌-◌, ◌*◌, ◌^◌, ◌%◌, ◌/◌, ◌≡◌, ◌<◌, ◌≤◌, ap, ◌∙◌, Bool, ◌==◌, if◌then◌else◌, u32, u64,
  not64, bit_and, bit_or, arith, ltb, leb, ◌&&◌, ◌||◌, bit, bit-bit_and, bit-bit_or, bit-mul,
  bit-div, bit-mod, bit_of_lt, bit_le_one, bit-complement, bit_and-low, max, ◌∷◌, [], All,
}
use ppcsimbooke.Utils.Masks.{bit-gen_bmask_rng, gen_bmask_rng-lt}
use ppcsimbooke.Core.{Core, rtl, set_reg, put_cr0_v}
use ppcsimbooke.Core.Rotate.{
  Shifts, IsMasked, rotl, rotl32, mask, rlwimi_code, rlwimi, rlwimi_dot, rlwinm_code, rlwinm,
  rlwinm_dot, rlwnm, rlwnm_dot, put_cr0_of,
}

-- The part that stays in the word and the part that comes round.
bit-parts :
    (n k x i : ℕ)
    → x < 2 ^ 32
    → bit (bit_or (u32 (x * 2 ^ n)) (x / 2 ^ k)) i
      ≡ max (if ltb i 32 then (if ltb i n then 0 else bit x (i - n)) else 0) (bit x (i + k))
bit-parts n k x i small = ground (
  arith,
  bit-bit_or (u32 (x * 2 ^ n)) (x / 2 ^ k) i,
  bit-mod 32 (x * 2 ^ n) i,
  bit-mul n x i,
  bit-div k x i,
)

-- The digits of a rotation by n to the left.
bit-turned :
    (n x i : ℕ)
    → n < 32
    → x < 2 ^ 32
    → bit (bit_or (u32 (x * 2 ^ n)) (x / 2 ^ ((32 - n) % 32))) i
      ≡ (if ltb i 32 then bit x ((i + (32 - n)) % 32) else 0)
bit-turned n x i h small =
    let k = (32 - n) % 32 in
    let around : n ≤ i → i < 32 → bit x ((i + (32 - n)) % 32) ≡ bit x (i - n) =
      λ p q. ap (bit x) (omega (arith, p, q, h)) in
    let over : i < n → bit x ((i + (32 - n)) % 32) ≡ bit x (i + k) =
      λ p. ap (bit x) (omega (arith, p, h)) in
    let gone : 32 ≤ i + k → bit x (i + k) ≡ 0 = bit_of_lt 32 x (i + k) small in
    let same : k ≡ 0 → bit x (i + k) ≡ bit x i = λ p. ap (bit x) (omega (arith, p)) in
    let same_n : n ≡ 0 → bit x (i - n) ≡ bit x i = λ p. ap (bit x) (omega (arith, p)) in
    ground (arith, bit-parts n k x i small, around, over, gone, same, same_n)

-- The digit i of a word turned to the left by c.
abbrev pub turned : ℕ → ℕ → ℕ → ℕ
turned c x i = if ltb i 32 then bit (u32 x) ((i + (32 - c % 32)) % 32) else 0

module _ (h : Shifts) (law : IsMasked h) where
  pub bit-rotl32 : (x c i : ℕ) → c ≤ 64 → bit (rotl32 h x c) i ≡ turned c x i
  unfolding rotl32 rotl
  bit-rotl32 x c i few =
      let w = u32 x in
      let word : u32 (bit_and x 0xffff_ffff) ≡ w = omega (arith, bit_and-low 32 x) in
      let left : u32 c % 32 ≡ c % 32 = omega (arith, few) in
      let right : u64 (32 + (2 ^ 64 - u32 c)) % 32 ≡ (32 - c % 32) % 32 = omega (arith, few) in
      ap (λ (v : ℕ). bit (bit_or (h.shl v (u32 c)) (h.shr v (u64 (32 + (2 ^ 64 - u32 c))))) i) word
      ∙ ap (λ (v : ℕ). bit (bit_or v (h.shr w (u64 (32 + (2 ^ 64 - u32 c))))) i)
          (law.shl_law w (u32 c) (omega arith) ∙ ap (λ (n : ℕ). u32 (w * 2 ^ n)) left)
      ∙ ap (λ (v : ℕ). bit (bit_or (u32 (w * 2 ^ (c % 32))) v) i)
          (law.shr_law w (u64 (32 + (2 ^ 64 - u32 c))) (omega arith)
            ∙ ap (λ (n : ℕ). w / 2 ^ n) right)
      ∙ bit-turned (c % 32) w i (omega arith) (omega arith)

-- Whether MASK(MB + 32, ME + 32) has the digit k, counted from the highest.
abbrev pub in_mask : ℕ → ℕ → ℕ → Bool
in_mask mb me k =
    if ltb mb me then leb (mb + 32) k && leb k (me + 32) else ltb k (me + 32) || ltb (mb + 32) k

bit_mask_lem :
    (mb me k : ℕ)
    → mb < 32
    → me < 32
    → k < 64
    → bit (mask mb me) (63 - k) ≡ (if in_mask mb me k then 1 else 0)
unfolding mask
bit_mask_lem mb me k p q r =
    bit-gen_bmask_rng (mb + 32) (me + 32) k (omega (arith, p)) (omega (arith, q)) r ∙ ground arith

mask-lt : (mb me : ℕ) → mb < 32 → me < 32 → mask mb me < 2 ^ 64
unfolding mask
mask-lt mb me p q = gen_bmask_rng-lt (mb + 32) (me + 32) (omega (arith, p)) (omega (arith, q))

module _ (h : Shifts) (law : IsMasked h) (a r mb me k : ℕ) (s : Core) (in_mb : mb < 32)
    (in_me : me < 32) (in_reg : k < 64) where
  own : (v w : ℕ) → (if a == a then v else w) ≡ v
  own v w = ground arith

  kept :
      (n : ℕ)
      → bit (bit_and (rotl32 h (s.gpr r) (bit_and n 0x1f)) (mask mb me)) (63 - k)
        ≡ (if in_mask mb me k then turned (n % 32) (s.gpr r) (63 - k) else 0)
  kept n = ground (
    arith,
    bit-bit_and (rotl32 h (s.gpr r) (bit_and n 0x1f)) (mask mb me) (63 - k),
    bit_mask_lem mb me k in_mb in_me in_reg,
    bit-rotl32 h law (s.gpr r) (bit_and n 0x1f) (63 - k),
    bit_and-low 5 n,
    bit_le_one (u32 (s.gpr r)) ((63 - k + (32 - n % 32 % 32)) % 32),
  )

  merged :
      (n : ℕ)
      → bit
          (bit_or
            (bit_and (rotl32 h (s.gpr r) (bit_and n 0x1f)) (mask mb me))
            (bit_and (s.gpr a) (not64 (mask mb me))))
          (63 - k)
        ≡ (if in_mask mb me k then turned (n % 32) (s.gpr r) (63 - k) else bit (s.gpr a) (63 - k))
  merged n = ground (
    arith,
    bit-bit_or (bit_and (rotl32 h (s.gpr r) (bit_and n 0x1f)) (mask mb me))
        (bit_and (s.gpr a) (not64 (mask mb me))) (63 - k),
    kept n,
    bit-bit_and (s.gpr a) (not64 (mask mb me)) (63 - k),
    bit-complement 64 (mask mb me) (63 - k) (mask-lt mb me in_mb in_me),
    bit_mask_lem mb me k in_mb in_me in_reg,
    bit_le_one (s.gpr a) (63 - k),
  )

  -- rlwinm and rlwnm put, at the places of their mask, the digits of the low word of the source turned to the left by the low
  -- five bits of the count, and 0 elsewhere; rlwimi keeps the digits of its target elsewhere. Place k is
  -- counted from the highest. The mask is the places from MB + 32 to ME + 32 if MB < ME; else it is those before
  -- ME + 32 and behind MB + 32, where the turned word has no digits above place 32. The forms with a dot put
  -- the same.
  pub rotations :
      (sh b : ℕ)
      → All
          (λ (t : Core).
            bit (t.gpr a) (63 - k)
            ≡ (if in_mask mb me k then turned (sh % 32) (s.gpr r) (63 - k) else 0))
          (rlwinm h a r sh mb me s ∷ rlwinm_dot h a r sh mb me s ∷ [])
        × All
            (λ (t : Core).
              bit (t.gpr a) (63 - k)
              ≡ (if in_mask mb me k then turned (s.gpr b % 32) (s.gpr r) (63 - k) else 0))
            (rlwnm h a r b mb me s ∷ rlwnm_dot h a r b mb me s ∷ [])
        × All
            (λ (t : Core). bit (t.gpr a) (63 - k) ≡ (
              if in_mask mb me k
              then turned (sh % 32) (s.gpr r) (63 - k)
              else bit (s.gpr a) (63 - k)))
            (rlwimi h a r sh mb me s ∷ rlwimi_dot h a r sh mb me s ∷ [])
  unfolding rlwinm rlwinm_dot rlwnm rlwnm_dot rlwimi rlwimi_dot rlwinm_code rlwimi_code rtl set_reg
      put_cr0_of put_cr0_v
  rotations sh b =
      let p = ap (λ (v : ℕ). bit v (63 - k)) (own _ (s.gpr a)) ∙ kept sh in
      let q = ap (λ (v : ℕ). bit v (63 - k)) (own _ (s.gpr a)) ∙ kept (s.gpr b) in
      let v = ap (λ (v : ℕ). bit v (63 - k)) (own _ (s.gpr a)) ∙ merged sh in
      ((p, (p, tt)), (q, (q, tt)), (v, (v, tt)))
