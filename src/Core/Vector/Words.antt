-- ===== src/Core/Vector/Words.antt =====
-- The vector instructions by halves: what the high and the low word of the register hold.
use ppcsimbooke.Base.{
  ℕ, ◌+◌, ◌-◌, ◌*◌, ◌^◌, ◌%◌, ◌≡◌, ◌<◌, refl, ap, ◌∙◌, Bool, true, false, if◌then◌else◌, u32, u64,
  bit_and, arith, bit_and-low, bit_ext, bit-mod, bit-bit_and, bit-bit_or, bit-div, bit-mul,
  bit_mask, bit_of_lt, bit_le_one, zero-bit, ◌<<<◌, ◌>>>◌,
}
use ppcsimbooke.Regs.{get_crf}
use ppcsimbooke.Core.{Core, rtl, set_reg}
use ppcsimbooke.Core.Vector.{
  b_0_31, b_32_63, pack_2w, sl, evaddw, evsubfw, evaddiw, evmergehi, evmergelo, evmergehilo,
  evmergelohi, evsel, evslw, evslwi, eveqv, evxor,
}

pub low_word : (x : ℕ) → b_32_63 x ≡ x % 2 ^ 32
unfolding b_32_63
low_word x = ground (arith, bit_and-low 32 x)

-- The words of a pair.
pub high_word : (u v : ℕ) → v < 2 ^ 32 → b_0_31 (pack_2w u v) ≡ u32 u
unfolding b_0_31 pack_2w
high_word u v h = bit_ext _ _ λ i. ground (
  arith,
  bit-mod 32 (bit_and (pack_2w u v >>> 32) 0xffff_ffff) i,
  bit-mod 32 u i,
  bit-bit_and (pack_2w u v >>> 32) 0xffff_ffff i,
  bit_mask 32 i,
  bit-div 32 (pack_2w u v) i,
  bit-bit_or (u64 (u <<< 32)) v (i + 32),
  bit-mod 64 (u <<< 32) (i + 32),
  bit-mul 32 u (i + 32),
  bit_of_lt 32 v (i + 32),
  bit_le_one u i,
)

pub low_word_of : (u v : ℕ) → v < 2 ^ 32 → b_32_63 (pack_2w u v) ≡ v
unfolding b_32_63 pack_2w
low_word_of u v h = bit_ext _ _ λ i. ground (
  arith,
  bit-mod 32 (bit_and (pack_2w u v) 0xffff_ffff) i,
  bit-bit_and (pack_2w u v) 0xffff_ffff i,
  bit_mask 32 i,
  bit-bit_or (u64 (u <<< 32)) v i,
  bit-mod 64 (u <<< 32) i,
  bit-mul 32 u i,
  bit_of_lt 32 v i,
  bit_le_one v i,
)

-- A register with h in the high half and l in the low half.
abbrev pub IsPair : ℕ → ℕ → ℕ → Core → Type 0
IsPair d h l t = (b_0_31 (t.gpr d) ≡ h) × (b_32_63 (t.gpr d) ≡ l)

pair :
    (d u v : ℕ) (s : Core)
    → u < 2 ^ 32
    → v < 2 ^ 32
    → IsPair d u v (rtl (λ s. set_reg d (pack_2w u v) s) s)
unfolding rtl set_reg
pair d u v s p q = (
  ap b_0_31 (ground arith) ∙ high_word u v q ∙ omega arith,
  ap b_32_63 (ground arith) ∙ low_word_of u v q,
)

paired :
    (d u v h l : ℕ) (s : Core)
    → u ≡ h
    → v ≡ l
    → h < 2 ^ 32
    → l < 2 ^ 32
    → IsPair d h l (rtl (λ s. set_reg d (pack_2w u v) s) s)
paired d u v h l s e f p q =
    let r = pair d u v s (omega (arith, e)) (omega (arith, f)) in (r.0 ∙ e, r.1 ∙ f)

cut : (x : ℕ) → u32 (bit_and x 0xffff_ffff) ≡ u32 x
cut x = ground (arith, bit_and-low 32 x)

sl_lem : (x n : ℕ) → sl x n ≡ u32 (x * 2 ^ n)
unfolding sl
sl_lem x n = bit_ext _ _ λ i. ground (arith, bit-mod 32 (x * 2 ^ n) i, bit-mul n x i, zero-bit i)

choice : {x y : ℕ} (c : Bool) → x < 2 ^ 32 → y < 2 ^ 32 → (if c then x else y) < 2 ^ 32
choice true p q = p
choice false p q = q

count_high : (x : ℕ) → bit_and (x >>> 32) 0x3f ≡ b_0_31 x % 64
unfolding b_0_31
count_high x = ground (arith, bit_and-low 6 (x >>> 32), bit_and-low 32 (x >>> 32))

count_low : (x : ℕ) → bit_and x 0x3f ≡ b_32_63 x % 64
unfolding b_32_63
count_low x = ground (arith, bit_and-low 6 x, bit_and-low 32 x)

pub high-lt : (x : ℕ) → b_0_31 x < 2 ^ 32
unfolding b_0_31
high-lt x = omega arith

pub low-lt : (x : ℕ) → b_32_63 x < 2 ^ 32
unfolding b_32_63
low-lt x = omega arith

module _ (d a b n : ℕ) (s : Core) where
  abbrev ah : ℕ
  ah = b_0_31 (s.gpr a)

  abbrev al : ℕ
  al = b_32_63 (s.gpr a)

  abbrev bh : ℕ
  bh = b_0_31 (s.gpr b)

  abbrev bl : ℕ
  bl = b_32_63 (s.gpr b)

  -- By halves: evaddw, evsubfw and evaddiw compute modulo 2 ^ 32; evslw shifts each half by its own count, where one of
  -- 32 or more leaves 0; evslwi takes the low half from the register that has the number of the count; evsel chooses each
  -- half by its own bit of CR; the four merges take the halves that they name; and eveqv does what evxor does.
  pub vector_words :
      IsPair d (u32 (ah + bh)) (u32 (al + bl)) (evaddw d a b s)
      × IsPair d (u32 (bh + (2 ^ 32 - ah))) (u32 (bl + (2 ^ 32 - al))) (evsubfw d a b s)
      × IsPair d (u32 (ah + n % 2 ^ 20)) (u32 (al + n % 2 ^ 20)) (evaddiw d a n s)
      × IsPair d (u32 (ah * 2 ^ (bh % 64))) (u32 (al * 2 ^ (bl % 64))) (evslw d a b s)
      × IsPair d (u32 (ah * 2 ^ n)) (u32 (b_32_63 (s.gpr n) * 2 ^ n)) (evslwi d a n s)
      × IsPair d
          (if get_crf (4 * n) s.cond then ah else bh)
          (if get_crf (4 * n + 1) s.cond then al else bl)
          (evsel d a b n s)
      × IsPair d ah bh (evmergehi d a b s)
      × IsPair d al bl (evmergelo d a b s)
      × IsPair d ah bl (evmergehilo d a b s)
      × IsPair d al bh (evmergelohi d a b s)
      × (eveqv d a b s ≡ evxor d a b s)
  unfolding evaddw evsubfw evaddiw evslw evslwi evsel evmergehi evmergelo evmergehilo evmergelohi
      eveqv evxor rtl
  vector_words = (
    paired d _ _ _ _ s (cut (u32 (ah + bh)) ∙ omega arith) (cut (u32 (al + bl)) ∙ omega arith)
        (omega arith) (omega arith),
    pair d (u32 (bh + (2 ^ 32 - ah))) (u32 (bl + (2 ^ 32 - al))) s (omega arith) (omega arith),
    paired d _ _ _ _ s (cut (ah + bit_and n 0xf_ffff) ∙ ground (arith, bit_and-low 20 n))
        (cut (al + bit_and n 0xf_ffff) ∙ ground (arith, bit_and-low 20 n)) (omega arith)
        (omega arith),
    paired d _ _ _ _ s (sl_lem ah _ ∙ ap (λ (k : ℕ). u32 (ah * 2 ^ k)) (count_high (s.gpr b)))
        (sl_lem al _ ∙ ap (λ (k : ℕ). u32 (al * 2 ^ k)) (count_low (s.gpr b))) (omega arith)
        (omega arith),
    paired d _ _ _ _ s (sl_lem ah n) (sl_lem (b_32_63 (s.gpr n)) n) (omega arith) (omega arith),
    pair d (if get_crf (4 * n) s.cond then ah else bh)
        (if get_crf (4 * n + 1) s.cond then al else bl) s
        (choice (get_crf (4 * n) s.cond) ah_lt bh_lt)
        (choice (get_crf (4 * n + 1) s.cond) al_lt bl_lt),
    pair d ah bh s ah_lt bh_lt,
    pair d al bl s al_lt bl_lt,
    pair d ah bl s ah_lt bl_lt,
    pair d al bh s al_lt bh_lt,
    refl,
  )
    where
      ah_lt : ah < 2 ^ 32
      ah_lt = high-lt (s.gpr a)

      al_lt : al < 2 ^ 32
      al_lt = low-lt (s.gpr a)

      bh_lt : bh < 2 ^ 32
      bh_lt = high-lt (s.gpr b)

      bl_lt : bl < 2 ^ 32
      bl_lt = low-lt (s.gpr b)
