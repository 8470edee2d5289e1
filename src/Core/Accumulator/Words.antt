-- ===== src/Core/Accumulator/Words.antt =====
-- What the saturating instructions leave in the accumulator, the register and SPEFSCR.
use ppcsimbooke.Base.{
  ℕ, ◌+◌, ◌-◌, ◌^◌, ◌<◌, ◌≡◌, ap, ◌∙◌, Bool, true, false, ltb, if◌then◌else◌, u32, to_num, not64,
  bit_and, bit_or, bit, bit-bit_and, bit-bit_or, bit-complement, bit-field_mask, bit_le_one, arith,
  zero-bit, ◌==◌, ◌&&◌, ◌||◌, max, ◌<<<◌,
}
use ppcsimbooke.Core.{set_reg}
use ppcsimbooke.Core.Vector.{b_0_31, b_32_63, pack_2w}
use ppcsimbooke.Core.Vector.Words.{high_word, low_word_of, high-lt, low-lt}
use ppcsimbooke.Core.Accumulator.{
  Spe, rtl_spe, put_acc, update_spefscr_ov, add_ss, sub_ss, add_us, sub_us, evaddssiaaw,
  evsubfssiaaw, evaddusiaaw, evsubfusiaaw,
}
use ppcsimbooke.Core.Accumulator.Saturate.{
  IsClamped, biased, add_ss-IsClamped, sub_ss-IsClamped, add_us_lem, sub_us_lem, add_ss-word,
  sub_ss-word,
}

-- A word h in the high half and l in the low half, each with its overflow; the summary bits stay set.
abbrev pub IsWritten : ℕ → Spe → ℕ × Bool → ℕ × Bool → Spe → Type 0
IsWritten d s h l t =
    (b_0_31 t.acc ≡ h.0)
    × (b_32_63 t.acc ≡ l.0)
    × (t.core.gpr d ≡ t.acc)
    × (bit t.spefscr 30 ≡ to_num (h.1))
    × (bit t.spefscr 14 ≡ to_num (l.1))
    × (bit t.spefscr 31 ≡ (if h.1 then 1 else bit s.spefscr 31))
    × (bit t.spefscr 15 ≡ (if l.1 then 1 else bit s.spefscr 15))

-- Digits m cleared and digits k set.
masked_digit :
    (v m k i : ℕ)
    → i < 64
    → m < 2 ^ 64
    → bit (bit_or (bit_and v (not64 m)) k) i
      ≡ (if bit k i == 1 then 1 else if bit m i == 1 then 0 else bit v i)
masked_digit v m k i h p = ground (
  arith,
  bit-bit_or (bit_and v (not64 m)) k i,
  bit-bit_and v (not64 m) i,
  bit-complement 64 m i p,
  bit_le_one v i,
  bit_le_one m i,
  bit_le_one k i,
)

flag_digit :
    (b : Bool) (k i : ℕ) → bit (if b then 1 <<< k else 0) i ≡ (if b && i == k then 1 else 0)
flag_digit true k i = bit-field_mask 1 k i ∙ ground arith
flag_digit false k i = zero-bit i

set_of : Bool → Bool → ℕ
set_of h l =
    bit_or
      (bit_or (bit_or (if h then 0x4000_0000 else 0) (if l then 0x4000 else 0))
        (if h then 0x8000_0000 else 0))
      (if l then 0x8000 else 0)

set_digit :
    (h l : Bool) (i : ℕ)
    → bit (set_of h l) i ≡ (if h && (i == 30 || i == 31) || l && (i == 14 || i == 15) then 1 else 0)
unfolding set_of
set_digit h l i =
    let a : bit (if h then 0x4000_0000 else 0) i ≡ (if h && i == 30 then 1 else 0) =
      flag_digit h 30 i in
    let b : bit (if l then 0x4000 else 0) i ≡ (if l && i == 14 then 1 else 0) = flag_digit l 14 i in
    let c : bit (if h then 0x8000_0000 else 0) i ≡ (if h && i == 31 then 1 else 0) =
      flag_digit h 31 i in
    let e : bit (if l then 0x8000 else 0) i ≡ (if l && i == 15 then 1 else 0) = flag_digit l 15 i in
    bit-bit_or _ _ i
    ∙ ap (λ (w : ℕ). max w (bit (if l then 0x8000 else 0) i))
        (bit-bit_or _ _ i
          ∙ ap (λ (w : ℕ). max w (bit (if h then 0x8000_0000 else 0) i)) (bit-bit_or _ _ i))
    ∙ ground (arith, a, b, c, e)

clear_digit : (i : ℕ) → bit 0x4000_4000 i ≡ (if i == 30 || i == 14 then 1 else 0)
clear_digit i =
    let a : bit 0x4000_0000 i ≡ (if i == 30 then 1 else 0) = flag_digit true 30 i in
    let b : bit 0x4000 i ≡ (if i == 14 then 1 else 0) = flag_digit true 14 i in
    let c : bit 0x4000_4000 i ≡ max (bit 0x4000_0000 i) (bit 0x4000 i) =
      bit-bit_or 0x4000_0000 0x4000 i in
    c ∙ ground (arith, a, b)

spefscr_digit :
    (v : ℕ) (h l : Bool) (i : ℕ)
    → i < 64
    → bit (bit_or (bit_and v (not64 0x4000_4000)) (set_of h l)) i ≡ (
        if h && (i == 30 || i == 31) || l && (i == 14 || i == 15)
        then 1
        else if i == 30 || i == 14
        then 0
        else bit v i)
spefscr_digit v h l i p =
    masked_digit v 0x4000_4000 (set_of h l) i p (omega arith)
    ∙ ground (arith, set_digit h l i, clear_digit i)

written :
    (d : ℕ) (s : Spe) (h l : ℕ × Bool)
    → h.0 < 2 ^ 32
    → l.0 < 2 ^ 32
    → IsWritten d s h l
        (rtl_spe (λ s. update_spefscr_ov (h.1) (l.1) (put_acc d (pack_2w (h.0) (l.0)) s)) s)
unfolding rtl_spe update_spefscr_ov put_acc set_reg set_of
written d s h l p q = (
  high_word (h.0) (l.0) q ∙ omega arith,
  low_word_of (h.0) (l.0) q,
  ground arith,
  spefscr_digit s.spefscr (h.1) (l.1) 30 (omega arith) ∙ ground arith,
  spefscr_digit s.spefscr (h.1) (l.1) 14 (omega arith) ∙ ground arith,
  spefscr_digit s.spefscr (h.1) (l.1) 31 (omega arith) ∙ ground arith,
  spefscr_digit s.spefscr (h.1) (l.1) 15 (omega arith) ∙ ground arith,
)

abbrev pub IsVector : ℕ → Spe → (ℕ × Bool → Type 0) → (ℕ × Bool → Type 0) → Spe → Type 0
IsVector d s P Q t = (h : ℕ × Bool) × (l : ℕ × Bool) × P h × Q l × IsWritten d s h l t

-- The sum and the difference of two words without a sign, and their overflow.
abbrev pub IsSum : ℕ → ℕ → ℕ × Bool → Type 0
IsSum x y r = (r.0 ≡ u32 (x + y)) × (r.1 ≡ false)

abbrev pub IsDifference : ℕ → ℕ → ℕ × Bool → Type 0
IsDifference x y r = (r.0 ≡ x - y) × (r.1 ≡ ltb x y)

module _ (d a : ℕ) (s : Spe) where
  -- What is added to or taken from the accumulator, by halves.
  abbrev ah : ℕ
  ah = b_0_31 s.acc

  abbrev al : ℕ
  al = b_32_63 s.acc

  abbrev xh : ℕ
  xh = b_0_31 (s.core.gpr a)

  abbrev xl : ℕ
  xl = b_32_63 (s.core.gpr a)

  -- evaddssiaaw and evsubfssiaaw leave in each half of the accumulator and of the register the exact signed sum or
  -- difference, or the nearest word to it, and set OVH or OV where it is not exact; evsubfusiaaw leaves the difference,
  -- or 0 where that is negative, which sets OVH or OV; evaddusiaaw leaves the sum modulo 2 ^ 32 and clears OVH and OV,
  -- so that it never saturates. The summary bits SOVH and SOV are set by an overflow and stay set.
  pub accumulate :
      IsVector d s
        (IsClamped (biased ah + biased xh + 2 ^ 31))
        (IsClamped (biased al + biased xl + 2 ^ 31))
        (evaddssiaaw d a s)
      × IsVector d s
          (IsClamped (biased ah + 2 ^ 31 + 2 ^ 32 - biased xh))
          (IsClamped (biased al + 2 ^ 31 + 2 ^ 32 - biased xl))
          (evsubfssiaaw d a s)
      × IsVector d s (IsDifference ah xh) (IsDifference al xl) (evsubfusiaaw d a s)
      × IsVector d s (IsSum ah xh) (IsSum al xl) (evaddusiaaw d a s)
  unfolding evaddssiaaw evsubfssiaaw evsubfusiaaw evaddusiaaw rtl_spe
  accumulate =
      let p = high-lt s.acc in
      let q = low-lt s.acc in
      let u = high-lt (s.core.gpr a) in
      let v = low-lt (s.core.gpr a) in
      (
        (
          add_ss ah xh,
          add_ss al xl,
          add_ss-IsClamped ah xh p u,
          add_ss-IsClamped al xl q v,
          written d s (add_ss ah xh) (add_ss al xl) (add_ss-word ah xh p u) (add_ss-word al xl q v),
        ),
        (
          sub_ss ah xh,
          sub_ss al xl,
          sub_ss-IsClamped ah xh p u,
          sub_ss-IsClamped al xl q v,
          written d s (sub_ss ah xh) (sub_ss al xl) (sub_ss-word ah xh p u) (sub_ss-word al xl q v),
        ),
        (
          sub_us ah xh,
          sub_us al xl,
          sub_us_lem ah xh p u,
          sub_us_lem al xl q v,
          written d s (sub_us ah xh) (sub_us al xl)
              (let e = sub_us_lem ah xh p u in omega (arith, e.0))
              (let e = sub_us_lem al xl q v in omega (arith, e.0)),
        ),
        (
          add_us ah xh,
          add_us al xl,
          add_us_lem ah xh p u,
          add_us_lem al xl q v,
          written d s (add_us ah xh) (add_us al xl)
              (let e = add_us_lem ah xh p u in omega (arith, e.0))
              (let e = add_us_lem al xl q v in omega (arith, e.0)),
        ),
      )
