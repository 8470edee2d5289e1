-- ===== src/Regs/Flags.antt =====
-- The flags that the arithmetic instructions set: CR0 and XER.
use ppcsimbooke.Base.{
  ℕ, ◌*◌, ◌/◌, ◌^◌, ◌≤◌, ◌<◌, ◌≡◌, refl, ap, ◌⊎◌, inl, inr, bit_and, bit_or, Bool, true, false, leb,
  ◌==◌, ◌||◌, arith, truthy, to_num, bit_and-field, dec_lt, bit, field_mask, bit-bit_and,
  bit-bit_or, bit_mask, not32, ◌<<<◌, if◌then◌else◌, bit-field_mask, ltb, ◌∙◌, ◌+◌, zero-bit,
  two_pow_pos, bit_le_one, bit-zero, bit-div, zero, suc, sym,
}
use ppcsimbooke.Regs.{
  CondRegs, X86Flags, put_cr0, sign_code, update_cr0, update_cr0_host, update_xer_ca, get_xer_so,
  get_xer_ov, get_xer_ca, xer_ca, xer_so, xer_ov, update_xer_so_ov_host,
}

-- The flags that the host has after an operation of 32 bits with this result.
abbrev pub host_flags : ℕ → Bool → Bool → X86Flags
host_flags v o c = record { sf = leb (2 ^ 31) v; zf = v == 0; of = o; cf = c }

-- In 32-bit mode the two ways of setting CR0 agree on every result but 0, for which the host's flags
-- set GT beside EQ.
pub update_cr0_host_lem :
    (v : ℕ) (o c : Bool) (g : CondRegs)
    → v < 2 ^ 32
    → g.cm ≡ false
    → ((1 ≤ v) × (update_cr0_host (host_flags v o c) g ≡ update_cr0 v g))
      ⊎ ((v ≡ 0)
          × (update_cr0_host (host_flags v o c) g ≡ put_cr0 6 g)
          × (update_cr0 v g ≡ put_cr0 2 g))
unfolding update_cr0_host update_cr0 sign_code
update_cr0_host_lem v o c g h mode = elim (dec_lt 0 v) [
  | yes positive ↦ inl (positive, ap (λ (n : ℕ). put_cr0 n g) (ground (arith, positive, h, mode)))
  | no none ↦
      let zero_v : v ≡ 0 = omega (arith, none) in
      inr (zero_v, rw (zero_v, mode) refl, rw (zero_v, mode) refl)
]

-- `update_xer_ca` loses SO and OV and never clears CA: after it CA is set exactly if it was set
-- or the value is true.
pub update_xer_ca_lem :
    (value : Bool) (g : CondRegs)
    → (get_xer_so (update_xer_ca value g) ≡ false)
      × (get_xer_ov (update_xer_ca value g) ≡ false)
      × (get_xer_ca (update_xer_ca value g) ≡ (get_xer_ca g || value))
unfolding update_xer_ca get_xer_so get_xer_ov get_xer_ca
update_xer_ca_lem value g =
    go (bit_and g.xer xer_ca) (ground (arith, bit_and-field 1 29 g.xer)) value
  where
    go :
        (k : ℕ)
        → (k ≡ 0) ⊎ (k ≡ 2 ^ 29)
        → (b : Bool)
        → (truthy (bit_and (bit_or k (to_num b * 2 ^ 29)) xer_so) ≡ false)
          × (truthy (bit_and (bit_or k (to_num b * 2 ^ 29)) xer_ov) ≡ false)
          × (truthy (bit_and (bit_or k (to_num b * 2 ^ 29)) xer_ca) ≡ (truthy k || b))
    go k (inl clear) true = rw clear (refl, refl, refl)
    go k (inl clear) false = rw clear (refl, refl, refl)
    go k (inr set) true = rw set (refl, refl, refl)
    go k (inr set) false = rw set (refl, refl, refl)

-- One flag of XER as a digit.
flag_digit : (k a : ℕ) → truthy (bit_and a (field_mask 1 k)) ≡ truthy (bit a k)
flag_digit k a =
    let here : 0 + k ≡ k = omega arith in
    go (bit a k) _
      (bit_and-field 1 k a
        ∙ ap (λ (t : ℕ). t * 2 ^ k)
            (omega (arith, bit-zero (a / 2 ^ k), bit-div k a 0, ap (bit a) here)))
      (bit_le_one a k)
  where
    go : (d v : ℕ) → v ≡ d * 2 ^ k → d ≤ 1 → truthy v ≡ truthy d
    go zero v e low = ground (arith, e)
    go (suc zero) v e low = ground (arith, e, two_pow_pos k)
    go (suc (suc d)) v e low = absurd (omega (arith, low))

-- `update_xer_so_ov_host` puts the overflow of the host into SO and OV, so SO does not stay set, and keeps CA.
pub update_xer_so_ov_host_lem :
    (hf : X86Flags) (g : CondRegs)
    → (get_xer_so (update_xer_so_ov_host hf g) ≡ hf.of)
      × (get_xer_ov (update_xer_so_ov_host hf g) ≡ hf.of)
      × (get_xer_ca (update_xer_so_ov_host hf g) ≡ get_xer_ca g)
unfolding update_xer_so_ov_host get_xer_so get_xer_ov get_xer_ca
update_xer_so_ov_host_lem hf g = (
  flag_digit 31 (put hf.of) ∙ go 31 (omega arith) (omega arith) hf.of,
  flag_digit 30 (put hf.of) ∙ go 30 (omega arith) (omega arith) hf.of,
  flag_digit 29 (put hf.of) ∙ kept hf.of ∙ sym (flag_digit 29 g.xer),
)
  where
    put : Bool → ℕ
    put b = bit_or (bit_and g.xer (not32 (0x3 <<< 30))) ((if b then 0x3 else 0) <<< 30)

    digit :
        (b : Bool) (i : ℕ)
        → bit (put b) i ≡ (if ltb i 30 then bit g.xer i else if ltb i 32 then to_num b else 0)
    digit true i = ground (
      arith,
      bit-bit_or (bit_and g.xer (not32 (0x3 <<< 30))) (0x3 <<< 30) i,
      bit-bit_and g.xer (not32 (0x3 <<< 30)) i,
      bit_mask 30 i,
      bit-field_mask 2 30 i,
      bit_le_one g.xer i,
    )
    digit false i = ground (
      arith,
      bit-bit_or (bit_and g.xer (not32 (0x3 <<< 30))) (0 <<< 30) i,
      bit-bit_and g.xer (not32 (0x3 <<< 30)) i,
      bit_mask 30 i,
      zero-bit i,
      bit_le_one g.xer i,
    )

    go : (i : ℕ) → 30 ≤ i → i < 32 → (b : Bool) → truthy (bit (put b) i) ≡ b
    go i low high true = ground (arith, digit true i)
    go i low high false = ground (arith, digit false i)

    kept : (b : Bool) → truthy (bit (put b) 29) ≡ truthy (bit g.xer 29)
    kept b = ground (arith, digit b 29)
