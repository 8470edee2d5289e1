-- ===== src/Exception/Msr/Privileged.antt =====
-- What the privileged instructions do in either mode.
use ppcsimbooke.Base.{
  ℕ, ◌+◌, ◌-◌, ◌≡◌, ◌<◌, refl, ap, ◌∙◌, Bool, true, false, bit_and, bit_or, if◌then◌else◌, truthy,
  ◌==◌, ◌&&◌, u32, u64, not64, arith, bit, bit-bit_and, bit-bit_or, bit-complement, bit-field_mask,
  bit-mul, bit_le_one, bit_and-low, bit_ext, zero-bit, ◌<<<◌,
}
use ppcsimbooke.Base.Error.{Outcome, ok, throw, sim_except_ppc}
use ppcsimbooke.Exception.{ExcRegs}
use ppcsimbooke.Exception.Return.{in_user_mode, rfi, rfci, rfmci, either_mode}
use ppcsimbooke.Exception.Msr.{msr_cm, mtmsr, mtmsr_code, wrtee, wrtee_code, wrteei, wrteei_code}

bit_15 : (i : ℕ) → bit (1 <<< 15) i ≡ (if i == 15 then 1 else 0)
bit_15 i = bit-field_mask 1 15 i ∙ ground arith

-- Bit 15 from one word, and the others from another.
put_15 :
    (w v i : ℕ)
    → i < 64
    → bit (bit_or (bit_and w (not64 (1 <<< 15))) (bit_and v (1 <<< 15))) i
      ≡ (if i == 15 then bit v 15 else bit w i)
put_15 w v i h =
    let at : i ≡ 15 → bit v i ≡ bit v 15 = ap (bit v) in
    ground (
      arith,
      bit-bit_or (bit_and w (not64 (1 <<< 15))) (bit_and v (1 <<< 15)) i,
      bit-bit_and w (not64 (1 <<< 15)) i,
      bit-bit_and v (1 <<< 15) i,
      bit-complement 64 (1 <<< 15) i (omega arith),
      bit_15 i,
      at,
      bit_le_one w i,
      bit_le_one v i,
    )

shifted : (e : ℕ) → bit_and e 0x1 <<< 15 ≡ bit_and (e <<< 15) (1 <<< 15)
shifted e = bit_ext _ _ λ i. ground (
  arith,
  bit-mul 15 (bit_and e 1) i,
  bit-bit_and (e <<< 15) (1 <<< 15) i,
  bit-mul 15 e i,
  bit_15 i,
  bit-bit_and e 1 (i - 15),
  bit-field_mask 1 0 (i - 15),
  bit_le_one e (i - 15),
)

-- The registers when the instruction is over, and when it throws.
abbrev gone : ExcRegs → ExcRegs
gone r = record r { pc = u64 (r.nip + 4); nip = u64 (r.nip + 4) }

abbrev refused : ExcRegs → ExcRegs × Outcome (Unit {0})
refused r = (record r { nip = u64 (r.nip + 4) }, throw (sim_except_ppc 7 2 0))

-- A privileged instruction throws the privileged program exception in user mode, and nothing but NIP changes; in system
-- mode it ends.
abbrev pub IsGuarded : ExcRegs → Bool → ExcRegs × Outcome (Unit {0}) → Type 0
IsGuarded r true o = o ≡ refused r
IsGuarded r false o = (o.1 ≡ ok tt) × (o.0.pc ≡ o.0.nip)

-- wrtee and wrteei: besides PC and NIP, the only register that changes is MSR, and of it the digit 15, EE, alone.
abbrev pub IsEnable : ℕ → ℕ → ExcRegs → Bool → ExcRegs × Outcome (Unit {0}) → Type 0
IsEnable ee i r true o = o ≡ refused r
IsEnable ee i r false o =
    (o.1 ≡ ok tt)
    × (o.0 ≡ record (gone r) { msr = o.0.msr })
    × (bit o.0.msr i ≡ (if i == 15 then ee else bit r.msr i))

-- mtmsr.
abbrev pub IsMove : ℕ → ExcRegs → Bool → ExcRegs × Outcome (Unit {0}) → Type 0
IsMove v r true o = o ≡ refused r
IsMove v r false o = o ≡ (record (gone r) { msr = u32 v }, ok tt)

no_mask :
    (w nip : ℕ) (b : Bool)
    → (if (if b then 1 else 0) == 0
          && (if truthy (bit_and w (if b then 1 else 0)) then 1 else 0) == 1
        then bit_and nip 0xffff_ffff
        else nip)
      ≡ nip
no_mask w nip true = refl
no_mask w nip false =
    let none : bit_and w 0 ≡ 0 = bit_ext _ _ λ i. omega (arith, bit-bit_and w 0 i, zero-bit i) in
    ap (λ (v : ℕ). if (if truthy v then 1 else 0) == 1 then bit_and nip 0xffff_ffff else nip) none

module _ (v i : ℕ) (r : ExcRegs) (in_reg : i < 64) where
  -- In user mode mtmsr, wrtee, wrteei, rfi, rfci and rfmci throw the program exception for a privileged instruction, and
  -- of the registers NIP alone is advanced. In system mode they end with PC at NIP. wrtee and wrteei then set the bit EE of
  -- MSR to the bit 15 of their register, or to the lowest bit of their field, and mtmsr puts the low word of its
  -- register into MSR; PC and NIP go on to the next instruction and nothing else changes: the cut
  -- of NIP for a change to 64-bit mode never happens.
  pub privileged :
      IsMove v r (in_user_mode r) (mtmsr v r)
      × IsEnable (bit v 15) i r (in_user_mode r) (wrtee v r)
      × IsEnable (bit v 0) i r (in_user_mode r) (wrteei v r)
      × IsGuarded r (in_user_mode r) (rfi r)
      × IsGuarded r (in_user_mode r) (rfci r)
      × IsGuarded r (in_user_mode r) (rfmci r)
  unfolding mtmsr mtmsr_code wrtee wrteei wrtee_code wrteei_code rfi rfci rfmci msr_cm
  privileged = (
    either_mode _ r (IsMove v r) refl move,
    either_mode _ r (IsEnable (bit v 15) i r) refl (refl, refl, put_15 r.msr v i in_reg),
    either_mode _ r (IsEnable (bit v 0) i r) refl (refl, refl, enable_i),
    either_mode _ r (IsGuarded r) refl (refl, refl),
    either_mode _ r (IsGuarded r) refl (refl, refl),
    either_mode _ r (IsGuarded r) refl (refl, refl),
  )
    where
      next : ℕ
      next = u64 (r.nip + 4)

      word : u32 (bit_and v 0xffff_ffff) ≡ u32 v
      word = ground (arith, bit_and-low 32 v)

      put : ℕ → ℕ → ExcRegs × Outcome (Unit {0})
      put w n = (record r { msr = w; nip = n; pc = n }, ok tt)

      move :
          put (u32 (bit_and v 0xffff_ffff)) (
            if (if truthy (bit_and r.msr 0x8000_0000) then 1 else 0) == 0
              && (if truthy (
                    bit_and
                      (u32 (bit_and v 0xffff_ffff))
                      (if truthy (bit_and r.msr 0x8000_0000) then 1 else 0))
                  then 1
                  else 0)
                == 1
            then bit_and next 0xffff_ffff
            else next)
          ≡ put (u32 v) next
      move =
          ap (put (u32 (bit_and v 0xffff_ffff)))
            (no_mask (u32 (bit_and v 0xffff_ffff)) next (truthy (bit_and r.msr 0x8000_0000)))
          ∙ ap (λ (w : ℕ). put w next) word

      enable_i :
          bit (bit_or (bit_and r.msr (not64 (1 <<< 15))) (bit_and v 0x1 <<< 15)) i
          ≡ (if i == 15 then bit v 0 else bit r.msr i)
      enable_i =
          ap (λ (w : ℕ). bit (bit_or (bit_and r.msr (not64 (1 <<< 15))) w) i) (shifted v)
          ∙ put_15 r.msr (v <<< 15) i in_reg
          ∙ ap (λ (w : ℕ). if i == 15 then w else bit r.msr i) (bit-mul 15 v 15)
