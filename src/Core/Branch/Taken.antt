-- ===== src/Core/Branch/Taken.antt =====
-- When a conditional branch is taken: the test of the code against the fields of BO.
use ppcsimbooke.Base.{
  ℕ, ◌+◌, ◌/◌, ◌^◌, ◌%◌, ◌≡◌, refl, ap, ◌∙◌, sym, subst, if◌then◌else◌, ◌==◌, u32, u64, arith,
  bit_and, bit_or, bit_xor, bit_and-low, Bool, true, false, ◌&&◌, ◌||◌, not, truthy, to_num, not64,
  ◌>>>◌,
}
use ppcsimbooke.Regs.{get_crf}
use ppcsimbooke.Core.{Core, cm_bit, rtl, ◌▷◌}
use ppcsimbooke.Core.Branch.{
  bc, bca, bcl, bcla, bclr, bclrl, bcctr, bcctrl, bc_code, bclr_code, bcctr_code, count_down,
  ctr_ok, cond_ok, put_lr, bo1, bo2, bo3,
}

-- The operators of C on words that hold truth values.
or_truth : (p q : Bool) → bit_or (to_num p) (to_num q) ≡ to_num (p || q)
or_truth true true = refl
or_truth true false = refl
or_truth false true = refl
or_truth false false = refl

and_truth : (p q : Bool) → truthy (bit_and (to_num p) (to_num q)) ≡ (p && q)
and_truth true true = refl
and_truth true false = refl
and_truth false true = refl
and_truth false false = refl

-- Whether two truth values differ.
abbrev pub unlike : Bool → Bool → Bool
unlike true q = not q
unlike false q = q

xor_truth : (p q : Bool) → bit_xor (to_num p) (to_num q) ≡ to_num (unlike p q)
xor_truth true true = refl
xor_truth true false = refl
xor_truth false true = refl
xor_truth false false = refl

same_truth : (p q : Bool) → (to_num p == to_num q) ≡ not (unlike p q)
same_truth true true = refl
same_truth true false = refl
same_truth false true = refl
same_truth false false = refl

-- A bit of BO as a truth value.
abbrev pub has : ℕ → ℕ → Bool
has k bo = bo / 2 ^ k % 2 == 1

field_truth : (k bo : ℕ) → bit_and (bo >>> k) 0x1 ≡ to_num (has k bo)
field_truth k bo = bit_and-low 1 (bo >>> k) ∙ ground arith

truthy-to_num : (p : Bool) → truthy (to_num p) ≡ p
truthy-to_num true = refl
truthy-to_num false = refl

-- CTR after a branch that counts unless BO has bit 2, and the part of CTR that the mode compares with
-- 0.
abbrev pub next_ctr : ℕ → Core → ℕ
next_ctr bo s = if has 2 bo then s.ctr else u64 (s.ctr + 0xffff_ffff_ffff_ffff)

abbrev pub is_nonzero : Core → ℕ → Bool
is_nonzero s c = truthy (if cm_bit s then c else u32 c)

abbrev pub ctr_passes : ℕ → Core → Bool
ctr_passes bo s = has 2 bo || unlike (is_nonzero s (next_ctr bo s)) (has 1 bo)

abbrev pub cond_passes : ℕ → ℕ → Core → Bool
cond_passes bo bi s = has 4 bo || not (unlike (get_crf bi s.cond) (has 3 bo))

cond_ok-passes : (bo bi : ℕ) (s : Core) → cond_ok bo bi s ≡ to_num (cond_passes bo bi s)
unfolding cond_ok
cond_ok-passes bo bi s =
    let g = get_crf bi s.cond in
    ap (λ (v : ℕ). bit_or v (to_num (to_num g == bo1 bo))) (field_truth 4 bo)
    ∙ ap (λ (v : ℕ). bit_or (to_num (has 4 bo)) (to_num (to_num g == v))) (field_truth 3 bo)
    ∙ ap (λ (p : Bool). bit_or (to_num (has 4 bo)) (to_num p)) (same_truth g (has 3 bo))
    ∙ or_truth (has 4 bo) _

-- The state after the count.
abbrev pub counted : ℕ → Core → Core
counted bo s = record s { ctr = next_ctr bo s }

count_down_lem : (bo : ℕ) (s : Core) → count_down bo s ≡ counted bo s
unfolding count_down
count_down_lem bo s =
    ap (λ (p : Bool). if p then s else record s { ctr = u64 (s.ctr + 0xffff_ffff_ffff_ffff) })
      (ap truthy (field_truth 2 bo) ∙ truthy-to_num (has 2 bo))
    ∙ go (has 2 bo)
  where
    go :
        (p : Bool)
        → (if p then s else record s { ctr = u64 (s.ctr + 0xffff_ffff_ffff_ffff) })
          ≡ record s { ctr = if p then s.ctr else u64 (s.ctr + 0xffff_ffff_ffff_ffff) }
    go true = refl
    go false = refl

ctr_ok-passes : (bo : ℕ) (s : Core) → ctr_ok bo (counted bo s) ≡ to_num (ctr_passes bo s)
unfolding ctr_ok
ctr_ok-passes bo s =
    let c = next_ctr bo s in
    ap (λ (v : ℕ). bit_or (bo2 bo) (bit_xor (to_num (truthy (if cm_bit s then c else v))) (bo3 bo)))
      (bit_and-low 32 c)
    ∙ ap (λ (v : ℕ). bit_or v (bit_xor (to_num (is_nonzero s c)) (bo3 bo))) (field_truth 2 bo)
    ∙ ap (λ (v : ℕ). bit_or (to_num (has 2 bo)) (bit_xor (to_num (is_nonzero s c)) v))
        (field_truth 1 bo)
    ∙ ap (λ (v : ℕ). bit_or (to_num (has 2 bo)) v) (xor_truth (is_nonzero s c) (has 1 bo))
    ∙ or_truth (has 2 bo) _

-- The verdict of the code.
verdict :
    (bo bi : ℕ) (s : Core)
    → truthy (bit_and (ctr_ok bo (counted bo s)) (cond_ok bo bi (counted bo s)))
      ≡ (ctr_passes bo s && cond_passes bo bi s)
verdict bo bi s =
    ap (λ (v : ℕ). truthy (bit_and v (cond_ok bo bi (counted bo s)))) (ctr_ok-passes bo s)
    ∙ ap (λ (v : ℕ). truthy (bit_and (to_num (ctr_passes bo s)) v))
        (cond_ok-passes bo bi (counted bo s))
    ∙ and_truth (ctr_passes bo s) (cond_passes bo bi s)

pub bc_code_lem :
    (bo bi p : ℕ) (s : Core)
    → bc_code bo bi p s ≡ (
        if ctr_passes bo s && cond_passes bo bi s
        then record (counted bo s) { nip = p }
        else counted bo s)
unfolding bc_code
bc_code_lem bo bi p s =
    ap
      (λ (t : Core).
        if truthy (bit_and (ctr_ok bo t) (cond_ok bo bi t)) then record t { nip = p } else t)
      (count_down_lem bo s)
    ∙ ap (λ (v : Bool). if v then record (counted bo s) { nip = p } else counted bo s)
        (verdict bo bi s)

pub bclr_code_lem :
    (bo bi : ℕ) (s : Core)
    → bclr_code bo bi s ≡ (
        if ctr_passes bo s && cond_passes bo bi s
        then record (counted bo s) { nip = bit_and s.lr (not64 0x3) }
        else counted bo s)
unfolding bclr_code
bclr_code_lem bo bi s =
    ap
      (λ (t : Core).
        if truthy (bit_and (ctr_ok bo t) (cond_ok bo bi t))
        then record t { nip = bit_and t.lr (not64 0x3) }
        else t)
      (count_down_lem bo s)
    ∙ ap
        (λ (v : Bool).
          if v then record (counted bo s) { nip = bit_and s.lr (not64 0x3) } else counted bo s)
        (verdict bo bi s)

bcctr_code_lem :
    (bo bi : ℕ) (s : Core)
    → bcctr_code bo bi s
      ≡ (if cond_passes bo bi s then record s { nip = bit_and s.ctr (not64 0x3) } else s)
unfolding bcctr_code
bcctr_code_lem bo bi s =
    ap (λ (v : Bool). if v then record s { nip = bit_and s.ctr (not64 0x3) } else s)
      (ap truthy (cond_ok-passes bo bi s) ∙ truthy-to_num (cond_passes bo bi s))

-- The place that a branch leads to, its counter and its link register.
abbrev pub IsBranch : ℕ → ℕ → ℕ → Core → Type 0
IsBranch nia counter link t = (t.pc ≡ nia) × (t.nip ≡ nia) × (t.ctr ≡ counter) × (t.lr ≡ link)

-- A jump to p if c holds.
abbrev jump : Bool → ℕ → Core → Core
jump c p u = if c then record u { nip = p } else u

place :
    (c : Bool) (p : ℕ) (u : Core)
    → IsBranch (if c then p else u.nip) u.ctr u.lr (record (jump c p u) { pc = (jump c p u).nip })
place true p u = (refl, refl, refl, refl)
place false p u = (refl, refl, refl, refl)

rtl-jump :
    (body : Core → Core) (c : Bool) (p : ℕ) (u s : Core)
    → body (record s { nip = u64 (s.nip + 4) }) ≡ jump c p u
    → IsBranch (if c then p else u.nip) u.ctr u.lr (rtl body s)
unfolding rtl
rtl-jump body c p u s e =
    subst (λ (t : Core). IsBranch (if c then p else u.nip) u.ctr u.lr (record t { pc = t.nip }))
      (sym e) (place c p u)

put_lr-jump : (c : Bool) (p : ℕ) (u : Core) → put_lr (jump c p u) ≡ jump c p (put_lr u)
unfolding put_lr
put_lr-jump true p u = refl
put_lr-jump false p u = refl

-- The same with a link.
link-jump :
    (body : Core → Core) (c : Bool) (p : ℕ) (u s : Core)
    → body (record s { nip = u64 (s.nip + 4) }) ≡ jump c p u
    → IsBranch (if c then p else u.nip) u.ctr (u64 (u.pc + 4)) (rtl (body ▷ put_lr) s)
unfolding put_lr
link-jump body c p u s e =
    rtl-jump (body ▷ put_lr) c p (put_lr u) s (ap put_lr e ∙ put_lr-jump c p u)

module _ (bo bi p : ℕ) (s : Core) where
  abbrev taken : Bool
  taken = ctr_passes bo s && cond_passes bo bi s

  abbrev next : ℕ
  next = u64 (s.nip + 4)

  -- The conditional branches do what the fields of BO say, in either mode. The counter passes if BO[2] is set, or
  -- if CTR less 1, its low word in 32-bit mode, is 0 just when BO[3] is set; the condition passes if
  -- BO[0] is set or the bit of CR is BO[1]. bc, bca, bclr and their forms with a link count unless
  -- BO[2] is set and go on to their target if both pass; bcctr and bcctrl do not count, and ask for the condition
  -- alone. The forms with a link put the address after the branch into LR, and a target that comes from a
  -- register is rounded down to a word.
  pub branches :
      IsBranch (if taken then p else next) (next_ctr bo s) s.lr (bc bo bi p s)
      × IsBranch (if taken then p else next) (next_ctr bo s) s.lr (bca bo bi p s)
      × IsBranch (if taken then p else next) (next_ctr bo s) (u64 (s.pc + 4)) (bcl bo bi p s)
      × IsBranch (if taken then p else next) (next_ctr bo s) (u64 (s.pc + 4)) (bcla bo bi p s)
      × IsBranch
          (if taken then bit_and s.lr (not64 0x3) else next)
          (next_ctr bo s)
          s.lr
          (bclr bo bi s)
      × IsBranch
          (if taken then bit_and s.lr (not64 0x3) else next)
          (next_ctr bo s)
          (u64 (s.pc + 4))
          (bclrl bo bi s)
      × IsBranch
          (if cond_passes bo bi s then bit_and s.ctr (not64 0x3) else next)
          s.ctr
          s.lr
          (bcctr bo bi s)
      × IsBranch
          (if cond_passes bo bi s then bit_and s.ctr (not64 0x3) else next)
          s.ctr
          (u64 (s.pc + 4))
          (bcctrl bo bi s)
  unfolding bc bca bcl bcla bclr bclrl bcctr bcctrl
  branches =
      let s0 = record s { nip = next } in
      let u = counted bo s0 in
      let far = bit_and s.lr (not64 0x3) in
      let counter = bit_and s.ctr (not64 0x3) in
      let c = cond_passes bo bi s in
      (
        rtl-jump (bc_code bo bi p) taken p u s (bc_code_lem bo bi p s0),
        rtl-jump (bc_code bo bi p) taken p u s (bc_code_lem bo bi p s0),
        link-jump (bc_code bo bi p) taken p u s (bc_code_lem bo bi p s0),
        link-jump (bc_code bo bi p) taken p u s (bc_code_lem bo bi p s0),
        rtl-jump (bclr_code bo bi) taken far u s (bclr_code_lem bo bi s0),
        link-jump (bclr_code bo bi) taken far u s (bclr_code_lem bo bi s0),
        rtl-jump (bcctr_code bo bi) c counter s0 s (bcctr_code_lem bo bi s0),
        link-jump (bcctr_code bo bi) c counter s0 s (bcctr_code_lem bo bi s0),
      )
