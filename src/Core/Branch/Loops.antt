-- ===== src/Core/Branch/Loops.antt =====
-- Loops that bdnz, which is bc with BO = 16, closes.
use Prim.Native.Nat.{◌≤◌}
use ppcsimbooke.Base.{
  ℕ, zero, suc, ◌+◌, ◌-◌, ◌^◌, ◌≡◌, ◌<◌, refl, ap, ◌∙◌, subst, sym, if◌then◌else◌, ◌==◌, u32, u64,
  arith, Bool, true, false, truthy, ◌&&◌,
}
use ppcsimbooke.Core.{Core, cm_bit, rtl, ◌▷◌}
use ppcsimbooke.Core.Branch.{bc, bc_code}
use ppcsimbooke.Core.Branch.Taken.{bc_code_lem, unlike}

-- n runs of an instruction.
abbrev pub runs : ℕ → (Core → Core) → Core → Core
runs zero f s = s
runs (suc n) f s = runs n f (f s)

-- Code that stands from p to q: it keeps CTR and the mode.
pub record IsBody (p q : ℕ) (body : Core → Core) : Type 0 where
  pub leads : (s : Core) → s.nip ≡ p → (body s).nip ≡ q
  pub keeps_ctr : (s : Core) → (body s).ctr ≡ s.ctr
  pub keeps_mode : (s : Core) → cm_bit (body s) ≡ cm_bit s

-- Where a bdnz at q to p leads with a counter of m + 1.
abbrev exit_or_back : ℕ → ℕ → ℕ → ℕ
exit_or_back p q zero = u64 (q + 4)
exit_or_back p q (suc m) = p

module _ (bi p : ℕ) (s : Core) where
  abbrev next : Core
  next = record s { nip = u64 (s.nip + 4) }

  -- After a bdnz that left v in CTR, with the low word w of v.
  abbrev parted : ℕ → Bool → Core
  parted v back =
      if unlike back false && true
      then record next { ctr = v; nip = p }
      else record next { ctr = v }

  abbrev after : ℕ → ℕ → Core
  after v w = parted v (truthy w)

  bdnz_step :
      (m : ℕ)
      → cm_bit s ≡ false
      → s.ctr ≡ suc m
      → suc m < 2 ^ 32
      → ((bc 16 bi p s).nip ≡ exit_or_back p s.nip m)
        × ((bc 16 bi p s).ctr ≡ m)
        × (cm_bit (bc 16 bi p s) ≡ false)
  unfolding bc rtl
  bdnz_step m mode counter small =
      let down : u64 (s.ctr + 0xffff_ffff_ffff_ffff) ≡ m = omega (arith, counter, small) in
      let low : u32 m ≡ m = omega (arith, small) in
      let arrived : bc_code 16 bi p next ≡ after m m =
        bc_code_lem 16 bi p next
        ∙ ap (λ (v : ℕ). after v (if cm_bit s then v else u32 v)) down
        ∙ ap (λ (b : Bool). after m (if b then m else u32 m)) mode
        ∙ ap (after m) low in
      subst (λ (t : Core). (t.nip ≡ exit_or_back p s.nip m) × (t.ctr ≡ m) × (cm_bit t ≡ false))
        (sym arrived) (go m)
    where
      go :
          (n : ℕ)
          → ((after n n).nip ≡ exit_or_back p s.nip n)
            × ((after n n).ctr ≡ n)
            × (cm_bit (after n n) ≡ false)
      go zero = (refl, refl, mode)
      go (suc n) =
          let on : true ≡ truthy (suc n) = ground arith in
          subst
            (λ (back : Bool).
              ((parted (suc n) back).nip ≡ p)
              × ((parted (suc n) back).ctr ≡ suc n)
              × (cm_bit (parted (suc n) back) ≡ false))
            on (refl, refl, mode)

-- Where the loop stands after k of its n + 1 laps.
abbrev pub IsLap : ℕ → ℕ → ℕ → ℕ → Core → Type 0
IsLap p q n k t = (t.nip ≡ (if k == suc n then u64 (q + 4) else p)) × (t.ctr ≡ suc n - k)

module _ (bi p q : ℕ) (body : Core → Core) (code : IsBody p q body) where
  abbrev lap : Core → Core
  lap = body ▷ bc 16 bi p

  lap_step :
      (m : ℕ) (s : Core)
      → s.nip ≡ p
      → cm_bit s ≡ false
      → s.ctr ≡ suc m
      → suc m < 2 ^ 32
      → ((lap s).nip ≡ exit_or_back p q m) × ((lap s).ctr ≡ m) × (cm_bit (lap s) ≡ false)
  lap_step m s start mode counter small =
      let r =
        bdnz_step bi p (body s) m (code.keeps_mode s ∙ mode) (code.keeps_ctr s ∙ counter) small in
      (r.0 ∙ ap (λ (v : ℕ). exit_or_back p v m) (code.leads s start), r.1, r.2)

  -- A loop that bdnz closes ends: in 32-bit mode, started at p with n + 1 in CTR, less than 2^32, it is back at p
  -- after each of the first n laps, with as many laps left as CTR says, and after n + 1 laps it stands
  -- behind the bdnz with CTR 0. The body is any code from p to the bdnz at q that keeps CTR and the mode.
  pub bdnz_loop :
      (n k : ℕ) (s : Core)
      → s.nip ≡ p
      → cm_bit s ≡ false
      → s.ctr ≡ suc n
      → suc n < 2 ^ 32
      → k ≤ suc n
      → IsLap p q n k (runs k lap s)
  bdnz_loop n zero s start mode counter small within = (start ∙ ground arith, counter ∙ omega arith)
  bdnz_loop zero (suc zero) s start mode counter small within =
      let r = lap_step 0 s start mode counter small in (r.0, r.1)
  bdnz_loop zero (suc (suc k)) s start mode counter small within = absurd (omega (arith, within))
  bdnz_loop (suc n) (suc k) s start mode counter small within =
      let r = lap_step (suc n) s start mode counter small in
      let rest = bdnz_loop n k (lap s) r.0 r.2 r.1 (omega (arith, small)) (omega (arith, within)) in
      (rest.0 ∙ ground arith, rest.1 ∙ omega arith)
