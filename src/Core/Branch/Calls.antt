-- ===== src/Core/Branch/Calls.antt =====
-- A call and its return: bl, and blr, which is bclr with BO = 20.
use ppcsimbooke.Base.{
  ℕ, ◌+◌, ◌^◌, ◌%◌, ◌≡◌, ◌<◌, refl, ap, ◌∙◌, u64, arith, bit_and, bit_and-high, not64,
}
use ppcsimbooke.Core.{Core, rtl}
use ppcsimbooke.Core.Branch.{bl, bla, bclr, b_code, put_lr}
use ppcsimbooke.Core.Branch.Taken.{branches}

-- A word address is its own rounding.
aligned : (x : ℕ) → x < 2 ^ 64 → x % 4 ≡ 0 → bit_and x (not64 0x3) ≡ x
aligned x small even = bit_and-high 64 2 x (omega arith) small ∙ omega (arith, even)

module _ (f : Core → Core) (bi p : ℕ) (s : Core) where
  -- A call of code that gives LR back returns behind the call: from a word address, after bl or bla, any code f that leaves
  -- LR as the call set it, and blr, both PC and NIP stand at the word after the call.
  pub call_return :
      s.pc % 4 ≡ 0
      → (f (bl p s)).lr ≡ (bl p s).lr
      → (f (bla p s)).lr ≡ (bla p s).lr
      → ((bclr 20 bi (f (bl p s))).pc ≡ u64 (s.pc + 4))
        × ((bclr 20 bi (f (bl p s))).nip ≡ u64 (s.pc + 4))
        × ((bclr 20 bi (f (bla p s))).pc ≡ u64 (s.pc + 4))
        × ((bclr 20 bi (f (bla p s))).nip ≡ u64 (s.pc + 4))
        × ((bl p s).pc ≡ p)
  unfolding bl bla rtl b_code put_lr
  call_return even keeps keeps_a =
      let home = aligned (u64 (s.pc + 4)) (omega arith) (omega (arith, even)) in
      let near = (branches 20 bi p (f (bl p s))).4 in
      let near_a = (branches 20 bi p (f (bla p s))).4 in
      let back : bit_and (f (bl p s)).lr (not64 0x3) ≡ u64 (s.pc + 4) =
        ap (λ (v : ℕ). bit_and v (not64 0x3)) keeps ∙ home in
      let back_a : bit_and (f (bla p s)).lr (not64 0x3) ≡ u64 (s.pc + 4) =
        ap (λ (v : ℕ). bit_and v (not64 0x3)) keeps_a ∙ home in
      (near.0 ∙ back, near.1 ∙ back, near_a.0 ∙ back_a, near_a.1 ∙ back_a, refl)
