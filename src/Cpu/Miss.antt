-- ===== src/Cpu/Miss.antt =====
-- What `cpu::xlate` returns after its three tries.
use ppcsimbooke.Base.{
  ℕ, ◌≡◌, refl, ◌∙◌, ◌≢◌, ◌⊎◌, inl, inr, Bool, true, false, ◌==◌, ==_iff, ◌&&◌, arith, Bool-cases,
}
use ppcsimbooke.Base.Error.{Outcome, ok, throw, no_return, sim_except, einval}
use ppcsimbooke.Tlb.{Tlb}
use ppcsimbooke.Tlb.Translate.{Request, Xlated}
use ppcsimbooke.Cpu.{MmuRegs, request_with, miss, or_else, cpu_xlate}

-- The address of a try was -1, in every one of the three.
abbrev pub IsMiss : {C : Type 0} → Tlb C × Outcome Xlated → Type 0
IsMiss tried = (x : Xlated) × (tried.1 ≡ ok x) × (x.address ≡ 0xffff_ffff_ffff_ffff)

or_else_cases :
    {C : Type 0} (tried : Tlb C × Outcome Xlated) (next : Tlb C → Tlb C × Outcome Xlated)
    → (IsMiss tried × (or_else tried next ≡ next tried.0))
      ⊎ ((or_else tried next ≡ tried)
          × ((x : Xlated) → tried.1 ≡ ok x → x.address ≢ 0xffff_ffff_ffff_ffff))
unfolding or_else
or_else_cases (t, throw ex) next = inr (refl, λ x e. cc)
or_else_cases (t, no_return) next = inr (refl, λ x e. cc)
or_else_cases (t, ok x) next = elim (Bool-cases (x.address == 0xffff_ffff_ffff_ffff)) [
  | inl gone ↦ inl ((x, refl, (==_iff _ _).0 gone), rw gone refl)
  | inr found ↦ inr (rw found refl, λ y e. λ bad. ground (arith, found, bad, e))
]

-- Not the -1 of a miss.
abbrev pub IsAnswer : Outcome Xlated → Type 0
IsAnswer (ok x) = x.address ≢ 0xffff_ffff_ffff_ffff
IsAnswer (throw ex) = Unit
IsAnswer no_return = Unit

or_else_either :
    {C : Type 0} (tried : Tlb C × Outcome Xlated) (next : Tlb C → Tlb C × Outcome Xlated)
    → (IsMiss tried × (or_else tried next ≡ next tried.0))
      ⊎ ((or_else tried next ≡ tried) × IsAnswer tried.1)
or_else_either (t, throw ex) next = elim (or_else_cases (t, throw ex) next) [
  | inl m ↦ inl m
  | inr a ↦ inr (a.0, tt)
]
or_else_either (t, no_return) next = elim (or_else_cases (t, no_return) next) [
  | inl m ↦ inl m
  | inr a ↦ inr (a.0, tt)
]
or_else_either (t, ok x) next = elim (or_else_cases (t, ok x) next) [
  | inl m ↦ inl m
  | inr a ↦ inr (a.0, a.1 x refl)
]

module _ {C : Type 0} (lookup : Tlb C → Request → Tlb C × Outcome Xlated) (t : Tlb C) (g : MmuRegs)
    (addr : ℕ) (wr ex : Bool) where
  abbrev pub try0 : Tlb C × Outcome Xlated
  try0 = lookup t (request_with g addr wr ex g.pid0)

  abbrev pub try1 : Tlb C × Outcome Xlated
  try1 = lookup try0.0 (request_with g addr wr ex g.pid1)

  abbrev pub try2 : Tlb C × Outcome Xlated
  try2 = lookup try1.0 (request_with g addr wr ex g.pid2)

  -- Whatever the TLB's lookup is: a write to an instruction page throws EINVAL and leaves the TLB as it is; any other access has the
  -- result of the first of PID0, PID1 and PID2 whose lookup does not answer -1, and it is
  -- not a -1; and where all three answer -1 it is the exception of a miss.
  pub cpu_xlate_cases :
      ((wr ≡ true)
        × (ex ≡ true)
        × (cpu_xlate lookup t g addr wr ex ≡ (t, throw (sim_except einval))))
      ⊎ (((wr && ex) ≡ false)
          × (((cpu_xlate lookup t g addr wr ex ≡ try0) × IsAnswer try0.1)
              ⊎ (IsMiss try0 × (cpu_xlate lookup t g addr wr ex ≡ try1) × IsAnswer try1.1)
              ⊎ (IsMiss try0
                  × IsMiss try1
                  × (cpu_xlate lookup t g addr wr ex ≡ try2)
                  × IsAnswer try2.1)
              ⊎ (IsMiss try0
                  × IsMiss try1
                  × IsMiss try2
                  × (cpu_xlate lookup t g addr wr ex ≡ (try2.0, miss addr wr ex)))))
  unfolding cpu_xlate
  cpu_xlate_cases =
      let last : Tlb C → Tlb C × Outcome Xlated = λ u. (u, miss addr wr ex) in
      let third = λ (u : Tlb C). or_else (lookup u (request_with g addr wr ex g.pid2)) last in
      let second = λ (u : Tlb C). or_else (lookup u (request_with g addr wr ex g.pid1)) third in
      elim (Bool-cases (wr && ex)) [
        | inl both ↦ inl (ground (arith, both), ground (arith, both), rw both refl)
        | inr legal ↦ inr (
          legal,
          elim (or_else_either try0 second) [
            | inr a0 ↦ inl (rw legal (a0.0), a0.1)
            | inl r0 ↦ elim (or_else_either try1 third) [
              | inr a1 ↦ inr (inl (r0.0, rw legal (r0.1 ∙ a1.0), a1.1))
              | inl r1 ↦ elim (or_else_either try2 last) [
                | inr a2 ↦ inr (inr (inl (r0.0, r1.0, rw legal (r0.1 ∙ r1.1 ∙ a2.0), a2.1)))
                | inl r2 ↦ inr (inr (inr (r0.0, r1.0, r2.0, rw legal (r0.1 ∙ r1.1 ∙ r2.1))))
              ]
            ]
          ],
        )
      ]
