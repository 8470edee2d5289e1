-- ===== src/Cpu/Access/Errors.antt =====
-- Accesses that fail in translation, and accesses that do not.
use ppcsimbooke.Base.{
  ℕ, ◌≡◌, refl, ap, ◌∙◌, sym, subst, Bool, true, false, [], ◌∷◌, All, arith, ◌&&◌, if◌then◌else◌,
}
use ppcsimbooke.Base.Error.{Outcome, ok, throw, no_return, sim_except_ppc}
use ppcsimbooke.Utils.{Endianness}
use ppcsimbooke.Memory.{Memory}
use ppcsimbooke.Tlb.{Tlb}
use ppcsimbooke.Tlb.Translate.{Request, Xlated}
use ppcsimbooke.Cpu.{MmuRegs, cpu_xlate, miss, or_else, request_with}
use ppcsimbooke.Cpu.Miss.{IsMiss, try0, try1, try2}
use ppcsimbooke.Cpu.Access.{
  CpuBus, with_memory, byte_order, no_value, cpu_read, cpu_write, cpu_read8, cpu_read16, cpu_read32,
  cpu_read64, cpu_write8, cpu_write16, cpu_write32, cpu_write64,
}

pass :
    {C : Type 0} (tried : Tlb C × Outcome Xlated) (next : Tlb C → Tlb C × Outcome Xlated)
    → IsMiss tried
    → or_else tried next ≡ next tried.0
unfolding or_else
pass (t, ok x) next (y, e, gone) = ground (arith, e, gone)
pass (t, throw ex) next (y, e, gone) = cc
pass (t, no_return) next (y, e, gone) = cc

-- None of the three PIDs has a match for an access.
abbrev pub AllMiss :
    {C : Type 0} → (Tlb C → Request → Tlb C × Outcome Xlated) → Tlb C → MmuRegs → ℕ → Bool → Type 0
AllMiss lookup t g addr wr =
    IsMiss (try0 lookup t g addr wr false)
    × IsMiss (try1 lookup t g addr wr false)
    × IsMiss (try2 lookup t g addr wr false)

module _ {C : Type 0} (lookup : Tlb C → Request → Tlb C × Outcome Xlated) (addr : ℕ) where
  all_miss :
      (t : Tlb C) (g : MmuRegs) (wr : Bool)
      → AllMiss lookup t g addr wr
      → (cpu_xlate lookup t g addr wr false).1 ≡ miss addr wr false
  unfolding cpu_xlate
  all_miss t g wr (m0, m1, m2) =
      let last : Tlb C → Tlb C × Outcome Xlated = λ u. (u, miss addr wr false) in
      let third = λ (u : Tlb C). or_else (lookup u (request_with g addr wr false g.pid2)) last in
      let second = λ (u : Tlb C). or_else (lookup u (request_with g addr wr false g.pid1)) third in
      ap (λ r. r.1)
        (legal wr _ _
          ∙ pass (try0 lookup t g addr wr false) second m0
          ∙ pass (try1 lookup t g addr wr false) third m1
          ∙ pass (try2 lookup t g addr wr false) last m2)
    where
      legal : (b : Bool) (x y : Tlb C × Outcome Xlated) → (if b && false then x else y) ≡ y
      legal true x y = refl
      legal false x y = refl

  -- The outcome of an access and the memory after it.
  abbrev pub IsMissed : {A : Type 0} → ℕ → CpuBus C → CpuBus C × Outcome A → Type 0
  IsMissed code s r =
      (r.1 ≡ throw (sim_except_ppc 0xe code addr)) × (r.0.mem ≡ s.mem) × (r.0.mmu ≡ s.mmu)

  read-IsMissed :
      (access : ℕ → Endianness → Memory → Outcome (ℕ × Memory)) (s : CpuBus C)
      → AllMiss lookup s.tlb s.mmu addr false
      → IsMissed 1 s (cpu_read lookup addr access s)
  unfolding cpu_read with_memory miss
  read-IsMissed access s misses =
      subst
        (λ o. IsMissed 1 s (
          with_memory (record s { tlb = (cpu_xlate lookup s.tlb s.mmu addr false false).0 }) o
            (λ x. access x.address (byte_order x))))
        (sym (all_miss s.tlb s.mmu false misses)) (refl, refl, refl)

  write-IsMissed :
      (access : ℕ → Endianness → Memory → Outcome Memory) (s : CpuBus C)
      → AllMiss lookup s.tlb s.mmu addr true
      → IsMissed 2 s (cpu_write lookup addr access s)
  unfolding cpu_write with_memory miss
  write-IsMissed access s misses =
      subst
        (λ o. IsMissed 2 s (
          with_memory (record s { tlb = (cpu_xlate lookup s.tlb s.mmu addr true false).0 }) o
            (λ x m. no_value (access x.address (byte_order x) m))))
        (sym (all_miss s.tlb s.mmu true misses)) (refl, refl, refl)

  -- Where none of the three PIDs has a match for a load from the address, nor for a store to it, in the TLB as each try
  -- leaves it to the next, every read throws a data TLB exception with the code of a load, and every write one with
  -- the code of a store. Both carry the address, and neither changes the memory or the registers, or needs a memory
  -- module.
  pub access_misses :
      (value : ℕ) (s : CpuBus C)
      → AllMiss lookup s.tlb s.mmu addr false
      → AllMiss lookup s.tlb s.mmu addr true
      → All (IsMissed 1 s) (
          cpu_read8 lookup addr s
          ∷ cpu_read16 lookup addr s
          ∷ cpu_read32 lookup addr s
          ∷ cpu_read64 lookup addr s
          ∷ [])
        × All (IsMissed 2 s) (
            cpu_write8 lookup addr value s
            ∷ cpu_write16 lookup addr value s
            ∷ cpu_write32 lookup addr value s
            ∷ cpu_write64 lookup addr value s
            ∷ [])
  unfolding cpu_read8 cpu_read16 cpu_read32 cpu_read64 cpu_write8 cpu_write16 cpu_write32
      cpu_write64
  access_misses value s loads stores = (
    (
      read-IsMissed _ s loads,
      (read-IsMissed _ s loads, (read-IsMissed _ s loads, (read-IsMissed _ s loads, tt))),
    ),
    (
      write-IsMissed _ s stores,
      (write-IsMissed _ s stores, (write-IsMissed _ s stores, (write-IsMissed _ s stores, tt))),
    ),
  )
