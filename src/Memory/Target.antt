-- ===== src/Memory/Target.antt =====
-- Which target an address belongs to, and what a registration changes.
use mathlib.Core.Option.{none-ne-some}
use ppcsimbooke.Base.{
  ℕ, ◌+◌, ◌/◌, ◌^◌, ◌≤◌, ◌<◌, ◌&&◌, ◌≡◌, refl, sym, ◌⊎◌, inl, inr, Bool, true, false, Option, none,
  some, List, [], ◌∷◌, ◌++◌, arith, ltb, ◌==◌, if◌then◌else◌, Bool-cases, All,
}
use ppcsimbooke.Base.Error.{Outcome, ok, throw, no_return}
use ppcsimbooke.Memory.{
  Memory, MemTgt, find_page, is_paddr_there, select_from, select_mem_tgt, paddr_to_hostpage,
  register_memory_target, is_overlapping_tgt,
}

-- Not above a target, or not there.
abbrev pub IsBelow : ℕ → MemTgt → MemTgt → Type 0
IsBelow paddr c it = (is_paddr_there it paddr ≡ false) ⊎ (it.priority ≤ c.priority)

-- The choice so far is there, and not above the result.
abbrev IsKept : ℕ → Option (ℕ × MemTgt) → MemTgt → Type 0
IsKept paddr none c = Unit
IsKept paddr (some (i, d)) c = d.priority ≤ c.priority

-- The choice so far is below the next one.
abbrev IsLower : Option (ℕ × MemTgt) → MemTgt → Type 0
IsLower none it = Unit
IsLower (some (i, d)) it = d.priority < it.priority

abbrev IsThere : ℕ → Option (ℕ × MemTgt) → Type 0
IsThere paddr none = Unit
IsThere paddr (some (i, d)) = is_paddr_there d paddr ≡ true

-- How many targets with the address have a priority, and whether the choice so far is one.
abbrev pub ties : ℕ → ℕ → List MemTgt → ℕ
ties paddr p [] = 0
ties paddr p (it ∷ its) =
    (if is_paddr_there it paddr && it.priority == p then 1 else 0) + ties paddr p its

abbrev own : ℕ → Option (ℕ × MemTgt) → ℕ
own p none = 0
own p (some (i, d)) = if d.priority == p then 1 else 0

abbrev Verdict : ℕ → List MemTgt → Option (ℕ × MemTgt) → Outcome (Option (ℕ × MemTgt)) → Type 0
Verdict paddr its last (ok none) =
    (last ≡ none) × All (λ (it : MemTgt). is_paddr_there it paddr ≡ false) its
Verdict paddr its last (ok (some (i, c))) =
    All (IsBelow paddr c) its
    × IsKept paddr last c
    × (is_paddr_there c paddr ≡ true)
    × (ties paddr c.priority its + own c.priority last ≡ 1)
Verdict paddr its last (throw ex) = ⊥
Verdict paddr its last no_return = (p : ℕ) × (2 ≤ ties paddr p its + own p last)

module _ (paddr : ℕ) where
  -- One more target at the front that the result is not below.
  skip :
      (it : MemTgt) (its : List MemTgt) (last : Option (ℕ × MemTgt))
      (r : Outcome (Option (ℕ × MemTgt)))
      → is_paddr_there it paddr ≡ false
      → Verdict paddr its last r
      → Verdict paddr (it ∷ its) last r
  skip it its last (ok none) away v = (v.0, (away, v.1))
  skip it its last (ok (some (i, c))) away v =
      ((inl away, v.0), v.1, v.2, ground (arith, away, v.3))
  skip it its last (throw ex) away v = v
  skip it its last no_return away v = (v.0, ground (arith, away, v.1))

  take_new :
      (i : ℕ) (it : MemTgt) (its : List MemTgt) (last : Option (ℕ × MemTgt))
      (r : Outcome (Option (ℕ × MemTgt)))
      → is_paddr_there it paddr ≡ true
      → IsLower last it
      → Verdict paddr its (some (i, it)) r
      → Verdict paddr (it ∷ its) last r
  take_new i it its last (ok none) here kept v = absurd (none-ne-some _ (sym v.0))
  take_new i it its none (ok (some (j, c))) here kept v =
      ((inr v.1, v.0), tt, v.2, ground (arith, here, v.3))
  take_new i it its (some (k, d)) (ok (some (j, c))) here kept v =
      ((inr v.1, v.0), omega (arith, kept, v.1), v.2, ground (arith, here, kept, v.1, v.3))
  take_new i it its last (throw ex) here kept v = v
  take_new i it its none no_return here kept v = (v.0, ground (arith, here, v.1))
  take_new i it its (some (k, d)) no_return here kept v = (v.0, ground (arith, here, v.1))

  keep_old :
      (it : MemTgt) (its : List MemTgt) (k : ℕ) (d : MemTgt) (r : Outcome (Option (ℕ × MemTgt)))
      → it.priority < d.priority
      → Verdict paddr its (some (k, d)) r
      → Verdict paddr (it ∷ its) (some (k, d)) r
  keep_old it its k d (ok none) lower v = absurd (none-ne-some _ (sym v.0))
  keep_old it its k d (ok (some (j, c))) lower v =
      ((inr (omega (arith, lower, v.1)), v.0), v.1, v.2, ground (arith, lower, v.1, v.3))
  keep_old it its k d (throw ex) lower v = v
  keep_old it its k d no_return lower v = (v.0, ground (arith, v.1))

  select_from-Verdict :
      (i : ℕ) (its : List MemTgt) (last : Option (ℕ × MemTgt))
      → IsThere paddr last
      → Verdict paddr its last (select_from paddr i its last)
  unfolding select_from
  select_from-Verdict i [] none there = (refl, tt)
  select_from-Verdict i [] (some (k, d)) there = (tt, omega arith, there, ground arith)
  select_from-Verdict i (it ∷ its) none there = elim (Bool-cases (is_paddr_there it paddr)) [
    | inl here ↦
        rw here
          (take_new i it its none _ here tt (select_from-Verdict (i + 1) its (some (i, it)) here))
    | inr away ↦ rw away (skip it its none _ away (select_from-Verdict (i + 1) its none tt))
  ]
  select_from-Verdict i (it ∷ its) (some (k, d)) there =
      go (is_paddr_there it paddr) (ltb d.priority it.priority) (d.priority == it.priority) refl
        refl refl (λ here. select_from-Verdict (i + 1) its (some (i, it)) here)
        (select_from-Verdict (i + 1) its (some (k, d)) there)
    where
      go :
          (b u e : Bool)
          → is_paddr_there it paddr ≡ b
          → ltb d.priority it.priority ≡ u
          → (d.priority == it.priority) ≡ e
          → (is_paddr_there it paddr ≡ true
              → Verdict paddr its (some (i, it)) (select_from paddr (i + 1) its (some (i, it))))
          → Verdict paddr its (some (k, d)) (select_from paddr (i + 1) its (some (k, d)))
          → Verdict paddr (it ∷ its) (some (k, d)) (
              if b
              then if u
                then select_from paddr (i + 1) its (some (i, it))
                else if e
                then no_return
                else select_from paddr (i + 1) its (some (k, d))
              else select_from paddr (i + 1) its (some (k, d)))
      go false u e away p q new old = skip it its (some (k, d)) _ away old
      go true true e here p q new old =
          take_new i it its (some (k, d)) _ here (ground (arith, p)) (new here)
      go true false true here p q new old = (it.priority, ground (arith, here, q))
      go true false false here p q new old = keep_old it its k d _ (ground (arith, p, q)) old

-- The verdict on a whole list of targets.
abbrev pub IsChoice : ℕ → List MemTgt → Outcome (Option (ℕ × MemTgt)) → Type 0
IsChoice paddr tgts (ok none) = All (λ (it : MemTgt). is_paddr_there it paddr ≡ false) tgts
IsChoice paddr tgts (ok (some (i, c))) =
    All (IsBelow paddr c) tgts × (is_paddr_there c paddr ≡ true) × (ties paddr c.priority tgts ≡ 1)
IsChoice paddr tgts (throw ex) = ⊥
IsChoice paddr tgts no_return = (p : ℕ) × (2 ≤ ties paddr p tgts)

-- `select_mem_tgt` finds no target only where none has the address; a target that it finds has the address, no target
-- with the address has a higher priority, and no other one has the same; it never throws to its caller, and where it
-- does not return two targets with the address have one priority.
pub select_mem_tgt-IsChoice :
    (paddr : ℕ) (tgts : List MemTgt) → IsChoice paddr tgts (select_mem_tgt paddr tgts)
unfolding select_mem_tgt
select_mem_tgt-IsChoice paddr tgts =
    go (select_from paddr 0 tgts none) (select_from-Verdict paddr 0 tgts none tt)
  where
    go : (r : Outcome (Option (ℕ × MemTgt))) → Verdict paddr tgts none r → IsChoice paddr tgts r
    go (ok none) v = v.1
    go (ok (some (i, c))) v = (v.0, v.2, omega (arith, v.3))
    go (throw ex) v = v
    go no_return v = (v.0, omega (arith, v.1))

-- A page that is in the cache stays the page of its addresses when a target is registered over them, whatever its
-- priority: the registration flags no change.
pub hostpage-register :
    (paddr page ba size flags tgt_type prio : ℕ) (m : Memory)
    → m.mem_tgt_modified ≡ false
    → find_page (paddr / 2 ^ 12) m.page_hash_cache ≡ some page
    → paddr_to_hostpage paddr (register_memory_target ba size flags tgt_type prio m)
      ≡ ok (page, register_memory_target ba size flags tgt_type prio m)
unfolding register_memory_target paddr_to_hostpage
hostpage-register paddr page ba size flags tgt_type prio m still found =
    go (is_overlapping_tgt _ m.mem_tgt) (m.mem_tgt ++ _ ∷ [])
  where
    go :
        (b : Bool) (tgts : List MemTgt)
        → paddr_to_hostpage paddr (if b then m else record m { mem_tgt = tgts })
          ≡ ok (page, if b then m else record m { mem_tgt = tgts })
    go true tgts = ground (arith, still, found)
    go false tgts = ground (arith, still, found)
