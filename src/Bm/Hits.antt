-- ===== src/Bm/Hits.antt =====
-- `check_pc` counts hits, and the map behaves as one.
use ppcsimbooke.Base.{
  ℕ, ◌+◌, ◌≡◌, refl, ◌≢◌, ◌⊎◌, inl, inr, Bool, true, false, Option, none, some, List, [], ◌∷◌,
  arith, not, ap, sym, ◌∙◌, if◌then◌else◌, u64,
}
use ppcsimbooke.Bm.{
  Bkpt, BreakptMngr, find, assign, erase, check_pc, add_breakpoint, delete_breakpoint,
}

find-assign_self : (b : Bkpt) (bs : List Bkpt) → find b.ea (assign b bs) ≡ some b
unfolding find assign
find-assign_self b [] = ground arith
find-assign_self b (c ∷ bs) = ground (arith, find-assign_self b bs)

find-assign_ne :
    (b : Bkpt) (bs : List Bkpt) (ea : ℕ) → b.ea ≢ ea → find ea (assign b bs) ≡ find ea bs
unfolding find assign
find-assign_ne b [] ea ne = ground (arith, ne)
find-assign_ne b (c ∷ bs) ea ne = ground (arith, ne, find-assign_ne b bs ea ne)

find-erase : (ea : ℕ) (bs : List Bkpt) → find ea (erase ea bs) ≡ none
unfolding find erase
find-erase ea [] = refl
find-erase ea (c ∷ bs) = ground (arith, find-erase ea bs)

find-erase_ne :
    (ea other : ℕ) (bs : List Bkpt) → ea ≢ other → find other (erase ea bs) ≡ find other bs
unfolding find erase
find-erase_ne ea other [] ne = refl
find-erase_ne ea other (c ∷ bs) ne = ground (arith, ne, find-erase_ne ea other bs ne)

find-ea : (ea : ℕ) (bs : List Bkpt) (b : Bkpt) → find ea bs ≡ some b → b.ea ≡ ea
unfolding find
find-ea ea [] b h = cc
find-ea ea (c ∷ bs) b h = ground (arith, h, find-ea ea bs b)

-- Either the address has no breakpoint or breakpoints are disabled, and `check_pc` returns false and changes nothing; or
-- it returns true, counts one hit of that breakpoint modulo 2^64, keeps its number and every
-- other breakpoint, and reports the address as the last one.
pub check_pc_lem :
    (pc other : ℕ) (m : BreakptMngr)
    → pc ≢ other
    → (((find pc m.bk_map ≡ none) ⊎ (m.bkpts_enabled ≡ false)) × (check_pc pc m ≡ (false, m)))
      ⊎ ((b : Bkpt) × (find pc m.bk_map ≡ some b)
          × (m.bkpts_enabled ≡ true)
          × ((check_pc pc m).0 ≡ true)
          × (find pc (check_pc pc m).1.bk_map ≡ some (record b { hits = u64 (b.hits + 1) }))
          × (find other (check_pc pc m).1.bk_map ≡ find other m.bk_map)
          × ((check_pc pc m).1.last_bkpt ≡ (pc, true)))
unfolding check_pc
check_pc_lem pc other m ne = go (find pc m.bk_map) m.bkpts_enabled refl refl
  where
    counted : Bkpt → Bkpt
    counted b = record b { hits = u64 (b.hits + 1) }

    hit : (b : Bkpt) → BreakptMngr
    hit b = record m { bk_map = assign (counted b) m.bk_map; last_bkpt = (pc, true) }

    go :
        (o : Option Bkpt) (e : Bool)
        → find pc m.bk_map ≡ o
        → m.bkpts_enabled ≡ e
        → let r = elim o as (λ _. Bool × BreakptMngr) [
          | none ↦ (false, m)
          | some b ↦ if not e then (false, m) else (true, hit b)
        ] in
          (((o ≡ none) ⊎ (e ≡ false)) × (r ≡ (false, m)))
          ⊎ ((b : Bkpt) × (o ≡ some b)
              × (e ≡ true)
              × (r.0 ≡ true)
              × (find pc r.1.bk_map ≡ some (record b { hits = u64 (b.hits + 1) }))
              × (find other r.1.bk_map ≡ find other m.bk_map)
              × (r.1.last_bkpt ≡ (pc, true)))
    go none e found on = inl (inl refl, refl)
    go (some b) false found on = inl (inr refl, refl)
    go (some b) true found on =
        let here : b.ea ≡ pc = find-ea pc m.bk_map b found in
        inr (
          b,
          refl,
          refl,
          refl,
          ap (λ (a : ℕ). find a (assign (counted b) m.bk_map)) (sym here)
              ∙ find-assign_self (counted b) m.bk_map,
          find-assign_ne (counted b) m.bk_map other (λ same. ne (sym here ∙ same)),
          refl,
        )

-- Adding a breakpoint gives the address the number of the counter and no hits, deleting it removes it, and both
-- leave the other addresses as they were.
pub add-delete :
    (ea other bk_num : ℕ) (m : BreakptMngr)
    → ea ≢ other
    → (find ea (add_breakpoint ea (bk_num, m)).1.bk_map
        ≡ some (record { ea = ea; num = bk_num; hits = 0 }))
      × (find other (add_breakpoint ea (bk_num, m)).1.bk_map ≡ find other m.bk_map)
      × (find ea (delete_breakpoint ea m).bk_map ≡ none)
      × (find other (delete_breakpoint ea m).bk_map ≡ find other m.bk_map)
unfolding add_breakpoint delete_breakpoint
add-delete ea other bk_num m ne =
    let new : Bkpt = record { ea = ea; num = bk_num; hits = 0 } in
    (
      find-assign_self new m.bk_map,
      find-assign_ne new m.bk_map other ne,
      find-erase ea m.bk_map,
      find-erase_ne ea other m.bk_map ne,
    )
