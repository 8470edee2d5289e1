-- ===== src/Memory/Page.antt =====
-- The host page of an address.
use ppcsimbooke.Base.{
  ℕ, ◌+◌, ◌/◌, ◌%◌, ◌^◌, ◌≡◌, refl, subst, sym, ap, ◌∙◌, inl, inr, Bool, true, false, Option, none,
  some, ◌∷◌, arith, if◌then◌else◌, Option-cases,
}
use ppcsimbooke.Base.Error.{Outcome, ok, throw, no_return, sim_except, efault}
use ppcsimbooke.Memory.{
  Memory, MemTgt, PageHash, find_page, select_mem_tgt, add_page, locate_page, paddr_to_hostpage,
  page_offset, read8, write8, store_at,
}

-- The page that an address has, once it has one: the next call finds it and changes nothing.
abbrev pub IsSettled : ℕ → Outcome (ℕ × Memory) → Type 0
IsSettled paddr (ok (page, n)) = paddr_to_hostpage paddr n ≡ ok (page, n)
IsSettled paddr (throw ex) = Unit
IsSettled paddr no_return = Unit

find_page-head : (n page : ℕ) (entries : PageHash) → find_page n ((n, page) ∷ entries) ≡ some page
unfolding find_page
find_page-head n page entries = ground arith

settle : (paddr : ℕ) (r s : Outcome (ℕ × Memory)) → r ≡ s → IsSettled paddr s → IsSettled paddr r
settle paddr r s e h = subst (IsSettled paddr) (sym e) h

module _ (paddr : ℕ) (m : Memory) (still : m.mem_tgt_modified ≡ false) where
  abbrev pageno : ℕ
  pageno = paddr / 2 ^ 12

  located :
      (s : Outcome (Option (ℕ × MemTgt)))
      → select_mem_tgt paddr m.mem_tgt ≡ s
      → find_page pageno m.page_hash_cache ≡ none
      → IsSettled paddr (locate_page paddr m)
  unfolding locate_page paddr_to_hostpage
  located (throw ex) chosen missing = settle paddr _ (throw ex) (rw (chosen, locate_page) refl) tt
  located no_return chosen missing = settle paddr _ no_return (rw (chosen, locate_page) refl) tt
  located (ok none) chosen missing =
      settle paddr _ (throw (sim_except efault)) (rw (chosen, locate_page) refl) tt
  located (ok (some (i, c))) chosen missing = elim (Option-cases (find_page pageno c.page_hash)) [
    | inl new ↦
        let n : Memory = record m {
          mem_tgt = add_page i pageno m.n_pages m.mem_tgt;
          mem_tgt_modified = false;
          page_hash_cache = (pageno, m.n_pages) ∷ m.page_hash_cache;
          n_pages = m.n_pages + 1;
        } in
        settle paddr _ (ok (m.n_pages, n)) (rw (chosen, new, locate_page) refl)
          (rw (find_page-head pageno m.n_pages m.page_hash_cache, paddr_to_hostpage) refl)
    | inr old ↦
        let n : Memory = record m { mem_tgt_modified = false } in
        settle paddr _ (ok (old.0, n)) (rw (chosen, old.1, locate_page) refl)
          (rw (missing, chosen, old.1, paddr_to_hostpage, locate_page) refl)
  ]

  -- Where no change of the targets is flagged, `paddr_to_hostpage` throws, or it returns a page
  -- that every further call with the address returns again, with no further change of the memory.
  pub hostpage-IsSettled : IsSettled paddr (paddr_to_hostpage paddr m)
  unfolding paddr_to_hostpage
  hostpage-IsSettled = elim (Option-cases (find_page pageno m.page_hash_cache)) [
    | inr found ↦
        settle paddr _ (ok (found.0, m)) (ground (arith, still, found.1))
          (ground (arith, still, found.1))
    | inl missing ↦
        settle paddr _ (locate_page paddr m) (ground (arith, still, missing))
          (located (select_mem_tgt paddr m.mem_tgt) refl missing)
  ]

unfoldable pub with_heap : (ℕ → ℕ → ℕ) → Outcome (ℕ × Memory) → Outcome (ℕ × Memory)
with_heap h (ok (page, n)) = ok (page, record n { heap = h })
with_heap h (throw ex) = throw ex
with_heap h no_return = no_return

-- The bytes do not matter to `paddr_to_hostpage`.
pub hostpage-heap :
    (paddr : ℕ) (h : ℕ → ℕ → ℕ) (m : Memory)
    → paddr_to_hostpage paddr (record m { heap = h }) ≡ with_heap h (paddr_to_hostpage paddr m)
unfolding paddr_to_hostpage locate_page with_heap
hostpage-heap paddr h m =
    go m.mem_tgt_modified (find_page (paddr / 2 ^ 12) m.page_hash_cache)
      (select_mem_tgt paddr m.mem_tgt)
  where
    entry : (ℕ → ℕ → ℕ) → ℕ × MemTgt → Option ℕ → Outcome (ℕ × Memory)
    entry g chosen o = elim o [
      | some page ↦ ok (page, record m { heap = g; mem_tgt_modified = false })
      | none ↦ ok (
        m.n_pages,
        record m {
          mem_tgt = add_page chosen.0 (paddr / 2 ^ 12) m.n_pages m.mem_tgt;
          mem_tgt_modified = false;
          page_hash_cache = (paddr / 2 ^ 12, m.n_pages) ∷ m.page_hash_cache;
          heap = g;
          n_pages = m.n_pages + 1;
        },
      )
    ]

    rest : (ℕ → ℕ → ℕ) → Outcome (Option (ℕ × MemTgt)) → Outcome (ℕ × Memory)
    rest g s = elim s [
      | throw ex ↦ throw ex
      | no_return ↦ no_return
      | ok none ↦ throw (sim_except efault)
      | ok (some chosen) ↦ entry g chosen (find_page (paddr / 2 ^ 12) chosen.1.page_hash)
    ]

    start : (ℕ → ℕ → ℕ) → Bool → Option ℕ → Outcome (Option (ℕ × MemTgt)) → Outcome (ℕ × Memory)
    start g b o s =
        if b
        then rest g s
        else elim o [ some page ↦ ok (page, record m { heap = g }) | none ↦ rest g s ]

    same_entry :
        (chosen : ℕ × MemTgt) (o : Option ℕ)
        → entry h chosen o ≡ with_heap h (entry m.heap chosen o)
    same_entry chosen none = refl
    same_entry chosen (some page) = refl

    same_rest : (s : Outcome (Option (ℕ × MemTgt))) → rest h s ≡ with_heap h (rest m.heap s)
    same_rest (throw ex) = refl
    same_rest no_return = refl
    same_rest (ok none) = refl
    same_rest (ok (some chosen)) = same_entry chosen (find_page (paddr / 2 ^ 12) chosen.1.page_hash)

    go :
        (b : Bool) (o : Option ℕ) (s : Outcome (Option (ℕ × MemTgt)))
        → start h b o s ≡ with_heap h (start m.heap b o s)
    go true o s = same_rest s
    go false none s = same_rest s
    go false (some page) s = refl

read8-hit :
    (addr : ℕ) (m : Memory) (page : ℕ)
    → paddr_to_hostpage addr m ≡ ok (page, m)
    → read8 addr m ≡ ok (m.heap page (page_offset addr), m)
unfolding read8
read8-hit addr m page found = rw (found, read8) refl

-- A byte written and read back.
abbrev pub ReadsBack : ℕ → ℕ → Outcome Memory → Type 0
ReadsBack addr value (ok n) = read8 addr n ≡ ok (value % 256, n)
ReadsBack addr value (throw ex) = Unit
ReadsBack addr value no_return = Unit

-- Where no change of the targets is flagged, `write8` throws, or `read8` of the same address returns the
-- byte that was written and leaves the memory as it is.
pub read8-write8 :
    (addr value : ℕ) (m : Memory)
    → m.mem_tgt_modified ≡ false
    → ReadsBack addr value (write8 addr value m)
unfolding write8 store_at with_heap
read8-write8 addr value m still = go (paddr_to_hostpage addr m) (hostpage-IsSettled addr m still)
  where
    go :
        (o : Outcome (ℕ × Memory))
        → IsSettled addr o
        → ReadsBack addr value (elim o as (λ _. Outcome Memory) [
          | ok (page, n) ↦ ok (store_at page (page_offset addr) (value % 256) n)
          | throw ex ↦ throw ex
          | no_return ↦ no_return
        ])
    go (throw ex) settled = tt
    go no_return settled = tt
    go (ok (page, n)) settled =
        let n' = store_at page (page_offset addr) (value % 256) n in
        read8-hit addr n' page (hostpage-heap addr n'.heap n ∙ ap (with_heap n'.heap) settled)
        ∙ ap (λ (b : ℕ). ok (b, n')) (ground arith)
