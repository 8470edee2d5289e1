-- ===== src/Tlb/Invalidate/Effect.antt =====
-- What `tlbive` may change.
use mathlib.Core.Option.{some-injective}
use ppcsimbooke.Base.{
  ℕ, ◌/◌, ◌^◌, ◌≡◌, refl, ap, subst, ◌⊎◌, inl, inr, Bool, true, false, Option, none, some, List, [],
  ◌∷◌, map, arith, truthy, not, if◌then◌else◌, Bool-cases, ◌&&◌, bit_and, ◌==◌,
}
use ppcsimbooke.Tlb.{TlbEntry, Tlb}
use ppcsimbooke.Tlb.Cache.{LruCache}
use ppcsimbooke.Tlb.Invalidate.{
  invalidate, invalidate_unprotected, invalidate_first, invalidate_first_set, invalidate_page,
  invalidate_entries, hits_4k, hits_cam, tlbive,
}

-- Two lists that are related in each place.
abbrev pub Pointwise {ℓ} : {A : Type ℓ} → (A → A → Type 0) → List A → List A → Type 0
Pointwise R [] [] = Unit
Pointwise R [] (y ∷ ys) = ⊥
Pointwise R (x ∷ xs) [] = ⊥
Pointwise R (x ∷ xs) (y ∷ ys) = R x y × Pointwise R xs ys

-- An entry is kept, or only its valid bit is cleared; in tlbCam that needs IPROT to be clear.
abbrev pub Cleared4k : TlbEntry → TlbEntry → Type 0
Cleared4k e f = (f ≡ e) ⊎ (f ≡ invalidate e)

abbrev pub ClearedCam : TlbEntry → TlbEntry → Type 0
ClearedCam e f = (f ≡ e) ⊎ (f ≡ invalidate e) × (e.iprot ≡ 0)

Pointwise-same {ℓ} :
    {A : Type ℓ} (R : A → A → Type 0) → ((x : A) → R x x) → (xs : List A) → Pointwise R xs xs
Pointwise-same R r [] = tt
Pointwise-same R r (x ∷ xs) = (r x, Pointwise-same R r xs)

Pointwise-map {ℓ} :
    {A : Type ℓ} (R : A → A → Type 0) (f : A → A)
    → ((x : A) → R x (f x))
    → (xs : List A) → Pointwise R xs (map f xs)
Pointwise-map R f r [] = tt
Pointwise-map R f r (x ∷ xs) = (r x, Pointwise-map R f r xs)

module _ (R : TlbEntry → TlbEntry → Type 0) (r : (x : TlbEntry) → R x x) (p : TlbEntry → Bool)
    (c : (x : TlbEntry) → p x ≡ true → R x (invalidate x)) where
  first_clears : (es fs : List TlbEntry) → invalidate_first p es ≡ some fs → Pointwise R es fs
  unfolding invalidate_first
  first_clears [] fs h = cc
  first_clears (e ∷ es) fs h = go (p e) refl (invalidate_first p es) refl h (first_clears es)
    where
      go :
          (b : Bool)
          → p e ≡ b
          → (o : Option (List TlbEntry)) → invalidate_first p es ≡ o
          → elim b as (λ _. Option (List TlbEntry)) [
            | true ↦ some (invalidate e ∷ es)
            | false ↦ elim o [ none ↦ none | some rest ↦ some (e ∷ rest) ]
          ]
            ≡ some fs
          → ((rest : List TlbEntry) → invalidate_first p es ≡ some rest → Pointwise R es rest)
          → Pointwise R (e ∷ es) fs
      go true hit o eq got rec =
          subst (λ xs. Pointwise R (e ∷ es) xs) (some-injective _ _ got)
            (c e hit, Pointwise-same R r es)
      go false hit none eq got rec = cc
      go false hit (some rest) eq got rec =
          subst (λ xs. Pointwise R (e ∷ es) xs) (some-injective _ _ got) (r e, rec rest eq)

  first_set_clears :
      (xs ys : List (List TlbEntry))
      → invalidate_first_set p xs ≡ some ys
      → Pointwise (Pointwise R) xs ys
  unfolding invalidate_first_set
  first_set_clears [] ys h = cc
  first_set_clears (ws ∷ xs) ys h =
      go (invalidate_first p ws) refl (invalidate_first_set p xs) refl h (first_set_clears xs)
    where
      go :
          (o : Option (List TlbEntry))
          → invalidate_first p ws ≡ o
          → (q : Option (List (List TlbEntry))) → invalidate_first_set p xs ≡ q
          → elim o as (λ _. Option (List (List TlbEntry))) [
            | some ways ↦ some (ways ∷ xs)
            | none ↦ elim q [ none ↦ none | some rest ↦ some (ws ∷ rest) ]
          ]
            ≡ some ys
          → ((rest : List (List TlbEntry))
              → invalidate_first_set p xs ≡ some rest
              → Pointwise (Pointwise R) xs rest)
          → Pointwise (Pointwise R) (ws ∷ xs) ys
      go (some ways) eq q eq' got rec =
          subst (λ zs. Pointwise (Pointwise R) (ws ∷ xs) zs) (some-injective _ _ got)
            (first_clears ws ways eq, Pointwise-same (Pointwise R) (Pointwise-same R r) xs)
      go none eq none eq' got rec = cc
      go none eq (some rest) eq' got rec =
          subst (λ zs. Pointwise (Pointwise R) (ws ∷ xs) zs) (some-injective _ _ got)
            (Pointwise-same R r ws, rec rest eq')

same_4k : (xs : List (List TlbEntry)) → Pointwise (Pointwise Cleared4k) xs xs
same_4k = Pointwise-same (Pointwise Cleared4k) (Pointwise-same Cleared4k (λ x. inl refl))

same_cam : (xs : List TlbEntry) → Pointwise ClearedCam xs xs
same_cam = Pointwise-same ClearedCam (λ x. inl refl)

unprotected : (e : TlbEntry) → ClearedCam e (invalidate_unprotected e)
unfolding invalidate_unprotected
unprotected e = elim (Bool-cases (truthy e.iprot)) [
  | inl set ↦ inl (rw set refl)
  | inr clear ↦ inr (rw clear refl, ground (arith, clear))
]

hit_unprotected : (ea : ℕ) (e : TlbEntry) → hits_cam ea e ≡ true → ClearedCam e (invalidate e)
unfolding hits_cam
hit_unprotected ea e h = inr (refl, ground (arith, h))

abbrev Effect : {C : Type 0} → Tlb C → Tlb C → Type 0
Effect t u =
    Pointwise (Pointwise Cleared4k) t.tlb4k u.tlb4k
    × Pointwise ClearedCam t.tlb_cam u.tlb_cam
    × (u.cache ≡ t.cache)

page-Effect : {C : Type 0} (t : Tlb C) (ea : ℕ) → Effect t (invalidate_page t ea)
unfolding invalidate_page
page-Effect {C} t ea =
    go (invalidate_first_set (hits_4k ea) t.tlb4k) refl (invalidate_first (hits_cam ea) t.tlb_cam)
      refl
  where
    go :
        (o : Option (List (List TlbEntry)))
        → invalidate_first_set (hits_4k ea) t.tlb4k ≡ o
        → (q : Option (List TlbEntry)) → invalidate_first (hits_cam ea) t.tlb_cam ≡ q
        → Effect t (elim o as (λ _. Tlb C) [
          | some sets ↦ record t { tlb4k = sets }
          | none ↦ elim q [ some ways ↦ record t { tlb_cam = ways } | none ↦ t ]
        ])
    go (some sets) eq q eq' = (
      first_set_clears Cleared4k (λ x. inl refl) (hits_4k ea) (λ x h. inr refl) t.tlb4k sets eq,
      same_cam t.tlb_cam,
      refl,
    )
    go none eq (some ways) eq' = (
      same_4k t.tlb4k,
      first_clears ClearedCam (λ x. inl refl) (hits_cam ea) (hit_unprotected ea) t.tlb_cam ways eq',
      refl,
    )
    go none eq none eq' = (same_4k t.tlb4k, same_cam t.tlb_cam, refl)

entries-Effect : {C : Type 0} (t : Tlb C) (ea : ℕ) → Effect t (invalidate_entries t ea)
unfolding invalidate_entries
entries-Effect t ea =
    go (truthy (bit_and (ea / 2 ^ 2) 1) && bit_and (ea / 2 ^ 3) 1 == 1)
      (truthy (bit_and (ea / 2 ^ 2) 1) && bit_and (ea / 2 ^ 3) 1 == 0)
      (not (truthy (bit_and (ea / 2 ^ 2) 1)))
  where
    go :
        (a b c : Bool)
        → Effect t (
            if a
            then record t { tlb_cam = map invalidate_unprotected t.tlb_cam }
            else if b
            then record t { tlb4k = map (map invalidate) t.tlb4k }
            else if c
            then invalidate_page t ea
            else t)
    go true b c = (
      same_4k t.tlb4k,
      Pointwise-map ClearedCam invalidate_unprotected unprotected t.tlb_cam,
      refl,
    )
    go false true c = (
      Pointwise-map (Pointwise Cleared4k) (map invalidate)
          (Pointwise-map Cleared4k invalidate (λ x. inr refl)) t.tlb4k,
      same_cam t.tlb_cam,
      refl,
    )
    go false false true = page-Effect t ea
    go false false false = (same_4k t.tlb4k, same_cam t.tlb_cam, refl)

-- For every address, `tlbive` keeps each entry of tlb4K or clears its valid bit and nothing else,
-- does so to an entry of tlbCam only where its IPROT is clear, and clears the cache.
pub tlbive_effect :
    {C : Type 0} (l : LruCache C) (t : Tlb C) (ea : ℕ)
    → Pointwise (Pointwise Cleared4k) t.tlb4k (tlbive l t ea).tlb4k
      × Pointwise ClearedCam t.tlb_cam (tlbive l t ea).tlb_cam
      × ((tlbive l t ea).cache ≡ l.clear t.cache)
unfolding tlbive
tlbive_effect l t ea = let (sets, cam, cache) = entries-Effect t ea in (sets, cam, ap l.clear cache)
