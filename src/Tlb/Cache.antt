-- ===== src/Tlb/Cache.antt =====
-- The cache of translations, an `lru_cache<uint64_t, uint64_t, uint32_t>` of
-- sim/src/third_party/lru/lru.hpp over boost::bimap. It is not modelled: its operations are a parameter, and
-- what its comments promise of them are the laws.
use ppcsimbooke.Base.{ℕ, ◌≡◌, Bool, true, false, Option, none, some, ◌⊎◌}

-- The member functions that the TLB calls. `operator[]` and `info_at` return a value of no
-- meaning and raise the flag that `error` reads where the key is missing; `error` lowers it.
pub record LruCache (C : Type 0) : Type 0 where
  pub at : C → ℕ → ℕ × C
  pub info_at : C → ℕ → ℕ × C
  pub error : C → Bool × C
  pub insert : C → ℕ → ℕ → ℕ → C
  pub clear : C → C

-- What is stored under a key, and the flag.
pub record LruView (C : Type 0) : Type 0 where
  pub view : C → ℕ → Option (ℕ × ℕ)
  pub flag : C → Bool

pub record LruLaws {C : Type 0} (l : LruCache C) (v : LruView C) : Type 0 where
  pub at_value : (c : C) (k a i : ℕ) → v.view c k ≡ some (a, i) → (l.at c k).0 ≡ a
  pub at_view : (c : C) (k j : ℕ) → v.view (l.at c k).1 j ≡ v.view c j
  pub at_hit : (c : C) (k a i : ℕ) → v.view c k ≡ some (a, i) → v.flag (l.at c k).1 ≡ v.flag c
  pub at_miss : (c : C) (k : ℕ) → v.view c k ≡ none → v.flag (l.at c k).1 ≡ true
  pub info_value : (c : C) (k a i : ℕ) → v.view c k ≡ some (a, i) → (l.info_at c k).0 ≡ i
  pub info_view : (c : C) (k j : ℕ) → v.view (l.info_at c k).1 j ≡ v.view c j
  pub info_hit :
      (c : C) (k a i : ℕ) → v.view c k ≡ some (a, i) → v.flag (l.info_at c k).1 ≡ v.flag c
  pub info_miss : (c : C) (k : ℕ) → v.view c k ≡ none → v.flag (l.info_at c k).1 ≡ true
  pub error_value : (c : C) → (l.error c).0 ≡ v.flag c
  pub error_flag : (c : C) → v.flag (l.error c).1 ≡ false
  pub error_view : (c : C) (j : ℕ) → v.view (l.error c).1 j ≡ v.view c j
  pub clear_view : (c : C) (j : ℕ) → v.view (l.clear c) j ≡ none
  pub clear_flag : (c : C) → v.flag (l.clear c) ≡ v.flag c
  pub insert_flag : (c : C) (k a i : ℕ) → v.flag (l.insert c k a i) ≡ v.flag c
  -- An insertion may drop another key, and adds no other one.
  pub insert_view :
      (c : C) (k a i j b w : ℕ)
      → v.view (l.insert c k a i) j ≡ some (b, w)
      → (j ≡ k) × (b ≡ a) × (w ≡ i) ⊎ (v.view c j ≡ some (b, w))
