-- ===== src/Bm/Numbers.antt =====
-- The numbers of breakpoints.
use mathlib.Core.Option.{some-injective}
use ppcsimbooke.Base.{
  ℕ, ◌+◌, ◌<◌, ◌≡◌, refl, sym, subst, ◌≢◌, ◌⊎◌, ◌==◌, ltb, inl, inr, Bool, true, false, Option,
  none, some, List, [], ◌∷◌, arith, not, if◌then◌else◌, u64, ◌^◌, All,
}
use ppcsimbooke.Bm.{
  Bkpt, BreakptMngr, Managers, at_mngr, with_counter, find, assign, erase, check_pc, add_breakpoint,
  delete_breakpoint, delete_breakpoint_num, delete_all, has_num, enable_breakpoints,
  disable_breakpoints, clear_last_breakpoint,
}

-- Keys in order, and numbers all different and below the counter.
abbrev pub IsMap : List Bkpt → Type 0
IsMap [] = Unit
IsMap (b ∷ bs) = All (λ (c : Bkpt). (b.ea < c.ea) × (b.num ≢ c.num)) bs × IsMap bs

-- The breakpoints of one manager under a counter.
abbrev pub IsCounted : ℕ → List Bkpt → Type 0
IsCounted n bs = IsMap bs × All (λ (b : Bkpt). b.num < n) bs

abbrev pub IsNumbered : Managers → Type 0
IsNumbered s = (i : ℕ) → IsCounted s.bk_num (s.mngr i).bk_map

-- One call of any operation that has a result, on the manager i.
pub data Call (s : Managers) : Managers → Type 0 where
  checked : (i pc : ℕ) → Call s (at_mngr i (check_pc pc (s.mngr i)).1 s)
  added : (i ea : ℕ) → Call s (with_counter i (add_breakpoint ea) s)
  deleted : (i ea : ℕ) → Call s (at_mngr i (delete_breakpoint ea (s.mngr i)) s)
  deleted_num :
      (i nbk : ℕ) {n : BreakptMngr}
      → delete_breakpoint_num nbk (s.mngr i) ≡ some n
      → Call s (at_mngr i n s)
  deleted_all : (i : ℕ) → Call s (with_counter i delete_all s)
  enabled : (i : ℕ) → Call s (at_mngr i (enable_breakpoints (s.mngr i)) s)
  disabled : (i : ℕ) → Call s (at_mngr i (disable_breakpoints (s.mngr i)) s)
  cleared : (i : ℕ) → Call s (at_mngr i (clear_last_breakpoint (s.mngr i)) s)

-- The counter does not overflow, and is not set back under the breakpoints of another manager.
abbrev pub IsSafe : {s t : Managers} → Call s t → Type 0
IsSafe {s} {t} (added i ea) = s.bk_num + 1 < 2 ^ 31
IsSafe {s} {t} (deleted_all i) = (j : ℕ) → j ≢ i → (s.mngr j).bk_map ≡ []
IsSafe {s} {t} _ = Unit

All-zip :
    (P Q R : Bkpt → Type 0)
    → ((x : Bkpt) → P x → Q x → R x)
    → (bs : List Bkpt) → All P bs
    → All Q bs
    → All R bs
All-zip P Q R f [] p q = tt
All-zip P Q R f (b ∷ bs) p q = (f b p.0 q.0, All-zip P Q R f bs p.1 q.1)

All-erase : (P : Bkpt → Type 0) (ea : ℕ) (bs : List Bkpt) → All P bs → All P (erase ea bs)
unfolding erase
All-erase P ea [] h = tt
All-erase P ea (b ∷ bs) h = go (b.ea == ea) (All-erase P ea bs h.1)
  where
    go :
        (t : Bool)
        → All P (erase ea bs)
        → All P (elim t as (λ _. List Bkpt) [ true ↦ erase ea bs | false ↦ b ∷ erase ea bs ])
    go true rest = rest
    go false rest = (h.0, rest)

erase-IsMap : (ea : ℕ) (bs : List Bkpt) → IsMap bs → IsMap (erase ea bs)
unfolding erase
erase-IsMap ea [] h = tt
erase-IsMap ea (b ∷ bs) h = go (b.ea == ea) (erase-IsMap ea bs h.1)
  where
    go :
        (t : Bool)
        → IsMap (erase ea bs)
        → IsMap (elim t as (λ _. List Bkpt) [ true ↦ erase ea bs | false ↦ b ∷ erase ea bs ])
    go true rest = rest
    go false rest = (All-erase _ ea bs h.0, rest)

All-assign :
    (P : Bkpt → Type 0) (new : Bkpt) (bs : List Bkpt) → P new → All P bs → All P (assign new bs)
unfolding assign
All-assign P new [] n h = (n, tt)
All-assign P new (b ∷ bs) n h = go (b.ea == new.ea) (ltb new.ea b.ea) (All-assign P new bs n h.1)
  where
    go :
        (t u : Bool)
        → All P (assign new bs)
        → All P (elim t as (λ _. List Bkpt) [
          | true ↦ new ∷ bs
          | false ↦ elim u [ true ↦ new ∷ b ∷ bs | false ↦ b ∷ assign new bs ]
        ])
    go true u rest = (n, h.1)
    go false true rest = (n, h)
    go false false rest = (h.0, rest)

-- An assignment keeps a map if no other key has the new number.
abbrev Free : Bkpt → Bkpt → Type 0
Free new c = (c.ea ≡ new.ea) ⊎ (c.num ≢ new.num)

assign-IsMap : (new : Bkpt) (bs : List Bkpt) → IsMap bs → All (Free new) bs → IsMap (assign new bs)
unfolding assign
assign-IsMap new [] h free = (tt, tt)
assign-IsMap new (b ∷ bs) h free =
    go (b.ea == new.ea) (ltb new.ea b.ea) refl refl (assign-IsMap new bs h.1 free.1)
  where
    go :
        (t u : Bool)
        → (b.ea == new.ea) ≡ t
        → ltb new.ea b.ea ≡ u
        → IsMap (assign new bs)
        → IsMap (elim t as (λ _. List Bkpt) [
          | true ↦ new ∷ bs
          | false ↦ elim u [ true ↦ new ∷ b ∷ bs | false ↦ b ∷ assign new bs ]
        ])
    go true u same v rest =
        (All-zip _ _ _ (λ c less f. ground (arith, less, f, same)) bs h.0 free.1, h.1)
    go false true differ below rest = (
      (
        ground (arith, below, free, differ),
        All-zip _ _ _ (λ c less f. ground (arith, less, f, below)) bs h.0 free.1,
      ),
      h,
    )
    go false false differ above rest =
        (All-assign _ new bs (ground (arith, differ, above, free)) h.0, rest)

All-find :
    (P : Bkpt → Type 0) (pc : ℕ) (bs : List Bkpt) (b : Bkpt) → All P bs → find pc bs ≡ some b → P b
unfolding find
All-find P pc [] b h found = cc
All-find P pc (c ∷ bs) b h found = go (c.ea == pc) found (All-find P pc bs b h.1)
  where
    go :
        (t : Bool)
        → elim t as (λ _. Option Bkpt) [ true ↦ some c | false ↦ find pc bs ] ≡ some b
        → (find pc bs ≡ some b → P b)
        → P b
    go true here rest = subst P (some-injective _ _ here) h.0
    go false later rest = rest later

found-Free : (pc : ℕ) (bs : List Bkpt) (b : Bkpt) → IsMap bs → find pc bs ≡ some b → All (Free b) bs
unfolding find
found-Free pc [] b h found = tt
found-Free pc (c ∷ bs) b h found = go (c.ea == pc) found (found-Free pc bs b h.1)
  where
    go :
        (t : Bool)
        → elim t as (λ _. Option Bkpt) [ true ↦ some c | false ↦ find pc bs ] ≡ some b
        → (find pc bs ≡ some b → All (Free b) bs)
        → All (Free b) (c ∷ bs)
    go true here rest =
        subst (λ (d : Bkpt). All (Free d) (c ∷ bs)) (some-injective _ _ here)
          (inl refl, All-zip _ _ _ (λ d less same. inr (λ e. less.1 (sym e))) bs h.0 h.0)
    go false later rest =
        (inr (All-find (λ d. (c.ea < d.ea) × (c.num ≢ d.num)) pc bs b h.0 later).1, rest later)

check_pc-IsCounted :
    (pc n : ℕ) (m : BreakptMngr) → IsCounted n m.bk_map → IsCounted n (check_pc pc m).1.bk_map
unfolding check_pc
check_pc-IsCounted pc n m h = go (find pc m.bk_map) m.bkpts_enabled refl
  where
    go :
        (o : Option Bkpt) (e : Bool)
        → find pc m.bk_map ≡ o
        → IsCounted n
            (elim o as (λ _. Bool × BreakptMngr) [
              | none ↦ (false, m)
              | some b ↦ if not e then (false, m) else (
                true,
                record m {
                  bk_map = assign (record b { hits = u64 (b.hits + 1) }) m.bk_map;
                  last_bkpt = (pc, true);
                },
              )
            ]).1.bk_map
    go none e found = h
    go (some b) false found = h
    go (some b) true found = (
      assign-IsMap (record b { hits = u64 (b.hits + 1) }) m.bk_map h.0
          (found-Free pc m.bk_map b h.0 found),
      All-assign _ _ m.bk_map (All-find _ pc m.bk_map b h.1 found) h.1,
    )

above-IsCounted : (n : ℕ) (bs : List Bkpt) → IsCounted n bs → IsCounted (n + 1) bs
above-IsCounted n bs h = (h.0, All-zip _ _ _ (λ c less same. omega (arith, less)) bs h.1 h.1)

add-IsCounted :
    (ea n : ℕ) (bs : List Bkpt)
    → IsCounted n bs
    → IsCounted (n + 1) (assign (record { ea = ea; num = n; hits = 0 }) bs)
add-IsCounted ea n bs h = (
  assign-IsMap _ bs h.0 (All-zip _ _ _ (λ c less same. inr (omega (arith, less))) bs h.1 h.1),
  All-assign _ _ bs (omega arith) (above-IsCounted n bs h).1,
)

-- One manager is replaced.
replaced :
    (n i : ℕ) (m : BreakptMngr) (others : ℕ → BreakptMngr)
    → IsCounted n m.bk_map
    → ((j : ℕ) → j ≢ i → IsCounted n (others j).bk_map)
    → (j : ℕ) → IsCounted n (if j == i then m else others j).bk_map
replaced n i m others new old j = go (j == i) refl
  where
    go : (b : Bool) → (j == i) ≡ b → IsCounted n (if b then m else others j).bk_map
    go true same = new
    go false other = old j (λ e. ground (arith, e, other))

-- Every operation of any manager keeps the addresses of each manager in strict order and its numbers distinct and
-- below the counter that the managers share, where it has a result at all; adding a breakpoint does as long as the counter, an
-- int, does not overflow, and deleting all breakpoints of one manager, which sets the counter back, as long as the other
-- managers have none.
pub Call-IsNumbered : (s t : Managers) (call : Call s t) → IsSafe call → IsNumbered s → IsNumbered t
unfolding at_mngr with_counter add_breakpoint delete_breakpoint delete_breakpoint_num delete_all
    enable_breakpoints disable_breakpoints clear_last_breakpoint
Call-IsNumbered s t (checked i pc) safe h =
    replaced s.bk_num i _ s.mngr (check_pc-IsCounted pc s.bk_num (s.mngr i) (h i)) (λ j ne. h j)
Call-IsNumbered s t (added i ea) safe h =
    subst
      (λ (n : ℕ).
        (j : ℕ)
        → IsCounted n
            (if j == i
              then record (s.mngr i) {
                bk_map = assign (record { ea = ea; num = s.bk_num; hits = 0 }) (s.mngr i).bk_map;
              }
              else s.mngr j).bk_map)
      (omega (arith, safe))
      (replaced (s.bk_num + 1) i _ s.mngr (add-IsCounted ea s.bk_num (s.mngr i).bk_map (h i))
        (λ j ne. above-IsCounted s.bk_num (s.mngr j).bk_map (h j)))
Call-IsNumbered s t (deleted i ea) safe h =
    replaced s.bk_num i _ s.mngr
      (erase-IsMap ea (s.mngr i).bk_map (h i).0, All-erase _ ea (s.mngr i).bk_map (h i).1)
      (λ j ne. h j)
Call-IsNumbered s t (deleted_num i nbk {n} result) safe h =
    replaced s.bk_num i n s.mngr (go (has_num nbk (s.mngr i).bk_map) result) (λ j ne. h j)
  where
    go : (b : Bool) → (if b then none else some (s.mngr i)) ≡ some n → IsCounted s.bk_num n.bk_map
    go true r = cc
    go false r =
        subst (λ (m : BreakptMngr). IsCounted s.bk_num m.bk_map) (some-injective _ _ r) (h i)
Call-IsNumbered s t (deleted_all i) safe h =
    replaced 0 i _ s.mngr (tt, tt) (λ j ne. subst (IsCounted 0) (sym (safe j ne)) (tt, tt))
Call-IsNumbered s t (enabled i) safe h = replaced s.bk_num i _ s.mngr (h i) (λ j ne. h j)
Call-IsNumbered s t (disabled i) safe h = replaced s.bk_num i _ s.mngr (h i) (λ j ne. h j)
Call-IsNumbered s t (cleared i) safe h = replaced s.bk_num i _ s.mngr (h i) (λ j ne. h j)
