-- ===== src/Tlb/Translate/Page.antt =====
-- The address that `xlate` answers with, and `xlate` on a cache that knows nothing.
use native.Mathlib.Nat.{mod-lt, div-add-mod}
use ppcsimbooke.Base.{
  ℕ, ◌+◌, ◌-◌, ◌*◌, ◌/◌, ◌^◌, ◌≤◌, ◌<◌, ◌≡◌, refl, ap, ◌∙◌, bit_and, true, Option, none, some, List,
  [], ◌∷◌, ◌++◌, arith, ◌==◌, u64, bit_and-high, bit_and-low, two_pow_pos, every, every_lem, ==_iff,
}
use ppcsimbooke.Base.Error.{Outcome, ok, throw, no_return}
use ppcsimbooke.Tlb.{TlbEntry, Tlb, tsize_to_psize}
use ppcsimbooke.Tlb.Cache.{LruCache, LruView, LruLaws}
use ppcsimbooke.Tlb.Invalidate.{page_mask}
use ppcsimbooke.Tlb.Mas.Write.{psize_small}
use ppcsimbooke.Tlb.Translate.{
  Request, Xlated, xlate, answer, is_match, probe_cache, cache_key, no_match, search_arrays,
  scan_tlb, pgmask_list,
}
use ppcsimbooke.Tlb.Translate.Scan.{verdict, first, matches, flatten, scan_tlb-first}

-- The sizes of pages, and what u64 makes of one less.
less_one : (k : ℕ) → k ≤ 30 → u64 (2 ^ k + 18446744073709551615) ≡ 2 ^ k - 1
unfolding every
less_one k h =
    (==_iff _ _).0
      (every_lem 31 (λ n. u64 (2 ^ n + 18446744073709551615) == 2 ^ n - 1) k (omega arith) refl)

page_mask_lem :
    (k ea : ℕ) → k ≤ 30 → ea < 2 ^ 64 → bit_and ea (page_mask (2 ^ k)) ≡ ea / 2 ^ k * 2 ^ k
unfolding page_mask
page_mask_lem k ea small h = rw (less_one k small) (bit_and-high 64 k ea (omega arith) h)

hit_base : (q : Request) (e : TlbEntry) → matches q e ≡ true → e.ea ≡ bit_and q.ea (page_mask e.ps)
unfolding is_match
hit_base q e hit = ground (arith, hit)

-- An address that matches an entry whose page size is that of its TSIZE, up to 1G, lies in the entry's page, and the
-- answer is the address at the same distance from the real address of the entry.
pub answer_page :
    (q : Request) (e : TlbEntry)
    → e.tsize ≤ 10
    → e.ps ≡ tsize_to_psize e.tsize
    → e.ra + e.ps ≤ 2 ^ 64
    → q.ea < 2 ^ 64
    → matches q e ≡ true
    → (e.ea ≤ q.ea) × (q.ea < e.ea + e.ps) × ((answer q e).address ≡ e.ra + (q.ea - e.ea))
unfolding answer is_match
answer_page q e small sized top h hit =
    let k = 2 * e.tsize + 10 in
    let size = sized ∙ psize_small e.tsize small in
    let masked =
      ap (λ (ps : ℕ). bit_and q.ea (page_mask ps)) size ∙ page_mask_lem k q.ea (omega arith) h in
    let low =
      ap (λ (ps : ℕ). bit_and q.ea (u64 (ps + 18446744073709551615))) (psize_small e.tsize small)
      ∙ ap (bit_and q.ea) (less_one k (omega arith))
      ∙ bit_and-low k q.ea in
    let base = hit_base q e hit ∙ masked in
    let split = div-add-mod q.ea (2 ^ k) in
    let below = mod-lt q.ea (two_pow_pos k) in
    (
      omega (arith, size, base, split, below),
      omega (arith, size, base, split, below),
      omega (arith, size, base, split, below, low),
    )

-- What `xlate` returns once the arrays have decided.
abbrev pub reply : Request → Outcome (Option TlbEntry) → Outcome Xlated
reply q (ok none) = ok no_match
reply q (ok (some e)) = ok (answer q e)
reply q (throw ex) = throw ex
reply q no_return = no_return

module _ {C : Type 0} (l : LruCache C) (v : LruView C) (laws : LruLaws l v) where
  probe_cold :
      (key : ℕ → ℕ) (ea : ℕ) (masks : List ℕ) (c : C)
      → ((k : ℕ) → v.view c k ≡ none)
      → (probe_cache l key ea masks c).0 ≡ none
  unfolding probe_cache
  probe_cold key ea [] c cold = refl
  probe_cold key ea (mask ∷ masks) c cold =
      let va = key (bit_and ea mask) in
      let c1 = (l.at c va).1 in
      let c2 = (l.info_at c1 va).1 in
      let c3 = (l.error c2).1 in
      let cold1 : (k : ℕ) → v.view c1 k ≡ none = λ k. laws.at_view c va k ∙ cold k in
      let raised : (l.error c2).0 ≡ true = laws.error_value c2 ∙ laws.info_miss c1 va (cold1 va) in
      let cold3 : (k : ℕ) → v.view c3 k ≡ none =
        λ k. laws.error_view c2 k ∙ laws.info_view c1 va k ∙ cold1 k in
      rw (raised, probe_cache) (probe_cold key ea masks c3 cold3)

  arrays_reply : (t : Tlb C) (q : Request) → (search_arrays l t q).1 ≡ reply q (scan_tlb q t)
  unfolding search_arrays
  arrays_reply t q = go (scan_tlb q t)
    where
      go :
          (o : Outcome (Option TlbEntry))
          → (elim o as (λ _. Tlb C × Outcome Xlated) [
            | throw ex ↦ (t, throw ex)
            | no_return ↦ (t, no_return)
            | ok none ↦ (t, ok no_match)
            | ok (some e) ↦ (
              record t {
                cache = l.insert t.cache (cache_key q (bit_and q.ea (page_mask e.ps))) e.ra e.wimge;
              },
              ok (answer q e),
            )
          ]).1
            ≡ reply q o
      go (ok none) = refl
      go (ok (some e)) = refl
      go (throw ex) = refl
      go no_return = refl

  -- For every cache that keeps its laws and holds nothing, a request with legal parameters that asks
  -- for some access is answered by the first entry that matches, in the order of tlb4K and tlbCam: its address, or
  -- the exception of its permissions; or by the -1 of a miss where no entry matches. What the
  -- loop reads beyond the table of masks does not matter.
  pub xlate_cold :
      (beyond : List ℕ) (t : Tlb C) (q : Request)
      → ((k : ℕ) → v.view t.cache k ≡ none)
      → bit_and q.space 1 ≡ q.space
      → bit_and q.pid 255 ≡ q.pid
      → bit_and q.rwx 7 ≡ q.rwx
      → 1 ≤ q.rwx
      → q.rwx < 8
      → (xlate l beyond t q).1
        ≡ reply q (verdict q (first (matches q) (flatten (t.tlb4k ++ t.tlb_cam ∷ []))))
  unfolding xlate
  xlate_cold beyond t q cold space pid rwx low high =
      let probed = probe_cache l (cache_key q) q.ea (pgmask_list ++ beyond) t.cache in
      let u = record t { cache = probed.1 } in
      rw
        (
          (==_iff _ _).1 space,
          (==_iff _ _).1 pid,
          (==_iff _ _).1 rwx,
          probe_cold (cache_key q) q.ea (pgmask_list ++ beyond) t.cache cold,
        )
        (arrays_reply u q ∙ ap (reply q) (scan_tlb-first q u low high))
