-- ===== src/Tlb/Translate.antt =====
-- `xlate` of sim/src/tlb_booke.cpp: an address looked up in the cache of translations and then in
-- the two arrays.
pub mod Key
pub mod Scan
pub mod Page
pub mod Backed
use ppcsimbooke.Base.{
  ℕ, zero, suc, ◌+◌, ◌-◌, ◌*◌, ◌/◌, ◌%◌, ◌^◌, bit_and, Bool, true, false, Option, none, some, List,
  [], ◌∷◌, ◌++◌, ◌==◌, ◌&&◌, if◌then◌else◌, truthy, u8, u16, u64, not64, ◌<<<◌,
}
use ppcsimbooke.Base.Error.{
  Outcome, ok, throw, no_return, SimExcept, sim_except, sim_except_ppc, einval,
}
use ppcsimbooke.Tlb.{TlbEntry, Tlb, to_virt, tsize_to_psize}
use ppcsimbooke.Tlb.Cache.{LruCache}
use ppcsimbooke.Tlb.Invalidate.{page_mask}

-- `sm_pgmask_list`.
abbrev pub pgmask_list : List ℕ
pgmask_list =
    0xffff_ffff_ffff_f000 ∷ 0xffff_ffff_ffff_c000 ∷ 0xffff_ffff_ffff_0000 ∷ 0xffff_ffff_fffc_0000
    ∷ 0xffff_ffff_fff0_0000 ∷ 0xffff_ffff_ffc0_0000 ∷ 0xffff_ffff_ff00_0000 ∷ 0xffff_ffff_fc00_0000
    ∷ 0xffff_ffff_f000_0000 ∷ 0xffff_ffff_c000_0000 ∷ 0xffff_ffff_0000_0000 ∷ []

-- The tuple that `xlate` returns: the address, the attributes and the page size.
pub record Xlated : Type 0 where
  pub address : ℕ
  pub wimge : ℕ
  pub page_size : ℕ

-- The -1 in each place of the tuple, as its types have it.
abbrev pub no_match : Xlated
no_match = record {
  address = 0xffff_ffff_ffff_ffff;
  wimge = 0xff;
  page_size = 0xffff_ffff_ffff_ffff;
}

-- The loop over the page masks that probes the cache. Each round calls `operator[]`, `info_at` and `error`.
unfoldable pub probe_cache :
    {C : Type 0} → LruCache C → (ℕ → ℕ) → ℕ → List ℕ → C → Option Xlated × C
probe_cache l key ea [] c = (none, c)
probe_cache l key ea (mask ∷ masks) c =
    let va = key (bit_and ea mask) in
    let found = l.at c va in
    let info = l.info_at found.1 va in
    let err = l.error info.1 in
    elim err.0 [
      | true ↦ probe_cache l key ea masks err.1
      | false ↦ (
        some (record {
          address = u64 (found.0 + bit_and ea (not64 mask));
          wimge = u8 info.0;
          page_size = u64 (not64 mask + 1);
        }),
        err.1,
      )
    ]

-- The test of FIND_TLB_MATCH, and the test of the permissions.
unfoldable pub is_match : ℕ → ℕ → ℕ → TlbEntry → Bool
is_match ea space pid e =
    truthy e.valid && e.ea == bit_and ea (page_mask e.ps) && e.tid == pid && e.ts == space

unfoldable pub is_permitted : ℕ → TlbEntry → Bool
is_permitted perm e = bit_and e.permis perm == perm

-- What a match without permission throws: the codes are PPC_EXCEPTION_ISI with ACS, and
-- PPC_EXCEPTION_DSI with ACS_W and ACS_R. With no bit of rwx set nothing is thrown.
unfoldable pub denied : ℕ → ℕ → Option SimExcept
denied rwx ea =
    if truthy (bit_and rwx 0x1)
    then some (sim_except_ppc 4 1 ea)
    else if truthy (bit_and rwx 0x2)
    then some (sim_except_ppc 3 2 ea)
    else if truthy (bit_and rwx 0x4)
    then some (sim_except_ppc 3 1 ea)
    else none

-- One request, as the scan reads it.
pub record Request : Type 0 where
  pub ea : ℕ
  pub space : ℕ
  pub pid : ℕ
  pub rwx : ℕ
  pub pr : ℕ

unfoldable pub request_perm : Request → ℕ
request_perm q = u16 (q.rwx <<< (q.pr * 3))

unfoldable pub scan_ways : Request → List TlbEntry → Outcome (Option TlbEntry)
scan_ways q [] = ok none
scan_ways q (e ∷ es) = elim (is_match q.ea q.space q.pid e) [
  | false ↦ scan_ways q es
  | true ↦ elim (is_permitted (request_perm q) e) [
    | true ↦ ok (some e)
    | false ↦ elim (denied q.rwx q.ea) [ some ex ↦ throw ex | none ↦ scan_ways q es ]
  ]
]

unfoldable pub scan_sets : Request → List (List TlbEntry) → Outcome (Option TlbEntry)
scan_sets q [] = ok none
scan_sets q (ws ∷ sets) = elim (scan_ways q ws) [
  | throw ex ↦ throw ex
  | no_return ↦ no_return
  | ok (some e) ↦ ok (some e)
  | ok none ↦ scan_sets q sets
]

-- tlb4K and then tlbCam, which is one set.
unfoldable pub scan_tlb : {C : Type 0} → Request → Tlb C → Outcome (Option TlbEntry)
scan_tlb q t = scan_sets q (t.tlb4k ++ t.tlb_cam ∷ [])

-- The answer of an entry that was found.
unfoldable pub answer : Request → TlbEntry → Xlated
answer q e = record {
  address = u64 (e.ra + bit_and q.ea (u64 (tsize_to_psize e.tsize + 0xffff_ffff_ffff_ffff)));
  wimge = u8 e.wimge;
  page_size = e.ps;
}

unfoldable pub cache_key : Request → ℕ → ℕ
cache_key q page = to_virt q.pr q.rwx q.space q.pid page

-- What follows the cache: the arrays, and a hit is put into the cache.
unfoldable pub search_arrays : {C : Type 0} → LruCache C → Tlb C → Request → Tlb C × Outcome Xlated
search_arrays l t q = elim (scan_tlb q t) [
  | throw ex ↦ (t, throw ex)
  | no_return ↦ (t, no_return)
  | ok none ↦ (t, ok no_match)
  | ok (some e) ↦ (
    record t {
      cache = l.insert t.cache (cache_key q (bit_and q.ea (page_mask e.ps))) e.ra e.wimge;
    },
    ok (answer q e),
  )
]

-- `xlate`, with the state that it leaves. The loop over the masks runs to `sizeof` of the table, 88, and reads what
-- the storage has after its 11 words: the argument `beyond`.
unfoldable pub xlate : {C : Type 0} → LruCache C → List ℕ → Tlb C → Request → Tlb C × Outcome Xlated
xlate l beyond t q =
    if bit_and q.space 0x1 == q.space && bit_and q.pid 0xff == q.pid && bit_and q.rwx 0x7 == q.rwx
    then (let probed = probe_cache l (cache_key q) q.ea (pgmask_list ++ beyond) t.cache in
        let u = record t { cache = probed.1 } in
        elim probed.0 [ some x ↦ (u, ok x) | none ↦ search_arrays l u q ])
    else (t, throw (sim_except einval))
