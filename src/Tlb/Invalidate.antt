-- ===== src/Tlb/Invalidate.antt =====
-- `tlbse` and `tlbive` of sim/src/tlb_booke.cpp: searching for an entry and invalidating entries.
pub mod Effect
pub mod Search
use ppcsimbooke.Base.{
  ℕ, zero, suc, ◌+◌, ◌-◌, ◌*◌, ◌/◌, ◌%◌, ◌^◌, bit_and, Bool, true, false, Option, none, some, List,
  [], ◌∷◌, map, ◌==◌, ◌&&◌, not, if◌then◌else◌, truthy, u64, not64, ◌>>>◌,
}
use ppcsimbooke.Utils.{ins_bf, extr_bf}
use ppcsimbooke.Tlb.{TlbEntry, Tlb}
use ppcsimbooke.Tlb.Cache.{LruCache}
use ppcsimbooke.Tlb.Mas.{
  MasRegs, mas0_tlbsel, mas0_esel, mas0_nv, mas1_v, mas2_epn, mas2_wimge, mas6_spid0, mas6_sas,
  mas1_of, mas3_of, mas7_of,
}

-- `~(ps - 1)` on uint64_t.
unfoldable pub page_mask : ℕ → ℕ
page_mask ps = not64 (u64 (ps + 0xffff_ffff_ffff_ffff))

-- The test of SEARCH_TLB. It does not read the valid bit.
unfoldable pub is_found : ℕ → ℕ → ℕ → TlbEntry → Bool
unfolding page_mask
is_found ea space pid e = bit_and ea (page_mask e.ps) == e.ea && space == e.ts && pid == e.tid

-- The first way from number k on that passes a test, and the first one of any set.
unfoldable pub search_ways : (TlbEntry → Bool) → ℕ → List TlbEntry → Option (ℕ × TlbEntry)
search_ways p k [] = none
search_ways p k (e ∷ es) = elim (p e) [ true ↦ some (k, e) | false ↦ search_ways p (k + 1) es ]

unfoldable pub search_sets : (TlbEntry → Bool) → List (List TlbEntry) → Option (ℕ × TlbEntry)
unfolding search_ways
search_sets p [] = none
search_sets p (ws ∷ sets) = elim (search_ways p 0 ws) [
  | none ↦ search_sets p sets
  | some r ↦ some r
]

-- The registers of a search that finds way `wsel` of array `tsel`. X0 and X1 go into the field of the
-- page number, as the source has it.
unfoldable pub found_regs : MasRegs → ℕ → ℕ → ℕ → TlbEntry → MasRegs
found_regs m hid0 tsel wsel e = record m {
  mas0 = ins_bf (ins_bf (ins_bf m.mas0 tsel mas0_tlbsel) wsel mas0_esel) 0 mas0_nv;
  mas1 = mas1_of (ins_bf m.mas1 1 mas1_v) e;
  mas2 = ins_bf (ins_bf (ins_bf m.mas2 (e.ea >>> 12) mas2_epn) e.x01 mas2_epn) e.wimge mas2_wimge;
  mas3 = mas3_of m.mas3 e;
  mas7 = mas7_of m.mas7 hid0 e;
}

unfoldable pub tlbse : {C : Type 0} → Tlb C → ℕ → MasRegs → ℕ → MasRegs
tlbse t ea m hid0 =
    let p = is_found ea (extr_bf m.mas6 mas6_sas) (extr_bf m.mas6 mas6_spid0) in
    elim (search_sets p t.tlb4k) [
      | some r ↦ found_regs m hid0 0 r.0 r.1
      | none ↦ elim (search_ways p 0 t.tlb_cam) [
        | some r ↦ found_regs m hid0 1 r.0 r.1
        | none ↦ record m { mas1 = ins_bf m.mas1 0 mas1_v }
      ]
    ]

unfoldable pub invalidate : TlbEntry → TlbEntry
invalidate e = record e { valid = 0 }

unfoldable pub invalidate_unprotected : TlbEntry → TlbEntry
unfolding invalidate
invalidate_unprotected e = if truthy e.iprot then e else invalidate e

-- The tests of the two loops without INV_ALL. Neither reads the valid bit.
unfoldable pub hits_4k : ℕ → TlbEntry → Bool
unfolding page_mask
hits_4k ea e = e.ea == bit_and ea (page_mask e.ps)

unfoldable pub hits_cam : ℕ → TlbEntry → Bool
unfolding page_mask
hits_cam ea e = e.ea == bit_and ea (page_mask e.ps) && not (truthy e.iprot)

-- The first way that passes the test is invalidated; `none` where there is no such way.
unfoldable pub invalidate_first : (TlbEntry → Bool) → List TlbEntry → Option (List TlbEntry)
unfolding invalidate
invalidate_first p [] = none
invalidate_first p (e ∷ es) = elim (p e) [
  | true ↦ some (invalidate e ∷ es)
  | false ↦ elim (invalidate_first p es) [ none ↦ none | some rest ↦ some (e ∷ rest) ]
]

unfoldable pub invalidate_first_set :
    (TlbEntry → Bool) → List (List TlbEntry) → Option (List (List TlbEntry))
unfolding invalidate_first
invalidate_first_set p [] = none
invalidate_first_set p (ws ∷ sets) = elim (invalidate_first p ws) [
  | some ways ↦ some (ways ∷ sets)
  | none ↦ elim (invalidate_first_set p sets) [ none ↦ none | some rest ↦ some (ws ∷ rest) ]
]

-- Without INV_ALL: tlb4K first, and tlbCam only where no way of tlb4K was hit.
unfoldable pub invalidate_page : {C : Type 0} → Tlb C → ℕ → Tlb C
invalidate_page t ea = elim (invalidate_first_set (hits_4k ea) t.tlb4k) [
  | some sets ↦ record t { tlb4k = sets }
  | none ↦ elim (invalidate_first (hits_cam ea) t.tlb_cam) [
    | some ways ↦ record t { tlb_cam = ways }
    | none ↦ t
  ]
]

unfoldable pub invalidate_entries : {C : Type 0} → Tlb C → ℕ → Tlb C
invalidate_entries t ea =
    let tlbsel = bit_and (ea >>> 3) 1 in
    let inv_all = bit_and (ea >>> 2) 1 in
    if truthy inv_all && tlbsel == 1
    then record t { tlb_cam = map invalidate_unprotected t.tlb_cam }
    else if truthy inv_all && tlbsel == 0
    then record t { tlb4k = map (map invalidate) t.tlb4k }
    else if not (truthy inv_all)
    then invalidate_page t ea
    else t

unfoldable pub tlbive : {C : Type 0} → LruCache C → Tlb C → ℕ → Tlb C
tlbive l t ea = let u = invalidate_entries t ea in record u { cache = l.clear u.cache }
