-- ===== src/Tlb/Invalidate/Search.antt =====
-- What `tlbse` finds and shows.
use ppcsimbooke.Base.{
  ℕ, ◌+◌, ◌%◌, ◌^◌, ◌≡◌, refl, sym, ap, subst, ◌∙◌, Bool, Option, none, some, List, [], ◌∷◌, ◌++◌,
  arith,
}
use ppcsimbooke.Utils.{extr_bf, ins_bf}
use ppcsimbooke.Tlb.{TlbEntry, Tlb}
use ppcsimbooke.Tlb.Mas.{
  MasRegs, mas1_of, mas1_v, mas1_iprot, mas1_tid, mas1_ts, mas1_tsize, mas6_sas, mas6_spid0,
}
use ppcsimbooke.Tlb.Mas.Read.{
  shown_mas1_v, shown_mas1_iprot, shown_mas1_tid, shown_mas1_ts, shown_mas1_tsize, none_set, own,
}
use ppcsimbooke.Tlb.Invalidate.{is_found, search_ways, search_sets, found_regs, tlbse}
use ppcsimbooke.Tlb.Translate.Scan.{first, first-++, flatten}

abbrev entry_of : Option (ℕ × TlbEntry) → Option TlbEntry
entry_of none = none
entry_of (some r) = some r.1

module _ (p : TlbEntry → Bool) where
  search_ways-first : (k : ℕ) (es : List TlbEntry) → entry_of (search_ways p k es) ≡ first p es
  unfolding search_ways
  search_ways-first k [] = refl
  search_ways-first k (e ∷ es) = ground (arith, search_ways-first (k + 1) es)

  search_sets-first :
      (sets : List (List TlbEntry)) → entry_of (search_sets p sets) ≡ first p (flatten sets)
  unfolding search_sets
  search_sets-first [] = refl
  search_sets-first (ws ∷ sets) =
      ground (arith, search_ways-first 0 ws, search_sets-first sets, first-++ p ws (flatten sets))

-- The fields of MAS1 for what was found.
abbrev pub IsShown : Option TlbEntry → ℕ → Type 0
IsShown none r = extr_bf r mas1_v ≡ 0
IsShown (some e) r =
    (extr_bf r mas1_v ≡ 1)
    × (extr_bf r mas1_iprot ≡ e.iprot % 2)
    × (extr_bf r mas1_tid ≡ e.tid % 2 ^ 8)
    × (extr_bf r mas1_ts ≡ e.ts % 2)
    × (extr_bf r mas1_tsize ≡ e.tsize % 2 ^ 4)

found_regs-IsShown :
    (m : MasRegs) (hid0 sel way : ℕ) (e : TlbEntry)
    → m.mas1 ≡ 0
    → IsShown (some e) (found_regs m hid0 sel way e).mas1
unfolding found_regs mas1_of
found_regs-IsShown m hid0 sel way e empty =
    let f : TlbEntry = record e { valid = 1 } in
    (
      shown_mas1_v f m.mas1 empty,
      shown_mas1_iprot f m.mas1 empty,
      shown_mas1_tid f m.mas1 empty,
      shown_mas1_ts f m.mas1 empty,
      shown_mas1_tsize f m.mas1 empty,
    )

-- From a MAS1 that was clear, `tlbse` shows the first entry of tlb4K and then tlbCam that matches the
-- address, MAS6[SAS] and MAS6[SPID0], valid or not: V is 1, and IPROT, TID, TS and TSIZE are the entry's. Where
-- no entry matches V is 0.
pub tlbse-IsShown :
    {C : Type 0} (t : Tlb C) (ea : ℕ) (m : MasRegs) (hid0 : ℕ)
    → m.mas1 ≡ 0
    → IsShown
        (first
          (is_found ea (extr_bf m.mas6 mas6_sas) (extr_bf m.mas6 mas6_spid0))
          (flatten (t.tlb4k ++ t.tlb_cam ∷ [])))
        (tlbse t ea m hid0).mas1
unfolding tlbse
tlbse-IsShown t ea m hid0 empty =
    subst (λ (o : Option TlbEntry). IsShown o (tlbse t ea m hid0).mas1) order
      (go (search_sets p t.tlb4k) (search_ways p 0 t.tlb_cam))
  where
    p : TlbEntry → Bool
    p = is_found ea (extr_bf m.mas6 mas6_sas) (extr_bf m.mas6 mas6_spid0)

    either : Option TlbEntry → Option TlbEntry → Option TlbEntry
    either x y = elim x [ none ↦ y | some e ↦ some e ]

    split :
        (sets : List (List TlbEntry))
        → first p (flatten (sets ++ t.tlb_cam ∷ []))
          ≡ either (first p (flatten sets)) (first p t.tlb_cam)
    split [] = first-++ p t.tlb_cam [] ∙ ground arith
    split (ws ∷ sets) = ground (
      arith,
      first-++ p ws (flatten (sets ++ t.tlb_cam ∷ [])),
      first-++ p ws (flatten sets),
      split sets,
    )

    order :
        either (entry_of (search_sets p t.tlb4k)) (entry_of (search_ways p 0 t.tlb_cam))
        ≡ first p (flatten (t.tlb4k ++ t.tlb_cam ∷ []))
    order =
        ap (λ (o : Option TlbEntry). either o (entry_of (search_ways p 0 t.tlb_cam)))
          (search_sets-first p t.tlb4k)
        ∙ ap (either (first p (flatten t.tlb4k))) (search_ways-first p 0 t.tlb_cam)
        ∙ sym (split t.tlb4k)

    go :
        (x y : Option (ℕ × TlbEntry))
        → IsShown
            (either (entry_of x) (entry_of y))
            (elim x as (λ _. MasRegs) [
              | some r ↦ found_regs m hid0 0 r.0 r.1
              | none ↦ elim y [
                | some r ↦ found_regs m hid0 1 r.0 r.1
                | none ↦ record m { mas1 = ins_bf m.mas1 0 mas1_v }
              ]
            ]).mas1
    go (some r) y = found_regs-IsShown m hid0 0 r.0 r.1 empty
    go none (some r) = found_regs-IsShown m hid0 1 r.0 r.1 empty
    go none none =
        own 1 31 m.mas1 0 (omega arith) (omega arith) (omega arith)
          (none_set 1 31 m.mas1 (omega arith) (omega arith) empty)
