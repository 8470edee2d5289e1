-- ===== src/Tlb/Mas/Write.antt =====
-- Theorems about `tlbwe`.
use native.Mathlib.Nat.{mod-lt}
use ppcsimbooke.Base.{
  ◌==◌, ==_iff, every, every_lem, ℕ, ◌+◌, ◌-◌, ◌*◌, ◌^◌, ◌≤◌, ◌<◌, ◌≡◌, refl, ap, sym, ◌∙◌, ◌≢◌,
  ◌⊎◌, inl, inr, true, Option, none, some, arith, dec_lt,
}
use ppcsimbooke.Base.Error.{Outcome, ok, throw, no_return, ◌>>=◌, sim_except, einval}
use ppcsimbooke.Utils.{extr_bf, rshift_loop}
use ppcsimbooke.Utils.Fields.{extr_bf-field, rshift_loop-odd, rshift_loop-zero}
use ppcsimbooke.Tlb.{TlbEntry, Tlb, Slot, in_4k, in_cam, read_slot, write_slot, tsize_to_psize}
use ppcsimbooke.Tlb.Cache.{LruCache}
use ppcsimbooke.Tlb.Mas.{MasRegs, select, tlbwe, written_entry, mas1_tsize, mas0_tlbsel, mas0_esel}
use ppcsimbooke.Tlb.Mas.Select.{
  InRange, IsFull, select_bounds, read_slot-write_slot, read_slot-write_ne,
}

-- The page size of a TSIZE up to 10 is a power of two, and from 11 on it is 0.
small_sizes : every 11 (λ n. tsize_to_psize n == 2 ^ (2 * n + 10)) ≡ true
unfolding tsize_to_psize every
small_sizes = refl

large_sizes : every 5 (λ n. tsize_to_psize (11 + n) == 0) ≡ true
unfolding tsize_to_psize every
large_sizes = refl

pub psize_small : (n : ℕ) → n ≤ 10 → tsize_to_psize n ≡ 2 ^ (2 * n + 10)
psize_small n h = (==_iff _ _).0 (every_lem 11 _ n (omega arith) small_sizes)

pub psize_large : (n : ℕ) → 11 ≤ n → n < 16 → tsize_to_psize n ≡ 0
psize_large n h p =
    ap tsize_to_psize (omega arith)
    ∙ (==_iff _ _).0 (every_lem 5 _ (n - 11) (omega arith) large_sizes)

shift_small : (n : ℕ) → n ≤ 10 → rshift_loop 64 0 (tsize_to_psize n) ≡ some (2 * n + 10)
shift_small n h = rw (psize_small n h) (
    ap (rshift_loop 64 0) (omega arith)
    ∙ rshift_loop-odd (2 * n + 10) 64 0 1 (omega arith) refl
    ∙ ap some (omega arith))

read_slot-cache :
    {C : Type 0} (u : Tlb C) (c : C) (slot : Slot)
    → read_slot (record u { cache = c }) slot ≡ read_slot u slot
unfolding read_slot
read_slot-cache u c (in_4k s w) = refl
read_slot-cache u c (in_cam w) = refl

write_slot-cache :
    {C : Type 0} (t : Tlb C) (slot : Slot) (e : TlbEntry) → (write_slot t slot e).cache ≡ t.cache
unfolding write_slot
write_slot-cache t (in_4k s w) e = refl
write_slot-cache t (in_cam w) e = refl

-- Where a slot is selected and TSIZE is at most 10, `tlbwe` returns: the slot holds the entry that
-- the registers describe, every other slot is as it was, and the cache is cleared.
pub tlbwe_ok :
    {C : Type 0} (l : LruCache C) (t : Tlb C) (m : MasRegs) (hid0 : ℕ) (slot other : Slot)
    → IsFull t
    → InRange slot
    → select m ≡ ok slot
    → extr_bf m.mas1 mas1_tsize ≤ 10
    → other ≢ slot
    → (u : Tlb C) × (tlbwe l t m hid0 ≡ ok u)
      × (read_slot u slot ≡ some (written_entry m hid0 (2 * extr_bf m.mas1 mas1_tsize + 10)))
      × (read_slot u other ≡ read_slot t other)
      × (u.cache ≡ l.clear t.cache)
unfolding tlbwe
tlbwe_ok l t m hid0 slot other full r chosen small ne =
    let e = written_entry m hid0 (2 * extr_bf m.mas1 mas1_tsize + 10) in
    let u = write_slot t slot e in
    let c = l.clear u.cache in
    (
      record u { cache = c },
      rw (chosen, shift_small _ small) refl,
      read_slot-cache u c slot ∙ read_slot-write_slot t slot e full r,
      read_slot-cache u c other ∙ read_slot-write_ne t slot other e ne,
      ap l.clear (write_slot-cache t slot e),
    )

tsize-lt : (m : MasRegs) → extr_bf m.mas1 mas1_tsize < 16
tsize-lt m = rw (extr_bf-field 4 8 (omega arith) (omega arith) m.mas1) (mod-lt _ (omega arith))

-- `tlbwe` throws what the selection throws, which is for a way of tlb4K that is not there. Otherwise a slot is selected,
-- which is in range: then it does not return where TSIZE is 11 or more, and else it returns.
pub tlbwe_total :
    {C : Type 0} (l : LruCache C) (t : Tlb C) (m : MasRegs) (hid0 : ℕ)
    → ((tlbwe l t m hid0 ≡ throw (sim_except einval))
        × (select m ≡ throw (sim_except einval))
        × (extr_bf m.mas0 mas0_tlbsel ≡ 0)
        × (4 ≤ extr_bf m.mas0 mas0_esel))
      ⊎ ((slot : Slot) × (select m ≡ ok slot)
          × InRange slot
          × ((extr_bf m.mas0 mas0_tlbsel ≡ 1) ⊎ (extr_bf m.mas0 mas0_esel < 4))
          × (((tlbwe l t m hid0 ≡ no_return) × (11 ≤ extr_bf m.mas1 mas1_tsize))
              ⊎ ((u : Tlb C) × (tlbwe l t m hid0 ≡ ok u) × (extr_bf m.mas1 mas1_tsize ≤ 10))))
unfolding tlbwe
tlbwe_total l t m hid0 = elim (select_bounds m) [
  | inr failed ↦
      let (thrown, no_cam, way) = failed in inl (rw (thrown, tlbwe) refl, thrown, no_cam, way)
  | inl selected ↦
      let (slot, chosen, range, way) = selected in
      let size = extr_bf m.mas1 mas1_tsize in
      inr (
        slot,
        chosen,
        range,
        way,
        elim (dec_lt (extr_bf m.mas1 mas1_tsize) 11) [
          | yes small ↦
              let u = write_slot t slot (written_entry m hid0 (2 * size + 10)) in
              inr (
                record u { cache = l.clear u.cache },
                rw (chosen, shift_small size (omega arith), tlbwe) refl,
                omega arith,
              )
          | no large ↦ inl (
            rw (chosen, psize_large size (omega arith) (tsize-lt m), rshift_loop-zero 64 0, tlbwe)
                refl,
            omega arith,
          )
        ],
      )
]

-- Whatever `tlbwe` returns has a cleared cache.
pub tlbwe-cache :
    {C : Type 0} (l : LruCache C) (t u : Tlb C) (m : MasRegs) (hid0 : ℕ)
    → tlbwe l t m hid0 ≡ ok u
    → u.cache ≡ l.clear t.cache
unfolding tlbwe
tlbwe-cache {C} l t u m hid0 =
    go (select m) (rshift_loop 64 0 (tsize_to_psize (extr_bf m.mas1 mas1_tsize)))
  where
    go :
        (s : Outcome Slot) (o : Option ℕ)
        → (s >>= λ slot. elim o as (λ _. Outcome (Tlb C)) [
          | none ↦ no_return
          | some shift ↦
              (let x = write_slot t slot (written_entry m hid0 shift) in
                ok (record x { cache = l.clear x.cache }))
        ])
          ≡ ok u
        → u.cache ≡ l.clear t.cache
    go (throw ex) o h = cc
    go no_return o h = cc
    go (ok slot) none h = cc
    go (ok slot) (some shift) h =
        ap Tlb.cache (sym (ok_inj h))
        ∙ ap l.clear (write_slot-cache t slot (written_entry m hid0 shift))
      where
        ok_inj : {a b : Tlb C} → ok a ≡ ok b → a ≡ b
        ok_inj e = cc
