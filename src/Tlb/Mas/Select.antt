-- ===== src/Tlb/Mas/Select.antt =====
-- Which slot MAS0 and MAS2 select, and reading a slot after writing one.
use native.Mathlib.Nat.{mod-lt}
use ppcsimbooke.Base.{
  ℕ, zero, suc, ◌*◌, ◌/◌, ◌%◌, ◌^◌, ◌≤◌, ◌<◌, ◌≡◌, refl, ap, sym, ◌≢◌, ◌⊎◌, inl, inr, bit_and,
  Option, none, some, List, [], ◌∷◌, arith, get_elem?, set, length, All, u64, get_elem?-set_self,
  get_elem?-set_ne, bit_and-low, dec_lt, ℕ_discrete, get_elem?-lt,
}
use ppcsimbooke.Base.Error.{ok, throw, sim_except, einval}
use ppcsimbooke.Utils.{extr_bf}
use ppcsimbooke.Utils.Fields.{extr_bf-field}
use ppcsimbooke.Tlb.{
  TlbEntry, Tlb, Slot, in_4k, in_cam, get_entry, read_way, write_way, read_slot, write_slot,
}
use ppcsimbooke.Tlb.Mas.{MasRegs, select, mas0_tlbsel, mas0_esel, mas2_epn}

-- Only the first four sets of tlb4K can be selected: the set number is masked by the
-- associativity less 1.
abbrev pub InRange : Slot → Type 0
InRange (in_4k s w) = (s < 4) × (w < 4)
InRange (in_cam w) = w < 16

pub tlbsel-lt : (m : MasRegs) → extr_bf m.mas0 mas0_tlbsel < 2
tlbsel-lt m = rw (extr_bf-field 1 28 (omega arith) (omega arith) m.mas0) (mod-lt _ (omega arith))

pub esel-lt : (m : MasRegs) → extr_bf m.mas0 mas0_esel < 16
esel-lt m = rw (extr_bf-field 4 16 (omega arith) (omega arith) m.mas0) (mod-lt _ (omega arith))

set_no : (n : ℕ) → bit_and n 3 ≡ n % 4
set_no n = bit_and-low 2 n

pub select_bounds :
    (m : MasRegs)
    → ((slot : Slot) × (select m ≡ ok slot)
        × InRange slot
        × ((extr_bf m.mas0 mas0_tlbsel ≡ 1) ⊎ (extr_bf m.mas0 mas0_esel < 4)))
      ⊎ ((select m ≡ throw (sim_except einval))
          × (extr_bf m.mas0 mas0_tlbsel ≡ 0)
          × (4 ≤ extr_bf m.mas0 mas0_esel))
unfolding select get_entry
select_bounds m =
    go (extr_bf m.mas0 mas0_tlbsel) (extr_bf m.mas0 mas0_esel)
      (u64 (extr_bf m.mas2 mas2_epn * 2 ^ 12)) (tlbsel-lt m) (esel-lt m)
  where
    go :
        (sel esel ea : ℕ)
        → sel < 2
        → esel < 16
        → ((slot : Slot) × (get_entry sel ea esel ≡ ok slot)
            × InRange slot
            × ((sel ≡ 1) ⊎ (esel < 4)))
          ⊎ ((get_entry sel ea esel ≡ throw (sim_except einval)) × (sel ≡ 0) × (4 ≤ esel))
    go zero esel ea p q = elim (dec_lt esel 4) [
      | yes small ↦ inl (
        in_4k (bit_and (ea / 2 ^ 12) 3) esel,
        ground (arith, set_no (ea / 2 ^ 12)),
        ground (arith, set_no (ea / 2 ^ 12)),
        inr small,
      )
      | no large ↦ inr (ground (arith, set_no (ea / 2 ^ 12)), refl, omega arith)
    ]
    go (suc zero) esel ea p q = inl (in_cam esel, ground arith, q, inl refl)
    go (suc (suc sel)) esel ea p q = absurd (omega arith)

-- The shape of the arrays: 128 sets of 4 ways, and 16 entries.
pub record IsFull {C : Type 0} (t : Tlb C) : Type 0 where
  pub sets : length t.tlb4k ≡ 128
  pub ways : All (λ (ws : List TlbEntry). length ws ≡ 4) t.tlb4k
  pub cam : length t.tlb_cam ≡ 16

All-get {ℓ κ} :
    {A : Type ℓ} {P : A → Type κ} (xs : List A) (i : ℕ)
    → All P xs
    → i < length xs
    → (x : A) × (get_elem? xs i ≡ some x) × P x
All-get [] i h p = elim p [ ]
All-get (x ∷ xs) zero h p = (x, refl, h.0)
All-get (x ∷ xs) (suc i) h p = All-get xs i h.1 (omega arith)

module _ (sets : List (List TlbEntry)) (e : TlbEntry) where
  read_way-write_self :
      (s w : ℕ) (ws : List TlbEntry)
      → get_elem? sets s ≡ some ws
      → s < length sets
      → w < length ws
      → read_way (write_way sets s w e) s w ≡ some e
  unfolding read_way write_way
  read_way-write_self s w ws found p q =
      ground (arith, found, get_elem?-set_self sets s (set ws w e) p, get_elem?-set_self ws w e q)

  pub write_way-other_set :
      (s w j : ℕ) → s ≢ j → get_elem? (write_way sets s w e) j ≡ get_elem? sets j
  unfolding write_way
  write_way-other_set s w j ne = go (get_elem? sets s) refl
    where
      go :
          (o : Option (List TlbEntry))
          → get_elem? sets s ≡ o
          → get_elem?
              (elim o as (λ _. List (List TlbEntry)) [
                | none ↦ sets
                | some ways ↦ set sets s (set ways w e)
              ])
              j
            ≡ get_elem? sets j
      go none found = refl
      go (some ways) found = get_elem?-set_ne sets s j (set ways w e) ne

-- Writing a selected slot and reading it back.
pub read_slot-write_slot :
    {C : Type 0} (t : Tlb C) (slot : Slot) (e : TlbEntry)
    → IsFull t
    → InRange slot
    → read_slot (write_slot t slot e) slot ≡ some e
unfolding read_slot write_slot
read_slot-write_slot t (in_4k s w) e full r =
    let (ws, found, four) = All-get t.tlb4k s full.ways (omega (arith, full.sets)) in
    read_way-write_self t.tlb4k e s w ws found (omega (arith, full.sets)) (omega (arith, four))
read_slot-write_slot t (in_cam w) e full r =
    get_elem?-set_self t.tlb_cam w e (omega (arith, full.cam))

read_way-write_ne :
    (sets : List (List TlbEntry)) (e : TlbEntry) (s w r v : ℕ)
    → in_4k r v ≢ in_4k s w
    → read_way (write_way sets s w e) r v ≡ read_way sets r v
unfolding read_way write_way
read_way-write_ne sets e s w r v ne = go (get_elem? sets s) refl (ℕ_discrete s r) (ℕ_discrete w v)
  where
    go :
        (o : Option (List TlbEntry))
        → get_elem? sets s ≡ o
        → Dec (s ≡ r)
        → Dec (w ≡ v)
        → read_way (write_way sets s w e) r v ≡ read_way sets r v
    go o found (yes same) (yes way) = absurd (ne (cc))
    go none found d d' = ground (arith, found)
    go (some ways) found (no other) d =
        ground (arith, found, get_elem?-set_ne sets s r (set ways w e) other)
    go (some ways) found (yes same) (no way) = ground (
      arith,
      found,
      get_elem?-set_self sets s (set ways w e) (get_elem?-lt sets s found),
      get_elem?-set_ne ways w v e way,
    )

-- A write leaves every other slot as it was.
pub read_slot-write_ne :
    {C : Type 0} (t : Tlb C) (slot other : Slot) (e : TlbEntry)
    → other ≢ slot
    → read_slot (write_slot t slot e) other ≡ read_slot t other
unfolding read_slot write_slot
read_slot-write_ne t (in_4k s w) (in_4k r v) e ne = read_way-write_ne t.tlb4k e s w r v ne
read_slot-write_ne t (in_4k s w) (in_cam v) e ne = refl
read_slot-write_ne t (in_cam w) (in_4k r v) e ne = refl
read_slot-write_ne t (in_cam w) (in_cam v) e ne =
    get_elem?-set_ne t.tlb_cam w v e (λ same. ne (ap in_cam (sym same)))
