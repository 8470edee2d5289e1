-- ===== src/Tlb.antt =====
-- The TLB of sim/src/tlb_booke.h and sim/src/tlb_booke.cpp: its entries, the two arrays, the
-- reset state and the choice of an entry. The operations are in the children.
pub mod Cache
pub mod Mas
pub mod Invalidate
pub mod Translate
use ppcsimbooke.Base.{
  ℕ, zero, suc, ◌+◌, ◌-◌, ◌*◌, ◌/◌, ◌%◌, ◌^◌, ◌<◌, bit_and, bit_or, Bool, true, false, Option, none,
  some, List, [], ◌∷◌, map, ltb, ◌==◌, ◌||◌, if◌then◌else◌, u8, u32, u64, ◌<<<◌, ◌>>>◌, get_elem?,
  set, length,
}
use ppcsimbooke.Base.Error.{Outcome, ok, throw, sim_except, einval}
use ppcsimbooke.Utils.{pow4}

-- `to_virt`: the key of the translation cache.
unfoldable pub to_virt : ℕ → ℕ → ℕ → ℕ → ℕ → ℕ
to_virt pr rwx space pid ea =
    bit_or
      (bit_or
        (bit_or (bit_or (u64 (bit_and pr 0x1 <<< 44)) (u64 (bit_and rwx 0x7 <<< 41)))
          (u64 (bit_and space 0x1 <<< 40)))
        (u64 (bit_and pid 0xff <<< 32)))
      (bit_and ea 0xffff_ffff)

-- The six permission bits, between the order of MAS3 and that of an entry. Both return uint8_t.
unfoldable pub permis_to_ppcpermis : ℕ → ℕ
permis_to_ppcpermis perm = u8 (
    bit_or
      (bit_or
        (bit_or
          (bit_or (bit_or (bit_and perm 0x1 <<< 4) (bit_and perm 0x2 <<< 1))
            (bit_and perm 0x4 >>> 2))
          (bit_and perm 0x8 <<< 2))
        (bit_and perm 0x10 >>> 1))
      (bit_and perm 0x20 >>> 4))

unfoldable pub ppcpermis_to_permis : ℕ → ℕ
ppcpermis_to_permis perm = u8 (
    bit_or
      (bit_or
        (bit_or
          (bit_or (bit_or (bit_and perm 0x1 <<< 2) (bit_and perm 0x2 <<< 4))
            (bit_and perm 0x4 >>> 1))
          (bit_and perm 0x8 <<< 1))
        (bit_and perm 0x10 >>> 4))
      (bit_and perm 0x20 >>> 2))

-- `tsize_to_psize`. The product is an int: from 4^11 K on it does not fit, and what is left of it
-- in 32 bits is 0.
unfoldable pub tsize_to_psize : ℕ → ℕ
unfolding pow4
tsize_to_psize tsize = u32 (pow4 tsize * 0x400)

-- `t_tlb_entry`, its bit fields `tflags` among the others.
pub record TlbEntry : Type 0 where
  pub tid : ℕ
  pub epn : ℕ
  pub rpn : ℕ
  pub ea : ℕ
  pub ra : ℕ
  pub ps : ℕ
  pub wimge : ℕ
  pub x01 : ℕ
  pub u03 : ℕ
  pub permis : ℕ
  pub ts : ℕ
  pub tsize : ℕ
  pub iprot : ℕ
  pub valid : ℕ

-- `tlb`: the sets of tlb4K (CPU_TLB4K_N_SETS of CPU_TLB4K_N_WAYS ways), the ways of the one set of
-- tlbCam (CPU_TLBCAM_N_ENTRIES), and the cache of translations.
pub record Tlb (C : Type 0) : Type 0 where
  pub tlb4k : List (List TlbEntry)
  pub tlb_cam : List TlbEntry
  pub cache : C

abbrev pub n_sets : ℕ
n_sets = 128

abbrev pub n_ways : ℕ
n_ways = 4

abbrev pub n_cam : ℕ
n_cam = 16

-- `init_ppc_tlb_defaults`. It leaves the fields that it does not name as the storage has them, so the storage is
-- an argument.
unfoldable pub disable_4k : TlbEntry → TlbEntry
disable_4k e = record e { ps = 0x1000; valid = 0 }

unfoldable pub disable_cam : TlbEntry → TlbEntry
disable_cam e = record e { valid = 0 }

unfoldable pub boot_entry : TlbEntry → TlbEntry
boot_entry e = record e {
  valid = 1;
  ts = 0;
  tid = 0;
  epn = 0xfffff;
  rpn = 0xfffff;
  ea = 0xffff_f000;
  ra = 0xffff_f000;
  tsize = 1;
  ps = 0x1000;
  permis = 0b000111;
  wimge = 0b01000;
  x01 = 0;
  u03 = 0;
  iprot = 1;
}

unfoldable pub boot_cam : List TlbEntry → List TlbEntry
unfolding boot_entry
boot_cam [] = []
boot_cam (e ∷ es) = boot_entry e ∷ es

unfoldable pub init_ppc_tlb_defaults : {C : Type 0} → Tlb C → Tlb C
unfolding disable_4k disable_cam boot_cam
init_ppc_tlb_defaults t = record t {
  tlb4k = map (map disable_4k) t.tlb4k;
  tlb_cam = boot_cam (map disable_cam t.tlb_cam);
}

-- Where an entry stands.
pub data Slot : Type 0 where
  in_4k : ℕ → ℕ → Slot
  in_cam : ℕ → Slot

-- `get_entry`: the set of tlb4K comes from the page number, masked by the associativity less 1, and
-- the way from esel; in tlbCam esel is the way. The checks throw `sim_except(EINVAL)`.
unfoldable pub get_entry : ℕ → ℕ → ℕ → Outcome Slot
get_entry tlbno ea esel =
    if tlbno == 0
    then (let setno = bit_and (ea >>> 12) (n_ways - 1) in
        if ltb setno n_sets
        then (if ltb esel n_ways then ok (in_4k setno esel) else throw (sim_except einval))
        else throw (sim_except einval))
    else if tlbno == 1
    then (if ltb esel n_cam then ok (in_cam esel) else throw (sim_except einval))
    else throw (sim_except einval)

-- The entry in a slot, and a slot overwritten.
unfoldable pub read_way : List (List TlbEntry) → ℕ → ℕ → Option TlbEntry
read_way sets s w = elim (get_elem? sets s) [ none ↦ none | some ways ↦ get_elem? ways w ]

unfoldable pub write_way : List (List TlbEntry) → ℕ → ℕ → TlbEntry → List (List TlbEntry)
write_way sets s w e = elim (get_elem? sets s) [
  | none ↦ sets
  | some ways ↦ set sets s (set ways w e)
]

unfoldable pub read_slot : {C : Type 0} → Tlb C → Slot → Option TlbEntry
unfolding read_way
read_slot t (in_4k s w) = read_way t.tlb4k s w
read_slot t (in_cam w) = get_elem? t.tlb_cam w

unfoldable pub write_slot : {C : Type 0} → Tlb C → Slot → TlbEntry → Tlb C
unfolding write_way
write_slot t (in_4k s w) e = record t { tlb4k = write_way t.tlb4k s w e }
write_slot t (in_cam w) e = record t { tlb_cam = set t.tlb_cam w e }
