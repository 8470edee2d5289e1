-- ===== src/Tlb/Mas.antt =====
-- `tlbre`, `tlbwe` and `tlbse`: the entries as the MAS registers show them. The masks are those of
-- sim/src/regfields.h.
pub mod Read
pub mod Write
pub mod Select
use ppcsimbooke.Base.{
  ℕ, zero, suc, ◌+◌, ◌-◌, ◌*◌, ◌/◌, ◌%◌, ◌^◌, bit_and, bit_or, Bool, true, false, Option, none,
  some, List, [], ◌∷◌, ◌==◌, ◌&&◌, if◌then◌else◌, truthy, u64, not64, ◌<<<◌, ◌>>>◌,
}
use ppcsimbooke.Base.Error.{Outcome, ok, throw, no_return, ◌>>=◌}
use ppcsimbooke.Utils.{rshift_loop, ins_bf, extr_bf}
use ppcsimbooke.Tlb.{
  TlbEntry, Tlb, Slot, get_entry, read_slot, write_slot, tsize_to_psize, permis_to_ppcpermis,
  ppcpermis_to_permis,
}
use ppcsimbooke.Tlb.Cache.{LruCache}

pub record MasRegs : Type 0 where
  pub mas0 : ℕ
  pub mas1 : ℕ
  pub mas2 : ℕ
  pub mas3 : ℕ
  pub mas6 : ℕ
  pub mas7 : ℕ

abbrev pub mas0_tlbsel : ℕ
mas0_tlbsel = 0x1000_0000

abbrev pub mas0_esel : ℕ
mas0_esel = 0x000f_0000

abbrev pub mas0_nv : ℕ
mas0_nv = 0x0000_0001

abbrev pub mas1_v : ℕ
mas1_v = 0x8000_0000

abbrev pub mas1_iprot : ℕ
mas1_iprot = 0x4000_0000

abbrev pub mas1_tid : ℕ
mas1_tid = 0x00ff_0000

abbrev pub mas1_ts : ℕ
mas1_ts = 0x0000_1000

abbrev pub mas1_tsize : ℕ
mas1_tsize = 0x0000_0f00

abbrev pub mas2_epn : ℕ
mas2_epn = 0xffff_f000

abbrev pub mas2_x01 : ℕ
mas2_x01 = 0x0000_0060

abbrev pub mas2_wimge : ℕ
mas2_wimge = 0x0000_001f

abbrev pub mas3_rpn : ℕ
mas3_rpn = 0xffff_f000

abbrev pub mas3_u03 : ℕ
mas3_u03 = 0x0000_03c0

abbrev pub mas3_permis : ℕ
mas3_permis = 0x0000_003f

abbrev pub mas6_spid0 : ℕ
mas6_spid0 = 0x00ff_0000

abbrev pub mas6_sas : ℕ
mas6_sas = 0x0000_0001

abbrev pub mas7_rpn : ℕ
mas7_rpn = 0x0000_000f

abbrev pub hid0_en_mas7_update : ℕ
hid0_en_mas7_update = 0x80

-- The slot that MAS0 and MAS2 select. A slot that `get_entry` returns is inside the arrays.
unfoldable pub select : MasRegs → Outcome Slot
select m =
    get_entry (extr_bf m.mas0 mas0_tlbsel) (u64 (extr_bf m.mas2 mas2_epn <<< 12))
      (extr_bf m.mas0 mas0_esel)

-- The entry that `tlbwe` leaves, once `rshift<uint64_t>(psize)` has returned `shift`.
unfoldable pub written_entry : MasRegs → ℕ → ℕ → TlbEntry
written_entry m hid0 shift =
    let epn = extr_bf m.mas2 mas2_epn in
    let rpn = extr_bf m.mas3 mas3_rpn in
    let tsize = extr_bf m.mas1 mas1_tsize in
    let ea = u64 (epn <<< 12) in
    let ra_low = u64 (rpn <<< 12) in
    let ra =
      if truthy (extr_bf hid0 hid0_en_mas7_update)
      then bit_or ra_low (u64 (extr_bf m.mas7 mas7_rpn <<< 32))
      else ra_low in
    record {
      tid = extr_bf m.mas1 mas1_tid;
      epn = ea >>> shift;
      rpn = ra >>> shift;
      ea = ea;
      ra = ra;
      ps = tsize_to_psize tsize;
      wimge = extr_bf m.mas2 mas2_wimge;
      x01 = extr_bf m.mas2 mas2_x01;
      u03 = extr_bf m.mas3 mas3_u03;
      permis = ppcpermis_to_permis (extr_bf m.mas3 mas3_permis);
      ts = extr_bf m.mas1 mas1_ts;
      tsize = tsize;
      iprot = extr_bf m.mas1 mas1_iprot;
      valid = extr_bf m.mas1 mas1_v;
    }

-- `tlbwe`. The page size 0 of a TSIZE from 11 on makes `rshift` loop for ever.
unfoldable pub tlbwe : {C : Type 0} → LruCache C → Tlb C → MasRegs → ℕ → Outcome (Tlb C)
tlbwe l t m hid0 = do
  slot ← select m
  elim (rshift_loop 64 0 (tsize_to_psize (extr_bf m.mas1 mas1_tsize))) [
    | none ↦ no_return
    | some shift ↦
        (let u = write_slot t slot (written_entry m hid0 shift) in
          ok (record u { cache = l.clear u.cache }))
  ]

-- What `tlbre` and `tlbse` put into MAS1, MAS3 and MAS7, and `tlbre` into MAS2.
unfoldable pub mas1_of : ℕ → TlbEntry → ℕ
mas1_of m e =
    ins_bf (ins_bf (ins_bf (ins_bf m e.iprot mas1_iprot) e.tid mas1_tid) e.ts mas1_ts) e.tsize
      mas1_tsize

unfoldable pub mas2_of : ℕ → TlbEntry → ℕ
mas2_of m e = ins_bf (ins_bf (ins_bf m (e.ea >>> 12) mas2_epn) e.x01 mas2_x01) e.wimge mas2_wimge

unfoldable pub mas3_of : ℕ → TlbEntry → ℕ
mas3_of m e =
    ins_bf (ins_bf (ins_bf m (e.ra >>> 12) mas3_rpn) e.u03 mas3_u03) (permis_to_ppcpermis e.permis)
      mas3_permis

unfoldable pub mas7_of : ℕ → ℕ → TlbEntry → ℕ
mas7_of m hid0 e =
    if truthy (extr_bf hid0 hid0_en_mas7_update)
    then ins_bf m (bit_and (e.ra >>> 32) 0xf) mas7_rpn
    else m

-- The registers as `tlbre` leaves them, for the entry that was selected.
unfoldable pub shown_entry : MasRegs → ℕ → TlbEntry → MasRegs
shown_entry m hid0 e = record m {
  mas0 = ins_bf m.mas0 0 mas0_nv;
  mas1 = mas1_of (ins_bf m.mas1 e.valid mas1_v) e;
  mas2 = mas2_of m.mas2 e;
  mas3 = mas3_of m.mas3 e;
  mas7 = mas7_of m.mas7 hid0 e;
}

-- `tlbre`. The arrays have their full size in the program, so a selected slot always holds an entry; a
-- model of fewer ways would stop with no result.
unfoldable pub tlbre : {C : Type 0} → Tlb C → MasRegs → ℕ → Outcome MasRegs
tlbre t m hid0 = do
  slot ← select m
  elim (read_slot t slot) [ none ↦ no_return | some e ↦ ok (shown_entry m hid0 e) ]
