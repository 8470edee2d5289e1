-- ===== src/Tests/Tlb.antt =====
-- The TLB and the bit fields at concrete inputs.
use ppcsimbooke.Base.{
  ◌+◌, ◌-◌, ◌≤◌, ◌<◌, ◌≡◌, refl, ◌⊎◌, some, List, [], ◌∷◌, arith, length, replicate, All-replicate,
}
use ppcsimbooke.Base.Error.{ok, throw, no_return, sim_except, einval}
use ppcsimbooke.Utils.{extr_bf, rshift_loop, rshift}
use ppcsimbooke.Tlb.{TlbEntry, Tlb, Slot, in_cam, read_slot, tsize_to_psize, get_entry}
use ppcsimbooke.Tlb.Mas.{
  MasRegs, select, tlbwe, written_entry, shown_entry, mas0_tlbsel, mas0_esel, mas1_v, mas1_iprot,
  mas1_tid, mas1_ts, mas1_tsize, mas2_epn, mas2_x01, mas2_wimge, mas3_rpn, mas3_u03, mas3_permis,
}
use ppcsimbooke.Tlb.Mas.Read.{shown_entry-written_entry}
use ppcsimbooke.Tlb.Mas.Select.{IsFull, InRange}
use ppcsimbooke.Tlb.Mas.Write.{tlbwe_ok, tlbwe_total}
use ppcsimbooke.Tlb.Invalidate.{tlbive, page_mask}
use ppcsimbooke.Tlb.Invalidate.{is_found, tlbse}
use ppcsimbooke.Tlb.Invalidate.Search.{IsShown, tlbse-IsShown}
use ppcsimbooke.Tlb.Invalidate.Effect.{Pointwise, Cleared4k, ClearedCam, tlbive_effect}
use ppcsimbooke.Tlb.Translate.{Request, xlate, answer, is_match, is_permitted, request_perm}
use ppcsimbooke.Tlb.Translate.Page.{answer_page, xlate_cold}
use ppcsimbooke.Tests.Cache.{Table, empty_table, table_cache, table_view, table_laws}

abbrev blank : TlbEntry
blank = record {
  tid = 0;
  epn = 0;
  rpn = 0;
  ea = 0;
  ra = 0;
  ps = 0x1000;
  wimge = 0;
  x01 = 0;
  u03 = 0;
  permis = 0;
  ts = 0;
  tsize = 1;
  iprot = 0;
  valid = 0;
}

-- 4K at 0x5000, readable by the supervisor only; and 64K at 0x20000, open to all.
abbrev read_only : TlbEntry
read_only = record blank { ea = 0x5000; ra = 0x9000; permis = 0b000100; valid = 1 }

abbrev open_64k : TlbEntry
open_64k = record blank {
  ea = 0x2_0000;
  ra = 0x7_0000;
  ps = 0x1_0000;
  tsize = 3;
  permis = 0b111111;
  valid = 1;
}

abbrev pub tlb0 : Tlb Table
tlb0 = record {
  tlb4k = replicate 128 (read_only ∷ blank ∷ blank ∷ blank ∷ []);
  tlb_cam = open_64k ∷ replicate 15 blank;
  cache = empty_table;
}

abbrev write_request : Request
write_request = record { ea = 0x5004; space = 0; pid = 0; rwx = 2; pr = 0 }

abbrev read_request : Request
read_request = record { ea = 0x2_1234; space = 0; pid = 0; rwx = 4; pr = 1 }

-- MAS registers that select way 2 of tlb4K, and entry 5 of tlbCam with TSIZE 1.
abbrev mas_4k : MasRegs
mas_4k = record {
  mas0 = 0x2_0000;
  mas1 = 0x8000_0100;
  mas2 = 0x5000;
  mas3 = 0x903f;
  mas6 = 0;
  mas7 = 0;
}

abbrev mas_cam : MasRegs
mas_cam = record {
  mas0 = 0x1005_0000;
  mas1 = 0x8000_0100;
  mas2 = 0x5000;
  mas3 = 0x903f;
  mas6 = 0;
  mas7 = 0;
}

tlb0-IsFull : IsFull tlb0
tlb0-IsFull = record {
  sets = refl;
  ways =
      All-replicate (λ (ws : List TlbEntry). length ws ≡ 4) 128
        (read_only ∷ blank ∷ blank ∷ blank ∷ []) refl;
  cam = refl;
}

xlate_cold_example : (xlate table_cache [] tlb0 read_request).1 ≡ ok (answer read_request open_64k)
unfolding is_match is_permitted request_perm page_mask
xlate_cold_example =
    xlate_cold table_cache table_view table_laws [] tlb0 read_request (λ k. refl) refl refl refl
      (omega arith) (omega arith)

answer_page_example :
    (0x2_0000 ≤ 0x2_1234)
    × (0x2_1234 < 0x2_0000 + 0x1_0000)
    × ((answer read_request open_64k).address ≡ 0x7_0000 + (0x2_1234 - 0x2_0000))
unfolding tsize_to_psize is_match page_mask
answer_page_example =
    answer_page read_request open_64k (omega arith) refl (omega arith) (omega arith) refl

tlbwe_total_example :
    ((tlbwe table_cache tlb0 mas_4k 0 ≡ throw (sim_except einval))
      × (select mas_4k ≡ throw (sim_except einval))
      × (extr_bf 0x2_0000 mas0_tlbsel ≡ 0)
      × (4 ≤ extr_bf 0x2_0000 mas0_esel))
    ⊎ ((slot : Slot) × (select mas_4k ≡ ok slot)
        × InRange slot
        × ((extr_bf 0x2_0000 mas0_tlbsel ≡ 1) ⊎ (extr_bf 0x2_0000 mas0_esel < 4))
        × (((tlbwe table_cache tlb0 mas_4k 0 ≡ no_return) × (11 ≤ extr_bf 0x8000_0100 mas1_tsize))
            ⊎ ((u : Tlb Table) × (tlbwe table_cache tlb0 mas_4k 0 ≡ ok u)
                × (extr_bf 0x8000_0100 mas1_tsize ≤ 10))))
tlbwe_total_example = tlbwe_total table_cache tlb0 mas_4k 0

tlbwe_ok_example :
    (u : Tlb Table) × (tlbwe table_cache tlb0 mas_cam 0 ≡ ok u)
    × (read_slot u (in_cam 5) ≡ some (written_entry mas_cam 0 12))
    × (read_slot u (in_cam 0) ≡ read_slot tlb0 (in_cam 0))
    × (u.cache ≡ table_cache.clear empty_table)
unfolding select get_entry extr_bf rshift rshift_loop
tlbwe_ok_example =
    tlbwe_ok table_cache tlb0 mas_cam 0 (in_cam 5) (in_cam 0) tlb0-IsFull (omega arith) refl
      (omega arith) (λ e. cc)

tlbive_effect_example :
    Pointwise (Pointwise Cleared4k) tlb0.tlb4k (tlbive table_cache tlb0 0x5000).tlb4k
    × Pointwise ClearedCam tlb0.tlb_cam (tlbive table_cache tlb0 0x5000).tlb_cam
    × ((tlbive table_cache tlb0 0x5000).cache ≡ table_cache.clear empty_table)
tlbive_effect_example = tlbive_effect table_cache tlb0 0x5000

abbrev clear_regs : MasRegs
clear_regs = record { mas0 = 0; mas1 = 0; mas2 = 0; mas3 = 0; mas6 = 0; mas7 = 0 }

abbrev shown_regs : MasRegs
shown_regs = shown_entry clear_regs 0 (written_entry mas_cam 0 12)

shown_entry-written_entry_example :
    (extr_bf shown_regs.mas1 mas1_v ≡ extr_bf mas_cam.mas1 mas1_v)
    × (extr_bf shown_regs.mas1 mas1_iprot ≡ extr_bf mas_cam.mas1 mas1_iprot)
    × (extr_bf shown_regs.mas1 mas1_tid ≡ extr_bf mas_cam.mas1 mas1_tid)
    × (extr_bf shown_regs.mas1 mas1_ts ≡ extr_bf mas_cam.mas1 mas1_ts)
    × (extr_bf shown_regs.mas1 mas1_tsize ≡ extr_bf mas_cam.mas1 mas1_tsize)
    × (extr_bf shown_regs.mas2 mas2_epn ≡ extr_bf mas_cam.mas2 mas2_epn)
    × (extr_bf shown_regs.mas2 mas2_x01 ≡ extr_bf mas_cam.mas2 mas2_x01)
    × (extr_bf shown_regs.mas2 mas2_wimge ≡ extr_bf mas_cam.mas2 mas2_wimge)
    × (extr_bf shown_regs.mas3 mas3_rpn ≡ extr_bf mas_cam.mas3 mas3_rpn)
    × (extr_bf shown_regs.mas3 mas3_u03 ≡ extr_bf mas_cam.mas3 mas3_u03)
    × (extr_bf shown_regs.mas3 mas3_permis ≡ extr_bf mas_cam.mas3 mas3_permis)
shown_entry-written_entry_example = shown_entry-written_entry mas_cam clear_regs 0 12 refl refl refl

-- An entry that is not valid is found all the same.
tlbse-IsShown_example : IsShown (some blank) (tlbse tlb0 0x10 clear_regs 0).mas1
unfolding is_found page_mask extr_bf rshift rshift_loop
tlbse-IsShown_example = tlbse-IsShown tlb0 0x10 clear_regs 0 refl
