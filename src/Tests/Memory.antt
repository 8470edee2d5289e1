-- ===== src/Tests/Memory.antt =====
-- Physical memory at concrete inputs.
use ppcsimbooke.Base.{false, [], ◌∷◌}
use ppcsimbooke.Memory.{Memory, MemTgt, select_mem_tgt}
use ppcsimbooke.Memory.Target.{IsChoice, select_mem_tgt-IsChoice}

abbrev ddr0 : MemTgt
ddr0 = record {
  baseaddr = 0;
  endaddr = 0xf_ffff_ffff;
  size = 0x10_0000_0000;
  flags = 0;
  priority = 0;
  tgt_type = 0;
  page_hash = [];
}

abbrev rom : MemTgt
rom = record ddr0 { baseaddr = 0x8000; endaddr = 0x8fff; size = 0x1000; priority = 1 }

abbrev pub fresh_memory : Memory
fresh_memory = record {
  mem_tgt = ddr0 ∷ rom ∷ [];
  mem_tgt_modified = false;
  page_hash_cache = [];
  heap = λ p o. 0xaa;
  n_pages = 0;
}

abbrev used_memory : Memory
used_memory = record fresh_memory {
  mem_tgt = record ddr0 { page_hash = (3, 0) ∷ [] } ∷ [];
  page_hash_cache = (3, 0) ∷ [];
  n_pages = 1;
}

select_mem_tgt-IsChoice_example :
    IsChoice 0x8010 (ddr0 ∷ rom ∷ []) (select_mem_tgt 0x8010 (ddr0 ∷ rom ∷ []))
select_mem_tgt-IsChoice_example = select_mem_tgt-IsChoice 0x8010 (ddr0 ∷ rom ∷ [])
