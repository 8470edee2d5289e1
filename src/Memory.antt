-- ===== src/Memory.antt =====
-- Physical memory, sim/src/memory.h and sim/src/memory.cpp: the targets, the pages and the bytes. A host page is the
-- number of its allocation, and the heap gives the bytes of each, those never written included.
pub mod Page
pub mod Target
pub mod Access
use ppcsimbooke.Base.{
  ℕ, zero, suc, ◌+◌, ◌-◌, ◌*◌, ◌/◌, ◌%◌, ◌^◌, Bool, true, false, Option, none, some, List, [], ◌∷◌,
  ◌++◌, ltb, leb, ◌==◌, ◌&&◌, ◌||◌, if◌then◌else◌, u8, u64, ◌>>>◌, ◌<<<◌,
}
use ppcsimbooke.Base.Error.{Outcome, ok, throw, no_return, ◌>>=◌, sim_except, efault}
use ppcsimbooke.Utils.{rnd_pgsz_n}

-- A map from page numbers to host pages.
abbrev pub PageHash : Type 0
PageHash = List (ℕ × ℕ)

unfoldable pub find_page : ℕ → PageHash → Option ℕ
find_page n [] = none
find_page n (entry ∷ entries) = elim (entry.0 == n) [
  | true ↦ some entry.1
  | false ↦ find_page n entries
]

-- `t_mem_tgt`; its name is left out, and a priority, an int, is taken from 0 on.
pub record MemTgt : Type 0 where
  pub baseaddr : ℕ
  pub endaddr : ℕ
  pub size : ℕ
  pub flags : ℕ
  pub priority : ℕ
  pub tgt_type : ℕ
  pub page_hash : PageHash

-- `memory`. `heap` and `n_pages` stand for the storage that `new` takes pages from.
pub record Memory : Type 0 where
  pub mem_tgt : List MemTgt
  pub mem_tgt_modified : Bool
  pub page_hash_cache : PageHash
  pub heap : ℕ → ℕ → ℕ
  pub n_pages : ℕ

unfoldable pub is_overlapping_tgt : MemTgt → List MemTgt → Bool
is_overlapping_tgt tgt [] = false
is_overlapping_tgt tgt (it ∷ its) =
    (leb it.baseaddr tgt.baseaddr && leb tgt.baseaddr it.endaddr && leb tgt.priority it.priority)
    || (leb it.baseaddr tgt.endaddr && ltb tgt.endaddr it.endaddr && leb tgt.priority it.priority)
    || is_overlapping_tgt tgt its

unfoldable pub is_paddr_there : MemTgt → ℕ → Bool
is_paddr_there it paddr = leb it.baseaddr paddr && leb paddr it.endaddr

-- The loop of `select_mem_tgt`: the position in the list, and the last choice with its position. The sim_except_fatal of
-- two targets with one priority is not in the exception specification throw(sim_except) of `select_mem_tgt`: the program is
-- terminated, and nothing returns.
unfoldable pub select_from :
    ℕ → ℕ → List MemTgt → Option (ℕ × MemTgt) → Outcome (Option (ℕ × MemTgt))
select_from paddr i [] last = ok last
select_from paddr i (it ∷ its) last =
    if is_paddr_there it paddr
    then elim last [
      | none ↦ select_from paddr (i + 1) its (some (i, it))
      | some chosen ↦
          if ltb chosen.1.priority it.priority
          then select_from paddr (i + 1) its (some (i, it))
          else if chosen.1.priority == it.priority
          then no_return
          else select_from paddr (i + 1) its (some chosen)
    ]
    else select_from paddr (i + 1) its last

unfoldable pub select_mem_tgt : ℕ → List MemTgt → Outcome (Option (ℕ × MemTgt))
unfolding select_from
select_mem_tgt paddr tgts = select_from paddr 0 tgts none

unfoldable pub add_page : ℕ → ℕ → ℕ → List MemTgt → List MemTgt
add_page i pageno page [] = []
add_page zero pageno page (it ∷ its) = record it { page_hash = (pageno, page) ∷ it.page_hash } ∷ its
add_page (suc i) pageno page (it ∷ its) = it ∷ add_page i pageno page its

-- The part of `paddr_to_hostpage` after the cache. A page that the target has already is not put into the cache.
unfoldable pub locate_page : ℕ → Memory → Outcome (ℕ × Memory)
locate_page paddr m =
    let pageno = paddr >>> 12 in
    elim (select_mem_tgt paddr m.mem_tgt) [
      | throw ex ↦ throw ex
      | no_return ↦ no_return
      | ok none ↦ throw (sim_except efault)
      | ok (some chosen) ↦ elim (find_page pageno chosen.1.page_hash) [
        | some page ↦ ok (page, record m { mem_tgt_modified = false })
        | none ↦ ok (
          m.n_pages,
          record m {
            mem_tgt = add_page chosen.0 pageno m.n_pages m.mem_tgt;
            mem_tgt_modified = false;
            page_hash_cache = (pageno, m.n_pages) ∷ m.page_hash_cache;
            n_pages = m.n_pages + 1;
          },
        )
      ]
    ]

unfoldable pub paddr_to_hostpage : ℕ → Memory → Outcome (ℕ × Memory)
paddr_to_hostpage paddr m =
    if m.mem_tgt_modified
    then locate_page paddr m
    else elim (find_page (paddr >>> 12) m.page_hash_cache) [
      | some page ↦ ok (page, m)
      | none ↦ locate_page paddr m
    ]

-- `paddr_to_hostaddr`: the page and the offset in it.
unfoldable pub page_offset : ℕ → ℕ
page_offset paddr = paddr - u64 (paddr >>> 12 <<< 12)

unfoldable pub register_memory_target : ℕ → ℕ → ℕ → ℕ → ℕ → Memory → Memory
unfolding rnd_pgsz_n
register_memory_target ba size flags tgt_type prio m =
    let tgt_size = rnd_pgsz_n size in
    let base = rnd_pgsz_n ba in
    let tgt : MemTgt = record {
      baseaddr = base;
      endaddr = u64 (base + tgt_size + 0xffff_ffff_ffff_ffff);
      size = tgt_size;
      flags = flags;
      priority = prio;
      tgt_type = tgt_type;
      page_hash = [];
    } in
    if is_overlapping_tgt tgt m.mem_tgt then m else record m { mem_tgt = m.mem_tgt ++ tgt ∷ [] }

unfoldable pub store_at : ℕ → ℕ → ℕ → Memory → Memory
store_at page offset value m = record m {
  heap = λ p o. if p == page && o == offset then value else m.heap p o;
}

unfoldable pub read8 : ℕ → Memory → Outcome (ℕ × Memory)
read8 addr m = elim (paddr_to_hostpage addr m) [
  | ok (page, n) ↦ ok (n.heap page (page_offset addr), n)
  | throw ex ↦ throw ex
  | no_return ↦ no_return
]

unfoldable pub write8 : ℕ → ℕ → Memory → Outcome Memory
write8 addr value m = elim (paddr_to_hostpage addr m) [
  | ok (page, n) ↦ ok (store_at page (page_offset addr) (u8 value) n)
  | throw ex ↦ throw ex
  | no_return ↦ no_return
]
