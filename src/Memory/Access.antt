-- ===== src/Memory/Access.antt =====
-- Accesses of several bytes and of buffers, sim/src/memory.cpp. All bytes of an access of 2, 4 or 8 are taken
-- from the host page of the first: those behind its end are bytes of the heap that the page does not own, which
-- are offsets from 4096 on here. The buffers are cut at the page boundaries.
pub mod RoundTrip
use ppcsimbooke.Base.{
  ℕ, zero, suc, ◌+◌, ◌-◌, ◌*◌, ◌/◌, ◌%◌, ◌^◌, List, [], ◌∷◌, ◌++◌, u8, u64, min, Option, none, some,
  if◌then◌else◌, ◌==◌, length, ltb,
}
use ppcsimbooke.Base.Error.{Outcome, ok, throw, no_return}
use ppcsimbooke.Utils.{Endianness, read_buff, write_buff, rnd_pgsz_n_plus_1, rnd_pgsz_p}
use ppcsimbooke.Memory.{Memory, paddr_to_hostpage, page_offset, store_at, read8, write8}

-- The bytes at an offset of a page.
unfoldable pub load_bytes : ℕ → ℕ → ℕ → Memory → List ℕ
load_bytes zero page offset m = []
load_bytes (suc n) page offset m = m.heap page offset ∷ load_bytes n page (offset + 1) m

unfoldable pub store_bytes : ℕ → ℕ → List ℕ → Memory → Memory
store_bytes page offset [] m = m
store_bytes page offset (b ∷ bs) m = store_bytes page (offset + 1) bs (store_at page offset b m)

-- The accesses of n bytes.
unfoldable pub read_word : ℕ → ℕ → Endianness → Memory → Outcome (ℕ × Memory)
read_word n addr e m = elim (paddr_to_hostpage addr m) [
  | ok (page, t) ↦ ok (read_buff (load_bytes n page (page_offset addr) t) e, t)
  | throw ex ↦ throw ex
  | no_return ↦ no_return
]

unfoldable pub write_word : ℕ → ℕ → ℕ → Endianness → Memory → Outcome Memory
write_word n addr value e m = elim (paddr_to_hostpage addr m) [
  | ok (page, t) ↦ ok (store_bytes page (page_offset addr) (write_buff n value e) t)
  | throw ex ↦ throw ex
  | no_return ↦ no_return
]

-- The values are cut to their types.
unfoldable pub read16 : ℕ → Endianness → Memory → Outcome (ℕ × Memory)
read16 = read_word 2

unfoldable pub write16 : ℕ → ℕ → Endianness → Memory → Outcome Memory
write16 addr value = write_word 2 addr (value % 2 ^ 16)

unfoldable pub read32 : ℕ → Endianness → Memory → Outcome (ℕ × Memory)
read32 = read_word 4

unfoldable pub write32 : ℕ → ℕ → Endianness → Memory → Outcome Memory
write32 addr value = write_word 4 addr (value % 2 ^ 32)

unfoldable pub read64 : ℕ → Endianness → Memory → Outcome (ℕ × Memory)
read64 = read_word 8

unfoldable pub write64 : ℕ → ℕ → Endianness → Memory → Outcome Memory
write64 addr value = write_word 8 addr (value % 2 ^ 64)

-- The first n bytes of a buffer, and the rest.
unfoldable pub take : ℕ → List ℕ → List ℕ
take zero bs = []
take (suc n) [] = []
take (suc n) (b ∷ bs) = b ∷ take n bs

unfoldable pub drop : ℕ → List ℕ → List ℕ
drop zero bs = bs
drop (suc n) [] = []
drop (suc n) (b ∷ bs) = drop n bs

-- `min(size, rnd_pgsz_n_plus_1(addr) - addr)`: what is left of the page.
unfoldable pub chunk : ℕ → ℕ → ℕ
unfolding rnd_pgsz_n_plus_1
chunk addr size = min size (u64 (rnd_pgsz_n_plus_1 addr + (2 ^ 64 - addr)))

unfoldable pub chunk_offset : ℕ → ℕ
unfolding rnd_pgsz_p
chunk_offset addr = u64 (addr + (2 ^ 64 - rnd_pgsz_p addr))

-- The loop of `write_from_buffer`, on the rounds that are left. An exception leaves the chunks before it
-- written.
unfoldable pub write_from_buffer : ℕ → ℕ → List ℕ → Memory → Memory × Outcome (Unit {0})
unfolding chunk chunk_offset store_bytes
write_from_buffer fuel addr [] m = (m, ok tt)
write_from_buffer zero addr (b ∷ bs) m = (m, no_return)
write_from_buffer (suc fuel) addr (b ∷ bs) m =
    let n = chunk addr (length (b ∷ bs)) in
    elim (paddr_to_hostpage addr m) [
      | ok (page, t) ↦
          write_from_buffer fuel (u64 (addr + n)) (drop n (b ∷ bs))
            (store_bytes page (chunk_offset addr) (take n (b ∷ bs)) t)
      | throw ex ↦ (m, throw ex)
      | no_return ↦ (m, no_return)
    ]

-- `read_to_buffer`: the bytes that the buffer gets, in order.
unfoldable pub read_to_buffer : ℕ → ℕ → ℕ → Memory → Memory × Outcome (List ℕ)
unfolding chunk chunk_offset load_bytes
read_to_buffer fuel addr zero m = (m, ok [])
read_to_buffer zero addr (suc size) m = (m, no_return)
read_to_buffer (suc fuel) addr (suc size) m =
    let n = chunk addr (suc size) in
    elim (paddr_to_hostpage addr m) [
      | ok (page, t) ↦
          let rest = read_to_buffer fuel (u64 (addr + n)) (suc size - n) t in
          (
            rest.0,
            elim rest.1 [
              | ok bs ↦ ok (load_bytes n page (chunk_offset addr) t ++ bs)
              | throw ex ↦ throw ex
              | no_return ↦ no_return
            ],
          )
      | throw ex ↦ (m, throw ex)
      | no_return ↦ (m, no_return)
    ]
