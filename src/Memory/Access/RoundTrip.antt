-- ===== src/Memory/Access/RoundTrip.antt =====
-- What an access of several bytes changes, and what it reads back.
use mathlib.Core.List.{reverse, reverse-cons}
use ppcsimbooke.Base.{
  ℕ, zero, suc, ◌+◌, ◌/◌, ◌++◌, ◌^◌, ◌≡◌, ◌≤◌, ◌<◌, ◌⊎◌, inl, refl, ap, ◌∙◌, sym, subst, List, [],
  ◌∷◌, length, arith, false,
}
use ppcsimbooke.Base.Error.{Outcome, ok, throw, no_return}
use ppcsimbooke.Utils.{
  Endianness, emul_big_endian, emul_little_endian, read_buff, write_buff, to_host_bytes,
}
use ppcsimbooke.Utils.Bytes.{read_buff-write_buff}
use ppcsimbooke.Memory.{Memory, paddr_to_hostpage, page_offset, store_at}
use ppcsimbooke.Memory.Page.{IsSettled, with_heap, hostpage-heap, hostpage-IsSettled}
use ppcsimbooke.Memory.Access.{load_bytes, store_bytes, read_word, write_word}

-- A byte that is not among those written stays.
pub store_bytes-frame :
    (page offset : ℕ) (bs : List ℕ) (m : Memory) (q k : ℕ)
    → (k < offset) ⊎ (offset + length bs ≤ k)
    → (store_bytes page offset bs m).heap q k ≡ m.heap q k
unfolding store_bytes store_at
store_bytes-frame page offset [] m q k away = refl
store_bytes-frame page offset (b ∷ bs) m q k away =
    store_bytes-frame page (offset + 1) bs (store_at page offset b m) q k (ground (arith, away))
    ∙ ground (arith, away)

-- The bytes written are there.
load-store :
    (page offset : ℕ) (bs : List ℕ) (m : Memory)
    → load_bytes (length bs) page offset (store_bytes page offset bs m) ≡ bs
unfolding load_bytes store_bytes store_at
load-store page offset [] m = refl
load-store page offset (b ∷ bs) m =
    let here =
      store_bytes-frame page (offset + 1) bs (store_at page offset b m) page offset
        (inl (omega arith))
      ∙ ground arith in
    ap
      (λ (v : ℕ).
        v
        ∷ load_bytes (length bs) page (offset + 1)
            (store_bytes page (offset + 1) bs (store_at page offset b m)))
      here
    ∙ ap (λ (l : List ℕ). b ∷ l) (load-store page (offset + 1) bs (store_at page offset b m))

-- Nothing but the heap changes.
store_bytes-heap :
    (page offset : ℕ) (bs : List ℕ) (m : Memory)
    → store_bytes page offset bs m ≡ record m { heap = (store_bytes page offset bs m).heap }
unfolding store_bytes store_at
store_bytes-heap page offset [] m = refl
store_bytes-heap page offset (b ∷ bs) m =
    store_bytes-heap page (offset + 1) bs (store_at page offset b m)

length-to_host_bytes : (n v : ℕ) → length (to_host_bytes n v) ≡ n
unfolding to_host_bytes
length-to_host_bytes zero v = refl
length-to_host_bytes (suc n) v = ap suc (length-to_host_bytes n (v / 256))

length-snoc : (bs : List ℕ) (b : ℕ) → length (bs ++ b ∷ []) ≡ suc (length bs)
length-snoc [] b = refl
length-snoc (c ∷ bs) b = ap suc (length-snoc bs b)

length-reverse : (bs : List ℕ) → length (reverse bs) ≡ length bs
length-reverse [] = refl
length-reverse (b ∷ bs) =
    ap length (reverse-cons b bs) ∙ length-snoc (reverse bs) b ∙ ap suc (length-reverse bs)

length-write_buff : (n v : ℕ) (e : Endianness) → length (write_buff n v e) ≡ n
unfolding write_buff
length-write_buff n v emul_big_endian =
    length-reverse (to_host_bytes n v) ∙ length-to_host_bytes n v
length-write_buff n v emul_little_endian = length-to_host_bytes n v

-- A word written and read back at its address.
abbrev pub WordBack : ℕ → ℕ → ℕ → Endianness → Outcome Memory → Type 0
WordBack n addr value e (ok m) = read_word n addr e m ≡ ok (value, m)
WordBack n addr value e (throw ex) = Unit
WordBack n addr value e no_return = Unit

read_word-hit :
    (n addr page : ℕ) (e : Endianness) (m : Memory)
    → paddr_to_hostpage addr m ≡ ok (page, m)
    → read_word n addr e m ≡ ok (read_buff (load_bytes n page (page_offset addr) m) e, m)
unfolding read_word
read_word-hit n addr page e m found = rw (found, read_word) refl

-- Where no change of the targets is flagged, a write of n bytes throws, or a read of n bytes at the same address
-- and in the same byte order returns the value and leaves the memory as it is.
pub read_word-write_word :
    (n addr value : ℕ) (e : Endianness) (m : Memory)
    → m.mem_tgt_modified ≡ false
    → value < 256 ^ n
    → WordBack n addr value e (write_word n addr value e m)
unfolding write_word with_heap
read_word-write_word n addr value e m still small =
    go (paddr_to_hostpage addr m) (hostpage-IsSettled addr m still)
  where
    bs : List ℕ
    bs = write_buff n value e

    go :
        (o : Outcome (ℕ × Memory))
        → IsSettled addr o
        → WordBack n addr value e (elim o as (λ _. Outcome Memory) [
          | ok (page, t) ↦ ok (store_bytes page (page_offset addr) (write_buff n value e) t)
          | throw ex ↦ throw ex
          | no_return ↦ no_return
        ])
    go (throw ex) settled = tt
    go no_return settled = tt
    go (ok (page, t)) settled =
        let u = store_bytes page (page_offset addr) bs t in
        let found : paddr_to_hostpage addr u ≡ ok (page, u) =
          subst (λ (v : Memory). paddr_to_hostpage addr v ≡ ok (page, v))
            (sym (store_bytes-heap page (page_offset addr) bs t))
            (hostpage-heap addr u.heap t ∙ ap (with_heap u.heap) settled) in
        read_word-hit n addr page e u found
        ∙ ap (λ (l : List ℕ). ok (read_buff l e, u))
            (ap (λ (k : ℕ). load_bytes k page (page_offset addr) u)
                (sym (length-write_buff n value e))
              ∙ load-store page (page_offset addr) bs t)
        ∙ ap (λ (v : ℕ). ok (v, u)) (read_buff-write_buff n value e small)
