-- ===== src/Cpu/Access/RoundTrip.antt =====
-- A store of the CPU and the load behind it.
use ppcsimbooke.Base.{ℕ, ◌^◌, ◌≡◌, ◌<◌, refl, ap, ◌∙◌, sym, subst, true, false, Option, some}
use ppcsimbooke.Base.Error.{Outcome, ok, throw, no_return}
use ppcsimbooke.Utils.{Endianness}
use ppcsimbooke.Memory.{Memory}
use ppcsimbooke.Memory.Access.{read_word, write_word}
use ppcsimbooke.Memory.Access.RoundTrip.{WordBack, read_word-write_word}
use ppcsimbooke.Tlb.{Tlb}
use ppcsimbooke.Tlb.Translate.{Request, Xlated}
use ppcsimbooke.Cpu.{cpu_xlate}
use ppcsimbooke.Cpu.Access.{CpuBus, with_memory, byte_order, no_value, cpu_read, cpu_write}

module _ {C : Type 0} (lookup : Tlb C → Request → Tlb C × Outcome Xlated) (n addr value : ℕ)
    (s : CpuBus C) where
  -- What a read gives behind a write.
  abbrev pub IsBack : CpuBus C × Outcome (Unit {0}) → Type 0
  IsBack (t, ok u) = (cpu_read lookup addr (read_word n) t).1 ≡ ok value
  IsBack (t, throw ex) = t.mem ≡ s.mem
  IsBack (t, no_return) = t.mem ≡ s.mem

  read_with :
      (t : CpuBus C) (t2 : Tlb C) (y : Xlated) (m : Memory) (e : Endianness) (a : ℕ)
      → cpu_xlate lookup t.tlb t.mmu addr false false ≡ (t2, ok y)
      → t.mem ≡ some m
      → y.address ≡ a
      → byte_order y ≡ e
      → read_word n a e m ≡ ok (value, m)
      → (cpu_read lookup addr (read_word n) t).1 ≡ ok value
  unfolding cpu_read with_memory
  read_with t t2 y m e a rd there same_a same_e back =
      ap
        (λ (r : Tlb C × Outcome Xlated).
          (with_memory (record t { tlb = r.0 }) r.1 (λ x. read_word n x.address (byte_order x))).1)
        rd
      ∙ ap
          (λ (o : Option Memory).
            (with_memory (record t { tlb = t2; mem = o }) (ok y)
              (λ x. read_word n x.address (byte_order x))).1)
          there
      ∙ go (read_word n y.address (byte_order y) m) (
          ap (λ (v : ℕ). read_word n v (byte_order y) m) same_a
          ∙ ap (λ (v : Endianness). read_word n a v m) same_e
          ∙ back)
    where
      go :
          (o : Outcome (ℕ × Memory))
          → o ≡ ok (value, m)
          → (elim o as (λ _. CpuBus C × Outcome ℕ) [
            | ok (v, k) ↦ (record t { tlb = t2; mem = some k }, ok v)
            | throw ex ↦ (record t { tlb = t2; mem = some m }, throw ex)
            | no_return ↦ (record t { tlb = t2; mem = some m }, no_return)
          ]).1
            ≡ ok value
      go o e =
          ap
            (λ (q : Outcome (ℕ × Memory)).
              (elim q as (λ _. CpuBus C × Outcome ℕ) [
                | ok (v, k) ↦ (record t { tlb = t2; mem = some k }, ok v)
                | throw ex ↦ (record t { tlb = t2; mem = some m }, throw ex)
                | no_return ↦ (record t { tlb = t2; mem = some m }, no_return)
              ]).1)
            e

  -- A store of n bytes whose address is translated for a store and, on the TLB that this leaves, for a load, to the
  -- same place with the same byte order: if it does not throw, a load of n bytes behind it gives the value; if it
  -- throws, the memory is as it was.
  pub cpu_read-cpu_write :
      (t1 t2 : Tlb C) (x y : Xlated) (m : Memory)
      → cpu_xlate lookup s.tlb s.mmu addr true false ≡ (t1, ok x)
      → cpu_xlate lookup t1 s.mmu addr false false ≡ (t2, ok y)
      → y.address ≡ x.address
      → y.wimge ≡ x.wimge
      → s.mem ≡ some m
      → m.mem_tgt_modified ≡ false
      → value < 256 ^ n
      → IsBack (cpu_write lookup addr (λ a. write_word n a value) s)
  unfolding cpu_write with_memory byte_order no_value
  cpu_read-cpu_write t1 t2 x y m wr rd same_a same_w there still small =
      subst IsBack
        (sym (
          ap
            (λ (r : Tlb C × Outcome Xlated).
              with_memory (record s { tlb = r.0 }) r.1
                (λ v k. no_value (write_word n v.address value (byte_order v) k)))
            wr
          ∙ ap
              (λ (o : Option Memory).
                with_memory (record s { tlb = t1; mem = o }) (ok x)
                  (λ v k. no_value (write_word n v.address value (byte_order v) k)))
              there))
        (go (write_word n x.address value (byte_order x) m)
          (read_word-write_word n x.address value (byte_order x) m still small))
    where
      go :
          (o : Outcome Memory)
          → WordBack n x.address value (byte_order x) o
          → IsBack (elim (no_value o) as (λ _. CpuBus C × Outcome (Unit {0})) [
            | ok (v, k) ↦ (record s { tlb = t1; mem = some k }, ok v)
            | throw ex ↦ (record s { tlb = t1; mem = some m }, throw ex)
            | no_return ↦ (record s { tlb = t1; mem = some m }, no_return)
          ])
      go (ok k) back =
          read_with (record s { tlb = t1; mem = some k }) t2 y k (byte_order x) x.address rd refl
            same_a (ap (λ (v : ℕ). byte_order (record x { wimge = v })) same_w) back
      go (throw ex) back = sym there
      go no_return back = sym there
