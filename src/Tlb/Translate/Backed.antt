-- ===== src/Tlb/Translate/Backed.antt =====
-- Every operation keeps the cache of translations backed by the arrays.
use ppcsimbooke.Base.{
  ℕ, ◌≡◌, true, Option, none, some, List, [], ◌∷◌, ◌++◌, Any, truthy, u16, ◌<<<◌, ◌%◌, ◌/◌, ◌^◌,
  ◌*◌,
}
use ppcsimbooke.Base.Error.{ok}
use ppcsimbooke.Tlb.{TlbEntry, Tlb}
use ppcsimbooke.Tlb.Cache.{LruCache, LruView}
use ppcsimbooke.Tlb.Mas.{MasRegs, tlbwe}
use ppcsimbooke.Tlb.Invalidate.{tlbive}
use ppcsimbooke.Tlb.Translate.{Request, xlate, is_match, is_permitted, request_perm}

-- An entry that backs a translation under a key: it is valid, has the real address and the attributes, and the key
-- has its page address, PID and address space, and asks for an access that it permits.
abbrev pub Backs : ℕ → ℕ → ℕ → TlbEntry → Type 0
Backs k ra w e =
    (truthy e.valid ≡ true)
    × (e.ra ≡ ra)
    × (e.wimge ≡ w)
    × (k % 2 ^ 32 ≡ e.ea % 2 ^ 32)
    × (k / 2 ^ 32 % 2 ^ 8 ≡ e.tid)
    × (k / 2 ^ 40 % 2 ^ 1 ≡ e.ts)
    × ((pr : ℕ) × (k / 2 ^ 44 % 2 ^ 1 ≡ pr % 2 ^ 1)
        × (is_permitted (u16 ((k / 2 ^ 41 % 2 ^ 3) <<< (pr * 3))) e ≡ true))

-- The entry that a scan finds is in the arrays, matches, and permits the access.
abbrev IsFound : Request → TlbEntry → Type 0
IsFound q e = (is_match q.ea q.space q.pid e ≡ true) × (is_permitted (request_perm q) e ≡ true)

-- What is under a key of the cache, if anything, is backed by an entry of the arrays.
abbrev pub Covered : List (List TlbEntry) → ℕ → Option (ℕ × ℕ) → Type 0
Covered sets k none = Unit
Covered sets k (some (ra, w)) = Any (Any (Backs k ra w)) sets

abbrev pub IsBacked : {C : Type 0} → LruView C → Tlb C → Type 0
IsBacked v t = (k : ℕ) → Covered (t.tlb4k ++ t.tlb_cam ∷ []) k (v.view t.cache k)

abbrev EachBacked : {C : Type 0} → LruView C → Tlb C → Type 0
EachBacked v t =
    (k ra w : ℕ)
    → v.view t.cache k ≡ some (ra, w)
    → Any (Any (Backs k ra w)) (t.tlb4k ++ t.tlb_cam ∷ [])

-- The operations on a TLB, as steps.
pub data Step {C : Type 0} (l : LruCache C) (t : Tlb C) : Tlb C → Type 0 where
  wrote : (m : MasRegs) (hid0 : ℕ) {u : Tlb C} → tlbwe l t m hid0 ≡ ok u → Step l t u
  invalidated : (ea : ℕ) → Step l t (tlbive l t ea)
  translated : (beyond : List ℕ) (q : Request) → Step l t (xlate l beyond t q).0

pub data Steps {C : Type 0} (l : LruCache C) (t : Tlb C) : Tlb C → Type 0 where
  no_step : Steps l t t
  step_after : {u w : Tlb C} → Steps l t u → Step l u w → Steps l t w
