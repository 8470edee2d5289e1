-- ===== src/Tlb/Translate/Scan.antt =====
-- The scan of the arrays decides by the first entry that matches, whatever set it is in.
use ppcsimbooke.Base.{
  ℕ, ◌||◌, ◌==◌, every, every_lem, ◌≤◌, ◌<◌, ◌≡◌, refl, Bool, true, false, Option, none, some, List,
  [], ◌∷◌, ◌++◌, arith, bit_and, truthy, if◌then◌else◌,
}
use ppcsimbooke.Base.Error.{Outcome, ok, throw, sim_except_ppc}
use ppcsimbooke.Tlb.{TlbEntry, Tlb}
use ppcsimbooke.Tlb.Translate.{
  Request, is_match, is_permitted, denied, request_perm, scan_ways, scan_sets, scan_tlb,
}

-- All entries, in the order of the scan.
abbrev pub flatten : List (List TlbEntry) → List TlbEntry
flatten [] = []
flatten (ws ∷ sets) = ws ++ flatten sets

-- The first entry that passes a test.
abbrev pub first : (TlbEntry → Bool) → List TlbEntry → Option TlbEntry
first p [] = none
first p (e ∷ es) = elim (p e) [ true ↦ some e | false ↦ first p es ]

-- The verdict on the first match: execution is denied before writing, and writing before reading.
abbrev pub verdict : Request → Option TlbEntry → Outcome (Option TlbEntry)
verdict q none = ok none
verdict q (some e) =
    if is_permitted (request_perm q) e
    then ok (some e)
    else throw (
        if truthy (bit_and q.rwx 1)
        then sim_except_ppc 4 1 q.ea
        else if truthy (bit_and q.rwx 2)
        then sim_except_ppc 3 2 q.ea
        else sim_except_ppc 3 1 q.ea)

abbrev pub matches : Request → TlbEntry → Bool
matches q = is_match q.ea q.space q.pid

some_bit :
    every 8 (λ n. n == 0 || truthy (bit_and n 1) || truthy (bit_and n 2) || truthy (bit_and n 4))
    ≡ true
unfolding every
some_bit = refl

-- Some bit of rwx is set, so a match that is not permitted throws.
denied_lem :
    (rwx ea : ℕ)
    → 1 ≤ rwx
    → rwx < 8
    → denied rwx ea
      ≡ some (
          if truthy (bit_and rwx 1)
          then sim_except_ppc 4 1 ea
          else if truthy (bit_and rwx 2)
          then sim_except_ppc 3 2 ea
          else sim_except_ppc 3 1 ea)
unfolding denied
denied_lem rwx ea low high = ground (arith, every_lem 8 _ rwx high some_bit)

scan_ways-first :
    (q : Request) (es : List TlbEntry)
    → 1 ≤ q.rwx
    → q.rwx < 8
    → scan_ways q es ≡ verdict q (first (matches q) es)
unfolding scan_ways
scan_ways-first q [] low high = refl
scan_ways-first q (e ∷ es) low high =
    ground (arith, denied_lem q.rwx q.ea low high, scan_ways-first q es low high)

pub first-++ :
    (p : TlbEntry → Bool) (xs ys : List TlbEntry)
    → first p (xs ++ ys) ≡ elim (first p xs) [ none ↦ first p ys | some e ↦ some e ]
first-++ p [] ys = refl
first-++ p (x ∷ xs) ys = ground (arith, first-++ p xs ys)

scan_sets-first :
    (q : Request) (sets : List (List TlbEntry))
    → 1 ≤ q.rwx
    → q.rwx < 8
    → scan_sets q sets ≡ verdict q (first (matches q) (flatten sets))
unfolding scan_sets
scan_sets-first q [] low high = refl
scan_sets-first q (ws ∷ sets) low high = ground (
  arith,
  scan_ways-first q ws low high,
  scan_sets-first q sets low high,
  first-++ (matches q) ws (flatten sets),
)

-- Where rwx asks for something, the scan gives what the first match of tlb4K and then tlbCam says: none is a miss, a
-- match with all the permissions is the answer, and a match without them throws, even
-- where a later entry matches and permits.
pub scan_tlb-first :
    {C : Type 0} (q : Request) (t : Tlb C)
    → 1 ≤ q.rwx
    → q.rwx < 8
    → scan_tlb q t ≡ verdict q (first (matches q) (flatten (t.tlb4k ++ t.tlb_cam ∷ [])))
unfolding scan_tlb
scan_tlb-first q t low high = scan_sets-first q (t.tlb4k ++ t.tlb_cam ∷ []) low high
