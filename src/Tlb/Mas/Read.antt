-- ===== src/Tlb/Mas/Read.antt =====
-- `tlbre` shows what `tlbwe` wrote.
use native.Mathlib.Nat.{mod-lt}
use ppcsimbooke.Base.{
  ℕ, ◌+◌, ◌*◌, ◌/◌, ◌%◌, ◌^◌, ◌≤◌, ◌<◌, ◌≡◌, refl, ◌∙◌, inl, bit_or, Bool, true, false, arith, leb,
  ◌==◌, ◌&&◌, ◌||◌, ==_iff, every, every_lem, if◌then◌else◌, truthy, u64, field_mask, bit_ext,
  bit-bit_or, bit-mod, bit-div, bit-mul, bit_le_one, bit_of_lt, two_pow_pos, zero-bit,
}
use ppcsimbooke.Utils.{extr_bf, ins_bf}
use ppcsimbooke.Utils.Fields.{extr_bf-field, extr_bf-ins_bf}
use ppcsimbooke.Tlb.{TlbEntry, permis_to_ppcpermis, ppcpermis_to_permis}
use ppcsimbooke.Tlb.Mas.{
  MasRegs, written_entry, shown_entry, mas1_of, mas2_of, mas3_of, mas1_v, mas1_iprot, mas1_tid,
  mas1_ts, mas1_tsize, mas2_epn, mas2_x01, mas2_wimge, mas3_rpn, mas3_u03, mas3_permis, mas7_rpn,
  hid0_en_mas7_update,
}

-- Two fields of 64 bits that do not overlap.
abbrev are_apart : ℕ → ℕ → ℕ → ℕ → Bool
are_apart w s v t =
    leb 1 w && leb (s + w) 64 && leb 1 v && leb (t + v) 64 && (leb (s + w) t || leb (t + v) s)

-- An insertion into another field is not seen.
off :
    (w s v t src val : ℕ)
    → are_apart w s v t ≡ true
    → extr_bf (ins_bf src val (field_mask w s)) (field_mask v t) ≡ extr_bf src (field_mask v t)
off w s v t src val h =
    (extr_bf-ins_bf w s v t src val (ground (arith, h)) (ground (arith, h)) (ground (arith, h))
      (ground (arith, h)) (ground (arith, h))).1

or_zero : (a b : ℕ) → a ≡ 0 → bit_or a b ≡ b
or_zero a b e = rw e (bit_ext _ _ λ i. ground (arith, bit-bit_or 0 b i, zero-bit i, bit_le_one b i))

-- An insertion into a field that was clear is seen, cut to the field.
pub own :
    (w s src val : ℕ)
    → 0 < w
    → s + w ≤ 64
    → s + w ≤ 63
    → extr_bf src (field_mask w s) ≡ 0
    → extr_bf (ins_bf src val (field_mask w s)) (field_mask w s) ≡ val % 2 ^ w
own w s src val pos fits below clear =
    (extr_bf-ins_bf w s 1 63 src val pos fits (omega arith) (omega arith) (inl below)).0
    ∙ or_zero _ (val % 2 ^ w) clear

pub none_set : (w s src : ℕ) → 0 < w → s + w ≤ 64 → src ≡ 0 → extr_bf src (field_mask w s) ≡ 0
none_set w s src pos fits empty = rw empty (
    extr_bf-field w s pos fits 0
    ∙ bit_ext _ _
        λ i. ground (arith, bit-mod w (0 / 2 ^ s) i, bit-div s 0 i, zero-bit i, zero-bit (i + s)))

-- What an extraction gives fits into its field.
fits_own :
    (w s src : ℕ)
    → 0 < w
    → s + w ≤ 64
    → extr_bf src (field_mask w s) % 2 ^ w ≡ extr_bf src (field_mask w s)
fits_own w s src pos fits =
    rw (extr_bf-field w s pos fits src) (
      bit_ext _ _ λ i. ground (arith, bit-mod w (src / 2 ^ s % 2 ^ w) i, bit-mod w (src / 2 ^ s) i))

-- The registers that `tlbre` rebuilds from clear ones, field by field.
module _ (e : TlbEntry) (r : ℕ) (empty : r ≡ 0) where
  pub shown_mas1_v : extr_bf (mas1_of (ins_bf r e.valid mas1_v) e) mas1_v ≡ e.valid % 2 ^ 1
  unfolding mas1_of
  shown_mas1_v =
      off 4 8 1 31 _ e.tsize refl
      ∙ off 1 12 1 31 _ e.ts refl
      ∙ off 8 16 1 31 _ e.tid refl
      ∙ off 1 30 1 31 _ e.iprot refl
      ∙ own 1 31 _ e.valid (omega arith) (omega arith) (omega arith)
          (none_set 1 31 r (omega arith) (omega arith) empty)

  pub shown_mas1_iprot : extr_bf (mas1_of (ins_bf r e.valid mas1_v) e) mas1_iprot ≡ e.iprot % 2 ^ 1
  unfolding mas1_of
  shown_mas1_iprot =
      off 4 8 1 30 _ e.tsize refl
      ∙ off 1 12 1 30 _ e.ts refl
      ∙ off 8 16 1 30 _ e.tid refl
      ∙ own 1 30 _ e.iprot (omega arith) (omega arith) (omega arith)
          (off 1 31 1 30 _ e.valid refl ∙ none_set 1 30 r (omega arith) (omega arith) empty)

  pub shown_mas1_tid : extr_bf (mas1_of (ins_bf r e.valid mas1_v) e) mas1_tid ≡ e.tid % 2 ^ 8
  unfolding mas1_of
  shown_mas1_tid =
      off 4 8 8 16 _ e.tsize refl
      ∙ off 1 12 8 16 _ e.ts refl
      ∙ own 8 16 _ e.tid (omega arith) (omega arith) (omega arith) (
          off 1 30 8 16 _ e.iprot refl
          ∙ off 1 31 8 16 _ e.valid refl
          ∙ none_set 8 16 r (omega arith) (omega arith) empty)

  pub shown_mas1_ts : extr_bf (mas1_of (ins_bf r e.valid mas1_v) e) mas1_ts ≡ e.ts % 2 ^ 1
  unfolding mas1_of
  shown_mas1_ts =
      off 4 8 1 12 _ e.tsize refl
      ∙ own 1 12 _ e.ts (omega arith) (omega arith) (omega arith) (
          off 8 16 1 12 _ e.tid refl
          ∙ off 1 30 1 12 _ e.iprot refl
          ∙ off 1 31 1 12 _ e.valid refl
          ∙ none_set 1 12 r (omega arith) (omega arith) empty)

  pub shown_mas1_tsize : extr_bf (mas1_of (ins_bf r e.valid mas1_v) e) mas1_tsize ≡ e.tsize % 2 ^ 4
  unfolding mas1_of
  shown_mas1_tsize = own 4 8 _ e.tsize (omega arith) (omega arith) (omega arith) (
      off 1 12 4 8 _ e.ts refl
      ∙ off 8 16 4 8 _ e.tid refl
      ∙ off 1 30 4 8 _ e.iprot refl
      ∙ off 1 31 4 8 _ e.valid refl
      ∙ none_set 4 8 r (omega arith) (omega arith) empty)

  shown_mas2_epn : extr_bf (mas2_of r e) mas2_epn ≡ (e.ea / 2 ^ 12) % 2 ^ 20
  unfolding mas2_of
  shown_mas2_epn =
      off 5 0 20 12 _ e.wimge refl
      ∙ off 2 5 20 12 _ e.x01 refl
      ∙ own 20 12 _ (e.ea / 2 ^ 12) (omega arith) (omega arith) (omega arith)
          (none_set 20 12 r (omega arith) (omega arith) empty)

  shown_mas2_x01 : extr_bf (mas2_of r e) mas2_x01 ≡ e.x01 % 2 ^ 2
  unfolding mas2_of
  shown_mas2_x01 =
      off 5 0 2 5 _ e.wimge refl
      ∙ own 2 5 _ e.x01 (omega arith) (omega arith) (omega arith)
          (off 20 12 2 5 _ (e.ea / 2 ^ 12) refl ∙ none_set 2 5 r (omega arith) (omega arith) empty)

  shown_mas2_wimge : extr_bf (mas2_of r e) mas2_wimge ≡ e.wimge % 2 ^ 5
  unfolding mas2_of
  shown_mas2_wimge = own 5 0 _ e.wimge (omega arith) (omega arith) (omega arith) (
      off 2 5 5 0 _ e.x01 refl
      ∙ off 20 12 5 0 _ (e.ea / 2 ^ 12) refl
      ∙ none_set 5 0 r (omega arith) (omega arith) empty)

  shown_mas3_rpn : extr_bf (mas3_of r e) mas3_rpn ≡ (e.ra / 2 ^ 12) % 2 ^ 20
  unfolding mas3_of
  shown_mas3_rpn =
      off 6 0 20 12 _ (permis_to_ppcpermis e.permis) refl
      ∙ off 4 6 20 12 _ e.u03 refl
      ∙ own 20 12 _ (e.ra / 2 ^ 12) (omega arith) (omega arith) (omega arith)
          (none_set 20 12 r (omega arith) (omega arith) empty)

  shown_mas3_u03 : extr_bf (mas3_of r e) mas3_u03 ≡ e.u03 % 2 ^ 4
  unfolding mas3_of
  shown_mas3_u03 =
      off 6 0 4 6 _ (permis_to_ppcpermis e.permis) refl
      ∙ own 4 6 _ e.u03 (omega arith) (omega arith) (omega arith)
          (off 20 12 4 6 _ (e.ra / 2 ^ 12) refl ∙ none_set 4 6 r (omega arith) (omega arith) empty)

  shown_mas3_permis : extr_bf (mas3_of r e) mas3_permis ≡ (permis_to_ppcpermis e.permis) % 2 ^ 6
  unfolding mas3_of
  shown_mas3_permis =
      own 6 0 _ (permis_to_ppcpermis e.permis) (omega arith) (omega arith) (omega arith) (
        off 4 6 6 0 _ e.u03 refl
        ∙ off 20 12 6 0 _ (e.ra / 2 ^ 12) refl
        ∙ none_set 6 0 r (omega arith) (omega arith) empty)

permis_back : every 64 (λ p. permis_to_ppcpermis (ppcpermis_to_permis p) % 2 ^ 6 == p) ≡ true
unfolding every permis_to_ppcpermis ppcpermis_to_permis
permis_back = refl

-- The page numbers, for a field of 20 bits and the upper four of MAS7.
epn_back : (n : ℕ) → n < 2 ^ 20 → u64 (n * 2 ^ 12) / 2 ^ 12 % 2 ^ 20 ≡ n
epn_back n h = omega arith

rpn_back :
    (n up : ℕ) → n < 2 ^ 20 → bit_or (u64 (n * 2 ^ 12)) (u64 (up * 2 ^ 32)) / 2 ^ 12 % 2 ^ 20 ≡ n
rpn_back n up h = bit_ext _ _ λ i. ground (
  arith,
  bit-mod 20 (bit_or (u64 (n * 2 ^ 12)) (u64 (up * 2 ^ 32)) / 2 ^ 12) i,
  bit-div 12 (bit_or (u64 (n * 2 ^ 12)) (u64 (up * 2 ^ 32))) i,
  bit-bit_or (u64 (n * 2 ^ 12)) (u64 (up * 2 ^ 32)) (i + 12),
  bit-mod 64 (n * 2 ^ 12) (i + 12),
  bit-mod 64 (up * 2 ^ 32) (i + 12),
  bit-mul 12 n (i + 12),
  bit-mul 32 up (i + 12),
  bit_of_lt 20 n i h,
  bit_le_one n i,
)

extr-lt : (w s src : ℕ) → 0 < w → s + w ≤ 64 → extr_bf src (field_mask w s) < 2 ^ w
extr-lt w s src pos fits = rw (extr_bf-field w s pos fits src) (mod-lt _ (two_pow_pos w))

-- Each field of MAS1, MAS2 and MAS3 that `tlbwe` takes from its registers comes back when `tlbre` shows
-- the written entry in registers that were clear.
pub shown_entry-written_entry :
    (m n : MasRegs) (hid0 shift : ℕ)
    → n.mas1 ≡ 0
    → n.mas2 ≡ 0
    → n.mas3 ≡ 0
    → (extr_bf (shown_entry n hid0 (written_entry m hid0 shift)).mas1 mas1_v
        ≡ extr_bf m.mas1 mas1_v)
      × (extr_bf (shown_entry n hid0 (written_entry m hid0 shift)).mas1 mas1_iprot
          ≡ extr_bf m.mas1 mas1_iprot)
      × (extr_bf (shown_entry n hid0 (written_entry m hid0 shift)).mas1 mas1_tid
          ≡ extr_bf m.mas1 mas1_tid)
      × (extr_bf (shown_entry n hid0 (written_entry m hid0 shift)).mas1 mas1_ts
          ≡ extr_bf m.mas1 mas1_ts)
      × (extr_bf (shown_entry n hid0 (written_entry m hid0 shift)).mas1 mas1_tsize
          ≡ extr_bf m.mas1 mas1_tsize)
      × (extr_bf (shown_entry n hid0 (written_entry m hid0 shift)).mas2 mas2_epn
          ≡ extr_bf m.mas2 mas2_epn)
      × (extr_bf (shown_entry n hid0 (written_entry m hid0 shift)).mas2 mas2_x01
          ≡ extr_bf m.mas2 mas2_x01)
      × (extr_bf (shown_entry n hid0 (written_entry m hid0 shift)).mas2 mas2_wimge
          ≡ extr_bf m.mas2 mas2_wimge)
      × (extr_bf (shown_entry n hid0 (written_entry m hid0 shift)).mas3 mas3_rpn
          ≡ extr_bf m.mas3 mas3_rpn)
      × (extr_bf (shown_entry n hid0 (written_entry m hid0 shift)).mas3 mas3_u03
          ≡ extr_bf m.mas3 mas3_u03)
      × (extr_bf (shown_entry n hid0 (written_entry m hid0 shift)).mas3 mas3_permis
          ≡ extr_bf m.mas3 mas3_permis)
unfolding shown_entry written_entry
shown_entry-written_entry m n hid0 shift clear1 clear2 clear3 =
    let e = written_entry m hid0 shift in
    (
      shown_mas1_v e n.mas1 clear1 ∙ fits_own 1 31 m.mas1 (omega arith) (omega arith),
      shown_mas1_iprot e n.mas1 clear1 ∙ fits_own 1 30 m.mas1 (omega arith) (omega arith),
      shown_mas1_tid e n.mas1 clear1 ∙ fits_own 8 16 m.mas1 (omega arith) (omega arith),
      shown_mas1_ts e n.mas1 clear1 ∙ fits_own 1 12 m.mas1 (omega arith) (omega arith),
      shown_mas1_tsize e n.mas1 clear1 ∙ fits_own 4 8 m.mas1 (omega arith) (omega arith),
      shown_mas2_epn e n.mas2 clear2
          ∙ epn_back (extr_bf m.mas2 mas2_epn) (extr-lt 20 12 m.mas2 (omega arith) (omega arith)),
      shown_mas2_x01 e n.mas2 clear2 ∙ fits_own 2 5 m.mas2 (omega arith) (omega arith),
      shown_mas2_wimge e n.mas2 clear2 ∙ fits_own 5 0 m.mas2 (omega arith) (omega arith),
      shown_mas3_rpn e n.mas3 clear3 ∙ real_page (truthy (extr_bf hid0 hid0_en_mas7_update)),
      shown_mas3_u03 e n.mas3 clear3 ∙ fits_own 4 6 m.mas3 (omega arith) (omega arith),
      shown_mas3_permis e n.mas3 clear3
          ∙ (==_iff _ _).0 (
              every_lem 64 _ (extr_bf m.mas3 mas3_permis)
                (extr-lt 6 0 m.mas3 (omega arith) (omega arith)) permis_back),
    )
  where
    rpn : ℕ
    rpn = extr_bf m.mas3 mas3_rpn

    real_page :
        (b : Bool)
        → (if b
              then bit_or (u64 (rpn * 2 ^ 12)) (u64 (extr_bf m.mas7 mas7_rpn * 2 ^ 32))
              else u64 (rpn * 2 ^ 12))
            / 2 ^ 12
            % 2 ^ 20
          ≡ rpn
    real_page true =
        rpn_back rpn (extr_bf m.mas7 mas7_rpn) (extr-lt 20 12 m.mas3 (omega arith) (omega arith))
    real_page false = epn_back rpn (extr-lt 20 12 m.mas3 (omega arith) (omega arith))
