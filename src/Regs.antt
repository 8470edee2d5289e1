-- ===== src/Regs.antt =====
-- The condition register and XER of `ppc_regs`, sim/src/globals.cpp. Both are uint64_t.
pub mod Fields
pub mod Flags
pub mod Bits
pub mod Spefscr
use ppcsimbooke.Base.{
  ℕ, ◌+◌, ◌-◌, ◌*◌, ◌/◌, ◌%◌, ◌^◌, bit_and, bit_or, Bool, true, false, ltb, leb, ◌==◌,
  if◌then◌else◌, truthy, to_num, u8, u32, u64, not32, not64, ◌<<<◌, ◌>>>◌,
}

pub record CondRegs : Type 0 where
  pub cm : Bool
  pub cr : ℕ
  pub xer : ℕ

-- `x86_flags`, where the functions below read it.
pub record X86Flags : Type 0 where
  pub sf : Bool
  pub zf : Bool
  pub of : Bool
  pub cf : Bool

-- `~w` of an int that is then used with a uint64_t: the sign is extended. And w itself so used.
unfoldable pub not_int : ℕ → ℕ
not_int w = if ltb w (2 ^ 31) then not64 w else not32 w

unfoldable pub widen_int : ℕ → ℕ
widen_int w = if ltb w (2 ^ 31) then w else w + 0xffff_ffff_0000_0000

-- The comparison of a value of w bits, as a signed number, with 0: 8, 4 or 2.
unfoldable pub sign_code : ℕ → ℕ → ℕ
sign_code w v = if leb (2 ^ (w - 1)) v then 8 else if truthy v then 4 else 2

-- `c |= (xer >> 31) & 1`, and the field 0 of CR replaced. The mask is an unsigned int.
unfoldable pub put_cr0 : ℕ → CondRegs → CondRegs
put_cr0 c g = record g {
  cr =
      bit_or (bit_and g.cr (not32 (0xf <<< 28)))
        (u32 (bit_or c (bit_and (g.xer >>> 31) 0x1) <<< 28));
}

unfoldable pub update_cr0 : ℕ → CondRegs → CondRegs
update_cr0 value g = put_cr0 (if g.cm then sign_code 64 value else sign_code 32 (u32 value)) g

unfoldable pub update_cr0_host : X86Flags → CondRegs → CondRegs
update_cr0_host hf g =
    let c = if hf.sf then 8 else bit_or 0 4 in put_cr0 (if hf.zf then bit_or c 2 else c) g

-- A field of 4 bits of CR or XER, field 0 the highest.
unfoldable pub update_field : ℕ → ℕ → ℕ → ℕ
unfolding not_int
update_field bf val reg =
    let shift = (7 - bit_and bf 0x7) * 4 in
    bit_or (bit_and reg (not_int (0xf <<< shift))) (u32 (bit_and (bit_and val 0xf) 0xf <<< shift))

unfoldable pub get_field : ℕ → ℕ → ℕ
get_field bf reg = bit_and (reg >>> ((7 - bf) * 4)) 0xf

unfoldable pub update_crf_field : ℕ → ℕ → CondRegs → CondRegs
update_crf_field bf val g = record g { cr = update_field bf val g.cr }

unfoldable pub get_crf_field : ℕ → CondRegs → ℕ
get_crf_field bf g = get_field bf g.cr

unfoldable pub update_xerf_field : ℕ → ℕ → CondRegs → CondRegs
update_xerf_field bf val g = record g { xer = update_field bf val g.xer }

unfoldable pub get_xerf_field : ℕ → CondRegs → ℕ
get_xerf_field bf g = get_field bf g.xer

-- One bit, bit 0 the highest of 32.
unfoldable pub update_bit : ℕ → Bool → ℕ → ℕ
unfolding not_int widen_int
update_bit field value reg =
    let shift = 31 - bit_and field 0x1f in
    bit_or (bit_and reg (not_int (1 <<< shift))) (widen_int (to_num value <<< shift))

unfoldable pub get_bit : ℕ → ℕ → Bool
get_bit field reg = truthy (bit_and (reg >>> (31 - field)) 0x1)

unfoldable pub update_crf : ℕ → Bool → CondRegs → CondRegs
update_crf field value g = record g { cr = update_bit field value g.cr }

unfoldable pub get_crf : ℕ → CondRegs → Bool
get_crf field g = get_bit field g.cr

unfoldable pub update_xerf : ℕ → Bool → CondRegs → CondRegs
update_xerf field value g = record g { xer = update_bit field value g.xer }

unfoldable pub get_xerf : ℕ → CondRegs → Bool
get_xerf field g = get_bit field g.xer

abbrev pub xer_ca : ℕ
xer_ca = 0x2000_0000

abbrev pub xer_ov : ℕ
xer_ov = 0x4000_0000

abbrev pub xer_so : ℕ
xer_so = 0x8000_0000

-- SO and OV replaced; `so_ov` is a uint8_t.
unfoldable pub update_xer_so_ov : ℕ → CondRegs → CondRegs
update_xer_so_ov so_ov g = record g {
  xer = bit_or (bit_and g.xer (not32 (0x3 <<< 30))) (u8 so_ov <<< 30);
}

unfoldable pub update_xer_so_ov_host : X86Flags → CondRegs → CondRegs
update_xer_so_ov_host hf g = record g {
  xer = bit_or (bit_and g.xer (not32 (0x3 <<< 30))) ((if hf.of then 0x3 else 0) <<< 30);
}

-- The mask is XER_CA as written, not its complement.
unfoldable pub update_xer_ca : Bool → CondRegs → CondRegs
update_xer_ca value g = record g { xer = bit_or (bit_and g.xer xer_ca) (to_num value <<< 29) }

unfoldable pub update_xer_ca_host : X86Flags → CondRegs → CondRegs
update_xer_ca_host hf g = record g { xer = bit_or (bit_and g.xer xer_ca) (to_num hf.cf <<< 29) }

unfoldable pub get_xer_so : CondRegs → Bool
get_xer_so g = truthy (bit_and g.xer xer_so)

unfoldable pub get_xer_ca : CondRegs → Bool
get_xer_ca g = truthy (bit_and g.xer xer_ca)

unfoldable pub get_xer_ov : CondRegs → Bool
get_xer_ov g = truthy (bit_and g.xer xer_ov)
