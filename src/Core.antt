-- ===== src/Core.antt =====
-- The state that the instructions of sim/src/cpu_ppc_instr.cc work on, and the macros that they
-- are written with. The target mode is 32 bits: UMODE is uint32_t and SMODE is int32_t. A
-- register has 64 bits; a signed word is the number with the same bits.
pub mod Host
pub mod Writes
pub mod Add
pub mod Subf
pub mod Logical
pub mod Compare
pub mod Branch
pub mod Rotate
pub mod Bus
pub mod Load
pub mod Store
pub mod Cache
pub mod System
pub mod Vector
pub mod Accumulator
pub mod Multiply
use ppcsimbooke.Base.{
  ℕ, ◌+◌, ◌-◌, ◌*◌, ◌^◌, ◌%◌, ◌/◌, Bool, true, false, ltb, ◌==◌, if◌then◌else◌, u8, u16, u32, u64,
  to_num, truthy, bit_and,
}
use ppcsimbooke.Regs.{
  CondRegs, X86Flags, update_cr0, update_cr0_host, update_xer_ca, update_xer_ca_host,
  update_xer_so_ov, update_xer_so_ov_host, get_xer_ca, get_xer_so,
}

-- The registers that these instructions read or write; an operand of four or five bits is a number.
pub record Core : Type 0 where
  pub gpr : ℕ → ℕ
  pub cond : CondRegs
  pub msr : ℕ
  pub hf : X86Flags
  pub pc : ℕ
  pub nip : ℕ
  pub lr : ℕ
  pub ctr : ℕ

-- MSR_CM, which is 1 in 64-bit mode.
abbrev pub cm_bit : Core → Bool
cm_bit s = truthy (bit_and s.msr 0x8000_0000)

unfoldable pub set_reg : ℕ → ℕ → Core → Core
set_reg d v s = record s { gpr = λ r. if r == d then v else s.gpr r }

-- RTL_BEGIN and RTL_END.
unfoldable pub rtl : (Core → Core) → Core → Core
rtl body s = let t = body (record s { nip = u64 (s.nip + 4) }) in record t { pc = t.nip }

-- The statements of a body, in order.
infixl 6 ◌▷◌
abbrev pub ◌▷◌ {ℓ} : {A : Type ℓ} → (A → A) → (A → A) → A → A
(f ▷ g) s = g (f s)

-- UPDATE_CA, UPDATE_SO_OV and UPDATE_CR0 read the flags of the host; the forms that end in _V take
-- a value.
unfoldable pub put_ca : Core → Core
put_ca s = record s { cond = update_xer_ca_host s.hf s.cond }

unfoldable pub put_so_ov : Core → Core
put_so_ov s = record s { cond = update_xer_so_ov_host s.hf s.cond }

unfoldable pub put_cr0_host : Core → Core
put_cr0_host s = record s { cond = update_cr0_host s.hf s.cond }

unfoldable pub put_ca_v : Bool → Core → Core
put_ca_v v s = record s { cond = update_xer_ca v s.cond }

unfoldable pub put_so_ov_v : ℕ → Core → Core
put_so_ov_v v s = record s { cond = update_xer_so_ov v s.cond }

unfoldable pub put_cr0_v : ℕ → Core → Core
put_cr0_v v s = record s { cond = update_cr0 v s.cond }

unfoldable pub ca : Core → ℕ
ca s = to_num (get_xer_ca s.cond)

unfoldable pub so : Core → ℕ
so s = to_num (get_xer_so s.cond)

-- `sign_exts` of utils.h from a signed type of ws bits to a type of wt bits.
unfoldable pub sign_exts : ℕ → ℕ → ℕ → ℕ
sign_exts wt ws x = let v = x % 2 ^ ws in if ltb v (2 ^ (ws - 1)) then v else v + (2 ^ wt - 2 ^ ws)
