-- ===== src/Exception.antt =====
-- `cpu::ppc_exception` of sim/src/cpu_ppc.cpp, built with CONFIG_BOOKE and CONFIG_E500: the registers that it reads and
-- writes, and the steps that its cases share. The bits are those of
-- sim/src/third_party/ppc and sim/src/regfields.h, the numbers those of sim/src/ppc_exception.h.
pub mod Storage
pub mod Debug
pub mod Dispatch
pub mod Return
pub mod Msr
use ppcsimbooke.Base.{
  ℕ, ◌+◌, ◌-◌, ◌*◌, ◌^◌, ◌%◌, bit_and, bit_or, Bool, true, false, ◌==◌, if◌then◌else◌, u64, not64,
  ◌<<<◌,
}

pub record ExcRegs : Type 0 where
  pub pc : ℕ
  pub nip : ℕ
  pub msr : ℕ
  pub srr0 : ℕ
  pub srr1 : ℕ
  pub csrr0 : ℕ
  pub csrr1 : ℕ
  pub mcsrr0 : ℕ
  pub mcsrr1 : ℕ
  pub dear : ℕ
  pub esr : ℕ
  pub mcar : ℕ
  pub mcsr : ℕ
  pub tsr : ℕ
  pub tcr : ℕ
  pub dbsr : ℕ
  pub dbcr0 : ℕ
  pub spefscr : ℕ
  pub ivpr : ℕ
  pub ivor : ℕ → ℕ

-- Bits of MSR.
abbrev pub msr_spe : ℕ
msr_spe = 0x200_0000

abbrev pub msr_we : ℕ
msr_we = 0x4_0000

abbrev pub msr_ce : ℕ
msr_ce = 0x2_0000

abbrev pub msr_ee : ℕ
msr_ee = 0x8000

abbrev pub msr_pr : ℕ
msr_pr = 0x4000

abbrev pub msr_fp : ℕ
msr_fp = 0x2000

abbrev pub msr_me : ℕ
msr_me = 0x1000

abbrev pub msr_fe0 : ℕ
msr_fe0 = 0x800

abbrev pub msr_de : ℕ
msr_de = 0x200

abbrev pub msr_fe1 : ℕ
msr_fe1 = 0x100

abbrev pub msr_is : ℕ
msr_is = 0x20

abbrev pub msr_ds : ℕ
msr_ds = 0x10

-- Bits of ESR.
abbrev pub esr_pil : ℕ
esr_pil = 0x800_0000

abbrev pub esr_ppr : ℕ
esr_ppr = 0x400_0000

abbrev pub esr_ptr : ℕ
esr_ptr = 0x200_0000

abbrev pub esr_st : ℕ
esr_st = 0x80_0000

abbrev pub esr_dlk : ℕ
esr_dlk = 0x20_0000

abbrev pub esr_bo : ℕ
esr_bo = 0x2_0000

abbrev pub esr_spv : ℕ
esr_spv = 0x80

-- `if((subtype & cause) == cause) reg |= bits;`
unfoldable pub flag : ℕ → ℕ → ℕ → ℕ → ℕ
flag subtype cause bits reg = if bit_and subtype cause == cause then bit_or reg bits else reg

-- CLR_DEFAULT_MSR_BITS: the mask of what is kept, and the register after it.
unfoldable pub kept_bits : ℕ
kept_bits =
    bit_and
      (bit_and
        (bit_and
          (bit_and
            (bit_and
              (bit_and (bit_and (bit_and (not64 msr_spe) (not64 msr_we)) (not64 msr_ee))
                (not64 msr_pr))
              (not64 msr_fp))
            (not64 msr_fe0))
          (not64 msr_fe1))
        (not64 msr_is))
      (not64 msr_ds)

unfoldable pub clr_default_msr_bits : ExcRegs → ExcRegs
clr_default_msr_bits r = record r { msr = bit_and r.msr kept_bits }

unfoldable pub clr_msr : ℕ → ExcRegs → ExcRegs
clr_msr bits r = record r { msr = bit_and r.msr (not64 bits) }

-- GET_PC_FROM_IVOR_NUM, and the jump there.
unfoldable pub pc_from_ivor_num : ExcRegs → ℕ → ℕ
pc_from_ivor_num r n = bit_or (bit_and r.ivpr 0xffff <<< 16) (bit_and (r.ivor n) 0xfff <<< 4)

unfoldable pub jump : ℕ → ExcRegs → ExcRegs
jump n r = record r { pc = pc_from_ivor_num r n }

-- PC and MSR saved in the pair of registers of each class.
unfoldable pub save : ExcRegs → ExcRegs
save r = record r { srr0 = r.pc; srr1 = r.msr }

unfoldable pub save_critical : ExcRegs → ExcRegs
save_critical r = record r { csrr0 = r.pc; csrr1 = r.msr }

unfoldable pub save_machine_check : ExcRegs → ExcRegs
save_machine_check r = record r { mcsrr0 = r.pc; mcsrr1 = r.msr }
