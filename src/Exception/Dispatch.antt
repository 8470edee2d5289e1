-- ===== src/Exception/Dispatch.antt =====
-- `ppc_exception` itself: the switch over the exception numbers.
pub mod Outcomes
use ppcsimbooke.Base.{
  ℕ, ◌+◌, ◌-◌, ◌^◌, ◌≡◌, refl, bit_and, Bool, true, false, ◌==◌, if◌then◌else◌, ◌⊎◌, inl, inr,
  arith,
}
use ppcsimbooke.Exception.{
  ExcRegs, kept_bits, clr_default_msr_bits, clr_msr, jump, save, save_critical, save_machine_check,
  pc_from_ivor_num, msr_ce, msr_ee, msr_me, msr_de,
}
use ppcsimbooke.Exception.Storage.{
  critical, data_storage, instruction_storage, external_input, alignment, program, system_call,
  decrementer, fixed_interval, watchdog, data_tlb, instruction_tlb, set_tsr, timer_enabled,
}
use ppcsimbooke.Exception.Debug.{
  Delivery, returned, checkstop, machine_check, debug, spe, fp_data, fp_round, raised,
}

-- The numbers of sim/src/ppc_exception.h under CONFIG_BOOKE.
pub data ExceptionNr : Type 0 where
  cr : ExceptionNr
  mc : ExceptionNr
  dsi : ExceptionNr
  isi : ExceptionNr
  ei : ExceptionNr
  align : ExceptionNr
  prg : ExceptionNr
  fpu : ExceptionNr
  sc : ExceptionNr
  dec : ExceptionNr
  fit : ExceptionNr
  wtd : ExceptionNr
  dtlb : ExceptionNr
  itlb : ExceptionNr
  dbg : ExceptionNr
  spe_ua : ExceptionNr
  em_fp_d : ExceptionNr
  em_fp_r : ExceptionNr
  pmm : ExceptionNr
  db : ExceptionNr
  db_cr : ExceptionNr
  -- A number that the switch has no case for.
  unlisted : ℕ → ExceptionNr

unfoldable pub exception_nr : ExceptionNr → ℕ
exception_nr cr = 0x1
exception_nr mc = 0x2
exception_nr dsi = 0x3
exception_nr isi = 0x4
exception_nr ei = 0x5
exception_nr align = 0x6
exception_nr prg = 0x7
exception_nr fpu = 0x8
exception_nr sc = 0x9
exception_nr dec = 0xb
exception_nr fit = 0xc
exception_nr wtd = 0xd
exception_nr dtlb = 0xe
exception_nr itlb = 0xf
exception_nr dbg = 0x10
exception_nr spe_ua = 0x21
exception_nr em_fp_d = 0x22
exception_nr em_fp_r = 0x23
exception_nr pmm = 0x24
exception_nr db = 0x25
exception_nr db_cr = 0x26
exception_nr (unlisted n) = n

unfoldable pub ppc_exception : ExceptionNr → ℕ → ℕ → ExcRegs → Delivery
ppc_exception cr subtype ea r = returned (critical r)
ppc_exception mc subtype ea r = machine_check subtype ea r
ppc_exception dsi subtype ea r = returned (data_storage subtype ea r)
ppc_exception isi subtype ea r = returned (instruction_storage subtype r)
ppc_exception ei subtype ea r = returned (external_input r)
ppc_exception align subtype ea r = returned (alignment subtype ea r)
ppc_exception prg subtype ea r = returned (program subtype r)
ppc_exception fpu subtype ea r = returned r
ppc_exception sc subtype ea r = returned (system_call r)
ppc_exception dec subtype ea r = returned (decrementer r)
ppc_exception fit subtype ea r = returned (fixed_interval r)
ppc_exception wtd subtype ea r = returned (watchdog r)
ppc_exception dtlb subtype ea r = returned (data_tlb subtype ea r)
ppc_exception itlb subtype ea r = returned (instruction_tlb r)
ppc_exception dbg subtype ea r = returned (debug subtype r)
ppc_exception spe_ua subtype ea r = returned (spe 32 r)
ppc_exception em_fp_d subtype ea r = returned (fp_data r)
ppc_exception em_fp_r subtype ea r = returned (fp_round r)
ppc_exception pmm subtype ea r = returned r
ppc_exception db subtype ea r = returned r
ppc_exception db_cr subtype ea r = returned r
ppc_exception (unlisted n) subtype ea r = returned r
