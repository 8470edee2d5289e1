-- ===== src/Tests/Instr.antt =====
-- Instructions at concrete inputs, on a host and shifts that do what their laws say.
use ppcsimbooke.Base.{
  ℕ, ◌+◌, ◌-◌, ◌*◌, ◌/◌, ◌%◌, ◌^◌, ◌≡◌, refl, true, false, if◌then◌else◌, ◌==◌, not, u32, bit_and,
  bit_or, bit_xor, leb, arith,
}
use ppcsimbooke.Regs.{get_xer_ca, get_xer_ov, widen_int}
use ppcsimbooke.Regs.Flags.{host_flags}
use ppcsimbooke.Core.{Core}
use ppcsimbooke.Core.Host.{Host, IsX86, overflow, signed_product}
use ppcsimbooke.Core.Writes.{IsWrite}
use ppcsimbooke.Core.Add.{addi, adde, addc, addo, simm}
use ppcsimbooke.Core.Add.Sum.{additions}
use ppcsimbooke.Core.Add.Carry.{wide_sum, sum_flags}
use ppcsimbooke.Core.Subf.{subfic}
use ppcsimbooke.Core.Subf.Difference.{minus, subtractions}

abbrev pub x86_host : Host
x86_host = record {
  add = λ x y. (u32 (x + y), host_flags (u32 (x + y)) (overflow x y) (leb (2 ^ 32) (x + y)));
  and = λ x y. (bit_and x y, host_flags (bit_and x y) false false);
  or = λ x y. (bit_or x y, host_flags (bit_or x y) false false);
  xor = λ x y. (bit_xor x y, host_flags (bit_xor x y) false false);
  neg = λ x. (u32 (2 ^ 32 - x), host_flags (u32 (2 ^ 32 - x)) (x == 2 ^ 31) (not (x == 0)));
  mul = λ x y. (u32 (x * y), x * y / 2 ^ 32, host_flags 0 false false);
  imul = λ x y. (
    u32 (signed_product x y),
    signed_product x y / 2 ^ 32,
    host_flags 0 (not (widen_int (u32 (signed_product x y)) == signed_product x y)) false,
  );
}

pub x86_host-IsX86 : IsX86 x86_host
x86_host-IsX86 = record {
  add_law = λ x y p q. refl;
  and_law = λ x y p q. refl;
  or_law = λ x y p q. refl;
  xor_law = λ x y p q. refl;
  neg_law = λ x p. refl;
  mul_law = λ x y p q. (refl, refl);
  imul_law = λ x y p q. (refl, refl, refl);
}

abbrev four_regs : ℕ → ℕ
four_regs r =
    if r == 1
    then 0xffff_ffff_8000_0000
    else if r == 2
    then 7
    else if r == 3
    then 0xffff_fff0
    else if r == 4
    then 0x1_0000_0011
    else 0

abbrev pub start : Core
start = record {
  gpr = four_regs;
  cond = record { cm = false; cr = 0x1234_5678; xer = 0 };
  msr = 0x8000;
  hf = host_flags 0 false false;
  pc = 0x1000;
  nip = 0x1000;
  lr = 0x2000;
  ctr = 3;
}

additions_example :
    IsWrite 5 (widen_int (u32 (7 + simm 0xfffe))) 5 start (addi x86_host 5 2 0xfffe start)
additions_example = (additions x86_host x86_host-IsX86 5 2 5 start 3 0xfffe).4

wide_sum_example :
    u32 ((adde x86_host 6 2 4 (addc x86_host 5 1 3 start)).gpr 6) * 2 ^ 32
      + u32 ((adde x86_host 6 2 4 (addc x86_host 5 1 3 start)).gpr 5)
    ≡ (7 * 2 ^ 32 + 0x8000_0000 + (0x11 * 2 ^ 32 + 0xffff_fff0)) % 2 ^ 64
unfolding get_xer_ca
wide_sum_example =
    wide_sum x86_host x86_host-IsX86 6 5 2 1 4 3 start refl (λ e. omega (arith, e))
      (λ e. omega (arith, e)) (λ e. omega (arith, e))

sum_flags_example : get_xer_ov (addo x86_host 5 1 1 start).cond ≡ true
sum_flags_example = (sum_flags x86_host x86_host-IsX86 5 1 1 start).0

subtractions_example :
    IsWrite 5 (widen_int (minus (simm 0xfffe) 7)) 5 start (subfic x86_host 5 2 0xfffe start)
subtractions_example = (subtractions x86_host x86_host-IsX86 5 2 5 start (omega arith) 3 0xfffe).1
