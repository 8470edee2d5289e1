-- ===== src/Utils.antt =====
-- The bit-field helpers of sim/src/utils.h over uint64_t, and the buffer accesses of both
-- byte orders. A word is the number that it holds; `x >> k` is `x >>> k` and a shift to the left
-- is cut to the width.
pub mod Fields
pub mod Masks
pub mod Bytes
use mathlib.Core.Option
use mathlib.Core.List.{reverse}
use ppcsimbooke.Base.{
  ℕ, zero, suc, ◌+◌, ◌-◌, ◌*◌, ◌/◌, ◌%◌, ◌^◌, ◌<◌, bit_and, bit_or, bit_xor, Bool, true, false,
  Option, none, some, List, [], ◌∷◌, ◌++◌, if◌then◌else◌, ltb, ◌==◌, truthy, u64, u32, u16, u8,
  not64, ◌<<<◌, ◌>>>◌, get_elem?,
}

-- `pow4(x)`, the shift of an int: its operand in the program is a 4-bit size.
unfoldable pub pow4 : ℕ → ℕ
pow4 x = 1 <<< x <<< x

-- The loop of `rshift`, which ends only at a set bit: `none` means that the fuel ran out first.
unfoldable pub rshift_loop : ℕ → ℕ → ℕ → Option ℕ
rshift_loop zero res x = none
rshift_loop (suc fuel) res x =
    let rest = rshift_loop fuel (res + 1) (x >>> 1) in if truthy (x % 2) then some res else rest

-- A mask of 64 bits that is not 0 needs 64 rounds at most.
unfoldable pub rshift : ℕ → ℕ
unfolding rshift_loop
rshift x = Option.get_or (rshift_loop 64 0 x) 0

-- `ins_bf<uint64_t>`, the macro IBF. It sets bits and clears none.
unfoldable pub ins_bf : ℕ → ℕ → ℕ → ℕ
unfolding rshift
ins_bf src val mask = bit_or src (bit_and (u64 (val <<< rshift mask)) mask)

-- `extr_bf<uint64_t>`, the macro EBF.
unfoldable pub extr_bf : ℕ → ℕ → ℕ
unfolding rshift
extr_bf src mask = bit_and src mask >>> rshift mask

-- `ppc_reg64::set_bf` of sim/src/globals.h, which clears the field first.
unfoldable pub set_bf : ℕ → ℕ → ℕ → ℕ
unfolding rshift
set_bf value bf mask = bit_or (bit_and value (not64 mask)) (bit_and (u64 (bf <<< rshift mask)) mask)

-- `gen_bmask<uint64_t>`: ones from position bp (the highest is 0) to the end.
unfoldable pub gen_bmask : ℕ → ℕ
gen_bmask bp = if truthy bp then u64 (1 <<< (64 - bp)) - 1 else 0xffff_ffff_ffff_ffff

-- `gen_bmask_rng<uint64_t>`, the macro MASK.
unfoldable pub gen_bmask_rng : ℕ → ℕ → ℕ
unfolding gen_bmask
gen_bmask_rng x y =
    if ltb x y
    then bit_xor (gen_bmask x) (gen_bmask (y + 1))
    else not64 (bit_xor (gen_bmask (x + 1)) (gen_bmask y))

-- `rnd_pgsz_p`, `rnd_pgsz_n` and `rnd_pgsz_n_plus_1`: rounding to 4K pages. MIN_PGSZ - 1 is an int, and
-- its complement is widened with its sign.
unfoldable pub rnd_pgsz_p : ℕ → ℕ
rnd_pgsz_p x = bit_and x (not64 (0x1000 - 1))

unfoldable pub rnd_pgsz_n : ℕ → ℕ
unfolding rnd_pgsz_p
rnd_pgsz_n x = if rnd_pgsz_p x == x then x else u64 (rnd_pgsz_p x + 0x1000)

unfoldable pub rnd_pgsz_n_plus_1 : ℕ → ℕ
unfolding rnd_pgsz_p
rnd_pgsz_n_plus_1 x = u64 ((if rnd_pgsz_p x == x then x else rnd_pgsz_p x) + 0x1000)

-- The byte order of an access: EMUL_BIG_ENDIAN is 0 and EMUL_LITTLE_ENDIAN is 1.
pub data Endianness : Type 0 where
  emul_big_endian emul_little_endian : Endianness

abbrev pub to_endianness : ℕ → Endianness
to_endianness zero = emul_big_endian
to_endianness (suc n) = emul_little_endian

-- The n bytes of a word in the memory of the host, which is little endian, lowest address first.
unfoldable pub to_host_bytes : ℕ → ℕ → List ℕ
to_host_bytes zero v = []
to_host_bytes (suc n) v = v % 256 ∷ to_host_bytes n (v / 256)

unfoldable pub of_host_bytes : List ℕ → ℕ
of_host_bytes [] = 0
of_host_bytes (b ∷ bs) = b + 256 * of_host_bytes bs

-- `write_buff<T>` for a T of n bytes: `bswap` turns the bytes of the value round.
unfoldable pub write_buff : ℕ → ℕ → Endianness → List ℕ
unfolding to_host_bytes
write_buff n value emul_big_endian = reverse (to_host_bytes n value)
write_buff n value emul_little_endian = to_host_bytes n value

-- `read_buff<T>` from the bytes of a T.
unfoldable pub read_buff : List ℕ → Endianness → ℕ
unfolding of_host_bytes
read_buff buff emul_big_endian = of_host_bytes (reverse buff)
read_buff buff emul_little_endian = of_host_bytes buff
