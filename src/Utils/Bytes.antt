-- ===== src/Utils/Bytes.antt =====
-- Theorems about `write_buff` and `read_buff`.
use mathlib.Core.List.{reverse-reverse}
use native.Mathlib.Nat.{pow-suc}
use ppcsimbooke.Base.{ℕ, zero, suc, ◌/◌, ◌^◌, ◌<◌, ◌≡◌, arith}
use ppcsimbooke.Utils.{
  Endianness, emul_big_endian, emul_little_endian, to_host_bytes, of_host_bytes, write_buff,
  read_buff,
}

of-to_host_bytes : (n v : ℕ) → v < 256 ^ n → of_host_bytes (to_host_bytes n v) ≡ v
unfolding of_host_bytes to_host_bytes
of-to_host_bytes zero v h = omega arith
of-to_host_bytes (suc n) v h =
    omega (arith, of-to_host_bytes n (v / 256) (omega (arith, pow-suc 256 n)))

-- What is written is read back, in either byte order, whatever the size of the access.
pub read_buff-write_buff :
    (n v : ℕ) (e : Endianness) → v < 256 ^ n → read_buff (write_buff n v e) e ≡ v
unfolding read_buff write_buff
read_buff-write_buff n v emul_big_endian h = rw reverse-reverse (of-to_host_bytes n v h)
read_buff-write_buff n v emul_little_endian h = of-to_host_bytes n v h
