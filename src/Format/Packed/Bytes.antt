-- ===== src/Format/Packed/Bytes.antt =====
-- How many bytes `PackedUint` of crates/common/src/format/packed_int.rs writes.
use native.Mathlib.Nat.{pow-suc, pow-le-pow_right, le_trans}
use native.Mathlib.Numerals.{towards_suc}
use snarkops.Common.{ℕ, zero, suc, ◌+◌, ◌-◌, ◌*◌, ◌/◌, ◌^◌, ◌≤◌, ◌<◌, ◌≡◌, refl, arith}
use snarkops.Format.Packed.{bit_length, leading_zeros, num_bytes}

two_pow_eight : (x : ℕ) → 2 ^ (x + 8) ≡ 256 * 2 ^ x
two_pow_eight x = simp towards_suc (omega arith)

-- Eight binary digits to a byte.
pub pow_256 : (k : ℕ) → 256 ^ k ≡ 2 ^ (8 * k)
pow_256 zero = refl
pow_256 (suc k) =
    let e : 8 * suc k ≡ 8 * k + 8 = omega arith in
    rw e (omega (arith, pow-suc 256 k, two_pow_eight (8 * k), pow_256 k))

pub bit_length-le : (fuel v : ℕ) → bit_length fuel v ≤ fuel
unfolding bit_length
bit_length-le zero v = omega arith
bit_length-le (suc fuel) v = ground (arith, bit_length-le fuel (v / 2))

lt-pow-bit_length : (fuel v : ℕ) → v < 2 ^ fuel → v < 2 ^ bit_length fuel v
unfolding bit_length
lt-pow-bit_length zero v h = h
lt-pow-bit_length (suc fuel) v h =
    ground
      (arith, pow-suc 2 fuel, pow-suc 2 (bit_length fuel (v / 2)), lt-pow-bit_length fuel (v / 2))

pow-bit_length-le : (fuel v : ℕ) → 0 < v → 2 ^ bit_length fuel v ≤ 2 * v
unfolding bit_length
pow-bit_length-le zero v h = omega arith
pow-bit_length-le (suc fuel) v h =
    ground
      (arith, pow-suc 2 (bit_length fuel (v / 2)), pow-bit_length-le fuel (v / 2), zero_below fuel)
  where
    zero_below : (f : ℕ) → bit_length f 0 ≡ 0
    zero_below zero = refl
    zero_below (suc f) = refl

-- The bytes written hold the whole number.
pub num_bytes_enough : (v : ℕ) → v < 2 ^ 64 → v < 256 ^ num_bytes v
unfolding num_bytes leading_zeros
num_bytes_enough v h =
    let digits = bit_length 64 v in
    rw (pow_256 (8 - (64 - digits) / 8)) (
      le_trans (lt-pow-bit_length 64 v h)
        (pow-le-pow_right {n = 2} (omega arith) (omega (arith, bit_length-le 64 v))))

-- The last byte written is not zero.
pub num_bytes_needed : (v n : ℕ) → num_bytes v ≡ suc n → 256 ^ n ≤ v
unfolding num_bytes leading_zeros bit_length
num_bytes_needed zero n e = absurd (omega arith)
num_bytes_needed (suc m) n e =
    let v : ℕ = suc m in
    let top : 2 ^ suc (8 * n) ≤ 2 ^ bit_length 64 v =
      pow-le-pow_right {n = 2} (omega arith) (omega (arith, bit_length-le 64 v)) in
    rw (pow_256 n)
      (omega (arith, pow-suc 2 (8 * n), le_trans top (pow-bit_length-le 64 v (omega arith))))

pub num_bytes-le : (v : ℕ) → num_bytes v ≤ 8
unfolding num_bytes
num_bytes-le v = omega arith
