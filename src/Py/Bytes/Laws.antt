-- ===== src/Py/Bytes/Laws.antt =====
-- Bytes to numbers and back, and the bounds of the byte count.
use native.Mathlib.Nat.{pow-succ', pow-le-pow_right, lt_of_lt_of_le}
use mathlib.Core.List.{reverse-reverse}
use neon_tests.Prelude.{
  ℕ, zero, suc, ◌*◌, ◌/◌, ◌^◌, ◌≤◌, ◌<◌, ◌≡◌, refl, ap, ◌∙◌, inl, inr, reverse, arith, ◌==◌, lt→ltb,
  length, length-reverse, Bool-cases,
}
use neon_tests.Py.Outcome.{ok}
use neon_tests.Py.Bytes.{
  Bytes, to_little, from_little, to_bytes_little, to_bytes_big, from_bytes_big, bit_length_loop,
  byte_length,
}

pub pow256-suc : (n : ℕ) → 256 ^ suc n ≡ 256 * 256 ^ n
pow256-suc n = pow-succ' 256 n

pow2-suc : (n : ℕ) → 2 ^ suc n ≡ 2 * 2 ^ n
pow2-suc n = pow-succ' 2 n

-- 256 ^ n = 2 ^ (8 * n)
pow256-eq-pow2 : (n : ℕ) → 256 ^ n ≡ 2 ^ (8 * n)
pow256-eq-pow2 zero = refl
pow256-eq-pow2 (suc n) =
    let e : 8 * suc n ≡ suc (suc (suc (suc (suc (suc (suc (suc (8 * n)))))))) = omega arith in
    rw e (
      omega (
        arith,
        pow256-suc n,
        pow256-eq-pow2 n,
        pow2-suc (suc (suc (suc (suc (suc (suc (suc (8 * n)))))))),
        pow2-suc (suc (suc (suc (suc (suc (suc (8 * n))))))),
        pow2-suc (suc (suc (suc (suc (suc (8 * n)))))),
        pow2-suc (suc (suc (suc (suc (8 * n))))),
        pow2-suc (suc (suc (suc (8 * n)))),
        pow2-suc (suc (suc (8 * n))),
        pow2-suc (suc (8 * n)),
        pow2-suc (8 * n),
      ))

pub pow256_mono : (m n : ℕ) → m ≤ n → 256 ^ m ≤ 256 ^ n
pow256_mono m n h = pow-le-pow_right (omega arith) h

pub length-to_little : (n v : ℕ) → length (to_little n v) ≡ n
unfolding to_little
length-to_little zero v = refl
length-to_little (suc n) v = ap suc (length-to_little n (v / 256))

pub from_little-to_little : (n v : ℕ) → v < 256 ^ n → from_little (to_little n v) ≡ v
unfolding to_little from_little
from_little-to_little zero v h = omega arith
from_little-to_little (suc n) v h =
    omega (arith, from_little-to_little n (v / 256) (omega (arith, pow256-suc n)))

pub from_bytes_big-reverse : (n v : ℕ) → v < 256 ^ n → from_bytes_big (reverse (to_little n v)) ≡ v
unfolding from_bytes_big
from_bytes_big-reverse n v h = rw reverse-reverse (from_little-to_little n v h)

pub length-reverse-to_little : (n v : ℕ) → length (reverse (to_little n v)) ≡ n
length-reverse-to_little n v = length-reverse (to_little n v) ∙ length-to_little n v

lt-pow-bit_length_loop : (f v : ℕ) → v ≤ f → v < 2 ^ bit_length_loop f v
unfolding bit_length_loop
lt-pow-bit_length_loop zero v h = omega arith
lt-pow-bit_length_loop (suc f) v h = elim (Bool-cases (v == 0)) [
  | inl z ↦ rw z (ground arith)
  | inr nz ↦ rw nz (
      ground (
        arith,
        pow2-suc (bit_length_loop f (v / 2)),
        lt-pow-bit_length_loop f (v / 2) (ground arith),
      ))
]

bit_length_loop-le : (f v k : ℕ) → v < 2 ^ k → bit_length_loop f v ≤ k
unfolding bit_length_loop
bit_length_loop-le zero v k h = omega arith
bit_length_loop-le (suc f) v zero h = ground arith
bit_length_loop-le (suc f) v (suc k) h =
    ground (arith, bit_length_loop-le f (v / 2) k (omega (arith, pow2-suc k)))

bit_length_loop_pos : (f v : ℕ) → 0 < v → v ≤ f → 0 < bit_length_loop f v
unfolding bit_length_loop
bit_length_loop_pos zero v p h = absurd (omega arith)
bit_length_loop_pos (suc f) v p h = ground arith

-- The byte count suffices.
pub lt-pow-byte_length : (v : ℕ) → v < 256 ^ byte_length v
unfolding byte_length
lt-pow-byte_length v = rw pow256-eq-pow2 (
    lt_of_lt_of_le (lt-pow-bit_length_loop v v (omega arith))
      (pow-le-pow_right (omega arith) (omega arith)))

-- The byte count is the least that does.
pub byte_length-le : (v k : ℕ) → v < 256 ^ k → byte_length v ≤ k
unfolding byte_length
byte_length-le v k h = omega (arith, bit_length_loop-le v v (8 * k) (rw pow256-eq-pow2 at h))

pub byte_length_pos : (v : ℕ) → 0 < v → 0 < byte_length v
unfolding byte_length
byte_length_pos v h = omega (arith, bit_length_loop_pos v v h (omega arith))

pub to_bytes_big-ok : (n v : ℕ) → v < 256 ^ n → to_bytes_big n v ≡ ok (reverse (to_little n v))
unfolding to_bytes_big
to_bytes_big-ok n v h = rw (lt→ltb v (256 ^ n) h)

pub to_bytes_little-ok : (n v : ℕ) → v < 256 ^ n → to_bytes_little n v ≡ ok (to_little n v)
unfolding to_bytes_little
to_bytes_little-ok n v h = rw (lt→ltb v (256 ^ n) h)

-- A successful conversion tells the bytes and the bound.
pub to_bytes_little-eq-ok :
    (n v : ℕ) {bs : Bytes} → to_bytes_little n v ≡ ok bs → (v < 256 ^ n) × (bs ≡ to_little n v)
unfolding to_bytes_little
to_bytes_little-eq-ok n v h = ground arith

pub to_bytes_big-eq-ok :
    (n v : ℕ) {bs : Bytes}
    → to_bytes_big n v ≡ ok bs
    → (v < 256 ^ n) × (bs ≡ reverse (to_little n v))
unfolding to_bytes_big
to_bytes_big-eq-ok n v h = ground arith
