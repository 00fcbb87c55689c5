-- ===== src/Mask/Bits.antt =====
-- What bit_count accepts (src/ip-util.c).
use native.Mathlib.Nat.{two-pow-succ, pow-le-pow_right}
use ocserv.Prelude.{
  ℕ, zero, suc, ◌+◌, ◌/◌, ◌%◌, ◌^◌, ◌≤◌, ◌≡◌, ◌∙◌, ap, true, false, some, ◌==◌, arith,
}
use ocserv.Mask.{count_bits, bit_count}

ones_back : (n m i c : ℕ) → m ≤ n → i + 1 ≡ 2 ^ m → count_bits n i true c ≡ some (c + m)
unfolding count_bits
ones_back zero zero i c fits shape = ground arith
ones_back zero (suc m) i c fits shape = absurd (omega (arith, fits))
ones_back (suc n) zero i c fits shape = let none_left : i ≡ 0 = omega (arith, shape) in ground arith
ones_back (suc n) (suc m) i c fits shape =
    let odd : i % 2 ≡ 1 = omega (arith, shape, two-pow-succ m) in
    let half : i / 2 + 1 ≡ 2 ^ m = omega (arith, shape, two-pow-succ m) in
    let rest = ones_back n m (i / 2) (c + 1) (omega (arith, fits)) half in
    let sum : c + 1 + m ≡ c + suc m = omega arith in ground (arith, rest, sum)

block_back :
    (n m k i c : ℕ)
    → suc m + k ≤ n
    → i + 2 ^ k ≡ 2 ^ (suc m + k)
    → count_bits n i false c ≡ some (c + suc m)
unfolding count_bits
block_back zero m k i c fits shape = absurd (omega (arith, fits))
block_back (suc n) m zero i c fits shape =
    let flat : suc m + 0 ≡ suc m = omega arith in
    let top : i + 2 ^ 0 ≡ 2 ^ suc m = rw flat at shape in
    let odd : i % 2 ≡ 1 = omega (arith, top, two-pow-succ m) in
    let half : i / 2 + 1 ≡ 2 ^ m = omega (arith, top, two-pow-succ m) in
    let rest = ones_back n m (i / 2) (c + 1) (omega (arith, fits)) half in
    let sum : c + 1 + m ≡ c + suc m = omega arith in ground (arith, rest, sum)
block_back (suc n) m (suc k) i c fits shape =
    let flat : suc m + suc k ≡ suc (suc m + k) = omega arith in
    let top : i + 2 ^ suc k ≡ 2 ^ suc (suc m + k) = rw flat at shape in
    let even : i % 2 ≡ 0 = omega (arith, top, two-pow-succ k, two-pow-succ (suc m + k)) in
    let half : i / 2 + 2 ^ k ≡ 2 ^ (suc m + k) =
      omega (arith, top, two-pow-succ k, two-pow-succ (suc m + k)) in
    let grows : 2 ^ suc k ≤ 2 ^ (suc m + k) =
      pow-le-pow_right (omega arith) {i = suc k} {j = suc m + k} (omega arith) in
    let some_bit : 2 ^ 0 ≤ 2 ^ k = pow-le-pow_right (omega arith) {i = 0} {j = k} (omega arith) in
    let more : (i == 0) ≡ false = ground (arith, half, grows, some_bit, two-pow-succ k) in
    ground (arith, block_back n m k (i / 2) c (omega (arith, fits)) half)

-- bit_count accepts every block of d ones, 1 at least, at whatever place k of the 32 bits, and
-- counts d: that the block starts at the highest bit is not asked for.
pub bit_count_any_place :
    (i d k : ℕ) → 1 ≤ d → d + k ≤ 32 → i + 2 ^ k ≡ 2 ^ (d + k) → bit_count i ≡ some d
unfolding bit_count
bit_count_any_place i zero k some_bit fits shape = absurd (omega (arith, some_bit))
bit_count_any_place i (suc m) k some_bit fits shape =
    let sum : 0 + suc m ≡ suc m = omega arith in block_back 32 m k i 0 fits shape ∙ ap some sum
