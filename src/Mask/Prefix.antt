-- ===== src/Mask/Prefix.antt =====
-- Masks that are made from prefix lengths (src/ip-util.c).
use native.Mathlib.Nat.{pow-le-pow_right}
use ocserv.Prelude.{ℕ, ◌+◌, ◌-◌, ◌*◌, ◌%◌, ◌^◌, ◌≤◌, ◌≡◌, some, arith}
use ocserv.Mask.{bit_count, prefix_to_mask}
use ocserv.Mask.Bits.{bit_count_any_place}

pow_pos : (k : ℕ) → 1 ≤ 2 ^ k
pow_pos k =
    let least : 2 ^ 0 ≤ 2 ^ k = pow-le-pow_right (omega arith) {i = 0} {j = k} (omega arith) in
    omega (arith, least)

pow_bound : (k n : ℕ) → k ≤ n → 2 ^ k ≤ 2 ^ n
pow_bound k n h = pow-le-pow_right (omega arith) {i = k} {j = n} h

-- A high block of ones: what is shifted out of the word is lost.
shifted : (q : ℕ) → 1 ≤ q → q ≤ 2 ^ 31 → (2 ^ 32 - 1) * q % 2 ^ 32 + q ≡ 2 ^ 32
shifted q some_bit small = omega (arith, some_bit, small)

-- The mask that ipv4_prefix_to_strmask writes for a prefix is counted back by mask2prefix.
pub bit_count-prefix_to_mask :
    (prefix mask : ℕ) → prefix_to_mask prefix ≡ some mask → bit_count mask ≡ some prefix
unfolding prefix_to_mask
bit_count-prefix_to_mask prefix mask h =
    let least : 1 ≤ prefix = ground arith in
    let most : prefix ≤ 32 = ground arith in
    let k = 32 - prefix in
    let made : (2 ^ 32 - 1) * 2 ^ k % 2 ^ 32 ≡ mask = ground arith in
    let high = shifted (2 ^ k) (pow_pos k) (pow_bound k 31 (omega (arith, least))) in
    let whole : prefix + k ≡ 32 = omega (arith, most) in
    bit_count_any_place mask prefix k least (omega (arith, whole)) (rw (whole, ← made) high)
