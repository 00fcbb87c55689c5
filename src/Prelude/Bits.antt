-- ===== src/Prelude/Bits.antt =====
-- Masks on octets: the host part and the network part of an address, byte by byte.
use Prim.Native.Nat.{
  ℕ, zero, suc, ◌+◌, ◌-◌, ◌*◌, ◌/◌, ◌%◌, ◌^◌, ◌≤◌, ◌<◌, min, max, bit_and, bit_or, digits,
  bit_and-bitwise, bit_or-bitwise,
}
use mathlib.Core.Path.{◌≡◌, refl, ◌∙◌, ap}
use native.Mathlib.Nat.{two-pow-succ}
use native.Mathlib.Omega.{arith}

-- The value of the digit recursion does not depend on the rounds, once there are enough of them.
module _ (end : ℕ → ℕ) (op : ℕ → ℕ → ℕ) where
  more_rounds : (p q x y : ℕ) → x ≤ p → x ≤ q → digits end op p x y ≡ digits end op q x y
  more_rounds zero zero x y hp hq = refl
  more_rounds zero (suc q) zero y hp hq = refl
  more_rounds zero (suc q) (suc x) y hp hq = absurd (omega (arith, hp))
  more_rounds (suc p) zero zero y hp hq = refl
  more_rounds (suc p) zero (suc x) y hp hq = absurd (omega (arith, hq))
  more_rounds (suc p) (suc q) zero y hp hq = refl
  more_rounds (suc p) (suc q) (suc x) y hp hq =
      let fewer : suc x / 2 ≤ p = omega (arith, hp) in
      let less : suc x / 2 ≤ q = omega (arith, hq) in
      ap (λ t. t * 2 + op (suc x % 2) (y % 2)) (more_rounds p q (suc x / 2) (y / 2) fewer less)

pub bit_and_low : (x y : ℕ) → bit_and x y ≡ bit_and (x / 2) (y / 2) * 2 + min (x % 2) (y % 2)
bit_and_low zero y = omega (arith, bit_and-bitwise 0 y, bit_and-bitwise 0 (y / 2))
bit_and_low (suc x) y =
    let half =
      more_rounds (λ t. 0) min x (suc x / 2) (suc x / 2) (y / 2) (omega arith) (omega arith) in
    omega (arith, bit_and-bitwise (suc x) y, bit_and-bitwise (suc x / 2) (y / 2), half)

pub bit_or_low : (x y : ℕ) → bit_or x y ≡ bit_or (x / 2) (y / 2) * 2 + max (x % 2) (y % 2)
bit_or_low zero y = omega (arith, bit_or-bitwise 0 y, bit_or-bitwise 0 (y / 2))
bit_or_low (suc x) y =
    let half =
      more_rounds (λ t. t) max x (suc x / 2) (suc x / 2) (y / 2) (omega arith) (omega arith) in
    omega (arith, bit_or-bitwise (suc x) y, bit_or-bitwise (suc x / 2) (y / 2), half)

-- A number whose bits under the mask come from `n`, and the others from `r`.
abbrev pub placed : ℕ → ℕ → ℕ → ℕ → ℕ
placed w r n m = bit_or (bit_and r (2 ^ w - 1 - m)) (bit_and n m)

-- Its part under the mask is that of `n`.
pub placed_and :
    (w r n m : ℕ) → r < 2 ^ w → n < 2 ^ w → m < 2 ^ w → bit_and (placed w r n m) m ≡ bit_and n m
placed_and zero r n m hr hn hm =
    let r0 : r ≡ 0 = omega (arith, hr) in
    let n0 : n ≡ 0 = omega (arith, hn) in let m0 : m ≡ 0 = omega (arith, hm) in rw (r0, n0, m0) refl
placed_and (suc w) r n m hr hn hm =
    let power = two-pow-succ w in
    let inner =
      placed_and w (r / 2) (n / 2) (m / 2) (omega (arith, hr, power)) (omega (arith, hn, power))
        (omega (arith, hm, power)) in
    let u = 2 ^ suc w - 1 - m in
    let half : u / 2 ≡ 2 ^ w - 1 - m / 2 = omega (arith, hm, power) in
    let low : u % 2 + m % 2 ≡ 1 = omega (arith, hm, power) in
    let a = bit_and r u in
    let b = bit_and n m in
    let a_low = bit_and_low r u in
    let b_low = bit_and_low n m in
    let c_low = bit_or_low a b in
    let d_low = bit_and_low (bit_or a b) m in
    let a_half : a / 2 ≡ bit_and (r / 2) (2 ^ w - 1 - m / 2) =
      omega (arith, a_low) ∙ ap (bit_and (r / 2)) half in
    let b_half : b / 2 ≡ bit_and (n / 2) (m / 2) = omega (arith, b_low) in
    let c_half : bit_or a b / 2 ≡ placed w (r / 2) (n / 2) (m / 2) =
      omega (arith, c_low)
      ∙ ap (λ t. bit_or t (b / 2)) a_half
      ∙ ap (bit_or (bit_and (r / 2) (2 ^ w - 1 - m / 2))) b_half in
    let d_half : bit_and (bit_or a b / 2) (m / 2) ≡ bit_and (n / 2) (m / 2) =
      ap (λ t. bit_and t (m / 2)) c_half ∙ inner in
    omega (arith, a_low, b_low, c_low, d_low, d_half, low)

-- A number is what its part under the mask and its part beside the mask make it.
pub placed_unique :
    (w x r n m : ℕ)
    → x < 2 ^ w
    → r < 2 ^ w
    → n < 2 ^ w
    → m < 2 ^ w
    → bit_and x m ≡ bit_and n m
    → bit_or x m ≡ bit_or r m
    → placed w r n m ≡ x
placed_unique zero x r n m hx hr hn hm inside beside =
    let x0 : x ≡ 0 = omega (arith, hx) in
    let r0 : r ≡ 0 = omega (arith, hr) in
    let n0 : n ≡ 0 = omega (arith, hn) in
    let m0 : m ≡ 0 = omega (arith, hm) in rw (x0, r0, n0, m0) refl
placed_unique (suc w) x r n m hx hr hn hm inside beside =
    let power = two-pow-succ w in
    let xm = bit_and_low x m in
    let nm = bit_and_low n m in
    let xo = bit_or_low x m in
    let ro = bit_or_low r m in
    let inner =
      placed_unique w (x / 2) (r / 2) (n / 2) (m / 2) (omega (arith, hx, power))
        (omega (arith, hr, power)) (omega (arith, hn, power)) (omega (arith, hm, power))
        (omega (arith, inside, xm, nm)) (omega (arith, beside, xo, ro)) in
    let u = 2 ^ suc w - 1 - m in
    let half : u / 2 ≡ 2 ^ w - 1 - m / 2 = omega (arith, hm, power) in
    let low : u % 2 + m % 2 ≡ 1 = omega (arith, hm, power) in
    let a = bit_and r u in
    let b = bit_and n m in
    let a_low = bit_and_low r u in
    let c_low = bit_or_low a b in
    let a_half : a / 2 ≡ bit_and (r / 2) (2 ^ w - 1 - m / 2) =
      omega (arith, a_low) ∙ ap (bit_and (r / 2)) half in
    let b_half : b / 2 ≡ bit_and (n / 2) (m / 2) = omega (arith, nm) in
    let c_half : bit_or (a / 2) (b / 2) ≡ x / 2 =
      ap (λ t. bit_or t (b / 2)) a_half
      ∙ ap (bit_or (bit_and (r / 2) (2 ^ w - 1 - m / 2))) b_half
      ∙ inner in
    omega (arith, a_low, nm, c_low, c_half, low, xm, xo, ro, inside, beside)
