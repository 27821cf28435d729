-- ===== src/Base/Bits.antt =====
-- One binary digit of a number, as `&` with a power of two picks it out.
use Prim.Native.Nat.{
  ℕ, zero, suc, ◌+◌, ◌*◌, ◌/◌, ◌%◌, ◌^◌, ◌≤◌, min, bit_and, digits, bit_and-bitwise,
}
use mathlib.Core.Path.{◌≡◌, refl, ap, ◌∙◌, sym}
use native.Mathlib.Nat.{two-pow-succ, div-div-eq-div-mul, pow-succ', zero-div}
use native.Mathlib.Omega.{arith}

abbrev and_with : ℕ → ℕ → ℕ → ℕ
and_with n a b = digits (λ b. zero) min n a b

and_with_zero : (n a : ℕ) → and_with n a 0 ≡ 0
and_with_zero zero a = refl
and_with_zero (suc n) zero = refl
and_with_zero (suc n) (suc a) = omega (arith, and_with_zero n (suc a / 2))

-- `a / 2 ^ suc k` is `a / 2 / 2 ^ k`.
pub div-two-pow-suc : (a k : ℕ) → a / 2 ^ suc k ≡ a / 2 / 2 ^ k
div-two-pow-suc a k = ap (λ (t : ℕ). a / t) (pow-succ' 2 k) ∙ sym (div-div-eq-div-mul a 2 (2 ^ k))

and_with-pow : (n a k : ℕ) → a ≤ n → and_with n a (2 ^ k) ≡ (a / 2 ^ k % 2) * 2 ^ k
and_with-pow zero zero k h = rw (zero-div (2 ^ k)) (omega arith)
and_with-pow zero (suc a) k h = absurd (omega arith)
and_with-pow (suc n) zero k h = rw (zero-div (2 ^ k)) (omega arith)
and_with-pow (suc n) (suc a) zero h = omega (arith, and_with_zero n (suc a / 2))
and_with-pow (suc n) (suc a) (suc k) h =
    rw (halved, and_with-pow n (suc a / 2) k (omega arith), div-two-pow-suc (suc a) k)
      (omega (arith, two-pow-succ k, ap (λ (t : ℕ). (suc a / 2 / 2 ^ k % 2) * t) (two-pow-succ k)))
  where
    halved : 2 ^ suc k / 2 ≡ 2 ^ k
    halved = omega (arith, two-pow-succ k)

-- `a & (1 << k)`
pub bit_and-pow : (a k : ℕ) → bit_and a (2 ^ k) ≡ (a / 2 ^ k % 2) * 2 ^ k
bit_and-pow a k = bit_and-bitwise a (2 ^ k) ∙ and_with-pow a a k (omega arith)

pub bit_and_zero : (b : ℕ) → bit_and 0 b ≡ 0
bit_and_zero b = bit_and-bitwise 0 b

pub two-pow-add : (d z : ℕ) → 2 ^ (d + z) ≡ 2 ^ d * 2 ^ z
two-pow-add zero z = ap (λ (t : ℕ). 2 ^ t) zeroed ∙ omega arith
  where
    zeroed : zero + z ≡ z
    zeroed = omega arith
two-pow-add (suc d) z =
    ap (λ (t : ℕ). 2 ^ t) moved
    ∙ rw (two-pow-succ (d + z), two-pow-succ d, two-pow-add d z) (omega arith)
  where
    moved : suc d + z ≡ suc (d + z)
    moved = omega arith
